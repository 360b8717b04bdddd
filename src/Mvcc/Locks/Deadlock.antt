-- ===== src/Mvcc/Locks/Deadlock.antt =====
-- bytedb-core/src/mvcc/lock_manager.rs, `detect_deadlock`: a depth-first search for a cycle in the
-- graph of who waits for whom. A `HashSet` is a list without repetition.
use byte_db.Common.{
  ℕ, zero, suc, ◌*◌, Bool, true, false, Option, none, some, List, [], ◌∷◌, ◌++◌, ◌==◌,
  if◌then◌else◌, contains, length, nat_key,
}
use byte_db.HashMap.{HashMap, get, insert, entry_or, values}
use byte_db.Mvcc.Visibility.{TxnId}
use byte_db.Mvcc.Locks.Table.{Holder, WaitEntry, LockState, LockTable}

abbrev pub WaitsFor : Type 0
WaitsFor = HashMap TxnId (List TxnId)

-- `HashSet::insert`
abbrev pub set_add : List TxnId → TxnId → List TxnId
set_add xs n = if contains xs n then xs else n ∷ xs

-- the loop over the holders, for one waiter
unfoldable pub blockers : TxnId → List Holder → List TxnId → List TxnId
blockers waiter [] entry = entry
blockers waiter (h ∷ hs) entry =
    blockers waiter hs (if h.txn == waiter then entry else set_add entry h.txn)

-- the loop over the waiters of one lock
unfoldable pub add_waits : List Holder → List WaitEntry → WaitsFor → WaitsFor
unfolding blockers
add_waits holders [] graph = graph
add_waits holders (w ∷ ws) graph =
    let (graph', entry) = entry_or graph w.txn [] in
    add_waits holders ws (insert graph' w.txn (blockers w.txn holders entry))

-- the loop over the locks
unfoldable pub build : List LockState → WaitsFor → WaitsFor
unfolding add_waits
build [] graph = graph
build (s ∷ ss) graph = build ss (add_waits s.holders s.waiters graph)

-- `waits_for.get(&node).cloned().unwrap_or_default()`
unfoldable pub neighbors : WaitsFor → TxnId → List TxnId
neighbors graph node = elim (get graph node) [ none ↦ [] | some ns ↦ ns ]

-- `neighbors.iter().find(|n| !visited.contains(n))`
unfoldable pub unvisited : List TxnId → List TxnId → Option TxnId
unvisited visited [] = none
unvisited visited (n ∷ ns) = if contains visited n then unvisited visited ns else some n

-- The loop on the stack, whose top is the head of the list. `on_path` has the elements of the stack
-- at every round, so the stack stands for it. The result `none` says that the fuel is used up.
unfoldable pub explore : ℕ → WaitsFor → List TxnId → List TxnId → Option Bool
unfolding neighbors unvisited
explore fuel graph [] visited = some false
explore zero graph (node ∷ stack) visited = none
explore (suc fuel) graph (node ∷ stack) visited = elim (unvisited visited (neighbors graph node)) [
  | some next ↦
      if contains (node ∷ stack) next
      then some true
      else explore fuel graph (next ∷ node ∷ stack) visited
  | none ↦ explore fuel graph stack (node ∷ visited)
]

-- every transaction that waits or holds
abbrev pub nodes : WaitsFor → List TxnId
nodes [] = []
nodes ((n, ns) ∷ graph) = n ∷ ns ++ nodes graph

abbrev pub enough_fuel : WaitsFor → ℕ
enough_fuel graph = suc (2 * suc (length (nodes graph)))

abbrev pub is_true : Option Bool → Bool
is_true (some true) = true
is_true (some false) = false
is_true none = false

unfoldable pub detect_deadlock : LockTable → TxnId → Bool
unfolding build explore
detect_deadlock locks starting =
    let graph = build (values locks) [] in
    is_true (explore (enough_fuel graph) graph (starting ∷ []) [])
