-- ===== src/Mvcc/Locks/WaitGraph.antt =====
-- The graph that `detect_deadlock` builds has an edge exactly where a transaction waits for a lock
-- that another one holds; so the answer is that of the lock table itself.
use byte_db.Common.{
  inr, inl, Bool-cases, ◌≡◌, refl, sym, ◌∙◌, ap, Bool, true, List, [], ◌∷◌, ◌==◌, ==_iff, ◌&&◌,
  ◌||◌, not, any, ◌↔◌, contains, arith, if◌then◌else◌, nat_key,
}
use byte_db.HashMap.{get, insert, entry_or, values}
use byte_db.HashMap.Laws.{get-insert-entry_or}
use byte_db.Mvcc.Visibility.{TxnId}
use byte_db.Mvcc.Locks.Table.{Holder, WaitEntry, LockState, LockTable}
use byte_db.Mvcc.Locks.Deadlock.{
  WaitsFor, set_add, blockers, add_waits, build, neighbors, detect_deadlock,
}
use byte_db.Mvcc.Locks.Release.{is_holding, is_queued}
use byte_db.Mvcc.Locks.Cycles.{IsEdge, HasCycle, HasCycle-imp}
use byte_db.Mvcc.Locks.Search.{search_correct, answer_iff}

-- `a` waits for one of the locks, which `b` holds
abbrev pub waits_on : List LockState → TxnId → TxnId → Bool
waits_on states a b =
    any (λ (s : LockState). is_queued s.waiters a && is_holding s.holders b && not (b == a)) states

contains-blockers :
    (w : TxnId) (hs : List Holder) (entry : List TxnId) (b : TxnId)
    → contains (blockers w hs entry) b ≡ (contains entry b || (is_holding hs b && not (b == w)))
unfolding blockers
contains-blockers w [] entry b = ground arith
contains-blockers w (h ∷ hs) entry b =
    contains-blockers w hs (if h.txn == w then entry else set_add entry h.txn) b ∙ ground arith

entry-neighbors : (graph : WaitsFor) (w : TxnId) → (entry_or graph w []).1 ≡ neighbors graph w
unfolding entry_or neighbors
entry-neighbors graph w = ground arith

neighbors-insert :
    (graph : WaitsFor) (w a : TxnId) (ns : List TxnId)
    → neighbors (insert (entry_or graph w []).0 w ns) a ≡ (if w == a then ns else neighbors graph a)
unfolding neighbors
neighbors-insert graph w a ns = ground (arith, get-insert-entry_or graph w [] ns a)

neighbors-add :
    (w : TxnId) (holders : List Holder) (graph : WaitsFor) (a b : TxnId)
    → let (graph', entry) = entry_or graph w [] in
      contains (neighbors (insert graph' w (blockers w holders entry)) a) b
      ≡ (contains (neighbors graph a) b || ((w == a) && is_holding holders b && not (b == a)))
neighbors-add w holders graph a b =
    let entry = (entry_or graph w []).1 in
    ap (λ ns. contains ns b) (neighbors-insert graph w a (blockers w holders entry))
    ∙ added (blockers w holders entry) (
        contains-blockers w holders entry b
        ∙ ap (λ ns. contains ns b || (is_holding holders b && not (b == w)))
            (entry-neighbors graph w))
  where
    added :
        (es : List TxnId)
        → contains es b ≡ (contains (neighbors graph w) b || (is_holding holders b && not (b == w)))
        → contains (if w == a then es else neighbors graph a) b
          ≡ (contains (neighbors graph a) b || ((w == a) && is_holding holders b && not (b == a)))
    added es h = elim (Bool-cases (w == a)) [
      | inl y ↦ rw y (rw (sym ((==_iff w a).0 y)) h)
      | inr n ↦ rw n (ground arith)
    ]

contains-add_waits :
    (holders : List Holder) (ws : List WaitEntry) (graph : WaitsFor) (a b : TxnId)
    → contains (neighbors (add_waits holders ws graph) a) b
      ≡ (contains (neighbors graph a) b || (is_queued ws a && is_holding holders b && not (b == a)))
unfolding add_waits
contains-add_waits holders [] graph a b = ground arith
contains-add_waits holders (w ∷ ws) graph a b =
    contains-add_waits holders ws _ a b ∙ ground (arith, neighbors-add w.txn holders graph a b)

contains-build :
    (states : List LockState) (graph : WaitsFor) (a b : TxnId)
    → contains (neighbors (build states graph) a) b
      ≡ (contains (neighbors graph a) b || waits_on states a b)
unfolding build
contains-build [] graph a b = ground arith
contains-build (s ∷ states) graph a b =
    contains-build states _ a b ∙ ground (arith, contains-add_waits s.holders s.waiters graph a b)

module _ (locks : LockTable) where
  -- the relation that the search is about, read off the lock table
  abbrev pub IsWaiting : TxnId → TxnId → Type 0
  IsWaiting a b = waits_on (values locks) a b ≡ true

  edge-build :
      (a b : TxnId)
      → contains (neighbors (build (values locks) []) a) b ≡ waits_on (values locks) a b
  edge-build a b = contains-build (values locks) [] a b ∙ (unfold neighbors get in refl)

  -- `detect_deadlock` answers true exactly if the waits lead from the transaction into a cycle: a
  -- chain of transactions, each waiting for a lock that the next one holds, which starts at it and
  -- comes to one that waits, over others, for itself.
  pub detect_deadlock_iff :
      (starting : TxnId) → (detect_deadlock locks starting ≡ true) ↔ HasCycle IsWaiting starting
  unfolding detect_deadlock
  detect_deadlock_iff starting =
      let graph = build (values locks) [] in
      let (r, run, answer) = search_correct graph starting in
      let iff = answer_iff graph starting r answer in
      let to = HasCycle-imp (IsEdge graph) IsWaiting (λ a b e. sym (edge-build a b) ∙ e) starting in
      let from = HasCycle-imp IsWaiting (IsEdge graph) (λ a b e. edge-build a b ∙ e) starting in
      rw run (λ e. to (iff.0 e), λ c. iff.1 (from c))
