-- ===== src/Mvcc/Locks/Search.antt =====
-- The search of `detect_deadlock` ends within its fuel, and finds a cycle exactly if there is one.
use byte_db.Common.{
  ℕ, zero, suc, ◌+◌, ◌*◌, ◌≤◌, ◌<◌, ◌≡◌, refl, Bool, true, false, none, some, List, [], ◌∷◌, ◌==◌,
  ==_iff, ◌↔◌, inl, inr, contains, contains-append, length, arith, if◌then◌else◌, All, Bool-cases,
  Option-cases,
}
use byte_db.HashMap.{get}
use byte_db.Mvcc.Visibility.{TxnId}
use byte_db.Mvcc.Locks.Deadlock.{
  WaitsFor, neighbors, unvisited, explore, nodes, enough_fuel, is_true,
}
use byte_db.Mvcc.Locks.Cycles.{
  IsEdge, HasCycle, IsStack, IsTopological, back-HasCycle, topological-no_cycle,
}

unvisited-some :
    (visited ns : List TxnId) (n : TxnId)
    → unvisited visited ns ≡ some n
    → (contains visited n ≡ false) × (contains ns n ≡ true)
unfolding unvisited
unvisited-some visited [] n h = ground arith
unvisited-some visited (m ∷ ns) n h = ground (arith, unvisited-some visited ns n)

unvisited-none :
    (visited ns : List TxnId) (n : TxnId)
    → unvisited visited ns ≡ none
    → contains ns n ≡ true
    → contains visited n ≡ true
unfolding unvisited
unvisited-none visited [] n h c = ground arith
unvisited-none visited (m ∷ ns) n h c = ground (arith, unvisited-none visited ns n)

-- the elements of the stack are different, and not visited
abbrev pub IsFresh : List TxnId → List TxnId → Type 0
IsFresh visited [] = Unit
IsFresh visited (x ∷ s) = (contains visited x ≡ false) × (contains s x ≡ false) × IsFresh visited s

IsFresh-visit :
    (x : TxnId) (visited s : List TxnId)
    → contains s x ≡ false
    → IsFresh visited s
    → IsFresh (x ∷ visited) s
IsFresh-visit x visited [] n h = tt
IsFresh-visit x visited (y ∷ s) n h =
    (ground arith, h.1, IsFresh-visit x visited s (ground arith) h.2)

neighbors-nodes :
    (graph : WaitsFor) (a b : TxnId) → IsEdge graph a b → contains (nodes graph) b ≡ true
unfolding neighbors get
neighbors-nodes [] a b e = ground arith
neighbors-nodes ((n, ns) ∷ graph) a b e =
    ground (arith, neighbors-nodes graph a b, contains-append ns (nodes graph) b)

-- what a node of the graph still costs: it may be pushed, and popped
abbrev weight : List TxnId → List TxnId → TxnId → ℕ
weight stack visited n = if contains visited n then 0 else if contains stack n then 1 else 2

abbrev cost : List TxnId → List TxnId → List TxnId → ℕ
cost [] stack visited = 0
cost (n ∷ ns) stack visited = weight stack visited n + cost ns stack visited

cost-bound : (ns stack visited : List TxnId) → cost ns stack visited ≤ 2 * length ns
cost-bound [] stack visited = omega arith
cost-bound (n ∷ ns) stack visited = ground (arith, cost-bound ns stack visited)

module _ (stack visited : List TxnId) (x : TxnId) where
  push-weight : (n : TxnId) → weight (x ∷ stack) visited n ≤ weight stack visited n
  push-weight n = ground arith

  pop-weight : (n : TxnId) → weight stack (x ∷ visited) n ≤ weight (x ∷ stack) visited n
  pop-weight n = ground arith

  push-cost_le : (ns : List TxnId) → cost ns (x ∷ stack) visited ≤ cost ns stack visited
  push-cost_le [] = omega arith
  push-cost_le (n ∷ ns) = omega (arith, push-weight n, push-cost_le ns)

  pop-cost_le : (ns : List TxnId) → cost ns stack (x ∷ visited) ≤ cost ns (x ∷ stack) visited
  pop-cost_le [] = omega arith
  pop-cost_le (n ∷ ns) = omega (arith, pop-weight n, pop-cost_le ns)

  push_own :
      contains visited x ≡ false
      → contains stack x ≡ false
      → weight (x ∷ stack) visited x < weight stack visited x
  push_own v s = ground arith

  pop_own : contains visited x ≡ false → weight stack (x ∷ visited) x < weight (x ∷ stack) visited x
  pop_own v = ground arith

  push-cost :
      (ns : List TxnId)
      → contains ns x ≡ true
      → contains visited x ≡ false
      → contains stack x ≡ false
      → cost ns (x ∷ stack) visited < cost ns stack visited
  push-cost [] c v s = ground arith
  push-cost (n ∷ ns) c v s = elim (Bool-cases (n == x)) [
    | inl y ↦ rw ((==_iff n x).0 y) (omega (arith, push_own v s, push-cost_le ns))
    | inr k ↦ omega (arith, push-weight n, push-cost ns (ground arith) v s)
  ]

  pop-cost :
      (ns : List TxnId)
      → contains ns x ≡ true
      → contains visited x ≡ false
      → cost ns stack (x ∷ visited) < cost ns (x ∷ stack) visited
  pop-cost [] c v = ground arith
  pop-cost (n ∷ ns) c v = elim (Bool-cases (n == x)) [
    | inl y ↦ rw ((==_iff n x).0 y) (omega (arith, pop_own v, pop-cost_le ns))
    | inr k ↦ omega (arith, pop-weight n, pop-cost ns (ground arith) v)
  ]

-- what holds at every round of the search from `starting`
record IsSearch (graph : WaitsFor) (starting : TxnId) (stack visited : List TxnId) : Type 0 where
  trail : IsStack graph starting stack
  fresh : IsFresh visited stack
  topological : IsTopological graph visited
  begun : (stack ≡ []) → contains visited starting ≡ true
  known : All (λ x. contains (starting ∷ nodes graph) x ≡ true) stack

tail-trail :
    (graph : WaitsFor) (starting x : TxnId) (s : List TxnId)
    → IsStack graph starting (x ∷ s)
    → IsStack graph starting s
tail-trail graph starting x [] h = tt
tail-trail graph starting x (y ∷ s) h = h.1

bottom-visited :
    (graph : WaitsFor) (starting x : TxnId) (s visited : List TxnId)
    → IsStack graph starting (x ∷ s)
    → s ≡ []
    → contains (x ∷ visited) starting ≡ true
bottom-visited graph starting x [] visited h e = ground arith
bottom-visited graph starting x (y ∷ s) visited h e = cc

module _ (graph : WaitsFor) (starting : TxnId) where
  push-IsSearch :
      (x next : TxnId) (s visited : List TxnId)
      → IsSearch graph starting (x ∷ s) visited
      → unvisited visited (neighbors graph x) ≡ some next
      → contains (x ∷ s) next ≡ false
      → IsSearch graph starting (next ∷ x ∷ s) visited
  push-IsSearch x next s visited h e n =
      let found = unvisited-some visited (neighbors graph x) next e in
      record {
        trail = (found.1, h.trail);
        fresh = (found.0, n, h.fresh);
        topological = h.topological;
        begun = λ none_left. cc;
        known = (ground (arith, neighbors-nodes graph x next found.1), h.known);
      }

  pop-IsSearch :
      (x : TxnId) (s visited : List TxnId)
      → IsSearch graph starting (x ∷ s) visited
      → unvisited visited (neighbors graph x) ≡ none
      → IsSearch graph starting s (x ∷ visited)
  pop-IsSearch x s visited h e = record {
    trail = tail-trail graph starting x s h.trail;
    fresh = IsFresh-visit x visited s h.fresh.1 h.fresh.2;
    topological =
        (h.fresh.0, λ b edge. unvisited-none visited (neighbors graph x) b e edge, h.topological);
    begun = bottom-visited graph starting x s visited h.trail;
    known = h.known.1;
  }

  abbrev pub IsAnswer : Bool → Type 0
  IsAnswer true = HasCycle (IsEdge graph) starting
  IsAnswer false = ¬ HasCycle (IsEdge graph) starting

  -- the search returns, and what it returns is right
  explore_correct :
      (fuel : ℕ) (stack visited : List TxnId)
      → IsSearch graph starting stack visited
      → cost (starting ∷ nodes graph) stack visited < fuel
      → (r : Bool) × (explore fuel graph stack visited ≡ some r) × IsAnswer r
  unfolding explore
  explore_correct zero stack visited h c = absurd (omega arith)
  explore_correct (suc fuel) [] visited h c =
      (false, refl, topological-no_cycle graph visited starting h.topological (h.begun refl))
  explore_correct (suc fuel) (x ∷ s) visited h c =
      elim (Option-cases (unvisited visited (neighbors graph x))) [
        | inl e ↦
            let rest =
              explore_correct fuel s (x ∷ visited) (pop-IsSearch x s visited h e) (
                omega (arith, pop-cost s visited x (starting ∷ nodes graph) h.known.0 h.fresh.0)) in
            (rest.0, rw (e, explore) rest.1, rest.2)
        | inr (next, e) ↦
            let found = unvisited-some visited (neighbors graph x) next e in
            elim (Bool-cases (contains (x ∷ s) next)) [
              | inl y ↦ (
                true,
                rw (e, explore) (rw y refl),
                back-HasCycle graph starting x next s h.trail found.1 y,
              )
              | inr n ↦
                  let pushed = push-IsSearch x next s visited h e n in
                  let rest = explore_correct fuel (next ∷ x ∷ s) visited pushed (
                    omega (
                      arith,
                      push-cost (x ∷ s) visited next (starting ∷ nodes graph) pushed.known.0 found.0
                          n,
                    )) in
                  (rest.0, rw (e, explore) (rw n rest.1), rest.2)
            ]
      ]

  start-IsSearch : IsSearch graph starting (starting ∷ []) []
  start-IsSearch = record {
    trail = refl;
    fresh = (refl, refl, tt);
    topological = tt;
    begun = λ none_left. cc;
    known = (ground arith, tt);
  }

  pub search_correct :
      (r : Bool) × (explore (enough_fuel graph) graph (starting ∷ []) [] ≡ some r) × IsAnswer r
  search_correct =
      explore_correct (enough_fuel graph) (starting ∷ []) [] start-IsSearch
        (omega (arith, cost-bound (starting ∷ nodes graph) (starting ∷ []) []))

  pub answer_iff :
      (r : Bool) → IsAnswer r → (is_true (some r) ≡ true) ↔ HasCycle (IsEdge graph) starting
  answer_iff true h = (λ e. h, λ c. refl)
  answer_iff false h = (λ e. absurd (ground arith), λ c. absurd (h c))
