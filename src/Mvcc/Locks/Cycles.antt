-- ===== src/Mvcc/Locks/Cycles.antt =====
-- Cycles of the graph that `detect_deadlock` searches, and the state of the search.
use byte_db.Common.{
  ℕ, suc, ◌≤◌, ◌<◌, ◌≡◌, sym, true, false, List, [], ◌∷◌, ◌==◌, ==_iff, ◌⊎◌, inl, inr, contains,
  length, arith, if◌then◌else◌, Bool-cases,
}
use mathlib.Core.Path.{subst}
use byte_db.Mvcc.Visibility.{TxnId}
use byte_db.Mvcc.Locks.Deadlock.{WaitsFor, neighbors}

module _ (Edge : TxnId → TxnId → Type 0) where
  -- one edge or more
  pub data Trail : TxnId → TxnId → Type 0 where
    edge : {a b : TxnId} → Edge a b → Trail a b
    extend : {a b c : TxnId} → Trail a b → Edge b c → Trail a c

  abbrev pub IsReached : TxnId → TxnId → Type 0
  IsReached a b = (a ≡ b) ⊎ Trail a b

  -- a cycle that can be reached
  pub record HasCycle (starting : TxnId) : Type 0 where
    pub node : TxnId
    pub reached : IsReached starting node
    pub cycle : Trail node node

module _ (Edge Edge' : TxnId → TxnId → Type 0) (f : (a b : TxnId) → Edge a b → Edge' a b) where
  Trail-imp : (a b : TxnId) → Trail Edge a b → Trail Edge' a b
  Trail-imp a b (edge e) = edge (f a b e)
  Trail-imp a b (extend {b = m} t e) = extend (Trail-imp a m t) (f m b e)

  IsReached-imp : (a b : TxnId) → IsReached Edge a b → IsReached Edge' a b
  IsReached-imp a b (inl e) = inl e
  IsReached-imp a b (inr t) = inr (Trail-imp a b t)

  pub HasCycle-imp : (starting : TxnId) → HasCycle Edge starting → HasCycle Edge' starting
  HasCycle-imp starting h = record {
    node = h.node;
    reached = IsReached-imp starting h.node h.reached;
    cycle = Trail-imp h.node h.node h.cycle;
  }

module _ (graph : WaitsFor) where
  abbrev pub IsEdge : TxnId → TxnId → Type 0
  IsEdge a b = contains (neighbors graph a) b ≡ true

  -- the stack, top first, is a trail from `starting`
  abbrev pub IsStack : TxnId → List TxnId → Type 0
  IsStack starting [] = Unit
  IsStack starting (x ∷ []) = x ≡ starting
  IsStack starting (x ∷ y ∷ s) = IsEdge y x × IsStack starting (y ∷ s)

  -- every node comes after those that it has an edge to, which are all there
  abbrev pub IsTopological : List TxnId → Type 0
  IsTopological [] = Unit
  IsTopological (v ∷ vs) =
      (contains vs v ≡ false) × ((b : TxnId) → IsEdge v b → contains vs b ≡ true) × IsTopological vs

  extend-IsReached : (a b c : TxnId) → IsReached IsEdge a b → IsEdge b c → IsReached IsEdge a c
  extend-IsReached a b c (inl e) h = inr (edge (rw e h))
  extend-IsReached a b c (inr t) h = inr (extend t h)

  pub top-IsReached :
      (starting x : TxnId) (s : List TxnId) → IsStack starting (x ∷ s) → IsReached IsEdge starting x
  top-IsReached starting x [] h = inl (sym h)
  top-IsReached starting x (y ∷ s) h =
      extend-IsReached starting y x (top-IsReached starting y s h.1) h.0

  -- an element of the stack reaches its top
  below-top :
      (starting x m : TxnId) (s : List TxnId)
      → IsStack starting (x ∷ s)
      → contains (x ∷ s) m ≡ true
      → IsReached IsEdge m x
  below-top starting x m [] h c = inl (ground arith)
  below-top starting x m (y ∷ s) h c = elim (Bool-cases (x == m)) [
    | inl e ↦ inl (sym ((==_iff x m).0 e))
    | inr n ↦ extend-IsReached m y x (below-top starting y m s h.1 (ground arith)) h.0
  ]

  element-IsReached :
      (starting x m : TxnId) (s : List TxnId)
      → IsStack starting (x ∷ s)
      → contains (x ∷ s) m ≡ true
      → IsReached IsEdge starting m
  element-IsReached starting x m [] h c = inl (ground arith)
  element-IsReached starting x m (y ∷ s) h c = elim (Bool-cases (x == m)) [
    | inl e ↦ rw (sym ((==_iff x m).0 e)) (top-IsReached starting x (y ∷ s) h)
    | inr n ↦ element-IsReached starting y m s h.1 (ground arith)
  ]

  close : (m x : TxnId) → IsReached IsEdge m x → IsEdge x m → Trail IsEdge m m
  close m x (inl e) h = edge (subst (λ z. IsEdge z m) (sym e) h)
  close m x (inr t) h = extend t h

  -- an edge from the top back into the stack closes a cycle
  pub back-HasCycle :
      (starting x m : TxnId) (s : List TxnId)
      → IsStack starting (x ∷ s)
      → IsEdge x m
      → contains (x ∷ s) m ≡ true
      → HasCycle IsEdge starting
  back-HasCycle starting x m s h e c = record {
    node = m;
    reached = element-IsReached starting x m s h c;
    cycle = close m x (below-top starting x m s h c) e;
  }

  -- where the node stands in the list, counted from its end
  abbrev rank : List TxnId → TxnId → ℕ
  rank [] n = 0
  rank (v ∷ vs) n = if v == n then suc (length vs) else rank vs n

  rank-length : (vs : List TxnId) (n : TxnId) → rank vs n ≤ length vs
  rank-length [] n = omega arith
  rank-length (v ∷ vs) n = ground (arith, rank-length vs n)

  edge-rank :
      (vs : List TxnId) (a b : TxnId)
      → IsTopological vs
      → contains vs a ≡ true
      → IsEdge a b
      → (contains vs b ≡ true) × (rank vs b < rank vs a)
  edge-rank [] a b t c e = ground arith
  edge-rank (v ∷ vs) a b t c e = elim (Bool-cases (v == a)) [
    | inl y ↦
        let va : v ≡ a = (==_iff v a).0 y in
        let later : contains vs b ≡ true = t.1 b (rw va e) in
        (ground arith, ground (arith, rank-length vs b))
    | inr n ↦ let rest = edge-rank vs a b t.2 (ground arith) e in (ground arith, ground arith)
  ]

  Trail-rank :
      (vs : List TxnId) (a b : TxnId)
      → IsTopological vs
      → contains vs a ≡ true
      → Trail IsEdge a b
      → (contains vs b ≡ true) × (rank vs b < rank vs a)
  Trail-rank vs a b t c (edge e) = edge-rank vs a b t c e
  Trail-rank vs a b t c (extend {b = m} r e) =
      let first = Trail-rank vs a m t c r in
      let last = edge-rank vs m b t first.0 e in (last.0, omega arith)

  IsReached-contains :
      (vs : List TxnId) (a b : TxnId)
      → IsTopological vs
      → contains vs a ≡ true
      → IsReached IsEdge a b
      → contains vs b ≡ true
  IsReached-contains vs a b t c (inl e) = rw (sym e) c
  IsReached-contains vs a b t c (inr r) = (Trail-rank vs a b t c r).0

  -- no cycle is reached from a list that has all that its nodes have edges to before them
  pub topological-no_cycle :
      (vs : List TxnId) (starting : TxnId)
      → IsTopological vs
      → contains vs starting ≡ true
      → ¬ HasCycle IsEdge starting
  topological-no_cycle vs starting t c h = omega (
    arith,
    (Trail-rank vs h.node h.node t (IsReached-contains vs starting h.node t c h.reached) h.cycle).1,
  )
