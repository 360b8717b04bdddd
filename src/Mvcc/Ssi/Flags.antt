-- ===== src/Mvcc/Ssi/Flags.antt =====
-- Every read-write dependency between two serializable transactions is flagged, in whichever order
-- the read and the write come, and no call leaves its own transaction a pivot.
use mathlib.Core.Option.{some-injective}
use byte_db.Common.{
  ◌≡◌, refl, ◌∙◌, true, false, Option, some, List, [], ◌∷◌, ◌==◌, ◌||◌, arith, nat_key, pair_key,
  bytes_key, Key, Bool-cases, inl, inr,
}
use byte_db.HashMap.{HashMap, get}
use byte_db.Mvcc.Visibility.{TxnId}
use byte_db.Mvcc.Ssi.{
  write_committed_by, read_committed_by, RwKey, SsiState, CommittedSsi, has, add, is_pivot,
  read_against, write_against, for_others, read_recent, write_recent,
}

module _ {A : Type 0} ⦃e : Key A⦄ where
  pub has-add : (xs : List A) (a : A) → has (add xs a) a ≡ true
  unfolding add
  has-add xs a = ground (arith, e.beq_iff a a)

-- what a later state keeps of an earlier one: the sets may grow, the flags are never cleared
pub record Grows (a b : SsiState) : Type 0 where
  pub start : b.start_ts ≡ a.start_ts
  pub reads : b.reads ≡ a.reads
  pub scanned : b.scanned ≡ a.scanned
  pub writes : b.writes ≡ a.writes
  pub ins : a.in_conflict ≡ true → b.in_conflict ≡ true
  pub outs : a.out_conflict ≡ true → b.out_conflict ≡ true
  pub aborts : a.aborted ≡ true → b.aborted ≡ true

pub Grows-refl : (a : SsiState) → Grows a a
Grows-refl a = record {
  start = refl;
  reads = refl;
  scanned = refl;
  writes = refl;
  ins = λ h. h;
  outs = λ h. h;
  aborts = λ h. h;
}

pub Grows-trans : (a b c : SsiState) → Grows a b → Grows b c → Grows a c
Grows-trans a b c g h = record {
  start = h.start ∙ g.start;
  reads = h.reads ∙ g.reads;
  scanned = h.scanned ∙ g.scanned;
  writes = h.writes ∙ g.writes;
  ins = λ x. h.ins (g.ins x);
  outs = λ x. h.outs (g.outs x);
  aborts = λ x. h.aborts (g.aborts x);
}

-- a round of either loop: what it does to both sides
pub record IsRound (round : SsiState → SsiState → SsiState × SsiState) : Type 0 where
  pub mine : (me other : SsiState) → Grows me (round me other).0
  pub theirs : (me other : SsiState) → Grows other (round me other).1
  pub no_pivot : (me other : SsiState) → is_pivot me ≡ false → is_pivot (round me other).0 ≡ false

pub read_against-IsRound : (rk : RwKey) → IsRound (read_against rk)
unfolding read_against
read_against-IsRound rk = record {
  mine = λ me other. ground arith;
  theirs = λ me other. ground arith;
  no_pivot = λ me other. ground arith;
}

pub write_against-IsRound : (rk : RwKey) → IsRound (write_against rk)
unfolding write_against
write_against-IsRound rk = record {
  mine = λ me other. ground arith;
  theirs = λ me other. ground arith;
  no_pivot = λ me other. ground arith;
}

pub write_against-flags :
    (rk : RwKey) (me other : SsiState)
    → (has other.reads rk || has other.scanned rk.0) ≡ true
    → ((write_against rk me other).0.in_conflict ≡ true)
      × ((write_against rk me other).1.out_conflict ≡ true)
unfolding write_against
write_against-flags rk me other h = ground arith

pub write_against-untouched :
    (rk : RwKey) (me other : SsiState)
    → has other.reads rk ≡ false
    → has other.scanned rk.0 ≡ false
    → (write_against rk me other).1 ≡ other
unfolding write_against
write_against-untouched rk me other h k = ground arith

pub read_against-flags :
    (rk : RwKey) (me other : SsiState)
    → has other.writes rk ≡ true
    → ((read_against rk me other).0.out_conflict ≡ true)
      × ((read_against rk me other).1.in_conflict ≡ true)
unfolding read_against
read_against-flags rk me other h = ground arith

module _ (round : SsiState → SsiState → SsiState × SsiState) (h : IsRound round) (id : TxnId) where
  pub for_others-Grows :
      (me : SsiState) (m : HashMap TxnId SsiState) → Grows me (for_others round id me m).0
  unfolding for_others
  for_others-Grows me [] = Grows-refl me
  for_others-Grows me ((oid, other) ∷ m) = elim (Bool-cases (oid == id)) [
    | inl y ↦ rw (y, for_others) (for_others-Grows me m)
    | inr n ↦
        rw (n, for_others)
          (Grows-trans me _ _ (h.mine me other) (for_others-Grows (round me other).0 m))
  ]

  pub for_others-no_pivot :
      (me : SsiState) (m : HashMap TxnId SsiState)
      → is_pivot me ≡ false
      → is_pivot (for_others round id me m).0 ≡ false
  unfolding for_others
  for_others-no_pivot me [] p = p
  for_others-no_pivot me ((oid, other) ∷ m) p = elim (Bool-cases (oid == id)) [
    | inl y ↦ rw (y, for_others) (for_others-no_pivot me m p)
    | inr n ↦ rw (n, for_others) (for_others-no_pivot (round me other).0 m (h.no_pivot me other p))
  ]

  -- the round that the loop made with the entry of `j`
  pub record Met (me final other : SsiState) (found : Option SsiState) : Type 0 where
    pub before : SsiState
    pub reached : Grows me before
    pub left : found ≡ some (round before other).1
    pub kept : Grows (round before other).0 final

  pub for_others-Met :
      (me : SsiState) (m : HashMap TxnId SsiState) (j : TxnId) (other : SsiState)
      → (j == id) ≡ false
      → get m j ≡ some other
      → Met me (for_others round id me m).0 other (get (for_others round id me m).1 j)
  unfolding for_others get
  for_others-Met me [] j other n g = cc
  for_others-Met me ((oid, o) ∷ m) j other n g = elim (Bool-cases (oid == id)) [
    | inl y ↦
        let nj : (oid == j) ≡ false = ground arith in
        rw (y, for_others) (rw (nj, get) (for_others-Met me m j other n (rw (nj, get) at g)))
    | inr n' ↦ elim (Bool-cases (oid == j)) [
      | inl yj ↦
          let same : o ≡ other = some-injective o other (rw (yj, get) at g) in
          rw (n', for_others)
            (rw (yj, get)
              (rw (← same) (record {
                before = me;
                reached = Grows-refl me;
                left = refl;
                kept = for_others-Grows (round me o).0 m;
              })))
      | inr nj ↦
          let rest = for_others-Met (round me o).0 m j other n (rw (nj, get) at g) in
          rw (n', for_others)
            (rw (nj, get)
              (record {
                before = rest.before;
                reached = Grows-trans me _ _ (h.mine me o) rest.reached;
                left = rest.left;
                kept = rest.kept;
              }))
    ]
  ]

pub read_recent-Grows :
    (rk : RwKey) (me : SsiState) (cs : List CommittedSsi) → Grows me (read_recent rk me cs)
unfolding read_recent
read_recent-Grows rk me [] = Grows-refl me
read_recent-Grows rk me (c ∷ cs) =
    Grows-trans me _ _ (ground arith) (read_recent-Grows rk (read_committed_by rk me c) cs)

pub read_recent-no_pivot :
    (rk : RwKey) (me : SsiState) (cs : List CommittedSsi)
    → is_pivot me ≡ false
    → is_pivot (read_recent rk me cs) ≡ false
unfolding read_recent
read_recent-no_pivot rk me [] p = p
read_recent-no_pivot rk me (c ∷ cs) p =
    read_recent-no_pivot rk (read_committed_by rk me c) cs (ground arith)

pub write_recent-Grows :
    (rk : RwKey) (me : SsiState) (cs : List CommittedSsi) → Grows me (write_recent rk me cs)
unfolding write_recent
write_recent-Grows rk me [] = Grows-refl me
write_recent-Grows rk me (c ∷ cs) =
    Grows-trans me _ _ (ground arith) (write_recent-Grows rk (write_committed_by rk me c) cs)

pub write_recent-no_pivot :
    (rk : RwKey) (me : SsiState) (cs : List CommittedSsi)
    → is_pivot me ≡ false
    → is_pivot (write_recent rk me cs) ≡ false
unfolding write_recent
write_recent-no_pivot rk me [] p = p
write_recent-no_pivot rk me (c ∷ cs) p =
    write_recent-no_pivot rk (write_committed_by rk me c) cs (ground arith)
