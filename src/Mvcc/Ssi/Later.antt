-- ===== src/Mvcc/Ssi/Later.antt =====
-- What the calls keep of an entry: what it records of its transaction, and its flags.
use mathlib.Core.Option.{some-injective}
use byte_db.Common.{
  sym, ◌≡◌, refl, ◌∙◌, true, false, Option, some, List, ◌==◌, ==_iff, arith, nat_key, pair_key,
  bytes_key, Bytes, Key, Option-cases, Bool-cases, inl, inr,
}
use byte_db.HashMap.{HashMap, get, insert, remove, values}
use byte_db.HashMap.Laws.{get-insert, get-remove}
use byte_db.Mvcc.Visibility.{TxnId}
use byte_db.Mvcc.Ssi.{
  read_active, read_after_active, write_active, write_after_active, RwKey, SsiState, CommittedSsi,
  has, add, read_against, write_against, for_others, record_predicate,
}
use byte_db.Mvcc.Ssi.Flags.{
  Grows, Grows-refl, Grows-trans, IsRound, read_against-IsRound, write_against-IsRound,
  for_others-Grows, for_others-Met, read_recent-Grows, write_recent-Grows,
}
use byte_db.Mvcc.Ssi.Entries.{
  SsiMap, called, called-own, called-other, read_active-none, read_active-some, write_active-none,
  write_active-some, read_after_active-none, read_after_active-some, write_after_active-none,
  write_after_active-some,
}

-- a later state of a transaction: what it has read and written stays, and so do its flags
pub record Later (a b : SsiState) : Type 0 where
  pub reads : (k : RwKey) → has a.reads k ≡ true → has b.reads k ≡ true
  pub writes : (k : RwKey) → has a.writes k ≡ true → has b.writes k ≡ true
  pub scans : (t : Bytes) → has a.scanned t ≡ true → has b.scanned t ≡ true
  pub ins : a.in_conflict ≡ true → b.in_conflict ≡ true
  pub outs : a.out_conflict ≡ true → b.out_conflict ≡ true
  pub aborts : a.aborted ≡ true → b.aborted ≡ true

Later-refl : (a : SsiState) → Later a a
Later-refl a = record {
  reads = λ k h. h;
  writes = λ k h. h;
  scans = λ t h. h;
  ins = λ h. h;
  outs = λ h. h;
  aborts = λ h. h;
}

Later-trans : (a b c : SsiState) → Later a b → Later b c → Later a c
Later-trans a b c g h = record {
  reads = λ k x. h.reads k (g.reads k x);
  writes = λ k x. h.writes k (g.writes k x);
  scans = λ t x. h.scans t (g.scans t x);
  ins = λ x. h.ins (g.ins x);
  outs = λ x. h.outs (g.outs x);
  aborts = λ x. h.aborts (g.aborts x);
}

Later-Grows : (a b : SsiState) → Grows a b → Later a b
Later-Grows a b g = record {
  reads = λ k h. rw g.reads h;
  writes = λ k h. rw g.writes h;
  scans = λ t h. rw g.scanned h;
  ins = g.ins;
  outs = g.outs;
  aborts = g.aborts;
}

module _ {A : Type 0} ⦃e : Key A⦄ where
  has-add_old : (xs : List A) (a b : A) → has xs b ≡ true → has (add xs a) b ≡ true
  unfolding add
  has-add_old xs a b h = ground arith

-- the entry of `j` after a call, later than before it
pub record Kept (o : SsiState) (found : Option SsiState) : Type 0 where
  pub state : SsiState
  pub at : found ≡ some state
  pub later : Later o state

add_read : (s : SsiState) (rk : RwKey) → Later s (record s { reads = add s.reads rk })
add_read s rk = record {
  reads = λ k h. has-add_old s.reads rk k h;
  writes = λ k h. h;
  scans = λ t h. h;
  ins = λ h. h;
  outs = λ h. h;
  aborts = λ h. h;
}

add_write : (s : SsiState) (rk : RwKey) → Later s (record s { writes = add s.writes rk })
add_write s rk = record {
  reads = λ k h. h;
  writes = λ k h. has-add_old s.writes rk k h;
  scans = λ t h. h;
  ins = λ h. h;
  outs = λ h. h;
  aborts = λ h. h;
}

add_scan : (s : SsiState) (table : Bytes) → Later s (record s { scanned = add s.scanned table })
add_scan s table = record {
  reads = λ k h. h;
  writes = λ k h. h;
  scans = λ t h. has-add_old s.scanned table t h;
  ins = λ h. h;
  outs = λ h. h;
  aborts = λ h. h;
}

pub unchanged : (o : SsiState) (found : Option SsiState) → found ≡ some o → Kept o found
unchanged o found e = record { state = o; at = e; later = Later-refl o }

module _ (round : SsiState → SsiState → SsiState × SsiState) (ir : IsRound round) where
  called-Kept :
      (id : TxnId) (s me : SsiState) (fin : SsiState → SsiState) (ssi : SsiMap) (j : TxnId)
      (o : SsiState)
      → get ssi id ≡ some s
      → get ssi j ≡ some o
      → Later s me
      → ((x : SsiState) → Grows x (fin x))
      → Kept o (get (called round ir id me fin ssi) j)
  called-Kept id s me fin ssi j o gs go later grows = elim (Bool-cases (id == j)) [
    | inl y ↦
        let ij : id ≡ j = (==_iff id j).0 y in
        let so : s ≡ o = some-injective s o (sym gs ∙ rw ij go) in
        rw (← ij) (record {
          state = fin (for_others round id me ssi).0;
          at = called-own round ir id me fin ssi;
          later = rw (← so) (
              Later-trans s me _ later (
                Later-Grows me _ (
                  Grows-trans me _ _ (for_others-Grows round ir id me ssi)
                    (grows (for_others round id me ssi).0))));
        })
    | inr n ↦
        let met = for_others-Met round ir id me ssi j o (ground arith) go in
        record {
          state = (round met.before o).1;
          at = called-other round ir id me fin ssi j n ∙ met.left;
          later = Later-Grows o _ (ir.theirs met.before o);
        }
  ]

module _ (ssi : SsiMap) (j : TxnId) (o : SsiState) (g : get ssi j ≡ some o) where
  replaced-Kept :
      (id : TxnId) (s s' : SsiState)
      → get ssi id ≡ some s
      → Later s s'
      → Kept o (get (insert ssi id s') j)
  replaced-Kept id s s' e later = elim (Bool-cases (id == j)) [
    | inl y ↦
        let ij : id ≡ j = (==_iff id j).0 y in
        let so : s ≡ o = some-injective s o (sym e ∙ rw ij g) in
        record { state = s'; at = get-insert ssi id s' j ∙ rw y refl; later = rw (← so) later }
    | inr n ↦ unchanged o _ (get-insert ssi id s' j ∙ rw n g)
  ]

  pub read_active-Kept : (id : TxnId) (rk : RwKey) → Kept o (get (read_active ssi id rk) j)
  read_active-Kept id rk = elim (Option-cases (get ssi id)) [
    | inl e ↦ rw (read_active-none ssi id rk e) (unchanged o _ g)
    | inr (s, e) ↦ rw (read_active-some ssi id rk s e) (
        called-Kept (read_against rk) (read_against-IsRound rk) id s _ _ ssi j o e g (add_read s rk)
          (λ x. Grows-refl x))
  ]

  pub read_after_active-Kept :
      (recent : HashMap TxnId CommittedSsi) (id : TxnId) (rk : RwKey)
      → Kept o (get (read_after_active ssi recent id rk) j)
  read_after_active-Kept recent id rk = elim (Option-cases (get ssi id)) [
    | inl e ↦ rw (read_after_active-none ssi recent id rk e) (unchanged o _ g)
    | inr (s, e) ↦
        rw (read_after_active-some ssi recent id rk s e)
          (replaced-Kept id s _ e (Later-Grows s _ (read_recent-Grows rk s (values recent))))
  ]

  pub write_active-Kept : (id : TxnId) (rk : RwKey) → Kept o (get (write_active ssi id rk) j)
  write_active-Kept id rk = elim (Option-cases (get ssi id)) [
    | inl e ↦ rw (write_active-none ssi id rk e) (unchanged o _ g)
    | inr (s, e) ↦ rw (write_active-some ssi id rk s e) (
        called-Kept (write_against rk) (write_against-IsRound rk) id s _ _ ssi j o e g
          (add_write s rk) (λ x. Grows-refl x))
  ]

  pub write_after_active-Kept :
      (recent : HashMap TxnId CommittedSsi) (id : TxnId) (rk : RwKey)
      → Kept o (get (write_after_active ssi recent id rk) j)
  write_after_active-Kept recent id rk = elim (Option-cases (get ssi id)) [
    | inl e ↦ rw (write_after_active-none ssi recent id rk e) (unchanged o _ g)
    | inr (s, e) ↦
        rw (write_after_active-some ssi recent id rk s e)
          (replaced-Kept id s _ e (Later-Grows s _ (write_recent-Grows rk s (values recent))))
  ]

  pub scan-Kept : (id : TxnId) (table : Bytes) → Kept o (get (record_predicate ssi id table) j)
  unfolding record_predicate
  scan-Kept id table = elim (Option-cases (get ssi id)) [
    | inl e ↦ rw (e, record_predicate) (unchanged o _ g)
    | inr (s, e) ↦ rw (e, record_predicate) (replaced-Kept id s _ e (add_scan s table))
  ]

  -- an entry that another transaction gets or loses
  pub insert-Kept :
      (id : TxnId) (s : SsiState) → (id == j) ≡ false → Kept o (get (insert ssi id s) j)
  insert-Kept id s n = unchanged o _ (get-insert ssi id s j ∙ rw n g)

  pub remove-Kept : (id : TxnId) → (id == j) ≡ false → Kept o (get (remove ssi id) j)
  remove-Kept id n = unchanged o _ (get-remove ssi id j ∙ rw n g)

pub Kept-trans :
    (o : SsiState) (found found' : Option SsiState) (k : Kept o found)
    → Kept k.state found'
    → Kept o found'
Kept-trans o found found' k k' = record {
  state = k'.state;
  at = k'.at;
  later = Later-trans o k.state k'.state k.later k'.later;
}
