-- ===== src/Mvcc/Ssi/Entries.antt =====
-- The calls on the entry of their own transaction and on the others': the loop and the write-back.
use byte_db.Common.{
  ap, ◌≡◌, refl, ◌∙◌, false, none, some, ◌==◌, ==_refl, nat_key, pair_key, bytes_key,
}
use byte_db.HashMap.{HashMap, get, insert, values}
use byte_db.HashMap.Laws.{get-insert, insert-insert}
use byte_db.Mvcc.Visibility.{TxnId}
use byte_db.Mvcc.Ssi.{
  read_active, read_after_active, write_active, write_after_active, RwKey, SsiState, CommittedSsi,
  add, read_against, write_against, for_others, read_recent, write_recent, record_read,
  record_write,
}
use byte_db.Mvcc.Ssi.Flags.{IsRound, read_against-IsRound, write_against-IsRound}

abbrev pub SsiMap : Type 0
SsiMap = HashMap TxnId SsiState

module _ (round : SsiState → SsiState → SsiState × SsiState) (ir : IsRound round) where
  -- the two loops and the write-back of a call
  abbrev pub called : TxnId → SsiState → (SsiState → SsiState) → SsiMap → SsiMap
  called id me fin ssi = let r = for_others round id me ssi in insert r.1 id (fin r.0)

  pub called-own :
      (id : TxnId) (me : SsiState) (fin : SsiState → SsiState) (ssi : SsiMap)
      → get (called id me fin ssi) id ≡ some (fin (for_others round id me ssi).0)
  called-own id me fin ssi = get-insert _ id _ id ∙ rw (==_refl id) refl

  pub called-other :
      (id : TxnId) (me : SsiState) (fin : SsiState → SsiState) (ssi : SsiMap) (j : TxnId)
      → (id == j) ≡ false
      → get (called id me fin ssi) j ≡ get (for_others round id me ssi).1 j
  called-other id me fin ssi j n = get-insert _ id _ j ∙ rw n refl

module _ (ssi : SsiMap) (id : TxnId) (rk : RwKey) where
  pub read_active-none : get ssi id ≡ none → read_active ssi id rk ≡ ssi
  unfolding read_active
  read_active-none e = rw (e, read_active) refl

  pub read_active-some :
      (s : SsiState)
      → get ssi id ≡ some s
      → read_active ssi id rk
        ≡ called
            (read_against rk)
            (read_against-IsRound rk)
            id
            (record s { reads = add s.reads rk })
            (λ x. x)
            ssi
  unfolding read_active
  read_active-some s e = rw (e, read_active) refl

  pub write_active-none : get ssi id ≡ none → write_active ssi id rk ≡ ssi
  unfolding write_active
  write_active-none e = rw (e, write_active) refl

  pub write_active-some :
      (s : SsiState)
      → get ssi id ≡ some s
      → write_active ssi id rk
        ≡ called
            (write_against rk)
            (write_against-IsRound rk)
            id
            (record s { writes = add s.writes rk })
            (λ x. x)
            ssi
  unfolding write_active
  write_active-some s e = rw (e, write_active) refl

module _ (ssi : SsiMap) (recent : HashMap TxnId CommittedSsi) (id : TxnId) (rk : RwKey) where
  pub read_after_active-none : get ssi id ≡ none → read_after_active ssi recent id rk ≡ ssi
  unfolding read_after_active
  read_after_active-none e = rw (e, read_after_active) refl

  pub read_after_active-some :
      (me : SsiState)
      → get ssi id ≡ some me
      → read_after_active ssi recent id rk ≡ insert ssi id (read_recent rk me (values recent))
  unfolding read_after_active
  read_after_active-some me e = rw (e, read_after_active) refl

  pub write_after_active-none : get ssi id ≡ none → write_after_active ssi recent id rk ≡ ssi
  unfolding write_after_active
  write_after_active-none e = rw (e, write_after_active) refl

  pub write_after_active-some :
      (me : SsiState)
      → get ssi id ≡ some me
      → write_after_active ssi recent id rk ≡ insert ssi id (write_recent rk me (values recent))
  unfolding write_after_active
  write_after_active-some me e = rw (e, write_after_active) refl

module _ (ssi : SsiMap) (recent : HashMap TxnId CommittedSsi) (id : TxnId) (rk : RwKey) where
  pub record_read-some :
      (s : SsiState)
      → get ssi id ≡ some s
      → record_read ssi recent id rk
        ≡ called
            (read_against rk)
            (read_against-IsRound rk)
            id
            (record s { reads = add s.reads rk })
            (λ x. read_recent rk x (values recent))
            ssi
  unfolding record_read
  record_read-some s e =
      let round = read_against rk in
      let ir = read_against-IsRound rk in
      let me : SsiState = record s { reads = add s.reads rk } in
      ap (λ m. read_after_active m recent id rk) (read_active-some ssi id rk s e)
      ∙ read_after_active-some _ recent id rk _ (called-own round ir id me (λ x. x) ssi)
      ∙ insert-insert (for_others round id me ssi).1 id _ _

  pub record_write-some :
      (s : SsiState)
      → get ssi id ≡ some s
      → record_write ssi recent id rk
        ≡ called
            (write_against rk)
            (write_against-IsRound rk)
            id
            (record s { writes = add s.writes rk })
            (λ x. write_recent rk x (values recent))
            ssi
  unfolding record_write
  record_write-some s e =
      let round = write_against rk in
      let ir = write_against-IsRound rk in
      let me : SsiState = record s { writes = add s.writes rk } in
      ap (λ m. write_after_active m recent id rk) (write_active-some ssi id rk s e)
      ∙ write_after_active-some _ recent id rk _ (called-own round ir id me (λ x. x) ssi)
      ∙ insert-insert (for_others round id me ssi).1 id _ _
