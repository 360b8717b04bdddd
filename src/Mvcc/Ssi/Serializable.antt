-- ===== src/Mvcc/Ssi/Serializable.antt =====
-- One call of the conflict tracking: it is on record, it finds the other side of a dependency, and it
-- leaves its own transaction no pivot.
use byte_db.Common.{
  ap, ◌||◌, ==_refl, ◌≡◌, refl, ◌∙◌, true, false, some, ◌==◌, arith, nat_key, pair_key, bytes_key,
  Bytes, Option-cases, inl, inr,
}
use byte_db.HashMap.{HashMap, get, values}
use byte_db.HashMap.Laws.{get-insert}
use byte_db.Mvcc.Visibility.{TxnId}
use byte_db.Mvcc.Ssi.{
  read_active, write_active, RwKey, SsiState, CommittedSsi, has, add, is_pivot, read_against,
  write_against, for_others, read_recent, write_recent, record_read, record_write, record_predicate,
}
use byte_db.Mvcc.Ssi.Flags.{
  read_against-flags, write_against-flags, write_against-untouched, has-add, read_against-IsRound,
  write_against-IsRound, for_others-Grows, for_others-no_pivot, for_others-Met,
  read_recent-no_pivot, write_recent-no_pivot,
}
use byte_db.Mvcc.Ssi.Entries.{
  SsiMap, called-own, called-other, record_read-some, record_write-some, read_active-some,
  write_active-none, write_active-some,
}

-- the entries of the two sides of a dependency, flagged: `r` read what `w` wrote
pub record IsFlagged (r w : TxnId) (ssi : SsiMap) : Type 0 where
  pub reader : SsiState
  pub writer : SsiState
  pub reader_at : get ssi r ≡ some reader
  pub writer_at : get ssi w ≡ some writer
  pub out_flag : reader.out_conflict ≡ true
  pub in_flag : writer.in_conflict ≡ true

module _ (ssi : SsiMap) (r w : TxnId) (rk : RwKey) where
  -- the writer's call finds the read, or the scan
  pub write_flags :
      (sw sr : SsiState)
      → (w == r) ≡ false
      → get ssi w ≡ some sw
      → get ssi r ≡ some sr
      → (has sr.reads rk || has sr.scanned rk.0) ≡ true
      → IsFlagged r w (write_active ssi w rk)
  write_flags sw sr n gw gr read =
      let round = write_against rk in
      let ir = write_against-IsRound rk in
      let me : SsiState = record sw { writes = add sw.writes rk } in
      let met = for_others-Met round ir w me ssi r sr (ground arith) gr in
      let flags = write_against-flags rk met.before sr read in
      rw (write_active-some ssi w rk sw gw) (record {
        reader = (round met.before sr).1;
        writer = (for_others round w me ssi).0;
        reader_at = called-other round ir w me (λ x. x) ssi r n ∙ met.left;
        writer_at = called-own round ir w me (λ x. x) ssi;
        out_flag = flags.1;
        in_flag = met.kept.ins flags.0;
      })

  -- the reader's call finds the write
  pub read_flags :
      (sw sr : SsiState)
      → (r == w) ≡ false
      → get ssi w ≡ some sw
      → get ssi r ≡ some sr
      → has sw.writes rk ≡ true
      → IsFlagged r w (read_active ssi r rk)
  read_flags sw sr n gw gr written =
      let round = read_against rk in
      let ir = read_against-IsRound rk in
      let me : SsiState = record sr { reads = add sr.reads rk } in
      let met = for_others-Met round ir r me ssi w sw (ground arith) gw in
      let flags = read_against-flags rk met.before sw written in
      rw (read_active-some ssi r rk sr gr) (record {
        reader = (for_others round r me ssi).0;
        writer = (round met.before sw).1;
        reader_at = called-own round ir r me (λ x. x) ssi;
        writer_at = called-other round ir r me (λ x. x) ssi w n ∙ met.left;
        out_flag = met.kept.outs flags.0;
        in_flag = flags.1;
      })

module _ (ssi : SsiMap) (id : TxnId) (rk : RwKey) (s : SsiState) (g : get ssi id ≡ some s) where
  -- the call is on record in the entry
  pub has_read :
      (x : SsiState) × (get (read_active ssi id rk) id ≡ some x) × (has x.reads rk ≡ true)
  has_read =
      let round = read_against rk in
      let ir = read_against-IsRound rk in
      let me : SsiState = record s { reads = add s.reads rk } in
      (
        (for_others round id me ssi).0,
        rw (read_active-some ssi id rk s g) (called-own round ir id me (λ x. x) ssi),
        rw (for_others-Grows round ir id me ssi).reads (has-add s.reads rk),
      )

  pub has_written :
      (x : SsiState) × (get (write_active ssi id rk) id ≡ some x) × (has x.writes rk ≡ true)
  has_written =
      let round = write_against rk in
      let ir = write_against-IsRound rk in
      let me : SsiState = record s { writes = add s.writes rk } in
      (
        (for_others round id me ssi).0,
        rw (write_active-some ssi id rk s g) (called-own round ir id me (λ x. x) ssi),
        rw (for_others-Grows round ir id me ssi).writes (has-add s.writes rk),
      )

  pub has_scanned :
      (table : Bytes)
      → (x : SsiState) × (get (record_predicate ssi id table) id ≡ some x)
        × (has x.scanned table ≡ true)
        × (x.out_conflict ≡ s.out_conflict)
  unfolding record_predicate
  has_scanned table =
      rw (g, record_predicate)
        (
          record s { scanned = add s.scanned table },
          get-insert ssi id _ id ∙ rw (==_refl id) refl,
          has-add s.scanned table,
          refl,
        )

  -- a write in a table that `id` has neither read there nor scanned leaves its entry alone
  pub write_elsewhere :
      (w : TxnId)
      → (w == id) ≡ false
      → has s.reads rk ≡ false
      → has s.scanned rk.0 ≡ false
      → get (write_active ssi w rk) id ≡ some s
  write_elsewhere w n a b = elim (Option-cases (get ssi w)) [
    | inl e ↦ rw (write_active-none ssi w rk e) g
    | inr (sw, e) ↦
        let round = write_against rk in
        let ir = write_against-IsRound rk in
        let me : SsiState = record sw { writes = add sw.writes rk } in
        let met = for_others-Met round ir w me ssi id s (ground arith) g in
        rw (write_active-some ssi w rk sw e) (
          called-other round ir w me (λ x. x) ssi id n
          ∙ met.left
          ∙ ap (λ x. some x) (write_against-untouched rk met.before s a b))
  ]

module _ (ssi : SsiMap) (recent : HashMap TxnId CommittedSsi) (id : TxnId) (rk : RwKey)
    (s : SsiState) where
  -- A call of `ssi_record_read` or `ssi_record_write` leaves the calling transaction's state no
  -- pivot, that is aborted or without one of the two conflict flags, if it was none before.
  pub own_call-no_pivot :
      get ssi id ≡ some s
      → is_pivot s ≡ false
      → ((x : SsiState) × (get (record_read ssi recent id rk) id ≡ some x) × (is_pivot x ≡ false))
        × ((x : SsiState) × (get (record_write ssi recent id rk) id ≡ some x)
            × (is_pivot x ≡ false))
  own_call-no_pivot g p =
      let r = read_against rk in
      let w = write_against rk in
      let me : SsiState = record s { reads = add s.reads rk } in
      let me' : SsiState = record s { writes = add s.writes rk } in
      (
        (
          read_recent rk (for_others r id me ssi).0 (values recent),
          rw (record_read-some ssi recent id rk s g) (
              called-own r (read_against-IsRound rk) id me (λ x. read_recent rk x (values recent))
                ssi),
          read_recent-no_pivot rk _ (values recent)
              (for_others-no_pivot r (read_against-IsRound rk) id me ssi (unfold is_pivot in p)),
        ),
        (
          write_recent rk (for_others w id me' ssi).0 (values recent),
          rw (record_write-some ssi recent id rk s g) (
              called-own w (write_against-IsRound rk) id me'
                (λ x. write_recent rk x (values recent)) ssi),
          write_recent-no_pivot rk _ (values recent)
              (for_others-no_pivot w (write_against-IsRound rk) id me' ssi (unfold is_pivot in p)),
        ),
      )
