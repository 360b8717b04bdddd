-- ===== src/Mvcc/Transactions/Dependencies.antt =====
-- Read-write dependencies between two serializable transactions, while others begin, call and end.
use byte_db.Common.{
  ◌<◌, ◌≡◌, refl, true, false, some, ◌==◌, arith, nat_key, pair_key, bytes_key, inl, inr,
}
use byte_db.Error.{CoreError, err}
use byte_db.HashMap.{get}
use byte_db.Mvcc.Visibility.{TxnId}
use byte_db.Mvcc.Ssi.{RwKey, SsiState}
use byte_db.Mvcc.Ssi.Later.{read_active-Kept, write_active-Kept}
use byte_db.Mvcc.Ssi.Serializable.{IsFlagged, write_flags, read_flags, has_read, has_written}
use byte_db.Mvcc.Transactions.{
  TransactionManager, commit, ssi_read_active, ssi_write_active, is_active,
}
use byte_db.Mvcc.Transactions.Commit.{doomed_runs}
use byte_db.Mvcc.Transactions.Runs.{Run, Run-ids, Run-Kept}

module _ (r w : TxnId) where
  -- the flags stay
  IsFlagged-later :
      {a b : TransactionManager}
      → r < a.next_txn_id
      → w < a.next_txn_id
      → IsFlagged r w a.ssi
      → Run r w a b
      → IsFlagged r w b.ssi
  IsFlagged-later lr lw f run =
      let kr = Run-Kept r w r f.reader run (inl refl) lr f.reader_at in
      let kw = Run-Kept r w w f.writer run (inr refl) lw f.writer_at in
      record {
        reader = kr.state;
        writer = kw.state;
        reader_at = kr.at;
        writer_at = kw.at;
        out_flag = kr.later.outs f.out_flag;
        in_flag = kw.later.ins f.in_flag;
      }

module _ (a : TransactionManager) (r w : TxnId) (rk : RwKey) (sr sw : SsiState)
    (n : (r == w) ≡ false) (lr : r < a.next_txn_id) (lw : w < a.next_txn_id)
    (gr : get a.ssi r ≡ some sr) (gw : get a.ssi w ≡ some sw) where
  write_after :
      {b c : TransactionManager}
      → Run r w (ssi_read_active a r rk) b
      → Run r w (ssi_write_active b w rk) c
      → IsFlagged r w c.ssi
  unfolding ssi_read_active ssi_write_active
  write_after {b} run on =
      let (x, at, read) = has_read a.ssi r rk sr gr in
      let other = read_active-Kept a.ssi w sw gw r rk in
      let kr = Run-Kept r w r x run (inl refl) lr at in
      let kw = Run-Kept r w w other.state run (inr refl) lw other.at in
      let ids = Run-ids r w run in
      IsFlagged-later r w (omega (arith, ids)) (omega (arith, ids))
        (write_flags b.ssi r w rk kw.state kr.state (ground arith) kw.at kr.at
          (rw (kr.later.reads rk read) refl))
        on

  read_after :
      {b c : TransactionManager}
      → Run r w (ssi_write_active a w rk) b
      → Run r w (ssi_read_active b r rk) c
      → IsFlagged r w c.ssi
  unfolding ssi_read_active ssi_write_active
  read_after {b} run on =
      let (x, at, written) = has_written a.ssi w rk sw gw in
      let other = write_active-Kept a.ssi r sr gr w rk in
      let kw = Run-Kept r w w x run (inr refl) lw at in
      let kr = Run-Kept r w r other.state run (inl refl) lr other.at in
      let ids = Run-ids r w run in
      IsFlagged-later r w (omega (arith, ids)) (omega (arith, ids))
        (read_flags b.ssi r w rk kw.state kr.state n kw.at kr.at (kw.later.writes rk written)) on

  -- Two serializable transactions `r` and `w` that have begun read and write the same key, in either
  -- order: the later of the two calls finds the other in its loop over the active transactions, and
  -- then `r` has its outgoing and `w` its incoming conflict flag set, for as long as neither ends.
  -- Between the two calls and after them, any transactions begin, call and end, one call, or one
  -- part of `ssi_record_read` or `ssi_record_write`, after the other; only `r` and `w` do not end,
  -- and the counters stay below their end.
  pub dependency-IsFlagged :
      {b c d e : TransactionManager}
      → Run r w (ssi_read_active a r rk) b
      → Run r w (ssi_write_active b w rk) c
      → Run r w (ssi_write_active a w rk) d
      → Run r w (ssi_read_active d r rk) e
      → IsFlagged r w c.ssi × IsFlagged r w e.ssi
  dependency-IsFlagged read write write' read' = (write_after read write, read_after write' read')

-- A transaction that has begun and whose serializable state is marked as aborted does not commit:
-- whatever calls follow, of it and of others, that do not end it, with the counters below their
-- end, a call of `commit` then returns `SerializationConflict`, after it the transaction is not
-- active, and the table of committed transactions is as before that call.
pub marked_never_commits :
    {a b : TransactionManager} (id : TxnId) (s : SsiState)
    → id < a.next_txn_id
    → get a.ssi id ≡ some s
    → s.aborted ≡ true
    → Run id id a b
    → ((commit b id).0 ≡ err CoreError.serialization_conflict)
      × (is_active (commit b id).1 id ≡ false)
      × ((commit b id).1.committed_txns ≡ b.committed_txns)
marked_never_commits {a} {b} id s l g marked run =
    let k = Run-Kept id id id s run (inl refl) l g in
    doomed_runs b id (rw k.at (k.later.aborts marked))
