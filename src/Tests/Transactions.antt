-- ===== src/Tests/Transactions.antt =====
-- Witnesses for the properties of the transaction manager and of the conflict tracking.
use byte_db.Common.{
  ℕ, ◌+◌, ◌^◌, ◌≡◌, ◌<◌, refl, true, false, none, some, [], ◌∷◌, arith, bytes_key, nat_key, not,
}
use byte_db.Error.{ok, err, CoreError}
use byte_db.HashMap.{get, contains_key, insert}
use byte_db.Mvcc.Visibility.{VersionedTuple, Snapshot, is_visible}
use byte_db.Mvcc.Chain.{version, mark_deleted}
use byte_db.Mvcc.Ssi.{SsiState, RwKey, new_state, record_read, record_write, is_pivot}
use byte_db.Mvcc.Ssi.Entries.{SsiMap}
use byte_db.Mvcc.Ssi.Serializable.{IsFlagged, own_call-no_pivot}
use byte_db.Mvcc.Transactions.{
  TransactionManager, Transaction, IsolationLevel, new, begin_with_timeout, started, commit,
  is_active, get_snapshot, abort, ssi_read_active, ssi_write_active,
}
use byte_db.Mvcc.Transactions.Invariant.{IsWell}
use byte_db.Mvcc.Transactions.Reach.{Reach, start, step, begins, reads, aborts, Reach-IsWell}
use byte_db.Mvcc.Transactions.Snapshots.{begin_snapshot_exact}
use byte_db.Mvcc.Transactions.Commit.{commit_outcome}
use byte_db.Mvcc.Transactions.Runs.{Run, here, then_call}
use byte_db.Mvcc.Transactions.Dependencies.{dependency-IsFlagged, marked_never_commits}

-- transactions 1 and 2 have begun
one : TransactionManager
one = (begin_with_timeout new 0 IsolationLevel.serializable none).0

two : TransactionManager
two = (begin_with_timeout one 5 IsolationLevel.repeatable_read (some 30)).0

two-Reach : Reach two
unfolding one two new begin_with_timeout
two-Reach =
    step (step start (begins new 0 IsolationLevel.serializable none (omega arith) (omega arith)))
      (begins one 5 IsolationLevel.repeatable_read (some 30) (omega arith) (omega arith))

Reach-IsWell_example : IsWell two
Reach-IsWell_example = Reach-IsWell two-Reach

abbrev row : VersionedTuple ℕ
row = version 10 0 0

begin_snapshot_exact_example :
    (p : Snapshot) × (get_snapshot
        (begin_with_timeout two 9 IsolationLevel.serializable none).0
        two.next_txn_id
      ≡ ok p)
    × (is_visible (version {D = ℕ} 20 1 1) p.txn_id p.start_ts p.active_txns
        ≡ not (is_active two 1))
    × (is_visible (mark_deleted row 1 1) p.txn_id p.start_ts p.active_txns ≡ is_active two 1)
unfolding one two new begin_with_timeout started is_active contains_key get insert
begin_snapshot_exact_example =
    begin_snapshot_exact two 9 IsolationLevel.serializable none 20 row 1 1 refl refl refl
      (omega arith) (omega arith)

entry : Transaction
unfolding started
entry = started new 0 IsolationLevel.serializable none

commit_outcome_example :
    ((commit two 1).0 ≡ ok two.next_timestamp)
    × (entry.start_ts < two.next_timestamp)
    × (is_active (commit two 1).1 1 ≡ false)
    × (get (commit two 1).1.committed_txns 1 ≡ some two.next_timestamp)
    × (get (commit two 1).1.active_txns 2 ≡ get two.active_txns 2)
    × (get (commit two 1).1.committed_txns 2 ≡ get two.committed_txns 2)
unfolding one two new begin_with_timeout started entry get insert
commit_outcome_example = commit_outcome two 1 entry 2 (Reach-IsWell two-Reach) refl refl refl

-- transaction 1 is marked
marked : TransactionManager
marked = record one { ssi = insert one.ssi 1 (record (new_state 1) { aborted = true }) }

-- transaction 2 begins after that
marked_later : TransactionManager
marked_later = (begin_with_timeout marked 5 IsolationLevel.serializable none).0

marked_later-Run : Run 1 1 marked marked_later
unfolding marked marked_later one new begin_with_timeout
marked_later-Run =
    then_call here (begins marked 5 IsolationLevel.serializable none (omega arith) (omega arith)) tt

marked_never_commits_example :
    ((commit marked_later 1).0 ≡ err CoreError.serialization_conflict)
    × (is_active (commit marked_later 1).1 1 ≡ false)
    × ((commit marked_later 1).1.committed_txns ≡ marked_later.committed_txns)
unfolding marked one new begin_with_timeout get insert
marked_never_commits_example =
    marked_never_commits 1 (record (new_state 1) { aborted = true }) (omega arith) refl refl
      marked_later-Run

abbrev rk : RwKey
rk = (116 ∷ [], 107 ∷ [])

-- two transactions that have done nothing
pair : SsiMap
pair = (1, new_state 1) ∷ (2, new_state 2) ∷ []

-- both have begun; a third transaction begins and reads, and ends, between the calls of the two
both : TransactionManager
both = record new { next_txn_id = 3; next_timestamp = 3; ssi = pair }

abbrev third : TransactionManager → TransactionManager
third tm = (begin_with_timeout tm 9 IsolationLevel.serializable none).0

abbrev visited : TransactionManager → TransactionManager
visited tm = (abort (ssi_read_active (third tm) 3 rk) 3).1

third-Run :
    (tm : TransactionManager)
    → tm.next_txn_id + 1 < 2 ^ 64
    → tm.next_timestamp + 1 < 2 ^ 64
    → Run 1 2 tm (visited tm)
third-Run tm p q =
    then_call
      (then_call (then_call here (begins tm 9 IsolationLevel.serializable none p q) tt)
        (reads (third tm) 3 rk) tt)
      (aborts (ssi_read_active (third tm) 3 rk) 3) (refl, refl)

dependency-IsFlagged_example :
    IsFlagged 1 2 (ssi_write_active (visited (ssi_read_active both 1 rk)) 2 rk).ssi
    × IsFlagged 1 2 (ssi_read_active (visited (ssi_write_active both 2 rk)) 1 rk).ssi
unfolding both new pair get ssi_read_active ssi_write_active
dependency-IsFlagged_example =
    dependency-IsFlagged both 1 2 rk (new_state 1) (new_state 2) refl (omega arith) (omega arith)
      refl refl (third-Run (ssi_read_active both 1 rk) (omega arith) (omega arith)) here
      (third-Run (ssi_write_active both 2 rk) (omega arith) (omega arith)) here

own_call-no_pivot_example :
    ((x : SsiState) × (get (record_read pair [] 1 rk) 1 ≡ some x) × (is_pivot x ≡ false))
    × ((x : SsiState) × (get (record_write pair [] 1 rk) 1 ≡ some x) × (is_pivot x ≡ false))
unfolding pair get is_pivot
own_call-no_pivot_example = own_call-no_pivot pair [] 1 rk (new_state 1) refl refl
