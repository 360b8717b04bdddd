-- ===== src/Mvcc/Transactions.antt =====
-- bytedb-core/src/mvcc/transaction.rs: the transaction manager. The clock is an argument, `now`;
-- identifiers and timestamps are `u64` counters with their wrap-around written out. The source has a
-- lock for each of the tables. `begin`, `commit`, `abort` and `gc_ssi_recent` take several of them one
-- after another; each is one step here, as if nothing came between, so that what other threads do
-- inside one of these calls is not covered.
pub mod Invariant
pub mod Reach
pub mod Snapshots
pub mod Commit
pub mod Queries
pub mod Runs
pub mod Dependencies
use byte_db.Common.{
  ℕ, ◌+◌, ◌-◌, ◌%◌, ◌^◌, Bool, true, false, Option, none, some, List, [], ◌∷◌, not, leb, ltb, ◌==◌,
  min, if◌then◌else◌, is_empty, Bytes, bytes_key, pair_key, nat_key, length,
}
use byte_db.Error.{CoreError, Result, ok, err}
use byte_db.HashMap.{HashMap, get, contains_key, insert, remove, retain_values, keys, values}
use byte_db.Mvcc.Visibility.{Timestamp, TxnId, Snapshot}
use byte_db.Mvcc.Ssi.{
  SsiState, CommittedSsi, RwKey, new_state, is_dangerous, record_read, record_write, read_active,
  read_after_active, write_active, write_after_active, record_predicate,
}

pub data IsolationLevel : Type 0 where
  read_committed repeatable_read serializable : IsolationLevel

pub data TxnStatus : Type 0 where
  active committed aborted : TxnStatus

pub record Transaction : Type 0 where
  pub id : TxnId
  pub isolation : IsolationLevel
  pub start_ts : Timestamp
  pub commit_ts : Option Timestamp
  pub status : TxnStatus
  pub started_at : ℕ
  pub deadline : Option ℕ
  pub snapshot_active : List TxnId

pub record TransactionManager : Type 0 where
  pub next_txn_id : ℕ
  pub next_timestamp : ℕ
  pub active_txns : HashMap TxnId Transaction
  pub committed_txns : HashMap TxnId Timestamp
  pub default_txn_timeout : Option ℕ
  pub ssi : HashMap TxnId SsiState
  pub ssi_recent : HashMap TxnId CommittedSsi

unfoldable pub new : TransactionManager
new = record {
  next_txn_id = 1;
  next_timestamp = 1;
  active_txns = [];
  committed_txns = [];
  default_txn_timeout = none;
  ssi = [];
  ssi_recent = [];
}

-- `fetch_add(1)` on an `AtomicU64`
abbrev pub next : ℕ → ℕ
next n = (n + 1) % 2 ^ 64

abbrev pub add_timeout : ℕ → Option ℕ → Option ℕ
add_timeout now none = none
add_timeout now (some d) = some (now + d)

-- the entry that `begin` makes
unfoldable pub started : TransactionManager → ℕ → IsolationLevel → Option ℕ → Transaction
started tm now isolation timeout = record {
  id = tm.next_txn_id;
  isolation = isolation;
  start_ts = tm.next_timestamp;
  commit_ts = none;
  status = active;
  started_at = now;
  deadline = add_timeout now timeout;
  snapshot_active = keys tm.active_txns;
}

abbrev pub track :
    IsolationLevel → HashMap TxnId SsiState → TxnId → Timestamp → HashMap TxnId SsiState
track serializable ssi txn_id start_ts = insert ssi txn_id (new_state start_ts)
track read_committed ssi txn_id start_ts = ssi
track repeatable_read ssi txn_id start_ts = ssi

unfoldable pub begin_with_timeout :
    TransactionManager → ℕ → IsolationLevel → Option ℕ → TransactionManager × TxnId
unfolding started
begin_with_timeout tm now isolation timeout = (
  record tm {
    next_txn_id = next tm.next_txn_id;
    next_timestamp = next tm.next_timestamp;
    active_txns = insert tm.active_txns tm.next_txn_id (started tm now isolation timeout);
    ssi = track isolation tm.ssi tm.next_txn_id tm.next_timestamp;
  },
  tm.next_txn_id,
)

unfoldable pub begin : TransactionManager → ℕ → IsolationLevel → TransactionManager × TxnId
unfolding begin_with_timeout
begin tm now isolation = begin_with_timeout tm now isolation tm.default_txn_timeout

abbrev pub set_default_txn_timeout : TransactionManager → Option ℕ → TransactionManager
set_default_txn_timeout tm d = record tm { default_txn_timeout = d }

-- `iter().min().unwrap_or(..)`
abbrev pub min_or : List ℕ → ℕ → ℕ
min_or [] d = d
min_or (x ∷ []) d = x
min_or (x ∷ y ∷ xs) d = min x (min_or (y ∷ xs) d)

abbrev pub ssi_starts : List SsiState → List ℕ
ssi_starts [] = []
ssi_starts (s ∷ ss) = s.start_ts ∷ ssi_starts ss

abbrev pub txn_starts : List Transaction → List ℕ
txn_starts [] = []
txn_starts (t ∷ ts) = t.start_ts ∷ txn_starts ts

abbrev pub oldest_active_serializable_start : TransactionManager → Timestamp
oldest_active_serializable_start tm = min_or (ssi_starts (values tm.ssi)) tm.next_timestamp

unfoldable pub oldest_active_start_ts : TransactionManager → Timestamp
oldest_active_start_ts tm = min_or (txn_starts (values tm.active_txns)) tm.next_timestamp

unfoldable pub gc_ssi_recent : TransactionManager → TransactionManager
gc_ssi_recent tm = record tm {
  ssi_recent =
      retain_values
        (λ c. if leb (oldest_active_serializable_start tm) c.commit_ts then some c else none)
        tm.ssi_recent;
}

-- the block that fixes `commit_ts`; the entry is removed on success
unfoldable pub commit_active : TransactionManager → TxnId → Result Timestamp × TransactionManager
commit_active tm txn_id = elim (get tm.active_txns txn_id) [
  | none ↦ (err (CoreError.transaction_not_found txn_id), tm)
  | some txn ↦ elim txn.status [
    | active ↦ (
      ok tm.next_timestamp,
      record tm {
        next_timestamp = next tm.next_timestamp;
        active_txns = remove tm.active_txns txn_id;
        committed_txns = insert tm.committed_txns txn_id tm.next_timestamp;
      },
    )
    | _ ↦ (err (CoreError.transaction_aborted txn_id), tm)
  ]
]

-- what a committed serializable transaction leaves behind
unfoldable pub leave_ssi :
    TransactionManager → TxnId → Option SsiState → Timestamp → TransactionManager
unfolding gc_ssi_recent
leave_ssi tm txn_id none commit_ts = tm
leave_ssi tm txn_id (some s) commit_ts =
    let summary : CommittedSsi = record {
      commit_ts = commit_ts;
      reads = s.reads;
      scanned = s.scanned;
      writes = s.writes;
    } in
    gc_ssi_recent (record tm {
      ssi = remove tm.ssi txn_id;
      ssi_recent = if is_empty s.writes then tm.ssi_recent else insert tm.ssi_recent txn_id summary;
    })

abbrev pub is_doomed : Option SsiState → Bool
is_doomed none = false
is_doomed (some s) = is_dangerous s

unfoldable pub finish_commit :
    Result Timestamp × TransactionManager
    → TxnId
    → Option SsiState
    → Result Timestamp × TransactionManager
finish_commit (ok ts, tm) txn_id ssi_state = (ok ts, leave_ssi tm txn_id ssi_state ts)
finish_commit (err e, tm) txn_id ssi_state = (err e, tm)

-- the sections under the locks on `ssi`, `active_txns`, `committed_txns` and `ssi_recent`, in one step
unfoldable pub commit : TransactionManager → TxnId → Result Timestamp × TransactionManager
unfolding finish_commit
commit tm txn_id =
    let ssi_state = get tm.ssi txn_id in
    if is_doomed ssi_state
    then (
      err CoreError.serialization_conflict,
      record tm { ssi = remove tm.ssi txn_id; active_txns = remove tm.active_txns txn_id },
    )
    else finish_commit (commit_active tm txn_id) txn_id ssi_state

-- the serializable state is gone even where the transaction is not found
unfoldable pub abort : TransactionManager → TxnId → Result (Unit {0}) × TransactionManager
unfolding gc_ssi_recent
abort tm txn_id =
    let was_ssi = contains_key tm.ssi txn_id in
    let tm' = record tm { ssi = remove tm.ssi txn_id } in
    elim (get tm.active_txns txn_id) [
      | none ↦ (err (CoreError.transaction_not_found txn_id), tm')
      | some txn ↦
          let tm'' = record tm' { active_txns = remove tm.active_txns txn_id } in
          (ok tt, if was_ssi then gc_ssi_recent tm'' else tm'')
    ]

unfoldable pub get_snapshot : TransactionManager → TxnId → Result Snapshot
get_snapshot tm txn_id = elim (get tm.active_txns txn_id) [
  | none ↦ err (CoreError.transaction_not_found txn_id)
  | some txn ↦
      ok (record { txn_id = txn_id; start_ts = txn.start_ts; active_txns = txn.snapshot_active })
]

unfoldable pub check_deadline : TransactionManager → ℕ → TxnId → Result (Unit {0})
check_deadline tm now txn_id = elim (get tm.active_txns txn_id) [
  | none ↦ err (CoreError.transaction_not_found txn_id)
  | some txn ↦ elim txn.deadline [
    | none ↦ ok tt
    | some dl ↦ if leb dl now then err (CoreError.transaction_timeout txn_id) else ok tt
  ]
]

-- the two parts of `ssi_record_read`, and the whole of it where nothing comes between
unfoldable pub ssi_read_active : TransactionManager → TxnId → RwKey → TransactionManager
ssi_read_active tm txn_id rk = record tm { ssi = read_active tm.ssi txn_id rk }

unfoldable pub ssi_read_after_active : TransactionManager → TxnId → RwKey → TransactionManager
ssi_read_after_active tm txn_id rk = record tm {
  ssi = read_after_active tm.ssi tm.ssi_recent txn_id rk;
}

unfoldable pub ssi_record_read : TransactionManager → TxnId → RwKey → TransactionManager
ssi_record_read tm txn_id rk = record tm { ssi = record_read tm.ssi tm.ssi_recent txn_id rk }

-- the two parts of `ssi_record_write`, and the whole of it where nothing comes between
unfoldable pub ssi_write_active : TransactionManager → TxnId → RwKey → TransactionManager
ssi_write_active tm txn_id rk = record tm { ssi = write_active tm.ssi txn_id rk }

unfoldable pub ssi_write_after_active : TransactionManager → TxnId → RwKey → TransactionManager
ssi_write_after_active tm txn_id rk = record tm {
  ssi = write_after_active tm.ssi tm.ssi_recent txn_id rk;
}

unfoldable pub ssi_record_write : TransactionManager → TxnId → RwKey → TransactionManager
ssi_record_write tm txn_id rk = record tm { ssi = record_write tm.ssi tm.ssi_recent txn_id rk }

unfoldable pub ssi_record_predicate : TransactionManager → TxnId → Bytes → TransactionManager
ssi_record_predicate tm txn_id table = record tm { ssi = record_predicate tm.ssi txn_id table }

unfoldable pub gc_committed : TransactionManager → Timestamp → TransactionManager × ℕ
gc_committed tm oldest_active_ts =
    let kept =
      retain_values (λ ts. if leb oldest_active_ts ts then some ts else none) tm.committed_txns in
    (record tm { committed_txns = kept }, length tm.committed_txns - length kept)

unfoldable pub is_active : TransactionManager → TxnId → Bool
is_active tm txn_id = contains_key tm.active_txns txn_id

unfoldable pub is_committed : TransactionManager → TxnId → Bool
is_committed tm txn_id = contains_key tm.committed_txns txn_id

unfoldable pub is_aborted : TransactionManager → TxnId → Bool
unfolding is_active is_committed
is_aborted tm txn_id = if is_active tm txn_id then false else not (is_committed tm txn_id)
