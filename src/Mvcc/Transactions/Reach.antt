-- ===== src/Mvcc/Transactions/Reach.antt =====
-- Commit, abort and the rest keep the invariant, so every reachable manager has it.
use byte_db.Common.{
  ℕ, ◌+◌, ◌^◌, ◌<◌, ◌≡◌, refl, Bool, true, false, Option, none, some, arith, leb, if◌then◌else◌,
  nat_key, Bytes, Option-cases, Bool-cases, inl, inr,
}
use byte_db.Error.{Result, ok, err}
use byte_db.HashMap.{contains_key, HashMap, get, insert, remove}
use byte_db.HashMap.Laws.{
  Entries-insert, Entries-remove, Entries-get, Entries-imp, Entries-retain_values, get-insert,
  get-remove, get-retain_values, insert-IsDistinct, remove-IsDistinct, retain_values-IsDistinct,
}
use byte_db.Mvcc.Visibility.{TxnId, Timestamp}
use byte_db.Mvcc.Ssi.{RwKey, SsiState}
use byte_db.Mvcc.Transactions.{
  set_default_txn_timeout, Transaction, TransactionManager, IsolationLevel, new, next,
  begin_with_timeout, commit, commit_active, finish_commit, leave_ssi, abort, gc_ssi_recent,
  ssi_read_active, ssi_read_after_active, ssi_write_active, ssi_write_after_active,
  ssi_record_predicate, gc_committed, is_doomed,
}
use byte_db.Mvcc.Transactions.Invariant.{
  IsWell, IsStarted, IsRecorded, new-IsWell, begin-IsWell, IsStarted-later, IsRecorded-later,
}

-- the fields that the invariant reads
pub record SameTables (a b : TransactionManager) : Type 0 where
  pub ids : b.next_txn_id ≡ a.next_txn_id
  pub stamps : b.next_timestamp ≡ a.next_timestamp
  pub actives : b.active_txns ≡ a.active_txns
  pub commits : b.committed_txns ≡ a.committed_txns

pub SameTables-IsWell : (a b : TransactionManager) → SameTables a b → IsWell a → IsWell b
SameTables-IsWell a b e h = record {
  distinct = rw e.actives h.distinct;
  started = rw (e.ids, e.stamps, e.actives) h.started;
  recorded = rw (e.ids, e.stamps, e.commits) h.recorded;
  record_distinct = rw e.commits h.record_distinct;
  apart = λ id. rw (e.actives, e.commits) (h.apart id);
}

gc_ssi-SameTables : (tm : TransactionManager) → SameTables tm (gc_ssi_recent tm)
unfolding gc_ssi_recent
gc_ssi-SameTables tm = record { ids = refl; stamps = refl; actives = refl; commits = refl }

-- a transaction leaves the active table
pub remove-IsWell :
    (tm : TransactionManager) (ssi : HashMap TxnId SsiState) (id : TxnId)
    → IsWell tm
    → IsWell (record tm { ssi = ssi; active_txns = remove tm.active_txns id })
remove-IsWell tm ssi id h = record {
  distinct = remove-IsDistinct tm.active_txns id h.distinct;
  started = Entries-remove (IsStarted _ _) tm.active_txns id h.started;
  recorded = h.recorded;
  record_distinct = h.record_distinct;
  apart = λ j. ground (arith, get-remove tm.active_txns id j, h.apart j);
}

-- and is recorded as committed
committed-IsWell :
    (tm : TransactionManager) (id : TxnId) (txn : Transaction)
    → IsWell tm
    → get tm.active_txns id ≡ some txn
    → tm.next_timestamp + 1 < 2 ^ 64
    → IsWell (record tm {
      next_timestamp = next tm.next_timestamp;
      active_txns = remove tm.active_txns id;
      committed_txns = insert tm.committed_txns id tm.next_timestamp;
    })
committed-IsWell tm id txn h e q =
    let n = tm.next_txn_id in
    let ts = tm.next_timestamp in
    record {
      distinct = remove-IsDistinct tm.active_txns id h.distinct;
      started =
          Entries-imp (IsStarted-later n n ts (next ts) (omega arith) (omega arith)) _
            (Entries-remove (IsStarted n ts) tm.active_txns id h.started);
      recorded =
          Entries-insert (IsRecorded n (next ts)) tm.committed_txns id ts
            (record {
              id_used = (Entries-get (IsStarted n ts) tm.active_txns id txn h.started e).id_used;
              ts_used = omega arith;
            })
            (Entries-imp (IsRecorded-later n n ts (next ts) (omega arith) (omega arith))
              tm.committed_txns h.recorded);
      record_distinct = insert-IsDistinct tm.committed_txns id ts h.record_distinct;
      apart = λ j.
          ground (
            arith,
            get-remove tm.active_txns id j,
            get-insert tm.committed_txns id ts j,
            h.apart j,
          );
    }

leave_ssi-IsWell :
    (tm : TransactionManager) (id : TxnId) (s : Option SsiState) (c : Timestamp)
    → IsWell tm
    → IsWell (leave_ssi tm id s c)
unfolding leave_ssi
leave_ssi-IsWell tm id none c h = h
leave_ssi-IsWell tm id (some s) c h =
    SameTables-IsWell tm _ (record { ids = refl; stamps = refl; actives = refl; commits = refl }) h

commit_active-IsWell :
    (tm : TransactionManager) (id : TxnId)
    → IsWell tm
    → tm.next_timestamp + 1 < 2 ^ 64
    → IsWell (commit_active tm id).1
unfolding commit_active
commit_active-IsWell tm id h q = elim (Option-cases (get tm.active_txns id)) [
  | inl e ↦ rw (e, commit_active) h
  | inr (txn, e) ↦
      rw (e, commit_active)
        (rw ((Entries-get (IsStarted _ _) tm.active_txns id txn h.started e).status)
          (committed-IsWell tm id txn h e q))
]

finish_commit-IsWell :
    (r : Result Timestamp × TransactionManager) (id : TxnId) (s : Option SsiState)
    → IsWell r.1
    → IsWell (finish_commit r id s).1
unfolding finish_commit
finish_commit-IsWell (ok c, tm) id s h = leave_ssi-IsWell tm id s c h
finish_commit-IsWell (err e, tm) id s h = h

pub commit-IsWell :
    (tm : TransactionManager) (id : TxnId)
    → IsWell tm
    → tm.next_timestamp + 1 < 2 ^ 64
    → IsWell (commit tm id).1
unfolding commit
commit-IsWell tm id h q = elim (Bool-cases (is_doomed (get tm.ssi id))) [
  | inl y ↦ rw (y, commit) (remove-IsWell tm _ id h)
  | inr n ↦
      rw (n, commit)
        (finish_commit-IsWell (commit_active tm id) id _ (commit_active-IsWell tm id h q))
]

pub abort-IsWell : (tm : TransactionManager) (id : TxnId) → IsWell tm → IsWell (abort tm id).1
unfolding abort
abort-IsWell tm id h = elim (Option-cases (get tm.active_txns id)) [
  | inl e ↦
      rw (e, abort)
        (SameTables-IsWell tm _
          (record { ids = refl; stamps = refl; actives = refl; commits = refl }) h)
  | inr (txn, e) ↦ rw (e, abort) (on_ssi (contains_key tm.ssi id))
]
  where
    left : TransactionManager
    left = record tm { ssi = remove tm.ssi id; active_txns = remove tm.active_txns id }

    on_ssi : (b : Bool) → IsWell (if b then gc_ssi_recent left else left)
    on_ssi true = SameTables-IsWell left _ (gc_ssi-SameTables left) (remove-IsWell tm _ id h)
    on_ssi false = remove-IsWell tm _ id h

pub gc_committed-IsWell :
    (tm : TransactionManager) (oldest : Timestamp) → IsWell tm → IsWell (gc_committed tm oldest).0
unfolding gc_committed
gc_committed-IsWell tm oldest h =
    let keep = λ (ts : Timestamp). leb oldest ts in
    record {
      distinct = h.distinct;
      started = h.started;
      recorded = Entries-retain_values (IsRecorded _ _) keep tm.committed_txns h.recorded;
      record_distinct = retain_values-IsDistinct _ tm.committed_txns h.record_distinct;
      apart = λ id. ground (
        arith,
        h.apart id,
        get-retain_values (λ (ts : Timestamp). if leb oldest ts then some ts else none)
            tm.committed_txns id h.record_distinct,
      );
    }

-- One call of a method that changes the manager; `ssi_record_read` and `ssi_record_write` are two
-- steps each, between which others may come. The counters must not be at their end.
pub data Step : TransactionManager → TransactionManager → Type 0 where
  begins :
      (tm : TransactionManager) (now : ℕ) (isolation : IsolationLevel) (timeout : Option ℕ)
      → tm.next_txn_id + 1 < 2 ^ 64
      → tm.next_timestamp + 1 < 2 ^ 64
      → Step tm (begin_with_timeout tm now isolation timeout).0
  commits :
      (tm : TransactionManager) (id : TxnId)
      → tm.next_timestamp + 1 < 2 ^ 64
      → Step tm (commit tm id).1
  aborts : (tm : TransactionManager) (id : TxnId) → Step tm (abort tm id).1
  reads : (tm : TransactionManager) (id : TxnId) (rk : RwKey) → Step tm (ssi_read_active tm id rk)
  reads_on :
      (tm : TransactionManager) (id : TxnId) (rk : RwKey) → Step tm (ssi_read_after_active tm id rk)
  writes : (tm : TransactionManager) (id : TxnId) (rk : RwKey) → Step tm (ssi_write_active tm id rk)
  writes_on :
      (tm : TransactionManager) (id : TxnId) (rk : RwKey)
      → Step tm (ssi_write_after_active tm id rk)
  scans :
      (tm : TransactionManager) (id : TxnId) (table : Bytes)
      → Step tm (ssi_record_predicate tm id table)
  forgets : (tm : TransactionManager) (oldest : Timestamp) → Step tm (gc_committed tm oldest).0
  forgets_recent : (tm : TransactionManager) → Step tm (gc_ssi_recent tm)
  sets :
      (tm : TransactionManager) (timeout : Option ℕ) → Step tm (set_default_txn_timeout tm timeout)

pub data Reach : TransactionManager → Type 0 where
  start : Reach new
  step : {a b : TransactionManager} → Reach a → Step a b → Reach b

Step-IsWell : {a b : TransactionManager} → Step a b → IsWell a → IsWell b
unfolding ssi_read_active ssi_read_after_active ssi_write_active ssi_write_after_active
    ssi_record_predicate
Step-IsWell (begins tm now isolation timeout p q) h = begin-IsWell tm now isolation timeout h p q
Step-IsWell (commits tm id q) h = commit-IsWell tm id h q
Step-IsWell (aborts tm id) h = abort-IsWell tm id h
Step-IsWell (reads tm id rk) h =
    SameTables-IsWell tm _ (record { ids = refl; stamps = refl; actives = refl; commits = refl }) h
Step-IsWell (reads_on tm id rk) h =
    SameTables-IsWell tm _ (record { ids = refl; stamps = refl; actives = refl; commits = refl }) h
Step-IsWell (writes tm id rk) h =
    SameTables-IsWell tm _ (record { ids = refl; stamps = refl; actives = refl; commits = refl }) h
Step-IsWell (writes_on tm id rk) h =
    SameTables-IsWell tm _ (record { ids = refl; stamps = refl; actives = refl; commits = refl }) h
Step-IsWell (scans tm id table) h =
    SameTables-IsWell tm _ (record { ids = refl; stamps = refl; actives = refl; commits = refl }) h
Step-IsWell (forgets tm oldest) h = gc_committed-IsWell tm oldest h
Step-IsWell (forgets_recent tm) h = SameTables-IsWell tm _ (gc_ssi-SameTables tm) h
Step-IsWell (sets tm timeout) h =
    SameTables-IsWell tm _ (record { ids = refl; stamps = refl; actives = refl; commits = refl }) h

-- Every manager that calls of the methods, one after another, reach from a new one, with the
-- counters below their end, has: each active transaction once, under its own identifier, with the
-- status `Active`, no commit time, a start time before the next timestamp, and only older
-- transactions in its snapshot; each commit recorded once, before the next timestamp; no
-- transaction both active and committed.
pub Reach-IsWell : {tm : TransactionManager} → Reach tm → IsWell tm
Reach-IsWell start = new-IsWell
Reach-IsWell (step r s) = Step-IsWell s (Reach-IsWell r)
