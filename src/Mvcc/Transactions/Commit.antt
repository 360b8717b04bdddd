-- ===== src/Mvcc/Transactions/Commit.antt =====
-- What `commit` does on each of its branches.
use byte_db.Common.{
  ◌<◌, ◌≡◌, refl, ◌∙◌, ap, true, false, Option, none, some, ◌==◌, ==_refl, arith, nat_key, is_some,
}
use byte_db.Error.{CoreError, ok, err}
use byte_db.HashMap.{get, insert, remove}
use byte_db.HashMap.Laws.{Entries-get, get-insert, get-remove, contains_key-eq}
use byte_db.Mvcc.Visibility.{TxnId, Timestamp}
use byte_db.Mvcc.Ssi.{SsiState}
use byte_db.Mvcc.Transactions.{
  Transaction, TransactionManager, next, commit, commit_active, finish_commit, leave_ssi, is_doomed,
  is_active,
}
use byte_db.Mvcc.Transactions.Invariant.{IsWell, IsStarted}

module _ (tm : TransactionManager) (id : TxnId) where
  abbrev after : TransactionManager
  after = (commit tm id).1

  removed_inactive :
      (t : TransactionManager) → t.active_txns ≡ remove tm.active_txns id → is_active t id ≡ false
  unfolding is_active
  removed_inactive t e = rw e (contains_key-eq (remove tm.active_txns id) id ∙ ap is_some gone)
    where
      gone : get (remove tm.active_txns id) id ≡ none
      gone = get-remove tm.active_txns id id ∙ rw (==_refl id) refl

  doomed_run :
      is_doomed (get tm.ssi id) ≡ true
      → commit tm id ≡ (
        err CoreError.serialization_conflict,
        record tm { ssi = remove tm.ssi id; active_txns = remove tm.active_txns id },
      )
  unfolding commit
  doomed_run d = rw (d, commit) refl

  -- what a commit of a transaction that is marked as aborted leaves
  pub doomed_runs :
      is_doomed (get tm.ssi id) ≡ true
      → ((commit tm id).0 ≡ err CoreError.serialization_conflict)
        × (is_active after id ≡ false)
        × (after.committed_txns ≡ tm.committed_txns)
  doomed_runs d =
      let e = ap (λ r. r.1) (doomed_run d) in
      (
        ap (λ r. r.0) (doomed_run d),
        removed_inactive after (ap (λ t. t.active_txns) e),
        ap (λ t. t.committed_txns) e,
      )

  leave_actives :
      (t : TransactionManager) (s : Option SsiState) (c : Timestamp)
      → (leave_ssi t id s c).active_txns ≡ t.active_txns
  unfolding leave_ssi
  leave_actives t none c = refl
  leave_actives t (some s) c = refl

  leave_commits :
      (t : TransactionManager) (s : Option SsiState) (c : Timestamp)
      → (leave_ssi t id s c).committed_txns ≡ t.committed_txns
  unfolding leave_ssi
  leave_commits t none c = refl
  leave_commits t (some s) c = refl

  -- the state between the two halves of a commit that succeeds
  abbrev stamped : TransactionManager
  stamped = record tm {
    next_timestamp = next tm.next_timestamp;
    active_txns = remove tm.active_txns id;
    committed_txns = insert tm.committed_txns id tm.next_timestamp;
  }

  active_runs :
      (txn : Transaction)
      → IsWell tm
      → get tm.active_txns id ≡ some txn
      → commit_active tm id ≡ (ok tm.next_timestamp, stamped)
  unfolding commit_active
  active_runs txn h g =
      rw (g, commit_active)
        (rw ((Entries-get (IsStarted _ _) tm.active_txns id txn h.started g).status) refl)

  commit_runs :
      (txn : Transaction)
      → IsWell tm
      → get tm.active_txns id ≡ some txn
      → is_doomed (get tm.ssi id) ≡ false
      → commit tm id
        ≡ (ok tm.next_timestamp, leave_ssi stamped id (get tm.ssi id) tm.next_timestamp)
  unfolding commit
  commit_runs txn h g d =
      rw (d, commit) (ap (λ r. finish_commit r id (get tm.ssi id)) (active_runs txn h g))

  -- An active transaction that was not marked as aborted commits: `commit` returns the next
  -- timestamp, which is later than its start; it is committed at that time and no longer active;
  -- and any other transaction is active and committed as before. The manager must have the
  -- invariant of reachable ones.
  pub commit_outcome :
      (txn : Transaction) (j : TxnId)
      → IsWell tm
      → get tm.active_txns id ≡ some txn
      → is_doomed (get tm.ssi id) ≡ false
      → (j == id) ≡ false
      → ((commit tm id).0 ≡ ok tm.next_timestamp)
        × (txn.start_ts < tm.next_timestamp)
        × (is_active after id ≡ false)
        × (get after.committed_txns id ≡ some tm.next_timestamp)
        × (get after.active_txns j ≡ get tm.active_txns j)
        × (get after.committed_txns j ≡ get tm.committed_txns j)
  commit_outcome txn j h g d n =
      let nj : (id == j) ≡ false = ground arith in
      let run = commit_runs txn h g d in
      let e = ap (λ r. r.1) run in
      let actives =
        ap (λ t. t.active_txns) e ∙ leave_actives stamped (get tm.ssi id) tm.next_timestamp in
      let commits =
        ap (λ t. t.committed_txns) e ∙ leave_commits stamped (get tm.ssi id) tm.next_timestamp in
      (
        ap (λ r. r.0) run,
        (Entries-get (IsStarted _ _) tm.active_txns id txn h.started g).ts_used,
        removed_inactive after actives,
        ap (λ m. get m id) commits ∙ get-insert tm.committed_txns id _ id ∙ rw (==_refl id) refl,
        ap (λ m. get m j) actives ∙ get-remove tm.active_txns id j ∙ rw nj refl,
        ap (λ m. get m j) commits ∙ get-insert tm.committed_txns id _ j ∙ rw nj refl,
      )
