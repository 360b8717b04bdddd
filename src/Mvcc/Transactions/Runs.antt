-- ===== src/Mvcc/Transactions/Runs.antt =====
-- Runs of calls in which two transactions stay open, and what they keep of the entries of the two.
use byte_db.Common.{
  ℕ, ◌≤◌, ◌<◌, ◌≡◌, refl, ◌∙◌, ap, ◌⊎◌, false, Option, none, some, ◌==◌, arith, nat_key, pair_key,
  bytes_key, Option-cases, Bool-cases, inl, inr,
}
use byte_db.Error.{Result, ok, err}
use byte_db.HashMap.{get, remove, contains_key}
use byte_db.Mvcc.Visibility.{TxnId, Timestamp}
use byte_db.Mvcc.Ssi.{SsiState, new_state}
use byte_db.Mvcc.Ssi.Later.{
  Kept, Kept-trans, unchanged, read_active-Kept, read_after_active-Kept, write_active-Kept,
  write_after_active-Kept, scan-Kept, insert-Kept, remove-Kept,
}
use byte_db.Mvcc.Transactions.{
  TransactionManager, IsolationLevel, begin_with_timeout, commit, commit_active, finish_commit,
  leave_ssi, abort, gc_ssi_recent, gc_committed, ssi_read_active, ssi_read_after_active,
  ssi_write_active, ssi_write_after_active, ssi_record_predicate, is_doomed,
}
use byte_db.Mvcc.Transactions.Reach.{
  Step, begins, commits, aborts, reads, reads_on, writes, writes_on, scans, forgets, forgets_recent,
  sets,
}

-- the call does not end `r` or `w`
abbrev pub LeavesOpen : (r w : TxnId) {a b : TransactionManager} → Step a b → Type 0
LeavesOpen r w (commits tm id q) = ((id == r) ≡ false) × ((id == w) ≡ false)
LeavesOpen r w (aborts tm id) = ((id == r) ≡ false) × ((id == w) ≡ false)
LeavesOpen r w _ = Unit

-- a run of calls of any transactions, none of which ends `r` or `w`
pub data Run (r w : TxnId) (a : TransactionManager) : TransactionManager → Type 0 where
  here : Run r w a a
  then_call :
      {b c : TransactionManager} → Run r w a b → (s : Step b c) → LeavesOpen r w s → Run r w a c

-- what the end of the transaction `id` does to the serializable states
record Ends (id : TxnId) (a b : TransactionManager) : Type 0 where
  ids : b.next_txn_id ≡ a.next_txn_id
  states : (b.ssi ≡ a.ssi) ⊎ (b.ssi ≡ remove a.ssi id)

leave_ssi-Ends :
    (tm : TransactionManager) (id : TxnId) (s : Option SsiState) (c : Timestamp)
    → Ends id tm (leave_ssi tm id s c)
unfolding leave_ssi
leave_ssi-Ends tm id none c = record { ids = refl; states = inl refl }
leave_ssi-Ends tm id (some s) c = record { ids = refl; states = inr refl }

finish_commit-Ends :
    (r : Result Timestamp × TransactionManager) (id : TxnId) (s : Option SsiState)
    → Ends id r.1 (finish_commit r id s).1
unfolding finish_commit
finish_commit-Ends (ok c, tm) id s = leave_ssi-Ends tm id s c
finish_commit-Ends (err e, tm) id s = record { ids = refl; states = inl refl }

commit_active-same :
    (tm : TransactionManager) (id : TxnId)
    → ((commit_active tm id).1.next_txn_id ≡ tm.next_txn_id)
      × ((commit_active tm id).1.ssi ≡ tm.ssi)
unfolding commit_active
commit_active-same tm id = elim (Option-cases (get tm.active_txns id)) [
  | inl e ↦ rw (e, commit_active) (refl, refl)
  | inr (txn, e) ↦ rw (e, commit_active) (ground arith)
]

commit-Ends : (tm : TransactionManager) (id : TxnId) → Ends id tm (commit tm id).1
unfolding commit
commit-Ends tm id = elim (Bool-cases (is_doomed (get tm.ssi id))) [
  | inl y ↦ rw (y, commit) (record { ids = refl; states = inr refl })
  | inr n ↦
      let same = commit_active-same tm id in
      let done = finish_commit-Ends (commit_active tm id) id (get tm.ssi id) in
      rw (n, commit)
        (record {
          ids = done.ids ∙ same.0;
          states = elim done.states [
            | inl e ↦ inl (e ∙ same.1)
            | inr e ↦ inr (e ∙ ap (λ m. remove m id) same.1)
          ];
        })
]

abort-Ends : (tm : TransactionManager) (id : TxnId) → Ends id tm (abort tm id).1
unfolding abort gc_ssi_recent
abort-Ends tm id = elim (Option-cases (get tm.active_txns id)) [
  | inl e ↦ rw (e, abort) (record { ids = refl; states = inr refl })
  | inr (txn, e) ↦
      rw (e, abort)
        (elim (Bool-cases (contains_key tm.ssi id)) [
          | inl y ↦ rw y (record { ids = refl; states = inr refl })
          | inr n ↦ rw n (record { ids = refl; states = inr refl })
        ])
]

module _ (j : TxnId) where
  ended-Kept :
      (id : TxnId) (a b : TransactionManager) (o : SsiState)
      → (id == j) ≡ false
      → Ends id a b
      → get a.ssi j ≡ some o
      → Kept o (get b.ssi j)
  ended-Kept id a b o n e g = elim e.states [
    | inl same ↦ rw same (unchanged o _ g)
    | inr less ↦ rw less (remove-Kept a.ssi j o g id n)
  ]

  begin-Kept :
      (tm : TransactionManager) (now : ℕ) (isolation : IsolationLevel) (timeout : Option ℕ)
      (o : SsiState)
      → j < tm.next_txn_id
      → get tm.ssi j ≡ some o
      → Kept o (get (begin_with_timeout tm now isolation timeout).0.ssi j)
  unfolding begin_with_timeout
  begin-Kept tm now IsolationLevel.serializable timeout o l g =
      insert-Kept tm.ssi j o g tm.next_txn_id (new_state tm.next_timestamp) (ground arith)
  begin-Kept tm now IsolationLevel.read_committed timeout o l g = unchanged o _ g
  begin-Kept tm now IsolationLevel.repeatable_read timeout o l g = unchanged o _ g

module _ (r w : TxnId) where
  Step-ids : {a b : TransactionManager} → Step a b → a.next_txn_id ≤ b.next_txn_id
  unfolding begin_with_timeout ssi_read_active ssi_read_after_active ssi_write_active
      ssi_write_after_active ssi_record_predicate gc_committed gc_ssi_recent
  Step-ids (begins tm now isolation timeout p q) = omega arith
  Step-ids (commits tm id q) = omega (arith, (commit-Ends tm id).ids)
  Step-ids (aborts tm id) = omega (arith, (abort-Ends tm id).ids)
  Step-ids (reads tm id rk) = omega arith
  Step-ids (reads_on tm id rk) = omega arith
  Step-ids (writes tm id rk) = omega arith
  Step-ids (writes_on tm id rk) = omega arith
  Step-ids (scans tm id table) = omega arith
  Step-ids (forgets tm oldest) = omega arith
  Step-ids (forgets_recent tm) = omega arith
  Step-ids (sets tm timeout) = omega arith

  Step-Kept :
      {a b : TransactionManager} (s : Step a b) (j : TxnId) (o : SsiState)
      → LeavesOpen r w s
      → (j ≡ r) ⊎ (j ≡ w)
      → j < a.next_txn_id
      → get a.ssi j ≡ some o
      → Kept o (get b.ssi j)
  unfolding ssi_read_active ssi_read_after_active ssi_write_active ssi_write_after_active
      ssi_record_predicate gc_committed gc_ssi_recent
  Step-Kept (begins tm now isolation timeout p q) j o h side l g =
      begin-Kept j tm now isolation timeout o l g
  Step-Kept (commits tm id q) j o h side l g =
      ended-Kept j id tm _ o (ground arith) (commit-Ends tm id) g
  Step-Kept (aborts tm id) j o h side l g =
      ended-Kept j id tm _ o (ground arith) (abort-Ends tm id) g
  Step-Kept (reads tm id rk) j o h side l g = read_active-Kept tm.ssi j o g id rk
  Step-Kept (reads_on tm id rk) j o h side l g =
      read_after_active-Kept tm.ssi j o g tm.ssi_recent id rk
  Step-Kept (writes tm id rk) j o h side l g = write_active-Kept tm.ssi j o g id rk
  Step-Kept (writes_on tm id rk) j o h side l g =
      write_after_active-Kept tm.ssi j o g tm.ssi_recent id rk
  Step-Kept (scans tm id table) j o h side l g = scan-Kept tm.ssi j o g id table
  Step-Kept (forgets tm oldest) j o h side l g = unchanged o _ g
  Step-Kept (forgets_recent tm) j o h side l g = unchanged o _ g
  Step-Kept (sets tm timeout) j o h side l g = unchanged o _ g

  pub Run-ids : {a b : TransactionManager} → Run r w a b → a.next_txn_id ≤ b.next_txn_id
  Run-ids here = omega arith
  Run-ids (then_call run s h) = omega (arith, Run-ids run, Step-ids s)

  pub Run-Kept :
      {a b : TransactionManager} (j : TxnId) (o : SsiState)
      → Run r w a b
      → (j ≡ r) ⊎ (j ≡ w)
      → j < a.next_txn_id
      → get a.ssi j ≡ some o
      → Kept o (get b.ssi j)
  Run-Kept j o here side l g = unchanged o _ g
  Run-Kept j o (then_call run s h) side l g =
      let before = Run-Kept j o run side l g in
      Kept-trans o _ _ before
        (Step-Kept s j before.state h side (omega (arith, l, Run-ids run)) before.at)
