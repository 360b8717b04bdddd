-- ===== src/Mvcc/Locks/Outcome.antt =====
-- How a round of `acquire_with_timeout` ends, on every branch.
use byte_db.Common.{
  sym, Bytes, ℕ, ◌≡◌, ◌≤◌, ◌<◌, ◌-◌, refl, ◌∙◌, Bool, true, false, Option, none, some, List, [],
  ◌∷◌, ◌++◌, ◌==◌, ◌&&◌, ◌||◌, not, any, retain, leb, arith, Bool-cases, Option-cases, inl, inr,
  bytes_key, pair_key,
}
use byte_db.HashMap.{get, insert, entry_or}
use byte_db.HashMap.Laws.{get-insert}
use byte_db.Mvcc.Visibility.{TxnId}
use byte_db.Mvcc.Locks.{
  LockManager, Round, acquire_round, wait_round, remove_waiter_locked, enqueue, is_waiting,
}
use byte_db.Mvcc.Locks.Table.{
  LockKey, LockMode, LockState, LockTable, Holder, WaitEntry, add_holder, is_compatible, is_shared,
  purge,
}
use byte_db.Mvcc.Locks.Deadlock.{detect_deadlock}

-- the transaction holds the lock, in exclusive mode if that was asked for
abbrev pub covers : List Holder → TxnId → LockMode → Bool
covers holders txn mode =
    any (λ (h : Holder). h.txn == txn && (is_shared mode || not (is_shared h.mode))) holders

covers-add_holder :
    (hs : List Holder) (txn : TxnId) (mode : LockMode)
    → covers (add_holder hs txn mode) txn mode ≡ true
unfolding add_holder
covers-add_holder [] txn LockMode.shared = ground arith
covers-add_holder [] txn LockMode.exclusive = ground arith
covers-add_holder (h ∷ hs) txn LockMode.shared =
    ground (arith, covers-add_holder hs txn LockMode.shared)
covers-add_holder (h ∷ hs) txn LockMode.exclusive =
    ground (arith, covers-add_holder hs txn LockMode.exclusive)

waiting-push :
    (ws : List WaitEntry) (w : WaitEntry)
    → any (λ (x : WaitEntry). x.txn == w.txn) (ws ++ w ∷ []) ≡ true
waiting-push [] w = ground arith
waiting-push (x ∷ ws) w = ground (arith, waiting-push ws w)

waiting-purge :
    (ws : List WaitEntry) (txn : TxnId)
    → any (λ (w : WaitEntry). w.txn == txn) (retain (λ (w : WaitEntry). not (w.txn == txn)) ws)
      ≡ false
waiting-purge [] txn = refl
waiting-purge (w ∷ ws) txn = ground (arith, waiting-purge ws txn)

enqueue-waits :
    (s : LockState) (txn : TxnId) (mode : LockMode) → is_waiting (enqueue s txn mode) txn ≡ true
enqueue-waits s txn mode = elim (Bool-cases (is_waiting s txn)) [
  | inl y ↦ rw y y
  | inr n ↦ rw n (waiting-push s.waiters (record { txn = txn; mode = mode }))
]

enqueue-holders :
    (s : LockState) (txn : TxnId) (mode : LockMode) → (enqueue s txn mode).holders ≡ s.holders
enqueue-holders s txn mode = elim (Bool-cases (is_waiting s txn)) [
  | inl y ↦ rw y refl
  | inr n ↦ rw n refl
]

-- the lock's state after a round, from its holders before
abbrev pub IsSettled : TxnId → LockMode → ℕ → ℕ → ℕ → List Holder → Round → LockState → Type 0
IsSettled txn mode timeout check_interval elapsed before Round.granted s =
    covers s.holders txn mode ≡ true
IsSettled txn mode timeout check_interval elapsed before (Round.failed e) s =
    (is_waiting s txn ≡ false) × (s.holders ≡ before)
IsSettled txn mode timeout check_interval elapsed before (Round.sleeping d) s =
    (is_waiting s txn ≡ true)
    × (s.holders ≡ before)
    × (elapsed < timeout)
    × (d ≤ timeout - elapsed)
    × (d ≤ check_interval)

abbrev pub holders_of : Option LockState → List Holder
holders_of none = []
holders_of (some s) = s.holders

get-insert_same :
    (locks : LockTable) (key : LockKey) (s : LockState) → get (insert locks key s) key ≡ some s
get-insert_same locks key s =
    ground (arith, get-insert locks key s key, (pair_key {A = Bytes} {B = Bytes}).beq_iff key key)

module _ (txn : TxnId) (key : LockKey) (mode : LockMode) (timeout check_interval elapsed : ℕ) where
  wait_outcome :
      (m : LockManager) (s : LockState)
      → get m.locks key ≡ some s
      → is_waiting s txn ≡ true
      → let r = wait_round m txn key timeout check_interval elapsed in
        (s' : LockState) × (get r.0.locks key ≡ some s')
        × IsSettled txn mode timeout check_interval elapsed s.holders r.1 s'
  unfolding wait_round remove_waiter_locked purge
  wait_outcome m s g w =
      let purged : get (remove_waiter_locked m.locks key txn) key ≡ some (purge s txn) =
        rw (g, remove_waiter_locked) (get-insert_same m.locks key (purge s txn)) in
      elim (Bool-cases (detect_deadlock m.locks txn)) [
        | inl y ↦ rw (y, wait_round) (purge s txn, purged, (waiting-purge s.waiters txn, refl))
        | inr n ↦ elim (Bool-cases (leb timeout elapsed)) [
          | inl late ↦
              rw (n, wait_round)
                (rw late (purge s txn, purged, (waiting-purge s.waiters txn, refl)))
          | inr early ↦
              rw (n, wait_round)
                (rw early (s, g, (w, refl, ground arith, omega arith, omega arith)))
        ]
      ]

  entry_state :
      (m : LockManager)
      → (entry_or m.locks key (record { holders = []; waiters = [] })).1.holders
        ≡ holders_of (get m.locks key)
  unfolding entry_or
  entry_state m = elim (Option-cases (get m.locks key)) [
    | inl e ↦ rw (e, entry_or) refl
    | inr (s, e) ↦ rw (e, entry_or) refl
  ]

  -- After a round of `acquire_with_timeout` the lock has a state. If the round returned `Ok`, the
  -- transaction holds the lock, in exclusive mode if it asked for that. If it returned an error,
  -- the transaction does not wait for the lock. If it sleeps, the transaction waits, its time is
  -- not over, and it sleeps no longer than the rest of it and than the check interval. Unless the
  -- lock was granted, its holders are as before.
  pub acquire_outcome :
      (m : LockManager)
      → let r = acquire_round m txn key mode timeout check_interval elapsed in
        (s : LockState) × (get r.0.locks key ≡ some s)
        × IsSettled txn mode timeout check_interval elapsed (holders_of (get m.locks key)) r.1 s
  unfolding acquire_round
  acquire_outcome m =
      let entry = entry_or m.locks key (record { holders = []; waiters = [] }) in
      elim (Bool-cases (is_compatible entry.1 mode txn)) [
        | inl y ↦
            rw (y, acquire_round)
              (
                record entry.1 { holders = add_holder entry.1.holders txn mode },
                get-insert_same entry.0 key _,
                covers-add_holder entry.1.holders txn mode,
              )
        | inr n ↦
            rw (n, acquire_round)
              (rw (sym (entry_state m) ∙ sym (enqueue-holders entry.1 txn mode)) (
                wait_outcome _ (enqueue entry.1 txn mode)
                  (get-insert_same entry.0 key (enqueue entry.1 txn mode))
                  (enqueue-waits entry.1 txn mode)))
      ]
