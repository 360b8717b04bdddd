-- ===== src/Mvcc/Locks/Release.antt =====
-- What `release_all` leaves: nothing of the transaction, and no lock whose first waiter could have
-- it.
use byte_db.Common.{
  ◌≡◌, refl, Bool, false, some, List, [], ◌∷◌, ◌==◌, not, any, retain, arith, Bool-cases, inl, inr,
  bytes_key, pair_key,
}
use byte_db.HashMap.{get, retain_values}
use byte_db.HashMap.Laws.{Entries, Entries-get}
use byte_db.Mvcc.Visibility.{TxnId}
use byte_db.Mvcc.Locks.{LockManager, release_all, release_state, release_all_state}
use byte_db.Mvcc.Locks.Table.{
  LockKey, LockMode, LockState, LockTable, Holder, WaitEntry, add_holder, may_hold, remove_holder,
  grant_pending, purge, is_idle,
}

abbrev pub is_holding : List Holder → TxnId → Bool
is_holding holders txn = any (λ (h : Holder). h.txn == txn) holders

abbrev pub is_queued : List WaitEntry → TxnId → Bool
is_queued waiters txn = any (λ (w : WaitEntry). w.txn == txn) waiters

-- the first waiter does not pass the test of `is_compatible`
abbrev pub IsBlocked : List Holder → List WaitEntry → Type 0
IsBlocked holders [] = Unit
IsBlocked holders (w ∷ ws) = may_hold holders w.mode w.txn ≡ false

-- the state has no part of the transaction, and its first waiter has to wait
pub record IsCleared (txn : TxnId) (s : LockState) : Type 0 where
  pub not_held : is_holding s.holders txn ≡ false
  pub not_waiting : is_queued s.waiters txn ≡ false
  pub blocked : IsBlocked s.holders s.waiters

module _ (txn : TxnId) where
  holding-add_holder :
      (hs : List Holder) (other : TxnId) (mode : LockMode)
      → (other == txn) ≡ false
      → is_holding hs txn ≡ false
      → is_holding (add_holder hs other mode) txn ≡ false
  unfolding add_holder
  holding-add_holder [] other mode n h = ground arith
  holding-add_holder (g ∷ hs) other LockMode.shared n h =
      ground (arith, holding-add_holder hs other LockMode.shared n)
  holding-add_holder (g ∷ hs) other LockMode.exclusive n h =
      ground (arith, holding-add_holder hs other LockMode.exclusive n)

  holding-remove_holder : (hs : List Holder) → is_holding (remove_holder hs txn).0 txn ≡ false
  unfolding remove_holder
  holding-remove_holder [] = refl
  holding-remove_holder (h ∷ hs) = ground (arith, holding-remove_holder hs)

  queued-purge :
      (ws : List WaitEntry)
      → is_queued (retain (λ (w : WaitEntry). not (w.txn == txn)) ws) txn ≡ false
  queued-purge [] = refl
  queued-purge (w ∷ ws) = ground (arith, queued-purge ws)

  grant_pending-IsCleared :
      (hs : List Holder) (ws : List WaitEntry)
      → is_holding hs txn ≡ false
      → is_queued ws txn ≡ false
      → IsCleared txn (grant_pending hs ws)
  unfolding grant_pending
  grant_pending-IsCleared hs [] h q = record { not_held = h; not_waiting = refl; blocked = tt }
  grant_pending-IsCleared hs (w ∷ ws) h q = elim (Bool-cases (may_hold hs w.mode w.txn)) [
    | inl y ↦
        rw (y, grant_pending)
          (grant_pending-IsCleared (add_holder hs w.txn w.mode) ws
            (holding-add_holder hs w.txn w.mode (ground arith) h) (ground arith))
    | inr n ↦ rw (n, grant_pending) (record { not_held = h; not_waiting = q; blocked = n })
  ]

  released-IsCleared : (s : LockState) → IsCleared txn (release_state txn (purge s txn))
  unfolding release_state purge
  released-IsCleared s =
      grant_pending-IsCleared _ _ (holding-remove_holder s.holders) (queued-purge s.waiters)

  entries-IsCleared :
      (locks : LockTable)
      → Entries (λ (k : LockKey) s. IsCleared txn s) (retain_values (release_all_state txn) locks)
  unfolding retain_values release_all_state
  entries-IsCleared [] = tt
  entries-IsCleared ((k, s) ∷ locks) =
      elim (Bool-cases (is_idle (release_state txn (purge s txn)))) [
        | inl y ↦ rw (y, retain_values) (entries-IsCleared locks)
        | inr n ↦ rw (n, retain_values) (released-IsCleared s, entries-IsCleared locks)
      ]

  -- After `release_all` the transaction holds no lock and waits for none, and the first waiter of
  -- every lock is one that the lock's holders exclude: no lock is left that could be granted to
  -- the front of its queue.
  pub release_all-IsCleared :
      (m : LockManager) (key : LockKey) (s : LockState)
      → get (release_all m txn).locks key ≡ some s
      → IsCleared txn s
  unfolding release_all
  release_all-IsCleared m key s g =
      Entries-get (λ k x. IsCleared txn x) _ key s (entries-IsCleared m.locks) g
