-- ===== src/Mvcc/Locks/Exclusion.antt =====
-- No two transactions hold a lock unless both share it: what the operations on one lock keep.
use byte_db.Common.{
  All-retain, inr, inl, Bool-cases, ◌≡◌, refl, true, false, List, [], ◌∷◌, ◌==◌, not, arith, All,
  all, retain,
}
use byte_db.Mvcc.Visibility.{TxnId}
use byte_db.Mvcc.Locks.Table.{
  Holder, WaitEntry, LockMode, is_shared, may_hold, add_holder, remove_holder, grant_pending,
}

-- two holders that may hold the lock together
pub record IsTogether (a b : Holder) : Type 0 where
  pub other : (a.txn == b.txn) ≡ false
  pub left : a.mode ≡ LockMode.shared
  pub right : b.mode ≡ LockMode.shared

-- any two holders may
abbrev pub IsExclusive : List Holder → Type 0
IsExclusive [] = Unit
IsExclusive (h ∷ hs) = All (IsTogether h) hs × IsExclusive hs

module _ (txn : TxnId) where
  IsTogether-add_holder :
      (h : Holder) (hs : List Holder)
      → (h.txn == txn) ≡ false
      → h.mode ≡ LockMode.shared
      → All (IsTogether h) hs
      → All (IsTogether h) (add_holder hs txn LockMode.shared)
  unfolding add_holder
  IsTogether-add_holder h [] n s k = (record { other = n; left = s; right = refl }, tt)
  IsTogether-add_holder h (g ∷ hs) n s k = ground (arith, IsTogether-add_holder h hs n s k.1)

  is_shared-mode : (m : LockMode) → is_shared m ≡ true → m ≡ LockMode.shared
  is_shared-mode LockMode.shared h = refl
  is_shared-mode LockMode.exclusive h = ground arith

  add_shared-IsExclusive :
      (hs : List Holder)
      → all (λ (h : Holder). is_shared h.mode) hs ≡ true
      → IsExclusive hs
      → IsExclusive (add_holder hs txn LockMode.shared)
  unfolding add_holder
  add_shared-IsExclusive [] s k = (tt, tt)
  add_shared-IsExclusive (h ∷ hs) s k = elim (Bool-cases (h.txn == txn)) [
    | inl y ↦ rw (y, add_holder) k
    | inr n ↦
        rw (n, add_holder)
          (
            IsTogether-add_holder h hs n (is_shared-mode h.mode (ground arith)) k.0,
            add_shared-IsExclusive hs (ground arith) k.1,
          )
  ]

  -- a transaction that holds the lock alone
  add_alone-IsExclusive :
      (mode : LockMode) (hs : List Holder)
      → all (λ (h : Holder). h.txn == txn) hs ≡ true
      → IsExclusive hs
      → IsExclusive (add_holder hs txn mode)
  unfolding add_holder
  add_alone-IsExclusive mode [] a k = (tt, tt)
  add_alone-IsExclusive mode (h ∷ []) a k = ground arith
  add_alone-IsExclusive mode (h ∷ g ∷ hs) a k = ground (arith, k.0.0.other)

  -- a request that passes the test
  pub add_holder-IsExclusive :
      (mode : LockMode) (hs : List Holder)
      → may_hold hs mode txn ≡ true
      → IsExclusive hs
      → IsExclusive (add_holder hs txn mode)
  unfolding may_hold
  add_holder-IsExclusive mode [] a k = add_alone-IsExclusive mode [] refl k
  add_holder-IsExclusive LockMode.shared (h ∷ hs) a k =
      elim (Bool-cases (all (λ (h : Holder). h.txn == txn) (h ∷ hs))) [
        | inl y ↦ add_alone-IsExclusive LockMode.shared (h ∷ hs) y k
        | inr n ↦ add_shared-IsExclusive (h ∷ hs) (ground arith) k
      ]
  add_holder-IsExclusive LockMode.exclusive (h ∷ hs) a k =
      elim (Bool-cases (all (λ (h : Holder). h.txn == txn) (h ∷ hs))) [
        | inl y ↦ add_alone-IsExclusive LockMode.exclusive (h ∷ hs) y k
        | inr n ↦ ground arith
      ]

  retain-IsExclusive :
      (hs : List Holder)
      → IsExclusive hs
      → IsExclusive (retain (λ (h : Holder). not (h.txn == txn)) hs)
  retain-IsExclusive [] k = tt
  retain-IsExclusive (h ∷ hs) k = elim (Bool-cases (h.txn == txn)) [
    | inl y ↦ rw y (retain-IsExclusive hs k.1)
    | inr n ↦ rw n (All-retain (IsTogether h) _ hs k.0, retain-IsExclusive hs k.1)
  ]

  pub remove_holder-IsExclusive :
      (hs : List Holder) → IsExclusive hs → IsExclusive (remove_holder hs txn).0
  unfolding remove_holder
  remove_holder-IsExclusive hs k = retain-IsExclusive hs k

pub grant_pending-IsExclusive :
    (hs : List Holder) (ws : List WaitEntry)
    → IsExclusive hs
    → IsExclusive (grant_pending hs ws).holders
unfolding grant_pending
grant_pending-IsExclusive hs [] k = k
grant_pending-IsExclusive hs (w ∷ ws) k = elim (Bool-cases (may_hold hs w.mode w.txn)) [
  | inl y ↦
      rw (y, grant_pending)
        (grant_pending-IsExclusive (add_holder hs w.txn w.mode) ws
          (add_holder-IsExclusive w.txn w.mode hs y k))
  | inr n ↦ rw (n, grant_pending) k
]
