-- ===== src/Error.antt =====
-- bytedb-core/src/error.rs: the errors that the storage engine returns, and its `Result`.
use Prim.Native.String.{String}
use byte_db.Common.{ℕ, Bytes}

-- `Io` carries the operating system's error, which nothing in the modelled code reads.
pub data CoreError : Type 0 where
  io buffer_pool_full key_not_found duplicate_key deadlock : CoreError
  serialization_conflict write_conflict : CoreError
  page_not_found checksum_mismatch transaction_aborted transaction_not_found : ℕ → CoreError
  lock_timeout transaction_timeout wal_corrupted value_too_large : ℕ → CoreError
  table_not_found table_already_exists column_not_found : Bytes → CoreError
  type_mismatch : Bytes → Bytes → CoreError
  internal : String → CoreError

pub data Result {ℓ} (A : Type ℓ) : Type ℓ where
  ok : A → Result A
  err : CoreError → Result A

-- the `?` operator
infixl 5 ◌>>=◌
abbrev pub ◌>>=◌ {ℓ κ} : {A : Type ℓ} {B : Type κ} → Result A → (A → Result B) → Result B
ok a >>= f = f a
err e >>= f = err e
