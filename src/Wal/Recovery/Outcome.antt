-- ===== src/Wal/Recovery/Outcome.antt =====
-- What recovery finds: the transactions that committed, and those that were cut off.
use byte_db.Common.{
  zero, suc, inr, inl, Bool-cases, ◌&&◌, suc, ℕ, ◌+◌, ◌≡◌, ◌≤◌, ◌<◌, refl, ap, ◌∙◌, Bool, true,
  false, Option, some, List, [], ◌∷◌, leb, ◌==◌, ◌||◌, any, if◌then◌else◌, contains, length, take,
  retain, arith, All, Bytes,
}
use byte_db.Error.{ok}
use byte_db.Wal.LogRecord.{LogRecord, Lsn, TxnId}
use byte_db.Wal.LogManager.Frames.{IsCoded}
use byte_db.Wal.LogManager.{new_log, flush_writer}
use byte_db.Wal.LogManager.RoundTrip.{LogEvent, appended, run, numbered, log_roundtrip}
use byte_db.Wal.Recovery.{
  Analysis, analyze, analyze_all, analyze_records, recover_records, recover_inner, finish,
  set_insert, set_remove, insert_all,
}

contains-set_remove :
    (xs : List TxnId) (u t : TxnId)
    → contains (set_remove xs u) t ≡ (if u == t then false else contains xs t)
contains-set_remove [] u t = ground arith
contains-set_remove (x ∷ xs) u t = ground (arith, contains-set_remove xs u t)

contains-insert_all :
    (xs ts : List TxnId) (t : TxnId)
    → contains (insert_all xs ts) t ≡ (contains xs t || contains ts t)
contains-insert_all xs [] t = ground arith
contains-insert_all xs (u ∷ ts) t = ground (arith, contains-insert_all (set_insert xs u) ts t)

-- the record says that the transaction committed
abbrev pub commits : TxnId → Lsn × LogRecord → Bool
commits t (lsn, LogRecord.commit u) = u == t
commits t (lsn, _) = false

-- the record makes the transaction active
abbrev pub activates : TxnId → Lsn × LogRecord → Bool
activates t (lsn, LogRecord.begin u) = u == t
activates t (lsn, LogRecord.checkpoint us) = contains us t
activates t (lsn, _) = false

committed_in :
    (records : List (Lsn × LogRecord)) (a : Analysis) (t : TxnId)
    → contains (analyze_all a records).committed_txns t
      ≡ (contains a.committed_txns t || any (commits t) records)
unfolding analyze_all analyze
committed_in [] a t = ground arith
committed_in ((lsn, LogRecord.begin u) ∷ records) a t = committed_in records _ t
committed_in ((lsn, LogRecord.insert u i p s d) ∷ records) a t = committed_in records _ t
committed_in ((lsn, LogRecord.update u i p s d e) ∷ records) a t = committed_in records _ t
committed_in ((lsn, LogRecord.delete u i p s d) ∷ records) a t = committed_in records _ t
committed_in ((lsn, LogRecord.commit u) ∷ records) a t = committed_in records _ t ∙ ground arith
committed_in ((lsn, LogRecord.abort u) ∷ records) a t = committed_in records _ t
committed_in ((lsn, LogRecord.checkpoint us) ∷ records) a t = committed_in records _ t

-- the transaction is not active once it has committed
abbrev IsApart : TxnId → List (Lsn × LogRecord) → Analysis → Type 0
IsApart t records a =
    contains a.committed_txns t ≡ true
    → (contains a.active_txns t ≡ false) × (any (activates t) records ≡ false)

-- no record after the transaction's commit makes it active
abbrev pub IsFinal : TxnId → List (Lsn × LogRecord) → Type 0
IsFinal t [] = Unit
IsFinal t (x ∷ records) = ((commits t x && any (activates t) records) ≡ false) × IsFinal t records

IsApart-after :
    (t : TxnId) (records : List (Lsn × LogRecord)) (a : Analysis)
    → IsFinal t records
    → IsApart t records a
    → IsApart t [] (analyze_all a records)
unfolding analyze_all analyze
IsApart-after t [] a f h = h
IsApart-after t ((lsn, LogRecord.begin u) ∷ records) a f h =
    IsApart-after t records _ f.1 (λ c. ground (arith, h c))
IsApart-after t ((lsn, LogRecord.insert u i p s d) ∷ records) a f h =
    IsApart-after t records _ f.1 h
IsApart-after t ((lsn, LogRecord.update u i p s d e) ∷ records) a f h =
    IsApart-after t records _ f.1 h
IsApart-after t ((lsn, LogRecord.delete u i p s d) ∷ records) a f h =
    IsApart-after t records _ f.1 h
IsApart-after t ((lsn, LogRecord.commit u) ∷ records) a f h =
    IsApart-after t records _ f.1
      (λ c. ground (arith, h, f.0, contains-set_remove a.active_txns u t))
IsApart-after t ((lsn, LogRecord.abort u) ∷ records) a f h =
    IsApart-after t records _ f.1 (λ c. ground (arith, h c, contains-set_remove a.active_txns u t))
IsApart-after t ((lsn, LogRecord.checkpoint us) ∷ records) a f h =
    IsApart-after t records _ f.1 (λ c. ground (arith, h c, contains-insert_all [] us t))

-- Recovery takes a transaction as committed exactly if the log has a commit record of it, and then
-- does not take it as cut off as well, if no record after a commit record of the transaction makes
-- it active again.
pub recovery_decides :
    (records : List (Lsn × LogRecord)) (t : TxnId)
    → IsFinal t records
    → (contains (analyze_records records).committed_txns t ≡ any (commits t) records)
      × ((contains (analyze_records records).committed_txns t
            && contains (analyze_records records).aborted_txns t)
          ≡ false)
unfolding analyze_records
recovery_decides records t f =
    let new : Analysis = record { active_txns = []; committed_txns = []; aborted_txns = [] } in
    let found = committed_in records new t in
    let apart = IsApart-after t records new f (λ e. ground arith) in
    (
      found,
      elim (Bool-cases (contains (analyze_all new records).committed_txns t)) [
        | inl y ↦ rw y (apart y).0
        | inr n ↦ rw n refl
      ],
    )

retain-above :
    (n k : ℕ) (rs : List LogRecord)
    → k ≤ n
    → retain (λ (x : Lsn × LogRecord). leb x.0 k) (numbered n rs) ≡ []
retain-above n k [] h = refl
retain-above n k (r ∷ rs) h = ground (arith, retain-above (n + 1) k rs (omega arith))

retain-numbered :
    (n k bound : ℕ) (rs : List LogRecord)
    → bound ≡ n + k
    → retain (λ (x : Lsn × LogRecord). leb x.0 bound) (numbered n rs) ≡ numbered n (take k rs)
retain-numbered n zero bound rs e = retain-above n bound rs (omega arith)
retain-numbered n (suc k) bound [] e = refl
retain-numbered n (suc k) bound (r ∷ rs) e =
    ground (arith, retain-numbered (n + 1) k bound rs (omega (arith, e)))

-- `recover_to_lsn` is recovery of the log that had only the first `k` records. A new log takes any
-- run of appends and flushes, while its writer writes out bytes of its buffer at any time, and is
-- then flushed: `recover_to_lsn k` finds the same as recovery of the numbered list of the appended
-- records, cut after `k`. The encoding gives each record back, none is too long, the checksum has 32
-- bits, and there are fewer than 2^64 records.
pub recover_to_lsn_prefix :
    (hash : Bytes → ℕ) (serialize : LogRecord → Bytes) (deserialize : Bytes → Option LogRecord)
    (narrow : (b : Bytes) → hash b < 4294967296) (es : List LogEvent) (k : Lsn)
    → All (IsCoded hash serialize deserialize) (appended es)
    → length (appended es) < 18446744073709551616
    → let file = (flush_writer (run hash serialize new_log es)).file in
      recover_inner hash deserialize file (some k)
      ≡ some (ok (analyze_records (numbered 0 (take k (appended es)))), file)
unfolding recover_inner recover_records
recover_to_lsn_prefix hash serialize deserialize narrow es k coded m =
    let file = (flush_writer (run hash serialize new_log es)).file in
    ap (finish (some k)) (log_roundtrip hash serialize deserialize narrow es coded m).0
    ∙ ap (λ x. some (ok (analyze_records x), file))
        (retain-numbered 0 k k (appended es) (omega arith))
