-- ===== src/Wal/GroupCommit.antt =====
-- bytedb-core/src/wal/log_manager.rs: how `commit` waits until a record is durable. The calls of
-- several threads interleave, so `flush_through` is split where it gives way to others: its entry,
-- the end of the leader's flush, and a follower's look at the mark.
use byte_db.Common.{ℕ, ◌+◌, ◌%◌, ◌^◌, Bool, true, false, Option, none, some, leb, if◌then◌else◌}
use byte_db.Wal.LogRecord.{Lsn}

pub data DurabilityMode : Type 0 where
  strict relaxed : DurabilityMode

pub record Durability : Type 0 where
  pub current_lsn : Lsn
  pub flushed_lsn : Lsn
  pub flushing : Bool
  pub group_commit_delay_us : ℕ
  pub durability_mode : DurabilityMode
  pub fsyncs : ℕ
  pub commits_served : ℕ
  pub relaxed_acks : ℕ

abbrev pub fetch_add : ℕ → ℕ
fetch_add n = (n + 1) % 2 ^ 64

abbrev pub serve : Durability → Durability
serve s = record s { commits_served = fetch_add s.commits_served }

-- how a call goes on: it returns, it flushes for all, or it waits for the one that does
pub data Entry : Type 0 where
  returns : Lsn → Entry
  leads : Entry
  follows : Entry

unfoldable pub enter_flush : Durability → Lsn → Durability × Entry
enter_flush s target_lsn =
    if leb target_lsn s.flushed_lsn
    then (serve s, returns s.flushed_lsn)
    else if s.flushing
    then (s, follows)
    else (record s { flushing = true }, leads)

-- a follower wakes: it returns once the mark is reached
unfoldable pub wake : Durability → Lsn → Durability × Option Lsn
wake s target_lsn =
    if leb target_lsn s.flushed_lsn then (serve s, some s.flushed_lsn) else (s, none)

-- the leader's flush has ended, with an error or not; `snapshot_lsn` is what it read before
unfoldable pub end_flush : Durability → Lsn → Bool → Durability
end_flush s snapshot_lsn true = record s {
  flushed_lsn = snapshot_lsn;
  fsyncs = fetch_add s.fsyncs;
  commits_served = fetch_add s.commits_served;
  flushing = false;
}
end_flush s snapshot_lsn false = record s { flushing = false }

-- `commit`: in relaxed mode it returns at once
unfoldable pub commit : Durability → Lsn → Durability × Entry
unfolding enter_flush
commit s target_lsn = elim s.durability_mode [
  | strict ↦ enter_flush s target_lsn
  | relaxed ↦ (record (serve s) { relaxed_acks = fetch_add s.relaxed_acks }, returns s.flushed_lsn)
]

unfoldable pub flush : Durability → Durability × Entry
unfolding enter_flush
flush s = enter_flush s s.current_lsn

unfoldable pub set_durability_mode : Durability → DurabilityMode → Durability
set_durability_mode s mode = record s { durability_mode = mode }

unfoldable pub set_group_commit_delay_us : Durability → ℕ → Durability
set_group_commit_delay_us s us = record s { group_commit_delay_us = us }

unfoldable pub fsync_count : Durability → ℕ
fsync_count s = s.fsyncs
