-- ===== src/Mvcc/Ssi.antt =====
-- bytedb-core/src/mvcc/transaction.rs: what a serializable transaction has read and written, and
-- the flags by which dangerous structures are found. A `HashSet` is a list without repetition.
-- `ssi_record_read` and `ssi_record_write` hold the lock on the active states in their first loop,
-- give it back, and then hold that on the committed ones in their second loop, so each is the
-- composition of two steps, between which others may run. Both locks are shared ones: that two first
-- loops of different threads run at once is not covered.
pub mod Flags
pub mod Entries
pub mod Later
pub mod Serializable
use byte_db.Common.{
  ℕ, Bool, true, false, Option, none, some, List, [], ◌∷◌, ◌&&◌, ◌||◌, not, ltb, ◌==◌,
  if◌then◌else◌, Bytes, bytes_key, pair_key, nat_key, bytes_eq, pair_eq, Key,
}
use byte_db.HashMap.{HashMap, get, insert, values}
use byte_db.Mvcc.Visibility.{Timestamp, TxnId}

-- a table's name and a key
abbrev pub RwKey : Type 0
RwKey = Bytes × Bytes

module _ {A : Type 0} ⦃e : Key A⦄ where
  unfoldable pub has : List A → A → Bool
  has [] a = false
  has (x ∷ xs) a = e.beq x a || has xs a

  -- `HashSet::insert`
  unfoldable pub add : List A → A → List A
  unfolding has
  add xs a = if has xs a then xs else a ∷ xs

pub record SsiState : Type 0 where
  pub start_ts : Timestamp
  pub reads : List RwKey
  pub scanned : List Bytes
  pub writes : List RwKey
  pub in_conflict : Bool
  pub out_conflict : Bool
  pub aborted : Bool

pub record CommittedSsi : Type 0 where
  pub commit_ts : Timestamp
  pub reads : List RwKey
  pub scanned : List Bytes
  pub writes : List RwKey

abbrev pub new_state : Timestamp → SsiState
new_state start_ts = record {
  start_ts = start_ts;
  reads = [];
  scanned = [];
  writes = [];
  in_conflict = false;
  out_conflict = false;
  aborted = false;
}

abbrev pub is_dangerous : SsiState → Bool
is_dangerous s = s.aborted

unfoldable pub is_pivot : SsiState → Bool
is_pivot s = not s.aborted && (s.in_conflict && s.out_conflict)

abbrev pub abort_state : SsiState → SsiState
abort_state s = record s { aborted = true }

-- `if me.is_pivot() { me.abort(); } else if other.is_pivot() { other.abort(); }`
unfoldable pub settle_pair : SsiState → SsiState → SsiState × SsiState
unfolding is_pivot
settle_pair me other =
    if is_pivot me
    then (abort_state me, other)
    else if is_pivot other
    then (me, abort_state other)
    else (me, other)

-- `if me.is_pivot() { me.abort(); }`
unfoldable pub settle_self : SsiState → SsiState
unfolding is_pivot
settle_self me = if is_pivot me then abort_state me else me

-- one round of the first loop of `ssi_record_read`: `me` reads what `other` has written
unfoldable pub read_against : RwKey → SsiState → SsiState → SsiState × SsiState
unfolding settle_pair has
read_against rk me other =
    if has other.writes rk
    then settle_pair (record me { out_conflict = true }) (record other { in_conflict = true })
    else (me, other)

-- one round of the first loop of `ssi_record_write`: `me` writes what `other` has read or scanned
unfoldable pub write_against : RwKey → SsiState → SsiState → SsiState × SsiState
unfolding settle_pair has
write_against rk me other =
    if has other.reads rk || has other.scanned rk.0
    then settle_pair (record me { in_conflict = true }) (record other { out_conflict = true })
    else (me, other)

-- the loop over `map.iter()`, which skips the transaction's own entry; `me` is shared by the rounds
unfoldable pub for_others :
    (SsiState → SsiState → SsiState × SsiState)
    → TxnId
    → SsiState
    → HashMap TxnId SsiState
    → SsiState × HashMap TxnId SsiState
for_others round txn_id me [] = (me, [])
for_others round txn_id me ((oid, other) ∷ m) =
    let (me', other') = if oid == txn_id then (me, other) else round me other in
    let (me'', m') = for_others round txn_id me' m in (me'', (oid, other') ∷ m')

-- the second loop of `ssi_record_read`, over the committed transactions that are remembered
unfoldable pub read_committed_by : RwKey → SsiState → CommittedSsi → SsiState
unfolding settle_self has
read_committed_by rk me c =
    if ltb me.start_ts c.commit_ts && has c.writes rk
    then settle_self (record me { out_conflict = true })
    else me

unfoldable pub read_recent : RwKey → SsiState → List CommittedSsi → SsiState
unfolding read_committed_by
read_recent rk me [] = me
read_recent rk me (c ∷ cs) = read_recent rk (read_committed_by rk me c) cs

-- the second loop of `ssi_record_write`
unfoldable pub write_committed_by : RwKey → SsiState → CommittedSsi → SsiState
unfolding settle_self has
write_committed_by rk me c =
    if ltb me.start_ts c.commit_ts && (has c.reads rk || has c.scanned rk.0)
    then settle_self (record me { in_conflict = true })
    else me

unfoldable pub write_recent : RwKey → SsiState → List CommittedSsi → SsiState
unfolding write_committed_by
write_recent rk me [] = me
write_recent rk me (c ∷ cs) = write_recent rk (write_committed_by rk me c) cs

-- `ssi_record_read` under the lock on the active states: its first loop
unfoldable pub read_active : HashMap TxnId SsiState → TxnId → RwKey → HashMap TxnId SsiState
unfolding add for_others read_against
read_active ssi txn_id rk = elim (get ssi txn_id) [
  | none ↦ ssi
  | some s ↦
      let (me, ssi') =
        for_others (read_against rk) txn_id (record s { reads = add s.reads rk }) ssi in
      insert ssi' txn_id me
]

-- under the lock on the committed ones: its second loop. `me` is shared with the map; if its entry
-- was taken out meanwhile, nobody finds its flags any more
unfoldable pub read_after_active :
    HashMap TxnId SsiState → HashMap TxnId CommittedSsi → TxnId → RwKey → HashMap TxnId SsiState
unfolding read_recent
read_after_active ssi recent txn_id rk = elim (get ssi txn_id) [
  | none ↦ ssi
  | some me ↦ insert ssi txn_id (read_recent rk me (values recent))
]

-- the whole call, where nothing comes between its two loops
unfoldable pub record_read :
    HashMap TxnId SsiState → HashMap TxnId CommittedSsi → TxnId → RwKey → HashMap TxnId SsiState
unfolding read_active read_after_active
record_read ssi recent txn_id rk = read_after_active (read_active ssi txn_id rk) recent txn_id rk

-- `ssi_record_predicate`
unfoldable pub record_predicate : HashMap TxnId SsiState → TxnId → Bytes → HashMap TxnId SsiState
unfolding add
record_predicate ssi txn_id table = elim (get ssi txn_id) [
  | none ↦ ssi
  | some s ↦ insert ssi txn_id (record s { scanned = add s.scanned table })
]

-- `ssi_record_write` under the lock on the active states: its first loop
unfoldable pub write_active : HashMap TxnId SsiState → TxnId → RwKey → HashMap TxnId SsiState
unfolding add for_others write_against
write_active ssi txn_id rk = elim (get ssi txn_id) [
  | none ↦ ssi
  | some s ↦
      let (me, ssi') =
        for_others (write_against rk) txn_id (record s { writes = add s.writes rk }) ssi in
      insert ssi' txn_id me
]

-- under the lock on the committed ones: its second loop. `me` is shared with the map; if its entry
-- was taken out meanwhile, nobody finds its flags any more
unfoldable pub write_after_active :
    HashMap TxnId SsiState → HashMap TxnId CommittedSsi → TxnId → RwKey → HashMap TxnId SsiState
unfolding write_recent
write_after_active ssi recent txn_id rk = elim (get ssi txn_id) [
  | none ↦ ssi
  | some me ↦ insert ssi txn_id (write_recent rk me (values recent))
]

-- the whole call, where nothing comes between its two loops
unfoldable pub record_write :
    HashMap TxnId SsiState → HashMap TxnId CommittedSsi → TxnId → RwKey → HashMap TxnId SsiState
unfolding write_active write_after_active
record_write ssi recent txn_id rk = write_after_active (write_active ssi txn_id rk) recent txn_id rk
