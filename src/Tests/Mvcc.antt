-- ===== src/Tests/Mvcc.antt =====
-- Witnesses for the properties of the version store and the transaction manager.
use byte_db.Common.{
  true, set_last, ◌++◌, ◌&&◌, ap, ◌↔◌, last, All, ◌∙◌, ℕ, ◌≡◌, refl, false, none, some, List, [],
  ◌∷◌, arith, Bytes, bytes_key, nat_key,
}
use byte_db.Error.{ok, err, CoreError}
use byte_db.HashMap.{get}
use byte_db.Mvcc.Visibility.{VersionedTuple, is_visible, is_tuple_visible}
use byte_db.Mvcc.Chain.{
  newer_than_snapshot, may_delete, update_conflict, version, mark_deleted, try_update_chain,
  try_delete_chain,
}
use byte_db.Mvcc.Versions.{
  VersionStore, new, insert, try_update, try_delete, get_visible, gc, rollback_txn, shard_index,
}
use byte_db.Mvcc.Versions.View.{chain_at-try_delete, IsSharded, chain_at}
use byte_db.Mvcc.Versions.Sharded.{new-IsSharded, insert-IsSharded, try_delete-IsSharded}
use byte_db.Mvcc.Versions.Write.{write, Write, try_updating, try_deleting, inserting, write_all}
use byte_db.Mvcc.Versions.Rollback.{
  new-IsConsistent, IsConsistent, rollback_restores, write-IsConsistent,
}
use byte_db.Mvcc.Versions.Reads.{classify, lookup_for_read_classifies}
use byte_db.Mvcc.Versions.{lookup_for_read}
use byte_db.Common.{is_empty}
use byte_db.Mvcc.Versions.Scans.{for_each_visible, for_each_visible_collects, get_all_visible}
use byte_db.Mvcc.Versions.Isolation.{IsForeign, snapshot_stable}
use byte_db.Mvcc.Versions.Conflicts.{no_lost_update}
use byte_db.Mvcc.Versions.OwnWrites.{
  at_own_key, try_update_result, visibility_tests_agree, read_own_update, chain_at-insert_self,
}
use byte_db.Mvcc.Versions.OwnDeletes.{own_delete_still_read}
use byte_db.Mvcc.Versions.Collection.{gc_keeps_reads, gc_drops_visible}

abbrev key : Bytes
key = 107 ∷ 49 ∷ []

abbrev row : VersionedTuple ℕ
row = version 10 1 1

-- a base row, written by transaction 1 at time 1
base : VersionStore ℕ
base = insert new key 10 1 1

base-IsSharded : IsSharded base
unfolding base
base-IsSharded = insert-IsSharded new key 10 1 1 new-IsSharded

new-chain : chain_at (new {D = ℕ}) key ≡ []
unfolding chain_at new shard_index get
new-chain = refl

base-chain : chain_at base key ≡ row ∷ []
unfolding base
base-chain =
    chain_at-insert_self {D = ℕ} new key 10 1 1 new-IsSharded
    ∙ ap (λ (c : List (VersionedTuple ℕ)). c ++ row ∷ []) new-chain

-- transaction 7 writes while transaction 5 reads
abbrev writes : List (Write ℕ)
writes = try_updating key 99 6 6 [] ∷ try_deleting key 6 6 [] ∷ inserting key 11 6 ∷ []

base-IsForeign : All (IsForeign 5 7 4 (7 ∷ []) {D = ℕ}) (chain_at base key)
base-IsForeign = rw base-chain (ground arith, tt)

snapshot_stable_example :
    get_visible (write_all 7 writes base) key 5 4 (7 ∷ []) ≡ get_visible base key 5 4 (7 ∷ [])
snapshot_stable_example =
    snapshot_stable 5 7 4 (7 ∷ []) writes base key base-IsSharded (ground arith)
      (ground arith, (ground arith, (ground arith, tt))) base-IsForeign

update_runs : (try_update_chain (row ∷ []) 12 7 6 6 []).0 ≡ ok tt
unfolding try_update_chain last update_conflict newer_than_snapshot
update_runs = refl

update_done : (try_update base key 12 7 6 6 []).0 ≡ ok tt
update_done =
    try_update_result base key 12 7 6 6 []
    ∙ ap (λ (c : List (VersionedTuple ℕ)). (try_update_chain c 12 7 6 6 []).0) base-chain
    ∙ update_runs

no_lost_update_example :
    let s' = (try_update base key 12 7 6 6 []).1 in
    ((try_update s' key 13 5 8 4 []).0 ≡ err CoreError.write_conflict)
    × (chain_at (try_update s' key 13 5 8 4 []).1 key ≡ chain_at s' key)
    × ((try_delete s' key 5 8 4 []).0 ≡ err CoreError.write_conflict)
    × (chain_at (try_delete s' key 5 8 4 []).1 key ≡ chain_at s' key)
no_lost_update_example =
    no_lost_update 5 7 8 4 [] base key 12 13 6 6 [] base-IsSharded (ground arith) (ground arith)
      update_done

base-IsConsistent : IsConsistent base
unfolding base write
base-IsConsistent = write-IsConsistent 1 (inserting key 10 1) (new {D = ℕ}) new-IsConsistent

rollback_restores_example :
    chain_at (rollback_txn (write_all 7 writes base) 7) key ≡ chain_at base key
rollback_restores_example =
    rollback_restores 7 writes base key base-IsConsistent (rw base-chain ((ground arith, refl), tt))

visibility_tests_agree_example :
    (is_visible row 5 4 (7 ∷ [])
      ≡ is_tuple_visible row (record { txn_id = 5; start_ts = 4; active_txns = 7 ∷ [] }))
    ↔ ((false && false) ≡ false)
visibility_tests_agree_example =
    visibility_tests_agree row (record { txn_id = 5; start_ts = 4; active_txns = 7 ∷ [] })

read_own_update_example : get_visible (try_update base key 12 7 6 6 []).1 key 7 6 [] ≡ some 12
read_own_update_example = read_own_update base key 12 7 6 6 [] base-IsSharded update_done

own_delete_still_read_example :
    get_visible (try_delete (insert base key 20 7 6) key 7 6 6 []).1 key 7 6 [] ≡ some 20
own_delete_still_read_example = own_delete_still_read 20 7 6 6 6 [] base key base-IsSharded

-- transaction 3 deletes the base row at its time 2
deleted : VersionStore ℕ
deleted = (try_delete base key 3 2 2 []).1

deleted-IsSharded : IsSharded deleted
unfolding deleted
deleted-IsSharded = try_delete-IsSharded base key 3 2 2 [] base-IsSharded

delete_runs : (try_delete_chain (row ∷ []) 3 2 2 []).1 ≡ mark_deleted row 3 2 ∷ []
unfolding try_delete_chain last may_delete newer_than_snapshot set_last
delete_runs = refl

deleted-chain : chain_at deleted key ≡ mark_deleted row 3 2 ∷ []
unfolding deleted
deleted-chain =
    at_own_key _ key _ (chain_at base key)
      (chain_at-try_delete base key key 3 2 2 [] base-IsSharded)
    ∙ ap (λ (c : List (VersionedTuple ℕ)). (try_delete_chain c 3 2 2 []).1) base-chain
    ∙ delete_runs

gc_keeps_reads_example : get_visible (gc deleted 4) key 5 4 [] ≡ get_visible deleted key 5 4 []
gc_keeps_reads_example =
    gc_keeps_reads 5 4 4 [] deleted key deleted-IsSharded (omega arith)
      (rw deleted-chain (ground arith, tt))

-- transaction 5 begins at time 3, beside transaction 3
gc_drops_visible_example :
    (get_visible deleted key 5 3 (3 ∷ []) ≡ some 10)
    × (get_visible (gc deleted 3) key 5 3 (3 ∷ []) ≡ none)
gc_drops_visible_example =
    gc_drops_visible 5 3 3 (3 ∷ []) deleted key (mark_deleted row 3 2) 3 2 deleted-IsSharded
      deleted-chain (ground arith) (ground arith) (omega arith) refl refl (ground arith)
      (ground arith) (omega arith) (omega arith)

lookup_for_read_classifies_example :
    lookup_for_read deleted key 5 4 []
    ≡ classify (is_empty (chain_at deleted key)) (get_visible deleted key 5 4 [])
lookup_for_read_classifies_example = lookup_for_read_classifies deleted key 5 4 []

for_each_visible_collects_example :
    for_each_visible base 5 4 [] (λ rows k d. (rows ++ (k, d) ∷ [], true)) []
    ≡ get_all_visible base 5 4 []
for_each_visible_collects_example = for_each_visible_collects base 5 4 []
