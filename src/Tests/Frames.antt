-- ===== src/Tests/Frames.antt =====
-- A witness for the property of the replacer: of two frames, the second may give way.
use byte_db.Common.{ℕ, ◌≡◌, none, some, true, false, arith, refl, nat_key}
use byte_db.HashMap.{get, insert}
use byte_db.Buffer.Replacer.{LruKReplacer, new, record_access, set_evictable, evict}
use byte_db.Buffer.Replacer.Histories.{Reach, start, accessed, marked}
use byte_db.Buffer.Replacer.Victims.{evict_finds}

two_frames : LruKReplacer
two_frames =
    set_evictable (set_evictable (record_access (record_access (new 2) 1) 2) 1 false) 2 true

two_frames-Reach : Reach 2 two_frames
unfolding two_frames new record_access
two_frames-Reach =
    marked 2 true (marked 1 false (accessed 2 (omega arith) (accessed 1 (omega arith) start)))

evict_finds_example :
    (g : ℕ) × ((evict two_frames).1 ≡ some g)
    × (get two_frames.evictable g ≡ some true)
    × (get (evict two_frames).0.evictable g ≡ none)
    × (get (evict two_frames).0.access_history g ≡ none)
unfolding two_frames new record_access set_evictable get insert
evict_finds_example = evict_finds 2 (omega arith) two_frames-Reach 2 refl
