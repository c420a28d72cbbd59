-- ===== src/Upsert/Tests.antt =====
-- Runs of an upsert stream with two buckets and records that are numbers.
use aliyun_odps_sdk_cpp.Prelude.{
  ℕ, ◌≡◌, ◌≢◌, refl, Bool, true, false, List, [], ◌∷◌, some, length, ◌+◌, ◌*◌, ◌%◌, if◌then◌else◌,
}
use aliyun_odps_sdk_cpp.Prelude.Int.{pos}
use aliyun_odps_sdk_cpp.Result.{ok, err, undefined, invalid_bucket_value}
use aliyun_odps_sdk_cpp.Upload.{put_key, has_key}
use aliyun_odps_sdk_cpp.Upsert.{
  Stream, written, refused, listener_refused, new_stream, flush, write_record, load_upsert_slots,
  insert_slots, insert_buckets, check_buckets, all_below,
}
use aliyun_odps_sdk_cpp.Upsert.Kept.{IsKept, HasTaken, flush-IsKept, write_record-HasTaken}
use aliyun_odps_sdk_cpp.Upsert.Safe.{started, wrote, Reachable-write_record_defined}

-- Eight bytes for a record, and two more for a completed pack.
size : Bool → List ℕ → ℕ
size completed rs = if completed then 8 * length rs + 2 else 8 * length rs

abbrev two : List ℕ
two = 1 ∷ 0 ∷ []

abbrev begun : Stream ℕ
begun = new_stream two (pos 20) (pos 100) true

abbrev later : Stream ℕ
later = (write_record size two 7 40 [] begun).stream

flush-IsKept_example :
    let d = flush size true two (refused true ∷ listener_refused true ∷ written ∷ []) later in
    IsKept 1 later.packs d.sent d.stream.packs
flush-IsKept_example =
    flush-IsKept size true 1 two (refused true ∷ listener_refused true ∷ written ∷ []) later

write_record-HasTaken_example :
    HasTaken size (7 % length two) 41 later.packs (write_record size two 7 41 (written ∷ []) later)
write_record-HasTaken_example = write_record-HasTaken size two 7 41 (written ∷ []) later

two_loaded : load_upsert_slots ((0 ∷ 1 ∷ []) ∷ []) ≡ ok two
unfolding load_upsert_slots insert_slots insert_buckets check_buckets all_below put_key has_key
two_loaded = refl

Reachable-write_record_defined_example :
    (write_record size two 9 42 (refused false ∷ []) later).thrown ≢ some undefined
Reachable-write_record_defined_example =
    Reachable-write_record_defined size ((0 ∷ 1 ∷ []) ∷ []) two 9 42 (refused false ∷ []) two_loaded
      refl (wrote 7 40 [] (started (pos 20) (pos 100) true))

-- The buckets 2 and 0 of the first slot are refused, though the second slot has the missing one.
spread_refused : load_upsert_slots ((0 ∷ 2 ∷ []) ∷ (1 ∷ []) ∷ []) ≡ err invalid_bucket_value
unfolding load_upsert_slots insert_slots insert_buckets check_buckets all_below put_key has_key
spread_refused = refl
