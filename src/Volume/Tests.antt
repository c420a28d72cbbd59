-- ===== src/Volume/Tests.antt =====
-- Runs of the volume's streams.
use aliyun_odps_sdk_cpp.Prelude.{ℕ, ◌%◌, ◌<◌, ◌≡◌, Bytes, List, [], ◌∷◌, length, arith}
use aliyun_odps_sdk_cpp.Result.{ok}
use aliyun_odps_sdk_cpp.Volume.{VolumeSerializer, new_volume_serializer}
use aliyun_odps_sdk_cpp.Volume.Moved.{flat, sum}
use aliyun_odps_sdk_cpp.Volume.Written.{write_stream, write_stream-IsStream, IsStream}
use aliyun_odps_sdk_cpp.Volume.RoundTrip.{transfer, transfer_round_trip}

-- A checksum that fits in a uint32_t, in place of the CRC.
weigh : Bytes → ℕ
weigh buf = length buf % 4_294_967_296

weigh_small : (buf : Bytes) → weigh buf < 4_294_967_296
unfolding weigh
weigh_small buf = omega arith

abbrev two_bufs : List Bytes
two_bufs = (10 ∷ 20 ∷ 30 ∷ []) ∷ (40 ∷ 50 ∷ []) ∷ []

write_stream-IsStream_example :
    (t : VolumeSerializer) × (write_stream weigh two_bufs
        (new_volume_serializer (7 ∷ 1 ∷ 90 ∷ []) 2)
      ≡ ok t)
    × IsStream weigh 2 (flat two_bufs) t.output.written
unfolding flat sum
write_stream-IsStream_example =
    write_stream-IsStream weigh (7 ∷ 1 ∷ 90 ∷ []) 2 (10 ∷ 20 ∷ 30 ∷ []) ((40 ∷ 50 ∷ []) ∷ [])
      (omega arith) (omega arith) (omega arith)

transfer_round_trip_example :
    transfer weigh (7 ∷ 1 ∷ 90 ∷ []) 2 two_bufs (3 ∷ 0 ∷ 6 ∷ []) 9 (λ n. n % 3) 6
    ≡ ok (flat two_bufs)
unfolding flat sum
transfer_round_trip_example =
    transfer_round_trip weigh weigh_small (7 ∷ 1 ∷ 90 ∷ []) 2 two_bufs (3 ∷ 0 ∷ 6 ∷ []) 9
      (λ n. n % 3) 6 (omega arith) (omega arith) (omega arith) (omega arith)
