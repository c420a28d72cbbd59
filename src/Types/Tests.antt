-- ===== src/Types/Tests.antt =====
-- Runs of the operator < of TimeStamp.
use aliyun_odps_sdk_cpp.Prelude.{◌≡◌, refl, true}
use aliyun_odps_sdk_cpp.Prelude.Int.{pos, negsuc, ltb_ℤ, ◌+ℤ◌, ◌-ℤ◌}
use aliyun_odps_sdk_cpp.Types.{time_less, time_stamp, time_carry}
use aliyun_odps_sdk_cpp.Types.Order.{nanos, time_less-time_stamp}

time_less-time_stamp_example :
    time_less
      (time_stamp (pos 2) (negsuc 1_499_999_999))
      (time_stamp (negsuc 0) (pos 1_600_000_000))
    ≡ ltb_ℤ (nanos (pos 2, negsuc 1_499_999_999)) (nanos (negsuc 0, pos 1_600_000_000))
time_less-time_stamp_example =
    time_less-time_stamp (pos 2) (negsuc 1_499_999_999) (negsuc 0) (pos 1_600_000_000)

half_less :
    time_less
      (time_stamp (pos 2) (negsuc 1_499_999_999))
      (time_stamp (negsuc 0) (pos 1_600_000_000))
    ≡ true
unfolding time_less time_stamp time_carry ◌+ℤ◌ ◌-ℤ◌
half_less = refl
