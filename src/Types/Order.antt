-- ===== src/Types/Order.antt =====
-- The operator < of TimeStamp (include/odps_types.h) and the values that its constructor makes.
use aliyun_odps_sdk_cpp.Prelude.{zero, suc, ◌<◌, ◌≡◌, refl, true, arith, sym, ◌∙◌}
use aliyun_odps_sdk_cpp.Prelude.Int.{ℤ, pos, negsuc, ◌+ℤ◌, ◌-ℤ◌, ltb_ℤ, scale_ℤ, quot_ℤ, rem_ℤ}
use aliyun_odps_sdk_cpp.Types.{time_less, time_stamp, time_carry, nanos_per_second}

-- The time that seconds and nanoseconds give together, in nanoseconds.
unfoldable pub nanos : ℤ × ℤ → ℤ
unfolding ◌+ℤ◌
nanos (s, n) = scale_ℤ s nanos_per_second +ℤ n

-- Less than a second of nanoseconds, and of one sign with the seconds.
abbrev IsNormal : ℤ × ℤ → Type 0
IsNormal (pos s, pos n) = n < 1_000_000_000
IsNormal (pos s, negsuc n) = (s ≡ 0) × (suc n < 1_000_000_000)
IsNormal (negsuc s, pos n) = n ≡ 0
IsNormal (negsuc s, negsuc n) = suc n < 1_000_000_000

time_less-nanos :
    (a b : ℤ × ℤ) → IsNormal a → IsNormal b → time_less a b ≡ ltb_ℤ (nanos a) (nanos b)
unfolding time_less nanos ◌+ℤ◌
time_less-nanos (pos s, pos n) (pos s2, pos n2) h k = ground (arith, h, k)
time_less-nanos (pos s, pos n) (pos s2, negsuc n2) h k = ground (arith, h, k)
time_less-nanos (pos s, pos n) (negsuc s2, pos n2) h k = ground (arith, h, k)
time_less-nanos (pos s, pos n) (negsuc s2, negsuc n2) h k = ground (arith, h, k)
time_less-nanos (pos s, negsuc n) (pos s2, pos n2) h k = ground (arith, h, k)
time_less-nanos (pos s, negsuc n) (pos s2, negsuc n2) h k = ground (arith, h, k)
time_less-nanos (pos s, negsuc n) (negsuc s2, pos n2) h k = ground (arith, h, k)
time_less-nanos (pos s, negsuc n) (negsuc s2, negsuc n2) h k = ground (arith, h, k)
time_less-nanos (negsuc s, pos n) (pos s2, pos n2) h k = ground (arith, h, k)
time_less-nanos (negsuc s, pos n) (pos s2, negsuc n2) h k = ground (arith, h, k)
time_less-nanos (negsuc s, pos n) (negsuc s2, pos n2) h k = ground (arith, h, k)
time_less-nanos (negsuc s, pos n) (negsuc s2, negsuc n2) h k = ground (arith, h, k)
time_less-nanos (negsuc s, negsuc n) (pos s2, pos n2) h k = ground (arith, h, k)
time_less-nanos (negsuc s, negsuc n) (pos s2, negsuc n2) h k = ground (arith, h, k)
time_less-nanos (negsuc s, negsuc n) (negsuc s2, pos n2) h k = ground (arith, h, k)
time_less-nanos (negsuc s, negsuc n) (negsuc s2, negsuc n2) h k = ground (arith, h, k)

nanos-time_carry : (s n : ℤ) → nanos (time_carry s n) ≡ nanos (s, n)
unfolding nanos time_carry ◌+ℤ◌ ◌-ℤ◌
nanos-time_carry (pos s) (pos n) = ground arith
nanos-time_carry (pos s) (negsuc n) = ground arith
nanos-time_carry (negsuc s) (pos n) = ground arith
nanos-time_carry (negsuc s) (negsuc n) = ground arith

time_carry-IsNormal :
    (s n : ℤ)
    → ltb_ℤ n (pos 1_000_000_000) ≡ true
    → ltb_ℤ (negsuc 999_999_999) n ≡ true
    → IsNormal (time_carry s n)
unfolding time_carry ◌+ℤ◌ ◌-ℤ◌
time_carry-IsNormal (pos zero) (pos n) h k = ground (arith, h, k)
time_carry-IsNormal (pos (suc s)) (pos n) h k = ground (arith, h, k)
time_carry-IsNormal (pos zero) (negsuc n) h k = ground (arith, h, k)
time_carry-IsNormal (pos (suc s)) (negsuc n) h k = ground (arith, h, k)
time_carry-IsNormal (negsuc s) (pos n) h k = ground (arith, h, k)
time_carry-IsNormal (negsuc s) (negsuc n) h k = ground (arith, h, k)

nanos-quot_rem :
    (s n : ℤ) → nanos (s +ℤ quot_ℤ n nanos_per_second, rem_ℤ n nanos_per_second) ≡ nanos (s, n)
unfolding nanos ◌+ℤ◌
nanos-quot_rem (pos s) (pos n) = ground arith
nanos-quot_rem (pos s) (negsuc n) = ground arith
nanos-quot_rem (negsuc s) (pos n) = ground arith
nanos-quot_rem (negsuc s) (negsuc n) = ground arith

rem-bounds :
    (n : ℤ)
    → (ltb_ℤ (rem_ℤ n nanos_per_second) (pos 1_000_000_000) ≡ true)
      × (ltb_ℤ (negsuc 999_999_999) (rem_ℤ n nanos_per_second) ≡ true)
rem-bounds (pos n) = (ground arith, ground arith)
rem-bounds (negsuc n) = (ground arith, ground arith)

carried-IsNormal :
    (s n : ℤ)
    → IsNormal (time_carry (s +ℤ quot_ℤ n nanos_per_second) (rem_ℤ n nanos_per_second))
      × (nanos (time_carry (s +ℤ quot_ℤ n nanos_per_second) (rem_ℤ n nanos_per_second))
          ≡ nanos (s, n))
carried-IsNormal s n =
    let (h, k) = rem-bounds n in
    (
      time_carry-IsNormal (s +ℤ quot_ℤ n nanos_per_second) (rem_ℤ n nanos_per_second) h k,
      nanos-time_carry _ _ ∙ nanos-quot_rem s n,
    )

-- The constructor brings a time stamp to its normal form, which has the same value.
time_stamp-IsNormal :
    (s n : ℤ) → IsNormal (time_stamp s n) × (nanos (time_stamp s n) ≡ nanos (s, n))
unfolding time_stamp
time_stamp-IsNormal (pos s) (pos zero) = (omega arith, refl)
time_stamp-IsNormal (negsuc s) (pos zero) = (refl, refl)
time_stamp-IsNormal s (pos (suc n)) = carried-IsNormal s (pos (suc n))
time_stamp-IsNormal s (negsuc n) = carried-IsNormal s (negsuc n)

-- Of two time stamps made by the constructor from any seconds and nanoseconds, the operator < says
-- that the first is less exactly when its time in nanoseconds is less, on numbers that do not
-- overflow.
pub time_less-time_stamp :
    (s n s2 n2 : ℤ)
    → time_less (time_stamp s n) (time_stamp s2 n2) ≡ ltb_ℤ (nanos (s, n)) (nanos (s2, n2))
time_less-time_stamp s n s2 n2 =
    let (h, e) = time_stamp-IsNormal s n in
    let (k, e2) = time_stamp-IsNormal s2 n2 in
    rw (sym e, sym e2) (time_less-nanos (time_stamp s n) (time_stamp s2 n2) h k)
