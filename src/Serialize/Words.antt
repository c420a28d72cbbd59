-- ===== src/Serialize/Words.antt =====
-- Fixed-width integers: the bytes of an object in memory, and conversions to a narrower type.
use aliyun_odps_sdk_cpp.Prelude.{
  ℕ, zero, suc, ◌-◌, ◌/◌, ◌%◌, ◌^◌, ◌<◌, ◌≡◌, Bytes, [], ◌∷◌, arith, ltb, if◌then◌else◌,
}
use aliyun_odps_sdk_cpp.Prelude.Int.{ℤ, pos, negsuc}

-- The integers of a signed type of w bits.
abbrev pub IsIntOf : ℕ → ℤ → Type 0
IsIntOf w (pos n) = n < 2 ^ (w - 1)
IsIntOf w (negsuc n) = n < 2 ^ (w - 1)

-- The bit pattern of an integer at w bits, and the integer of a bit pattern.
unfoldable pub to_word : ℕ → ℤ → ℕ
to_word w (pos n) = n % 2 ^ w
to_word w (negsuc n) = 2 ^ w - 1 - n % 2 ^ w

unfoldable pub of_word : ℕ → ℕ → ℤ
of_word w n = if ltb n (2 ^ (w - 1)) then pos n else negsuc (2 ^ w - 1 - n)

-- Conversion to a signed type of w bits.
unfoldable pub narrow : ℕ → ℤ → ℤ
unfolding to_word of_word
narrow w z = of_word w (to_word w z)

-- `sizeof` bytes of a number, the lowest first.
unfoldable pub le_bytes : ℕ → ℕ → Bytes
le_bytes zero n = []
le_bytes (suc k) n = (n % 256) ∷ le_bytes k (n / 256)

abbrev pub bytes_of_int64 : ℤ → Bytes
bytes_of_int64 z = le_bytes 8 (to_word 64 z)

abbrev pub bytes_of_int32 : ℤ → Bytes
bytes_of_int32 z = le_bytes 4 (to_word 32 z)

pub narrow_8 : (z : ℤ) → IsIntOf 8 z → narrow 8 z ≡ z
unfolding narrow
narrow_8 (pos n) h = ground arith
narrow_8 (negsuc n) h = ground arith

pub narrow_16 : (z : ℤ) → IsIntOf 16 z → narrow 16 z ≡ z
unfolding narrow
narrow_16 (pos n) h = ground arith
narrow_16 (negsuc n) h = ground arith

pub narrow_32 : (z : ℤ) → IsIntOf 32 z → narrow 32 z ≡ z
unfolding narrow
narrow_32 (pos n) h = ground arith
narrow_32 (negsuc n) h = ground arith
