-- ===== src/Utf8/Next.antt =====
-- Where FindNextCharUtf8 of util/string_util.cpp stops.
use Prim.Native.Nat.{bit_and}
use aliyun_odps_sdk_cpp.Prelude.{
  ℕ, zero, suc, ◌+◌, ◌≤◌, ◌<◌, ◌≡◌, ◌⊎◌, Bool, true, ◌&&◌, Bytes, [], ◌∷◌, ltb, ◌==◌, if◌then◌else◌,
  length, take, drop, All,
}
use aliyun_odps_sdk_cpp.Result.{Result, ok, err, local_error}
use aliyun_odps_sdk_cpp.Utf8.{starts_char}

-- The bytes of UTF-8, in the old form with characters of up to six bytes: a byte that goes on with a
-- character, one that starts a character, and one that stands nowhere.
abbrev pub IsContinuation : ℕ → Type 0
IsContinuation b = (128 ≤ b) × (b < 192)

abbrev pub IsStart : ℕ → Type 0
IsStart b = (b < 128) ⊎ ((192 ≤ b) × (b < 254))

abbrev pub IsBad : ℕ → Type 0
IsBad b = 254 ≤ b

-- What the tests of the code make of a byte, and what its range says.
abbrev tested : ℕ → ℕ
tested b = if starts_char b then 0 else if bit_and b 0xC0 == 0x80 then 1 else 2

abbrev ranged : ℕ → ℕ
ranged b = if ltb b 128 then 0 else if ltb b 192 then 1 else if ltb b 254 then 0 else 2

all_agree : ℕ → Bool
all_agree zero = true
all_agree (suc n) = (tested n == ranged n) && all_agree n

-- The end, or a byte that starts a character.
abbrev pub StartsHere : Bytes → Type 0
StartsHere [] = Unit {0}
StartsHere (b ∷ bs) = IsStart b

abbrev pub FailsHere : Bytes → Type 0
FailsHere [] = ⊥
FailsHere (b ∷ bs) = IsBad b

-- `k` bytes go on with a character, and behind them it stops.
abbrev pub IsPassed : Bytes → ℕ → Type 0
IsPassed rest k = (k ≤ length rest) × All IsContinuation (take k rest)

abbrev pub Stops : Bytes → ℕ → Result ℕ → Type 0
Stops rest from (ok i) = (k : ℕ) × (i ≡ from + k) × IsPassed rest k × StartsHere (drop k rest)
Stops rest from (err e) = (k : ℕ) × (e ≡ local_error) × IsPassed rest k × FailsHere (drop k rest)
