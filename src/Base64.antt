-- ===== src/Base64.antt =====
-- util/base64.cpp: Base64Encoding and Base64Decoding. A stream is the list of its characters.
pub mod RoundTrip
pub mod Refusal
mod Tests
use aliyun_odps_sdk_cpp.Prelude.{
  ℕ, zero, suc, ◌+◌, ◌-◌, ◌*◌, ◌/◌, ◌%◌, Bool, true, false, ◌&&◌, Bytes, codes, List, [], ◌∷◌, ◌++◌,
  Option, none, some, length, leb, ◌==◌, if◌then◌else◌, get_elem?,
}
use aliyun_odps_sdk_cpp.Result.{Result, ok, err, local_error, out_of_fuel, ◌>>=◌}

abbrev pub pad : ℕ
pad = 61

-- The default of `alphabet`, `plus` and `slash`, which all calls use. `makeupChar` is `=`.
abbrev pub default_alphabet : Bytes
default_alphabet = codes "ABCDEFGHIJKLMNOPQRSTUVWXYZabcdefghijklmnopqrstuvwxyz0123456789+/"

abbrev pub default_plus : ℕ
default_plus = 43

abbrev pub default_slash : ℕ
default_slash = 47

abbrev pub or_zero : Option ℕ → ℕ
or_zero none = 0
or_zero (some n) = n

-- `alphabet[i]`, for an index below the alphabet's length.
abbrev pub letter : Bytes → ℕ → ℕ
letter alphabet i = or_zero (get_elem? alphabet i)

-- The four indices of three bytes: the shifts and masks of a byte as quotients and remainders.
abbrev pub index_0 : ℕ → ℕ
index_0 a = a / 4

abbrev pub index_1 : ℕ → ℕ → ℕ
index_1 a b = a % 4 * 16 + b / 16

abbrev pub index_2 : ℕ → ℕ → ℕ
index_2 b c = b % 16 * 4 + c / 64

abbrev pub index_3 : ℕ → ℕ
index_3 c = c % 64

-- Base64Encoding.
unfoldable pub base64_encoding : Bytes → Bytes → Bytes
base64_encoding alphabet [] = []
base64_encoding alphabet (a ∷ []) =
    letter alphabet (index_0 a) ∷ letter alphabet (index_1 a 0) ∷ pad ∷ pad ∷ []
base64_encoding alphabet (a ∷ b ∷ []) =
    letter alphabet (index_0 a)
    ∷ letter alphabet (index_1 a b)
    ∷ letter alphabet (index_2 b 0)
    ∷ pad
    ∷ []
base64_encoding alphabet (a ∷ b ∷ c ∷ rest) =
    letter alphabet (index_0 a)
    ∷ letter alphabet (index_1 a b)
    ∷ letter alphabet (index_2 b c)
    ∷ letter alphabet (index_3 c)
    ∷ base64_encoding alphabet rest

pub within : ℕ → ℕ → ℕ → Bool
within a b c = leb a c && leb c b

-- The tests on a character that is no padding.
unfoldable pub value_of : ℕ → ℕ → ℕ → Result ℕ
unfolding within
value_of plus slash c =
    if within 65 90 c
    then ok (c - 65)
    else if within 97 122 c
    then ok (c - 97 + 26)
    else if within 48 57 c
    then ok (c + 52 - 48)
    else if c == plus
    then ok 62
    else if c == slash
    then ok 63
    else err local_error

-- The loop over `left` more characters of a group: the values read, whether it stopped at a padding,
-- and the input behind.
unfoldable pub read_group : ℕ → ℕ → ℕ → Bytes → Result (Bytes × Bool × Bytes)
unfolding value_of
read_group plus slash zero input = ok ([], false, input)
read_group plus slash (suc left) [] = err local_error
read_group plus slash (suc left) (c ∷ cs) =
    let more = value_of plus slash c >>= λ v.
    read_group plus slash left cs >>= λ (vs, padded, rest). ok (v ∷ vs, padded, rest) in
    if c == pad then ok ([], true, cs) else more

-- The three bytes of four values; a value that is not read is 0.
abbrev pub byte_at : Bytes → ℕ → ℕ
byte_at vs i = or_zero (get_elem? vs i)

abbrev pub out_0 : Bytes → ℕ
out_0 vs = byte_at vs 0 * 4 + byte_at vs 1 / 16

abbrev pub out_1 : Bytes → ℕ
out_1 vs = byte_at vs 1 % 16 * 16 + byte_at vs 2 / 4

abbrev pub out_2 : Bytes → ℕ
out_2 vs = byte_at vs 2 % 4 * 64 + byte_at vs 3

-- A group that a padding ends: its index, the values read, and the input behind the padding.
unfoldable pub padded_group : ℕ → Bytes → Bytes → Result Bytes
padded_group (suc (suc zero)) vs (c ∷ []) = if c == pad then ok (out_0 vs ∷ []) else err local_error
padded_group (suc (suc (suc zero))) vs [] = ok (out_0 vs ∷ out_1 vs ∷ [])
padded_group index vs rest = err local_error

-- Base64Decoding. A value is below 64, so what `put` gets is a byte.
unfoldable pub decode_groups : ℕ → ℕ → ℕ → Bytes → Result Bytes
unfolding read_group padded_group
decode_groups plus slash zero input = err out_of_fuel
decode_groups plus slash (suc fuel) [] = ok []
decode_groups plus slash (suc fuel) (c ∷ cs) =
    read_group plus slash 4 (c ∷ cs) >>= λ (vs, padded, rest). elim padded [
      | true ↦ padded_group (length vs) vs rest
      | false ↦ decode_groups plus slash fuel rest >>= λ bytes.
          ok (out_0 vs ∷ out_1 vs ∷ out_2 vs ∷ bytes)
    ]

-- A group takes a character at least, so the length of the input is fuel enough.
unfoldable pub base64_decoding : ℕ → ℕ → Bytes → Result Bytes
unfolding decode_groups
base64_decoding plus slash input = decode_groups plus slash (suc (length input)) input
