-- ===== src/Hash.antt =====
-- The hash of the key columns of an upsert: include/runtime/runtime_hash.h and tunnel/hash_helper.h. A
-- machine word is a number below 2^w; a signed one is read in two's complement where the sign matters.
mod Order
mod Tests
use Prim.Native.Nat.{bit_xor}
use aliyun_odps_sdk_cpp.Prelude.{
  ℕ, zero, suc, ◌+◌, ◌-◌, ◌*◌, ◌/◌, ◌%◌, ◌^◌, Bool, true, false, Bytes, bytes_eq, List, [], ◌∷◌,
  Option, none, some, ltb, get_elem?, if◌then◌else◌,
}
use aliyun_odps_sdk_cpp.Prelude.Int.{ℤ, pos, negsuc}
use aliyun_odps_sdk_cpp.Result.{
  Result, ok, err, internal_error, not_implemented, out_of_range, ◌>>=◌,
}
use aliyun_odps_sdk_cpp.Types.{
  ColumnType, bigint, double, boolean, string, tinyint, smallint, integer, char, varchar, float,
}
use aliyun_odps_sdk_cpp.TableRecord.{
  TableRecord, or_thrown, is_null_value, get_int_value, get_float_value, get_double_value,
  get_bool_value, get_string_value,
}

-- `>>` on a signed word of `w` bits: the sign is shifted in.
unfoldable pub shift_right : ℕ → ℕ → ℕ → ℕ
shift_right w a k = if ltb a (2 ^ (w - 1)) then a / 2 ^ k else 2 ^ w - 1 - (2 ^ w - 1 - a) / 2 ^ k

-- The word of `w` bits that an integer is converted to.
unfoldable pub to_word : ℕ → ℤ → ℕ
to_word w (pos n) = n % 2 ^ w
to_word w (negsuc n) = 2 ^ w - 1 - n % 2 ^ w

-- The word of 64 bits with the sign of a word of `w` bits.
unfoldable pub sign_extend : ℕ → ℕ → ℕ → ℕ
sign_extend w wide a = if ltb a (2 ^ (w - 1)) then a else 2 ^ wide - 2 ^ w + a

unfoldable pub combine_hash : ℕ → ℕ → ℕ
combine_hash hash1 hash2 = (hash1 + hash2) % 2 ^ 32

unfoldable pub final_hash : ℕ → ℕ
final_hash hash_val = bit_xor hash_val (shift_right 32 hash_val 8)

unfoldable pub hash_bigint : ℕ → ℕ
hash_bigint a =
    let a1 = ((2 ^ 64 - 1 - a) + a * 2 ^ 18) % 2 ^ 64 in
    let a2 = bit_xor a1 (shift_right 64 a1 31) in
    let a3 = a2 * 21 % 2 ^ 64 in
    let a4 = bit_xor a3 (shift_right 64 a3 11) in
    let a5 = (a4 + a4 * 2 ^ 6) % 2 ^ 64 in let a6 = bit_xor a5 (shift_right 64 a5 22) in a6 % 2 ^ 32

unfoldable pub hash_float : ℕ → ℕ
hash_float bits = hash_bigint (sign_extend 32 64 bits)

unfoldable pub hash_double : ℕ → ℕ
hash_double bits = hash_bigint bits

unfoldable pub hash_bool : Bool → ℕ
hash_bool true = 0x172ba9c7
hash_bool false = 2 ^ 32 - 0x3a59cb12

-- The loop over the bytes; `char` is signed.
unfoldable pub hash_bytes : ℕ → Bytes → ℕ
hash_bytes hash [] = hash
hash_bytes hash (c ∷ cs) =
    let h1 = (hash + sign_extend 8 32 c) % 2 ^ 32 in
    let h2 = (h1 + h1 * 2 ^ 10) % 2 ^ 32 in hash_bytes (bit_xor h2 (shift_right 32 h2 6)) cs

unfoldable pub hash_string : Bytes → ℕ
hash_string key =
    let h0 = hash_bytes 0 key in
    let h1 = (h0 + h0 * 2 ^ 3) % 2 ^ 32 in
    let h2 = bit_xor h1 (shift_right 32 h1 11) in (h2 + h2 * 2 ^ 15) % 2 ^ 32

-- The getters that throw for a null value, and dereference the pointer of the typed getter.
unfoldable pub not_null : {A : Type 0} → Result (Option A) → Result A
not_null (err e) = err e
not_null (ok none) = err internal_error
not_null (ok (some a)) = ok a

-- mColName2Id.find
unfoldable pub find_column : Bytes → List (Bytes × ℕ) → Option ℕ
find_column name [] = none
find_column name ((n, i) ∷ columns) =
    let rest = find_column name columns in if bytes_eq n name then some i else rest

abbrev pub then_value : Result ℕ → Result (List ℕ) → Result (List ℕ)
then_value v rest = v >>= λ h. rest >>= λ hs. ok (h ∷ hs)

unfoldable pub combine_all : ℕ → List ℕ → ℕ
combine_all hash_val [] = hash_val
combine_all hash_val (h ∷ hs) = combine_all (combine_hash hash_val h) hs

module _ {C : Type 0} where
  -- GetTinyInt, GetSmallInt, GetInteger and GetBigInt: the value narrowed to `w` bits, and widened for the call
  -- of HashBigint.
  unfoldable pub hash_of_int : TableRecord C → ℕ → ColumnType → ℕ → Result ℕ
  hash_of_int r idx type w =
      not_null (get_int_value r idx type) >>= λ v. ok (hash_bigint (sign_extend w 64 (to_word w v)))

  unfoldable pub hash_of_string : TableRecord C → ℕ → ColumnType → Result ℕ
  hash_of_string r idx type = not_null (get_string_value r idx type) >>= λ s. ok (hash_string s)

  -- CheckNull stands first in each getter.
  unfoldable pub checked_null : TableRecord C → ℕ → Result ℕ → Result ℕ
  checked_null r idx rest = is_null_value r idx >>= λ b. if b then err internal_error else rest

  unfoldable pub hash_as : TableRecord C → ℕ → ColumnType → Result ℕ
  hash_as r idx tinyint = checked_null r idx (hash_of_int r idx tinyint 8)
  hash_as r idx bigint = checked_null r idx (hash_of_int r idx bigint 64)
  hash_as r idx integer = checked_null r idx (hash_of_int r idx integer 32)
  hash_as r idx smallint = checked_null r idx (hash_of_int r idx smallint 16)
  hash_as r idx double =
      checked_null r idx (not_null (get_double_value r idx) >>= λ v. ok (hash_double v))
  hash_as r idx float =
      checked_null r idx (not_null (get_float_value r idx) >>= λ v. ok (hash_float v))
  hash_as r idx boolean =
      checked_null r idx (not_null (get_bool_value r idx) >>= λ v. ok (hash_bool v))
  hash_as r idx string = checked_null r idx (hash_of_string r idx string)
  hash_as r idx char = checked_null r idx (hash_of_string r idx char)
  hash_as r idx varchar = checked_null r idx (hash_of_string r idx varchar)
  hash_as r idx _ = err not_implemented

  unfoldable pub get_hash_val : TableRecord C → ℕ → Result ℕ
  get_hash_val r idx =
      or_thrown (err out_of_range) (get_elem? r.types idx) >>= λ type. hash_as r idx type

  abbrev pub if_found : TableRecord C → Option ℕ → Result (List ℕ) → Result (List ℕ)
  if_found r none rest = rest
  if_found r (some i) rest = then_value (get_hash_val r i) rest

  -- The hashes of the keys that name a column.
  unfoldable pub hash_vals : TableRecord C → List (Bytes × ℕ) → List Bytes → Result (List ℕ)
  hash_vals r columns [] = ok []
  hash_vals r columns (key ∷ keys) = if_found r (find_column key columns) (hash_vals r columns keys)

  unfoldable pub get_hasher : TableRecord C → List (Bytes × ℕ) → List Bytes → Result ℕ
  get_hasher r columns keys = hash_vals r columns keys >>= λ hs. ok (final_hash (combine_all 0 hs))
