-- ===== src/Hash/Tests.antt =====
-- The hash of two key columns of a record.
use mathlib.Core.List.{Permᴰ}
use aliyun_odps_sdk_cpp.Prelude.{ℕ, ◌≡◌, refl, false, Bytes, bytes_eq, codes, List, [], ◌∷◌}
use aliyun_odps_sdk_cpp.Prelude.Int.{negsuc}
use aliyun_odps_sdk_cpp.Result.{ok}
use aliyun_odps_sdk_cpp.Types.{bigint, string}
use aliyun_odps_sdk_cpp.TableRecord.{
  TableRecord, raw_int, string_at, check_type, or_thrown, type_code, unless_null, is_null_value,
  raw_at, as_int, as_string, find_buf, get_int_value, get_string_value,
}
use aliyun_odps_sdk_cpp.Hash.{
  shift_right, to_word, sign_extend, combine_hash, final_hash, hash_bigint, hash_bytes, hash_string,
  not_null, hash_of_int, hash_of_string, checked_null, hash_as, get_hash_val, find_column,
  hash_vals, combine_all, get_hasher,
}
use aliyun_odps_sdk_cpp.Hash.Order.{get_hasher_reordered}

abbrev row : TableRecord ℕ
row = record {
  types = bigint ∷ string ∷ [];
  max_field_size = 100;
  raw_data = raw_int (negsuc 41) ∷ string_at 1 ∷ [];
  is_null = false ∷ false ∷ [];
  str_bufs = (1, 97 ∷ 98 ∷ 233 ∷ []) ∷ [];
  ts_bufs = [];
  complex_bufs = [];
}

abbrev names : List (Bytes × ℕ)
names = (codes "id", 0) ∷ (codes "name", 1) ∷ []

hash_minus_42 : hash_bigint (to_word 64 (negsuc 41)) ≡ 2136436044
unfolding hash_bigint to_word shift_right
hash_minus_42 = refl

hash_abe : hash_string (97 ∷ 98 ∷ 233 ∷ []) ≡ 2087468527
unfolding hash_string hash_bytes shift_right sign_extend
hash_abe = refl

row_hash : get_hasher row names (codes "id" ∷ codes "name" ∷ []) ≡ ok 70805648
unfolding get_hasher hash_vals find_column bytes_eq get_hash_val or_thrown hash_as checked_null
    is_null_value hash_of_int hash_of_string not_null get_int_value get_string_value check_type
    type_code unless_null raw_at as_int as_string find_buf hash_bigint hash_string hash_bytes
    to_word sign_extend shift_right combine_all combine_hash final_hash
row_hash = refl

get_hasher_reordered_example : get_hasher row names (codes "name" ∷ codes "id" ∷ []) ≡ ok 70805648
get_hasher_reordered_example =
    get_hasher_reordered row names (codes "id" ∷ codes "name" ∷ []) (codes "name" ∷ codes "id" ∷ [])
      70805648 (Permᴰ.swap refl refl) row_hash
