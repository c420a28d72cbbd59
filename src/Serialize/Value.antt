-- ===== src/Serialize/Value.antt =====
-- The values that a record holds (include/odps_array.h, odps_map.h, odps_struct.h), and the map's
-- table of keys (common/odps_map.cpp).
use aliyun_odps_sdk_cpp.Prelude.{
  ℕ, Bool, true, false, ◌&&◌, Bytes, bytes_eq, ◌==◌, if◌then◌else◌, not, List, [], ◌∷◌, ◌++◌, ◌+◌,
}
use aliyun_odps_sdk_cpp.Prelude.Int.{ℤ, pos, negsuc}
use aliyun_odps_sdk_cpp.Result.{Result, ok, err, plain_error}
use aliyun_odps_sdk_cpp.Types.{
  ColumnType, TypeInfo, bigint, double, boolean, string, timestamp, float, timestamp_ntz,
}
use aliyun_odps_sdk_cpp.Serialize.External.{External}

-- A `float` or `double` is its bit pattern. An array, map or struct carries its own type. A map is
-- the table of its keys, as the list of their indices in increasing order and the keys in the same
-- order, which is that of GetKeys; and the array of its values.
mutual
  pub data Value : Type 0 where
    int : ℤ → Value
    float_bits : ℕ → Value
    double_bits : ℕ → Value
    bool : Bool → Value
    text : Bytes → Value
    time : ℤ → ℤ → Value
    array_of : TypeInfo → Elems → Value
    map_of : TypeInfo → List ℕ → Elems → Elems → Value
    struct_of : TypeInfo → Elems → Value

  -- Elements or members, each a value or null.
  pub data Elems : Type 0 where
    no_elems : Elems
    null_elem : Elems → Elems
    elem : Value → Elems → Elems

abbrev pub size : Elems → ℕ
size no_elems = 0
size (null_elem es) = ℕ.suc (size es)
size (elem v es) = ℕ.suc (size es)

abbrev pub add_last : Value → Elems → Elems
add_last v no_elems = elem v no_elems
add_last v (null_elem es) = null_elem (add_last v es)
add_last v (elem w es) = elem w (add_last v es)

unfoldable pub map_key_type_supported : ColumnType → Bool
map_key_type_supported bigint = true
map_key_type_supported float = true
map_key_type_supported double = true
map_key_type_supported string = true
map_key_type_supported boolean = true
map_key_type_supported timestamp = true
map_key_type_supported timestamp_ntz = true
map_key_type_supported _ = false

int_eq : ℤ → ℤ → Bool
int_eq (pos m) (pos n) = m == n
int_eq (negsuc m) (negsuc n) = m == n
int_eq _ _ = false

bool_eq : Bool → Bool → Bool
bool_eq true b = b
bool_eq false true = false
bool_eq false false = true

-- Two keys of one C++ type that std::map holds for the same: neither is less. A NaN is no key that
-- std::map allows.
unfoldable pub key_eq : External → Value → Value → Bool
unfolding int_eq bool_eq bytes_eq
key_eq x (int a) (int b) = int_eq a b
key_eq x (float_bits a) (float_bits b) = not (x.float_less a b) && not (x.float_less b a)
key_eq x (double_bits a) (double_bits b) = not (x.double_less a b) && not (x.double_less b a)
key_eq x (bool a) (bool b) = bool_eq a b
key_eq x (text a) (text b) = bytes_eq a b
key_eq x (time s n) (time t m) = int_eq s t && int_eq n m
key_eq x _ _ = false

-- The key of the table that is equivalent to `k`, or else `k`.
unfoldable pub stored_key : External → Value → Elems → Value
stored_key x k no_elems = k
stored_key x k (null_elem es) = stored_key x k es
stored_key x k (elem v es) = let rest = stored_key x k es in if key_eq x v k then v else rest

abbrev pub indexed_key : Bool → ℕ → Value → List ℕ × Elems → List ℕ × Elems
indexed_key true i v table = table
indexed_key false i v (indices, es) = (i ∷ indices, elem v es)

-- The table without the key `k`.
unfoldable pub without_key : External → Value → List ℕ → Elems → List ℕ × Elems
without_key x k (i ∷ indices) (elem v es) =
    indexed_key (key_eq x v k) i v (without_key x k indices es)
without_key x k indices es = (indices, es)

abbrev pub add_key : ℕ → Value → List ℕ × Elems → List ℕ × Elems
add_key i v (indices, es) = (indices ++ i ∷ [], add_last v es)

-- `indexMap[key] = i` for the largest index so far: a key that is there keeps its value and gets the
-- new index, which puts it last.
unfoldable pub put_key : External → ℕ → Value → List ℕ → Elems → List ℕ × Elems
unfolding stored_key without_key
put_key x i k indices es = add_key i (stored_key x k es) (without_key x k indices es)

-- The loop of ODPSMap::Recover over the key array from the index `i` on: a null key is refused by its
-- getter.
unfoldable pub recover_keys : External → ℕ → Elems → List ℕ → Elems → Result (List ℕ × Elems)
unfolding put_key
recover_keys x i no_elems indices table = ok (indices, table)
recover_keys x i (null_elem es) indices table = err plain_error
recover_keys x i (elem k es) indices table =
    let (indices', table') = put_key x i k indices table in
    recover_keys x (i + 1) es indices' table'
