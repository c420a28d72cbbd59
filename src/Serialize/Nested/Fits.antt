-- ===== src/Serialize/Nested/Fits.antt =====
-- The values that belong to a type description, and what they are read back as: values of the classes
-- in include/odps_array.h, odps_map.h and odps_struct.h.
use aliyun_odps_sdk_cpp.Prelude.{ℕ, ◌^◌, ◌<◌, ◌≡◌, Bool, true, Bytes, length, List, []}
use aliyun_odps_sdk_cpp.Prelude.Int.{ℤ, scale_ℤ, quot_ℤ}
use aliyun_odps_sdk_cpp.Result.{ok}
use aliyun_odps_sdk_cpp.Types.{
  ColumnType, TypeInfo, TypeInfos, bigint, double, boolean, datetime, string, decimal, tinyint,
  smallint, integer, char, varchar, binary, date, timestamp, float, interval_year_month,
  interval_day_time, array, map, struct, json, timestamp_ntz, info, none_more, more, type_of,
  length_of, plain, seconds_per_day, time_stamp,
}
use aliyun_odps_sdk_cpp.Utf8.{trim_or_padding}
use aliyun_odps_sdk_cpp.Serialize.External.{External}
use aliyun_odps_sdk_cpp.Serialize.Words.{IsIntOf}
use aliyun_odps_sdk_cpp.Serialize.Value.{
  Value, Elems, int, float_bits, double_bits, bool, text, time, array_of, map_of, struct_of,
  no_elems, null_elem, elem, size, map_key_type_supported, recover_keys,
}
use aliyun_odps_sdk_cpp.Serialize.Nested.Write.{element_supported}

-- A text whose length is the one its type asks for, and that fits a protobuf length.
abbrev pub IsText : ColumnType → ℤ → Bytes → Type 0
IsText t n s = (trim_or_padding s t n ≡ ok s) × (length s < 2 ^ 31)

-- A normalised time stamp.
abbrev pub IsTime : ℤ → ℤ → Type 0
IsTime sec nano = (time_stamp sec nano ≡ (sec, nano)) × IsIntOf 64 sec × IsIntOf 32 nano

-- What becomes of a DATE inside an array, map or struct: WriteNestedValue divides it by the seconds of
-- a day and ReadNestedValue multiplies, although it is a number of days.
abbrev pub date_read : ℤ → ℤ
date_read v = scale_ℤ (quot_ℤ v seconds_per_day) seconds_per_day

-- A value of the C++ type that belongs to a column type, and the value that is read back:
-- `(type, specified length, value, value read)`. A CHAR or VARCHAR is cut or padded to the length of its
-- type. A text has the length of a protobuf string, which the setters do not ask for.
pub data FitsScalar : ColumnType → ℤ → Value → Value → Type 0 where
  is_tinyint : {n v : ℤ} → IsIntOf 8 v → IsIntOf 64 v → FitsScalar tinyint n (int v) (int v)
  is_smallint : {n v : ℤ} → IsIntOf 16 v → IsIntOf 64 v → FitsScalar smallint n (int v) (int v)
  is_integer : {n v : ℤ} → IsIntOf 32 v → IsIntOf 64 v → FitsScalar integer n (int v) (int v)
  is_bigint : {n v : ℤ} → IsIntOf 64 v → FitsScalar bigint n (int v) (int v)
  is_datetime : {n v : ℤ} → IsIntOf 64 v → FitsScalar datetime n (int v) (int v)
  is_months : {n v : ℤ} → IsIntOf 64 v → FitsScalar interval_year_month n (int v) (int v)
  is_date : {n v : ℤ} → IsIntOf 64 v → FitsScalar date n (int v) (int (date_read v))
  is_float : {n : ℤ} {v : ℕ} → v < 2 ^ 32 → FitsScalar float n (float_bits v) (float_bits v)
  is_double : {n : ℤ} {v : ℕ} → v < 2 ^ 64 → FitsScalar double n (double_bits v) (double_bits v)
  is_boolean : {n : ℤ} {v : Bool} → FitsScalar boolean n (bool v) (bool v)
  is_char :
      {n : ℤ} {s s' : Bytes}
      → trim_or_padding s char n ≡ ok s'
      → IsText char n s'
      → FitsScalar char n (text s) (text s')
  is_varchar :
      {n : ℤ} {s s' : Bytes}
      → trim_or_padding s varchar n ≡ ok s'
      → IsText varchar n s'
      → FitsScalar varchar n (text s) (text s')
  is_string : {n : ℤ} {s : Bytes} → length s < 2 ^ 31 → FitsScalar string n (text s) (text s)
  is_binary : {n : ℤ} {s : Bytes} → length s < 2 ^ 31 → FitsScalar binary n (text s) (text s)
  is_decimal : {n : ℤ} {s : Bytes} → length s < 2 ^ 31 → FitsScalar decimal n (text s) (text s)
  is_json : {n : ℤ} {s : Bytes} → length s < 2 ^ 31 → FitsScalar json n (text s) (text s)
  is_timestamp : {n s t : ℤ} → IsTime s t → FitsScalar timestamp n (time s t) (time s t)
  is_timestamp_ntz : {n s t : ℤ} → IsTime s t → FitsScalar timestamp_ntz n (time s t) (time s t)
  is_day_time : {n s t : ℤ} → IsTime s t → FitsScalar interval_day_time n (time s t) (time s t)

-- A complex value carries the type that it fits; `(type, value, value read)`. The indices and keys of a
-- map are those that ODPSMap::Recover builds of its keys: no key is null, no two are the same, and the
-- indices are 0, 1, 2 and so on, as in a map that the setters have made.
mutual
  pub data Fits (x : External) : TypeInfo → Value → Value → Type 0 where
    fits_scalar :
        {t : TypeInfo} {v v' : Value} → FitsScalar (type_of t) (length_of t) v v' → Fits x t v v'
    fits_array :
        {p s n : ℤ} {m : Bytes} {t : TypeInfo} {es es' : Elems}
        → element_supported (type_of t) ≡ true
        → size es < 2 ^ 32
        → FitsElems x t es es'
        → Fits x
            (info array p s n m (more t none_more))
            (array_of (info array p s n m (more t none_more)) es)
            (array_of (info array p s n m (more t none_more)) es')
    fits_map :
        {p s n : ℤ} {m : Bytes} {k t : TypeInfo} {indices : List ℕ} {ks vs vs' : Elems}
        → map_key_type_supported (type_of k) ≡ true
        → element_supported (type_of t) ≡ true
        → size ks < 2 ^ 32
        → size vs < 2 ^ 32
        → recover_keys x 0 ks [] no_elems ≡ ok (indices, ks)
        → FitsElems x (plain (type_of k)) ks ks
        → FitsElems x t vs vs'
        → Fits x
            (info map p s n m (more k (more t none_more)))
            (map_of (info map p s n m (more k (more t none_more))) indices ks vs)
            (map_of (info map p s n m (more k (more t none_more))) indices ks vs')
    fits_struct :
        {p s n : ℤ} {m : Bytes} {t : TypeInfo} {ts : TypeInfos} {es es' : Elems}
        → FitsMembers x (more t ts) es es'
        → Fits x
            (info struct p s n m (more t ts))
            (struct_of (info struct p s n m (more t ts)) es)
            (struct_of (info struct p s n m (more t ts)) es')

  pub data FitsElems (x : External) : TypeInfo → Elems → Elems → Type 0 where
    fits_none : {t : TypeInfo} → FitsElems x t no_elems no_elems
    fits_null :
        {t : TypeInfo} {es es' : Elems}
        → FitsElems x t es es'
        → FitsElems x t (null_elem es) (null_elem es')
    fits_elem :
        {t : TypeInfo} {v v' : Value} {es es' : Elems}
        → Fits x t v v'
        → FitsElems x t es es'
        → FitsElems x t (elem v es) (elem v' es')

  pub data FitsMembers (x : External) : TypeInfos → Elems → Elems → Type 0 where
    members_none : FitsMembers x none_more no_elems no_elems
    members_null :
        {t : TypeInfo} {ts : TypeInfos} {es es' : Elems}
        → element_supported (type_of t) ≡ true
        → FitsMembers x ts es es'
        → FitsMembers x (more t ts) (null_elem es) (null_elem es')
    members_elem :
        {t : TypeInfo} {ts : TypeInfos} {v v' : Value} {es es' : Elems}
        → element_supported (type_of t) ≡ true
        → Fits x t v v'
        → FitsMembers x ts es es'
        → FitsMembers x (more t ts) (elem v es) (elem v' es')
