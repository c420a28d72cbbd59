-- ===== src/Serialize/Nested/Write.antt =====
-- ProtoSerializer::WriteNestedValue and WriteComplexValue.
use aliyun_odps_sdk_cpp.Prelude.{ℕ, Bool, true, false, Bytes, [], ◌++◌, length, if◌then◌else◌}
use aliyun_odps_sdk_cpp.Prelude.Int.{ℤ, quot_ℤ}
use aliyun_odps_sdk_cpp.Result.{Result, ok, err, plain_error, undefined, ◌>>=◌, ◌>>◌, guard}
use aliyun_odps_sdk_cpp.Types.{
  ColumnType, TypeInfo, TypeInfos, unknown, bigint, double, boolean, datetime, string, decimal,
  tinyint, smallint, integer, char, varchar, binary, date, timestamp, float, interval_year_month,
  interval_day_time, array, map, struct, json, timestamp_ntz, info, none_more, more, type_of,
  length_of, plain, seconds_per_day,
}
use aliyun_odps_sdk_cpp.Utf8.{trim_or_padding}
use aliyun_odps_sdk_cpp.Serialize.External.{External}
use aliyun_odps_sdk_cpp.Serialize.Words.{le_bytes, bytes_of_int64, bytes_of_int32}
use aliyun_odps_sdk_cpp.Serialize.Value.{
  Value, Elems, int, float_bits, double_bits, bool, text, time, array_of, map_of, struct_of,
  no_elems, null_elem, elem, size, map_key_type_supported,
}

abbrev pub Written : Type 0
Written = Result (Bytes × ℕ)

-- The cases ODPS_ARRAY, ODPS_MAP and ODPS_STRUCT of the switches.
unfoldable pub is_complex : ColumnType → Bool
is_complex array = true
is_complex map = true
is_complex struct = true
is_complex _ = false

-- The types that the switches over element and member types list.
unfoldable pub element_supported : ColumnType → Bool
element_supported unknown = false
element_supported json = false
element_supported _ = true

unfoldable pub bool_bits : Bool → ℕ
bool_bits true = 1
bool_bits false = 0

-- DecodeDate, from seconds to days. WriteNestedValue calls it on a number of days.
unfoldable pub decode_date : ℤ → ℤ
decode_date ts = quot_ℤ ts seconds_per_day

module _ (x : External) where
  unfoldable pub write_int : ℤ → ℕ → Written
  write_int v c = ok (x.write_sint64_no_tag v, x.process_bytes c (bytes_of_int64 v))

  unfoldable pub write_text : Bytes → ℕ → Written
  write_text s c = ok (x.write_varint32 (length s) ++ s, x.process_bytes c s)

  unfoldable pub write_time : ℤ → ℤ → ℕ → Written
  write_time sec nano c = ok (
    x.write_sint64_no_tag sec ++ x.write_sint32_no_tag nano,
    x.process_bytes (x.process_bytes c (bytes_of_int64 sec)) (bytes_of_int32 nano),
  )

  -- The switch of WriteNestedValue, but for the complex types. The getters hand over a value of the
  -- C++ type that belongs to the column type: the last clause stands for their exceptions.
  unfoldable pub write_scalar : ColumnType → ℤ → Value → ℕ → Written
  unfolding write_int write_text write_time bool_bits decode_date
  write_scalar tinyint n (int v) c = write_int v c
  write_scalar smallint n (int v) c = write_int v c
  write_scalar integer n (int v) c = write_int v c
  write_scalar date n (int v) c = write_int (decode_date v) c
  write_scalar bigint n (int v) c = write_int v c
  write_scalar datetime n (int v) c = write_int v c
  write_scalar interval_year_month n (int v) c = write_int v c
  write_scalar float n (float_bits v) c =
      ok (x.write_float_no_tag v, x.process_bytes c (le_bytes 4 v))
  write_scalar double n (double_bits v) c =
      ok (x.write_double_no_tag v, x.process_bytes c (le_bytes 8 v))
  write_scalar boolean n (bool v) c =
      ok (x.write_bool_no_tag v, x.process_bytes c (le_bytes 1 (bool_bits v)))
  write_scalar json n (text s) c = trim_or_padding s json n >>= λ s'. write_text s' c
  write_scalar char n (text s) c = trim_or_padding s char n >>= λ s'. write_text s' c
  write_scalar varchar n (text s) c = trim_or_padding s varchar n >>= λ s'. write_text s' c
  write_scalar string n (text s) c = trim_or_padding s string n >>= λ s'. write_text s' c
  write_scalar binary n (text s) c = trim_or_padding s binary n >>= λ s'. write_text s' c
  write_scalar timestamp n (time sec nano) c = write_time sec nano c
  write_scalar timestamp_ntz n (time sec nano) c = write_time sec nano c
  write_scalar interval_day_time n (time sec nano) c = write_time sec nano c
  write_scalar decimal n (text s) c = write_text s c
  write_scalar _ n v c = err plain_error

  -- WriteNestedValue, with the call of WriteComplexValue on the value.
  unfoldable pub nested : TypeInfo → Value → (ℕ → Written) → ℕ → Written
  unfolding write_scalar is_complex
  nested t v complex c =
      (if is_complex (type_of t) then complex c else write_scalar (type_of t) (length_of t) v c)
      >>= λ (b, c'). ok (x.write_bool_no_tag false ++ b, c')

  -- The two writes one after the other.
  abbrev pub then_write : Written → (ℕ → Written) → Written
  then_write first second = first >>= λ (b, c'). second c' >>= λ (b', c''). ok (b ++ b', c'')

  -- The case ODPS_ARRAY of WriteComplexValue, with the loop over the elements.
  unfoldable pub array_body : TypeInfo → ℕ → (ℕ → Written) → ℕ → Written
  unfolding element_supported
  array_body t count elems c =
      guard (element_supported (type_of t)) plain_error
      >> (elems c >>= λ (b, c'). ok (x.write_uint32_no_tag count ++ b, c'))

  unfoldable mutual
    pub write_complex : Value → ℕ → Written
    write_complex (array_of (info ty p s n m (more t ts)) es) c =
        array_body t (size es) (write_elems es t) c
    write_complex (map_of (info ty p s n m (more k (more t ts))) indices ks vs) c =
        guard (map_key_type_supported (type_of k)) plain_error
        >> then_write
            (array_body (plain (type_of k)) (size ks) (write_elems ks (plain (type_of k))) c)
            (array_body t (size vs) (write_elems vs t))
    write_complex (struct_of (info ty p s n m ts) es) c = write_members es ts c
    write_complex _ c = err plain_error

    pub write_elems : Elems → TypeInfo → ℕ → Written
    write_elems no_elems t c = ok ([], c)
    write_elems (null_elem es) t c =
        then_write (ok (x.write_bool_no_tag true, c)) (write_elems es t)
    write_elems (elem v es) t c = then_write (nested t v (write_complex v) c) (write_elems es t)

    pub write_members : Elems → TypeInfos → ℕ → Written
    write_members no_elems none_more c = ok ([], c)
    write_members (null_elem es) (more t ts) c =
        then_write (ok (x.write_bool_no_tag true, c)) (write_members es ts)
    write_members (elem v es) (more t ts) c =
        guard (element_supported (type_of t)) plain_error
        >> then_write (nested t v (write_complex v) c) (write_members es ts)
    write_members _ _ c = err undefined

  -- WriteNestedValue.
  unfoldable pub write_nested : TypeInfo → Value → ℕ → Written
  unfolding nested
  write_nested t v c = nested t v (write_complex v) c
