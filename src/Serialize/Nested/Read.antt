-- ===== src/Serialize/Nested/Read.antt =====
-- ProtoDeserializer::ReadNestedValue and ReadComplexValue.
use aliyun_odps_sdk_cpp.Prelude.{ℕ, zero, suc, Bytes, [], Option, none, some, if◌then◌else◌}
use aliyun_odps_sdk_cpp.Prelude.Int.{ℤ, scale_ℤ}
use aliyun_odps_sdk_cpp.Result.{Result, ok, err, plain_error, ◌>>=◌, ◌>>◌, guard}
use aliyun_odps_sdk_cpp.Types.{
  ColumnType, TypeInfo, TypeInfos, bigint, double, boolean, datetime, string, decimal, tinyint,
  smallint, integer, char, varchar, binary, date, timestamp, float, interval_year_month,
  interval_day_time, array, map, struct, json, timestamp_ntz, info, none_more, more, type_of,
  length_of, plain, seconds_per_day, time_stamp,
}
use aliyun_odps_sdk_cpp.Utf8.{trim_or_padding}
use aliyun_odps_sdk_cpp.Serialize.External.{External}
use aliyun_odps_sdk_cpp.Serialize.Words.{narrow, le_bytes, bytes_of_int64, bytes_of_int32}
use aliyun_odps_sdk_cpp.Serialize.Value.{
  Value, Elems, int, float_bits, double_bits, bool, text, time, array_of, map_of, struct_of,
  no_elems, null_elem, elem, map_key_type_supported, recover_keys,
}
use aliyun_odps_sdk_cpp.Serialize.Nested.Write.{is_complex, element_supported, bool_bits}

-- A value, the input that is left and the register of the record checksum.
abbrev pub Read : Type 0 → Type 0
Read A = Result (A × Bytes × ℕ)

abbrev pub Reader : Type 0 → Type 0
Reader A = Bytes → ℕ → Read A

-- A read of protobuf, and the exception for one that fails.
abbrev pub good_or_fail {ℓ} : {A : Type ℓ} → Option (A × Bytes) → Result (A × Bytes)
good_or_fail none = err plain_error
good_or_fail (some r) = ok r

-- EncodeDate, from days to seconds.
unfoldable pub encode_date : ℤ → ℤ
encode_date ts = scale_ℤ ts seconds_per_day

unfoldable pub make_time : ℤ → ℤ → Value
unfolding time_stamp
make_time sec nano = let (s, n) = time_stamp sec nano in time s n

module _ (x : External) where
  unfoldable pub read_int : (ℤ → ℤ) → Reader Value
  read_int convert input c = good_or_fail (x.read_sint64 input) >>= λ (v, rest).
      ok (int (convert v), rest, x.process_bytes c (bytes_of_int64 v))

  -- The checksum is taken of the text as read.
  unfoldable pub read_text : (Bytes → Result Bytes) → Reader Value
  read_text convert input c = good_or_fail (x.read_bytes input) >>= λ (s, rest).
      convert s >>= λ s'. ok (text s', rest, x.process_bytes c s)

  unfoldable pub read_time : Reader Value
  unfolding make_time
  read_time input c = good_or_fail (x.read_sint64 input) >>= λ (sec, rest).
      good_or_fail (x.read_sint32 rest) >>= λ (nano, rest'). ok (
        make_time sec nano,
        rest',
        x.process_bytes (x.process_bytes c (bytes_of_int64 sec)) (bytes_of_int32 nano),
      )

  -- The switch of ReadNestedValue, but for the complex types.
  unfoldable pub read_scalar : ColumnType → ℤ → Reader Value
  unfolding read_int read_text read_time encode_date bool_bits narrow
  read_scalar tinyint n input c = read_int (narrow 8) input c
  read_scalar smallint n input c = read_int (narrow 16) input c
  read_scalar integer n input c = read_int (narrow 32) input c
  read_scalar date n input c = read_int encode_date input c
  read_scalar bigint n input c = read_int (λ v. v) input c
  read_scalar datetime n input c = read_int (λ v. v) input c
  read_scalar interval_year_month n input c = read_int (λ v. v) input c
  read_scalar float n input c = good_or_fail (x.read_float input) >>= λ (v, rest).
      ok (float_bits v, rest, x.process_bytes c (le_bytes 4 v))
  read_scalar double n input c = good_or_fail (x.read_double input) >>= λ (v, rest).
      ok (double_bits v, rest, x.process_bytes c (le_bytes 8 v))
  read_scalar boolean n input c = good_or_fail (x.read_bool input) >>= λ (v, rest).
      ok (bool v, rest, x.process_bytes c (le_bytes 1 (bool_bits v)))
  read_scalar json n input c = read_text (λ s. trim_or_padding s json n) input c
  read_scalar char n input c = read_text (λ s. trim_or_padding s char n) input c
  read_scalar varchar n input c = read_text (λ s. trim_or_padding s varchar n) input c
  read_scalar string n input c = read_text (λ s. trim_or_padding s string n) input c
  read_scalar binary n input c = read_text (λ s. trim_or_padding s binary n) input c
  read_scalar timestamp n input c = read_time input c
  read_scalar timestamp_ntz n input c = read_time input c
  read_scalar interval_day_time n input c = read_time input c
  read_scalar decimal n input c = read_text ok input c
  read_scalar _ n input c = err plain_error

  -- ReadNestedValue, with the call of ReadComplexValue at the type; `none` is an empty buffer.
  unfoldable pub nested_reader : TypeInfo → Reader Value → Reader (Option Value)
  unfolding read_scalar is_complex
  nested_reader t complex input c = good_or_fail (x.read_bool input) >>= λ (is_null, rest).
      if is_null
      then ok (none, rest, c)
      else ((if is_complex (type_of t)
            then complex rest c
            else read_scalar (type_of t) (length_of t) rest c)
          >>= λ (v, rest', c'). ok (some v, rest', c'))

  unfoldable pub cons_elem : Option Value → Elems → Elems
  cons_elem none es = null_elem es
  cons_elem (some v) es = elem v es

  -- One value, and the values behind it.
  abbrev pub then_read : Read (Option Value) → Reader Elems → Read Elems
  then_read first more_elems = first >>= λ (v, rest, c).
      more_elems rest c >>= λ (es, rest', c'). ok (cons_elem v es, rest', c')

  unfoldable pub read_elems : Reader (Option Value) → ℕ → Reader Elems
  read_elems one zero input c = ok (no_elems, input, c)
  read_elems one (suc count) input c = then_read (one input c) (read_elems one count)

  -- The case ODPS_ARRAY of ReadComplexValue, with the reader of an element.
  unfoldable pub read_array : TypeInfo → Reader (Option Value) → Reader Elems
  unfolding read_elems element_supported
  read_array t one input c = good_or_fail (x.read_uint32 input) >>= λ (count, rest).
      guard (element_supported (type_of t)) plain_error >> read_elems one count rest c

  -- Two reads one after the other, and ODPSMap::Recover.
  unfoldable pub read_map : TypeInfo → Reader Elems → Reader Elems → Reader Value
  unfolding recover_keys
  read_map type keys values input c = keys input c >>= λ (ks, rest, c').
      values rest c' >>= λ (vs, rest', c''). recover_keys x 0 ks [] no_elems >>= λ (indices, table).
      ok (map_of type indices table vs, rest', c'')

  unfoldable mutual
    pub read_complex : TypeInfo → Reader Value
    read_complex (info array p s n m (more t none_more)) input c =
        read_array t (nested_reader t (read_complex t)) input c >>= λ (es, rest, c').
        ok (array_of (info array p s n m (more t none_more)) es, rest, c')
    read_complex (info map p s n m (more k (more t none_more))) input c =
        guard (map_key_type_supported (type_of k)) plain_error
        >> read_map (info map p s n m (more k (more t none_more)))
            (read_array (plain (type_of k))
              (nested_reader (plain (type_of k)) (λ _ _. err plain_error)))
            (read_array t (nested_reader t (read_complex t))) input c
    read_complex (info struct p s n m (more t ts)) input c =
        guard (element_supported (type_of t)) plain_error
        >> then_read (nested_reader t (read_complex t) input c) (read_members ts)
        >>= λ (es, rest, c'). ok (struct_of (info struct p s n m (more t ts)) es, rest, c')
    read_complex _ input c = err plain_error

    pub read_members : TypeInfos → Reader Elems
    read_members none_more input c = ok (no_elems, input, c)
    read_members (more t ts) input c =
        guard (element_supported (type_of t)) plain_error
        >> then_read (nested_reader t (read_complex t) input c) (read_members ts)

  -- ReadNestedValue.
  unfoldable pub read_nested : TypeInfo → Reader (Option Value)
  unfolding nested_reader
  read_nested t input c = nested_reader t (read_complex t) input c
