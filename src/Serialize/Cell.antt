-- ===== src/Serialize/Cell.antt =====
-- tunnel/serialize.cpp: one column of a record, ProtoSerializer::WriteCell and the switch over the
-- column type in ProtoDeserializer::Deserialize, with the setters of tunnel/odps_table_record.cpp.
pub mod Fits
pub mod RoundTrip
use aliyun_odps_sdk_cpp.Prelude.{
  ℕ, suc, ◌+◌, Bool, true, false, Bytes, List, [], ◌∷◌, ◌++◌, Option, none, some, length, ltb,
  if◌then◌else◌,
}
use aliyun_odps_sdk_cpp.Prelude.Int.{ℤ}
use aliyun_odps_sdk_cpp.Result.{
  Result, ok, err, internal_error, invalid_argument, plain_error, ◌>>=◌, ◌>>◌, guard,
}
use aliyun_odps_sdk_cpp.Types.{
  ColumnType, TypeInfo, bigint, double, boolean, datetime, string, decimal, tinyint, smallint,
  integer, char, varchar, binary, date, timestamp, float, interval_year_month, interval_day_time,
  array, map, struct, json, timestamp_ntz, type_of,
}
use aliyun_odps_sdk_cpp.Serialize.External.{External, wiretype_length_delimited}
use aliyun_odps_sdk_cpp.Serialize.Words.{le_bytes, bytes_of_int64, bytes_of_int32}
use aliyun_odps_sdk_cpp.Serialize.Value.{
  Value, int, float_bits, double_bits, bool, text, time, array_of, map_of, struct_of,
}
use aliyun_odps_sdk_cpp.Serialize.Nested.Write.{bool_bits, write_complex, Written}
use aliyun_odps_sdk_cpp.Serialize.Nested.Read.{make_time, read_complex, Read}

-- The registers of mRecordCrc and mCodedChecksum.
pub record Sums : Type 0 where
  pub record_crc : ℕ
  pub coded : ℕ

abbrev pub CellWritten : Type 0
CellWritten = Result (Bytes × Sums)

abbrev pub CellRead : Type 0
CellRead = Result (Value × Bytes × Sums)

-- A read of protobuf in Deserialize, and its exception.
abbrev pub or_internal {ℓ} : {A : Type ℓ} → Option A → Result A
or_internal none = err internal_error
or_internal (some r) = ok r

-- The calls of mCodedChecksum that take these bytes, one after the other.
unfoldable pub put_all : External → List Bytes → ℕ → ℕ
put_all x [] c = c
put_all x (b ∷ bs) c = put_all x bs (x.process_bytes c b)

module _ (x : External) (stream : Bool) where
  -- `if (mDoStreamChecksum) mCodedChecksum.Put…; else mRecordCrc.process_bytes…;`
  abbrev pub sum_either : List Bytes → Bytes → Sums → Sums
  sum_either puts raw s =
      if stream
      then record s { coded = put_all x puts s.coded }
      else record s { record_crc = x.process_bytes s.record_crc raw }

  abbrev pub sum_record : Bytes → Sums → Sums
  sum_record raw s = record s { record_crc = x.process_bytes s.record_crc raw }

  abbrev pub put_text : ℕ → Bytes → List Bytes
  put_text index v =
      x.write_tag index wiretype_length_delimited ∷ x.write_varint32 (length v) ∷ v ∷ []

  unfoldable pub cell_text : ℕ → Bytes → Sums → CellWritten
  cell_text index v s = ok (
    x.write_tag index wiretype_length_delimited ++ (x.write_varint32 (length v) ++ v),
    sum_either (put_text index v) v s,
  )

  unfoldable pub cell_int : ℕ → ℤ → Sums → CellWritten
  cell_int index v s =
      ok (x.write_sint64 index v, sum_either (x.write_sint64 index v ∷ []) (bytes_of_int64 v) s)

  unfoldable pub cell_time : ℕ → ℤ → ℤ → Sums → CellWritten
  cell_time index sec nano s = ok (
    x.write_tag index wiretype_length_delimited
        ++ (x.write_sint64_no_tag sec ++ x.write_sint32_no_tag nano),
    sum_record (bytes_of_int32 nano) (sum_record (bytes_of_int64 sec) s),
  )

  -- WriteComplexValue behind the tag of the column.
  unfoldable pub cell_complex : ℕ → (ℕ → Written) → Sums → CellWritten
  cell_complex index complex s = complex s.record_crc >>= λ (b, c).
      ok (x.write_tag index wiretype_length_delimited ++ b, record s { record_crc = c })

  -- The switch of WriteCell. The getters check that the value belongs to the column's type: the
  -- last clause stands for their exceptions and for the default case.
  unfoldable pub write_value : ℕ → ColumnType → Value → Sums → CellWritten
  unfolding cell_text cell_int cell_time cell_complex
  write_value index json (text v) s = cell_text index v s
  write_value index string (text v) s = cell_text index v s
  write_value index char (text v) s = cell_text index v s
  write_value index varchar (text v) s = cell_text index v s
  write_value index binary (text v) s = cell_text index v s
  write_value index decimal (text v) s = cell_text index v s
  write_value index bigint (int v) s = cell_int index v s
  write_value index tinyint (int v) s = cell_int index v s
  write_value index smallint (int v) s = cell_int index v s
  write_value index integer (int v) s = cell_int index v s
  write_value index datetime (int v) s = cell_int index v s
  write_value index date (int v) s = cell_int index v s
  write_value index interval_year_month (int v) s = cell_int index v s
  write_value index float (float_bits v) s = ok (
    x.write_float index v,
    sum_either (x.write_double index (x.float_to_double v) ∷ []) (le_bytes 4 v) s,
  )
  write_value index double (double_bits v) s =
      ok (x.write_double index v, sum_either (x.write_double index v ∷ []) (le_bytes 8 v) s)
  write_value index boolean (bool v) s =
      ok (x.write_bool index v, sum_either (x.write_bool index v ∷ []) (le_bytes 1 (bool_bits v)) s)
  write_value index timestamp (time sec nano) s = cell_time index sec nano s
  write_value index timestamp_ntz (time sec nano) s = cell_time index sec nano s
  write_value index interval_day_time (time sec nano) s = cell_time index sec nano s
  write_value index struct (struct_of t es) s =
      cell_complex index (write_complex x (struct_of t es)) s
  write_value index array (array_of t es) s = cell_complex index (write_complex x (array_of t es)) s
  write_value index map (map_of t is ks vs) s =
      cell_complex index (write_complex x (map_of t is ks vs)) s
  write_value index _ v s = err internal_error

  -- WriteCell: a null column leaves no trace.
  unfoldable pub write_cell : ℕ → TypeInfo → Option Value → Sums → CellWritten
  unfolding write_value
  write_cell index t none s = ok ([], s)
  write_cell index t (some v) s = write_value index (type_of t) v (sum_record (le_bytes 4 index) s)

  unfoldable pub column_int : ℕ → Bytes → Sums → CellRead
  column_int index input s = or_internal (x.read_sint64 input) >>= λ (v, rest).
      ok (int v, rest, sum_either (x.write_sint64 index v ∷ []) (bytes_of_int64 v) s)

  -- With SetStringValue, which refuses a text above the field size of the schema.
  unfoldable pub column_text : ℕ → ℕ → Bytes → Sums → CellRead
  column_text max_field_size index input s = or_internal (x.read_bytes input) >>= λ (v, rest).
      if ltb max_field_size (length v)
      then err invalid_argument
      else ok (text v, rest, sum_either (put_text index v) v s)

  unfoldable pub column_time : Bytes → Sums → CellRead
  column_time input s = or_internal (x.read_sint64 input) >>= λ (sec, rest).
      or_internal (x.read_sint32 rest) >>= λ (nano, rest'). ok (
        make_time sec nano,
        rest',
        sum_record (bytes_of_int32 nano) (sum_record (bytes_of_int64 sec) s),
      )

  unfoldable pub column_complex : (ℕ → Read Value) → Sums → CellRead
  column_complex complex s =
      complex s.record_crc >>= λ (v, rest, c). ok (v, rest, record s { record_crc = c })

  -- The switch over the column type in Deserialize: the value read, for the setter of its column.
  unfoldable pub read_value : ℕ → ℕ → TypeInfo → ColumnType → Bytes → Sums → CellRead
  unfolding column_int column_text column_time column_complex
  read_value limit index t bigint input s = column_int index input s
  read_value limit index t tinyint input s = column_int index input s
  read_value limit index t smallint input s = column_int index input s
  read_value limit index t integer input s = column_int index input s
  read_value limit index t datetime input s = column_int index input s
  read_value limit index t date input s = column_int index input s
  read_value limit index t interval_year_month input s = column_int index input s
  read_value limit index t json input s = column_text limit index input s
  read_value limit index t string input s = column_text limit index input s
  read_value limit index t char input s = column_text limit index input s
  read_value limit index t varchar input s = column_text limit index input s
  read_value limit index t binary input s = column_text limit index input s
  read_value limit index t decimal input s = column_text limit index input s
  read_value limit index t boolean input s = or_internal (x.read_bool input) >>= λ (v, rest).
      ok (bool v, rest, sum_either (x.write_bool index v ∷ []) (le_bytes 1 (bool_bits v)) s)
  read_value limit index t double input s = or_internal (x.read_double input) >>= λ (v, rest).
      ok (double_bits v, rest, sum_either (x.write_double index v ∷ []) (le_bytes 8 v) s)
  read_value limit index t float input s = or_internal (x.read_float input) >>= λ (v, rest). ok (
    float_bits v,
    rest,
    sum_either (x.write_double index (x.float_to_double v) ∷ []) (le_bytes 4 v) s,
  )
  read_value limit index t timestamp input s = column_time input s
  read_value limit index t timestamp_ntz input s = column_time input s
  read_value limit index t interval_day_time input s = column_time input s
  read_value limit index t array input s = column_complex (read_complex x t input) s
  read_value limit index t map input s = column_complex (read_complex x t input) s
  read_value limit index t struct input s = column_complex (read_complex x t input) s
  read_value limit index t _ input s = err internal_error
