-- ===== src/Serialize/Tests/Runs.antt =====
-- The theorems of the serializer on two small records.
use aliyun_odps_sdk_cpp.Prelude.{
  ℕ, ◌+◌, ◌<◌, ◌≡◌, ◌≢◌, refl, true, false, Bytes, [], ◌∷◌, ◌++◌, codes, none, some, arith, ◌^◌,
  length, bytes_eq,
}
use aliyun_odps_sdk_cpp.Prelude.Int.{pos, negsuc}
use aliyun_odps_sdk_cpp.Result.{ok, err, internal_error}
use aliyun_odps_sdk_cpp.Types.{
  TypeInfo, info, none_more, more, plain, bigint, string, array, integer, date,
}
use aliyun_odps_sdk_cpp.Serialize.Tests.{plain_coding, plain_coding-Laws}
use aliyun_odps_sdk_cpp.Serialize.Value.{
  recover_keys, put_key, stored_key, without_key, key_eq, Value, int, text, array_of, no_elems,
  null_elem, elem,
}
use aliyun_odps_sdk_cpp.Serialize.Nested.Write.{write_nested, element_supported}
use aliyun_odps_sdk_cpp.Serialize.Nested.Read.{read_nested}
use aliyun_odps_sdk_cpp.Serialize.Nested.Fits.{
  Fits, fits_scalar, fits_array, fits_none, fits_null, fits_elem, is_integer, is_date,
}
use aliyun_odps_sdk_cpp.Serialize.Nested.Scalars.{Copies}
use aliyun_odps_sdk_cpp.Serialize.Nested.RoundTrip.{nested_round_trip}
use aliyun_odps_sdk_cpp.Serialize.Cell.{Sums}
use aliyun_odps_sdk_cpp.Serialize.Cell.Fits.{cell_bigint, cell_string, cell_array}
use aliyun_odps_sdk_cpp.Serialize.Record.{
  Record, Config, Serializer, Deserializer, new_serializer, new_deserializer, serialize,
  deserialize, write_cells, mode_checksum, record_end_tag, meta_total_records_tag,
}
use aliyun_odps_sdk_cpp.Serialize.Record.Fields.{FitsRecord, no_columns, null_column, column}
use aliyun_odps_sdk_cpp.Serialize.Record.RoundTrip.{Sync, record_round_trip}
use aliyun_odps_sdk_cpp.Serialize.Record.Faults.{bad_checksum, bad_count}
use aliyun_odps_sdk_cpp.Serialize.Record.Stream.{
  write_stream, ReadsBack, no_records, more_records, stream_round_trip,
}

abbrev numbers : TypeInfo
numbers = info array (pos 0) (pos 0) (pos 0) [] (more (plain integer) none_more)

abbrev numbers_value : Value
numbers_value = array_of numbers (elem (int (pos 7)) (null_elem (elem (int (negsuc 2)) no_elems)))

abbrev schema : Config
schema = record {
  columns = plain bigint ∷ plain string ∷ numbers ∷ [];
  max_field_size = 100;
  stream = true;
}

abbrev old_schema : Config
old_schema = record schema { stream = false }

abbrev first : Record
first = some (int (negsuc 4)) ∷ some (text (codes "ab")) ∷ some numbers_value ∷ []

abbrev second : Record
second = none ∷ some (text []) ∷ none ∷ []

abbrev blank : Record
blank = none ∷ some (text (codes "old")) ∷ none ∷ []

abbrev dates : TypeInfo
dates = info array (pos 0) (pos 0) (pos 0) [] (more (plain date) none_more)

-- 2024-01-01 and 2206-07-24, as numbers of days.
abbrev dates_value : Value
dates_value = array_of dates (elem (int (pos 19723)) (elem (int (pos 86403)) no_elems))

abbrev dates_read : Value
dates_read = array_of dates (elem (int (pos 0)) (elem (int (pos 86400)) no_elems))

dates-Fits : Fits plain_coding dates dates_value dates_read
unfolding element_supported
dates-Fits = fits_array refl (omega arith) (
    fits_elem (fits_scalar (is_date (omega arith)))
      (fits_elem (fits_scalar (is_date (omega arith))) fits_none))

-- The keys a, b, a: b keeps the index 1, and a gets 2 and stands behind it.
double_key :
    recover_keys plain_coding 0
      (elem (text (codes "a")) (elem (text (codes "b")) (elem (text (codes "a")) no_elems)))
      []
      no_elems
    ≡ ok (1 ∷ 2 ∷ [], elem (text (codes "b")) (elem (text (codes "a")) no_elems))
unfolding recover_keys put_key stored_key without_key key_eq bytes_eq
double_key = refl

numbers-Fits : Fits plain_coding numbers numbers_value numbers_value
unfolding element_supported
numbers-Fits = fits_array refl (omega arith) (
    fits_elem (fits_scalar (is_integer (omega arith) (omega arith)))
      (fits_null (fits_elem (fits_scalar (is_integer (omega arith) (omega arith))) fits_none)))

first-Fits : FitsRecord plain_coding 100 schema.columns first first
first-Fits =
    column (cell_bigint (omega arith)) (
      column (cell_string (omega arith, omega arith)) (column (cell_array numbers-Fits) no_columns))

second-Fits : FitsRecord plain_coding 100 schema.columns second second
second-Fits = null_column (column (cell_string (omega arith, omega arith)) (null_column no_columns))

abbrev writer : Serializer
writer = new_serializer plain_coding

abbrev reader : Deserializer
reader = new_deserializer plain_coding []

start-Sync : Sync plain_coding plain_coding-Laws schema writer reader
unfolding new_serializer new_deserializer
start-Sync = record { in_step = refl; counts = refl; not_ended = refl }

old_start-Sync : Sync plain_coding plain_coding-Laws old_schema writer reader
unfolding new_serializer new_deserializer
old_start-Sync = record { in_step = (refl, refl); counts = refl; not_ended = refl }

few : writer.total_records + length (first ∷ second ∷ []) < 2 ^ 63
unfolding new_serializer
few = omega arith

nested_round_trip_example :
    Copies
      (write_nested plain_coding dates dates_value)
      (read_nested plain_coding dates)
      (some dates_read)
nested_round_trip_example =
    nested_round_trip plain_coding plain_coding-Laws dates dates_value dates_read dates-Fits

stream_round_trip_example :
    (b : Bytes) × (w' : Serializer) × (write_stream plain_coding schema (first ∷ second ∷ []) writer
      ≡ ok w')
    × (w'.output ≡ writer.output ++ b)
    × ReadsBack plain_coding plain_coding-Laws schema (first ∷ second ∷ []) writer b
stream_round_trip_example =
    stream_round_trip plain_coding plain_coding-Laws schema writer (omega arith)
      (more_records first-Fits (more_records second-Fits no_records)) few

record_round_trip_example :
    (b : Bytes) × (w' : Serializer) × (serialize plain_coding old_schema false first writer
      ≡ ok (true, w'))
    × (w'.output ≡ writer.output ++ b)
    × (w'.total_records ≡ writer.total_records + 1)
    × ((rest : Bytes)
        → (d' : Deserializer) × (deserialize plain_coding old_schema blank
              (record reader { input = b ++ rest })
            ≡ ok (true, first, d'))
          × (d'.input ≡ rest)
          × Sync plain_coding plain_coding-Laws old_schema w' d')
record_round_trip_example =
    record_round_trip plain_coding plain_coding-Laws old_schema first first blank writer reader
      (omega arith) refl first-Fits old_start-Sync

bad_checksum_example :
    (bs : Bytes) × (s : Sums) × (write_cells plain_coding old_schema 1 old_schema.columns first
        (record writer.sums { record_crc = 7 })
      ≡ ok (bs, s))
    × ((crc : ℕ) (rest : Bytes)
        → crc < 2 ^ 32
        → crc ≢ mode_checksum plain_coding false s
        → deserialize plain_coding old_schema blank
            (record reader { input = bs ++ (record_end_tag ∷ crc ∷ rest) })
          ≡ err internal_error)
bad_checksum_example =
    bad_checksum plain_coding plain_coding-Laws old_schema first first blank writer reader
      (omega arith) refl first-Fits old_start-Sync

bad_count_example :
    deserialize plain_coding schema blank
      (record reader { input = meta_total_records_tag ∷ 0 ∷ 3 ∷ [] })
    ≡ err internal_error
unfolding new_deserializer
bad_count_example =
    bad_count plain_coding plain_coding-Laws schema blank 3 reader [] refl (omega arith)
      (omega arith)
