-- ===== src/Serialize/Cell/Fits.antt =====
-- The values that the setters of a record let into a column (tunnel/odps_table_record.cpp), and what they
-- are read back as.
use aliyun_odps_sdk_cpp.Prelude.{ℕ, ◌^◌, ◌<◌, ◌≤◌, Bool, Bytes, List, length}
use aliyun_odps_sdk_cpp.Prelude.Int.{ℤ}
use aliyun_odps_sdk_cpp.Types.{
  ColumnType, TypeInfo, bigint, double, boolean, datetime, string, decimal, tinyint, smallint,
  integer, char, varchar, binary, date, timestamp, float, interval_year_month, interval_day_time,
  array, map, struct, json, timestamp_ntz,
}
use aliyun_odps_sdk_cpp.Serialize.External.{External}
use aliyun_odps_sdk_cpp.Serialize.Words.{IsIntOf}
use aliyun_odps_sdk_cpp.Serialize.Value.{
  Value, Elems, int, float_bits, double_bits, bool, text, time, array_of, map_of, struct_of,
}
use aliyun_odps_sdk_cpp.Serialize.Nested.Fits.{IsTime, Fits}

-- A text within the field size of the schema and the length of a protobuf string.
abbrev pub IsFieldText : ℕ → Bytes → Type 0
IsFieldText limit s = (length s ≤ limit) × (length s < 2 ^ 31)

pub data FitsCell (x : External) (limit : ℕ) : TypeInfo → ColumnType → Value → Value → Type 0 where
  cell_bigint : {t : TypeInfo} {v : ℤ} → IsIntOf 64 v → FitsCell x limit t bigint (int v) (int v)
  cell_tinyint : {t : TypeInfo} {v : ℤ} → IsIntOf 64 v → FitsCell x limit t tinyint (int v) (int v)
  cell_smallint :
      {t : TypeInfo} {v : ℤ} → IsIntOf 64 v → FitsCell x limit t smallint (int v) (int v)
  cell_integer : {t : TypeInfo} {v : ℤ} → IsIntOf 64 v → FitsCell x limit t integer (int v) (int v)
  cell_datetime :
      {t : TypeInfo} {v : ℤ} → IsIntOf 64 v → FitsCell x limit t datetime (int v) (int v)
  cell_date : {t : TypeInfo} {v : ℤ} → IsIntOf 64 v → FitsCell x limit t date (int v) (int v)
  cell_months :
      {t : TypeInfo} {v : ℤ} → IsIntOf 64 v → FitsCell x limit t interval_year_month (int v) (int v)
  cell_json :
      {t : TypeInfo} {s : Bytes} → IsFieldText limit s → FitsCell x limit t json (text s) (text s)
  cell_string :
      {t : TypeInfo} {s : Bytes} → IsFieldText limit s → FitsCell x limit t string (text s) (text s)
  cell_char :
      {t : TypeInfo} {s : Bytes} → IsFieldText limit s → FitsCell x limit t char (text s) (text s)
  cell_varchar :
      {t : TypeInfo} {s : Bytes}
      → IsFieldText limit s
      → FitsCell x limit t varchar (text s) (text s)
  cell_binary :
      {t : TypeInfo} {s : Bytes} → IsFieldText limit s → FitsCell x limit t binary (text s) (text s)
  cell_decimal :
      {t : TypeInfo} {s : Bytes}
      → IsFieldText limit s
      → FitsCell x limit t decimal (text s) (text s)
  cell_boolean : {t : TypeInfo} {v : Bool} → FitsCell x limit t boolean (bool v) (bool v)
  cell_float :
      {t : TypeInfo} {v : ℕ} → v < 2 ^ 32 → FitsCell x limit t float (float_bits v) (float_bits v)
  cell_double :
      {t : TypeInfo} {v : ℕ}
      → v < 2 ^ 64
      → FitsCell x limit t double (double_bits v) (double_bits v)
  cell_timestamp :
      {t : TypeInfo} {s n : ℤ} → IsTime s n → FitsCell x limit t timestamp (time s n) (time s n)
  cell_timestamp_ntz :
      {t : TypeInfo} {s n : ℤ} → IsTime s n → FitsCell x limit t timestamp_ntz (time s n) (time s n)
  cell_day_time :
      {t : TypeInfo} {s n : ℤ}
      → IsTime s n
      → FitsCell x limit t interval_day_time (time s n) (time s n)
  cell_array :
      {t u : TypeInfo} {es : Elems} {v : Value}
      → Fits x t (array_of u es) v
      → FitsCell x limit t array (array_of u es) v
  cell_map :
      {t u : TypeInfo} {indices : List ℕ} {ks vs : Elems} {v : Value}
      → Fits x t (map_of u indices ks vs) v
      → FitsCell x limit t map (map_of u indices ks vs) v
  cell_struct :
      {t u : TypeInfo} {es : Elems} {v : Value}
      → Fits x t (struct_of u es) v
      → FitsCell x limit t struct (struct_of u es) v
