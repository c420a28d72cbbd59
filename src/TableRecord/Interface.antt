-- ===== src/TableRecord/Interface.antt =====
-- The public setters of a table's record (include/odps_table.h), each for columns of its own type, and the
-- value of a column as the getter for its type gives it.
use aliyun_odps_sdk_cpp.Prelude.{ℕ, Bool, Bytes, Option, none, some, get_elem?}
use aliyun_odps_sdk_cpp.Prelude.Int.{ℤ}
use aliyun_odps_sdk_cpp.Result.{Result, ok, err, out_of_range, ◌>>=◌}
use aliyun_odps_sdk_cpp.Types.{
  ColumnType, unknown, bigint, double, boolean, datetime, string, decimal, tinyint, smallint,
  integer, char, varchar, binary, date, timestamp, float, interval_year_month, interval_day_time,
  array, map, struct, json, timestamp_ntz,
}
use aliyun_odps_sdk_cpp.TableRecord.{
  TableRecord, or_thrown, get_int_value, get_float_value, get_double_value, get_bool_value,
  get_string_value, get_time_value, get_complex_value, set_int_value, set_float_value,
  set_double_value, set_bool_value, set_string_value, set_time_value, set_complex_value,
  set_null_value,
}

pub data IntSetter : Type 0 where
  set_bigint set_tinyint set_smallint set_integer set_year_month set_datetime set_date : IntSetter

pub data StringSetter : Type 0 where
  set_string set_json set_char set_varchar set_binary set_decimal : StringSetter

pub data TimeSetter : Type 0 where
  set_timestamp set_timestamp_ntz set_day_time : TimeSetter

pub data ComplexSetter : Type 0 where
  set_array set_map set_struct : ComplexSetter

unfoldable pub int_type : IntSetter → ColumnType
int_type set_bigint = bigint
int_type set_tinyint = tinyint
int_type set_smallint = smallint
int_type set_integer = integer
int_type set_year_month = interval_year_month
int_type set_datetime = datetime
int_type set_date = date

unfoldable pub string_type : StringSetter → ColumnType
string_type set_string = string
string_type set_json = json
string_type set_char = char
string_type set_varchar = varchar
string_type set_binary = binary
string_type set_decimal = decimal

unfoldable pub time_type : TimeSetter → ColumnType
time_type set_timestamp = timestamp
time_type set_timestamp_ntz = timestamp_ntz
time_type set_day_time = interval_day_time

unfoldable pub complex_type : ComplexSetter → ColumnType
complex_type set_array = array
complex_type set_map = map
complex_type set_struct = struct

-- A call of a public setter for one type, or of SetNullValue. The public SetIntValue, SetStringValue,
-- SetTimeValue and SetComplexValue that take the type as an argument are not among them: with them a
-- client can write a value of one type into a column of another. A string setter takes a pointer, which may be null, and a length.
pub data Call (C : Type 0) : Type 0 where
  call_int : IntSetter → ℕ → ℤ → Call C
  call_float call_double : ℕ → ℕ → Call C
  call_bool : ℕ → Bool → Call C
  call_string : StringSetter → ℕ → Option Bytes → ℕ → Call C
  call_time : TimeSetter → ℕ → ℤ → ℤ → Call C
  call_complex : ComplexSetter → ℕ → C → Call C
  call_null : ℕ → Call C

unfoldable pub run : {C : Type 0} → Call C → TableRecord C → Result (TableRecord C)
run (call_int s idx v) r = set_int_value r idx v (int_type s)
run (call_float idx v) r = set_float_value r idx v
run (call_double idx v) r = set_double_value r idx v
run (call_bool idx v) r = set_bool_value r idx v
run (call_string s idx value len) r = set_string_value r idx value len (string_type s)
run (call_time s idx sec ns) r = set_time_value r idx sec ns (time_type s)
run (call_complex s idx v) r = set_complex_value r idx v (complex_type s)
run (call_null idx) r = set_null_value r idx

-- What a getter returns, whatever its type.
pub data Item (C : Type 0) : Type 0 where
  int_item : ℤ → Item C
  float_item double_item : ℕ → Item C
  bool_item : Bool → Item C
  string_item : Bytes → Item C
  time_item : ℤ × ℤ → Item C
  complex_item : C → Item C

abbrev pub itemise : {A C : Type 0} → (A → Item C) → Result (Option A) → Result (Option (Item C))
itemise f (err e) = err e
itemise f (ok none) = ok none
itemise f (ok (some a)) = ok (some (f a))

-- The getter for a column of a type; there is none for ODPS_UNKNOWN.
unfoldable pub read_as : {C : Type 0} → ColumnType → TableRecord C → ℕ → Result (Option (Item C))
read_as unknown r idx = ok none
read_as bigint r idx = itemise int_item (get_int_value r idx bigint)
read_as tinyint r idx = itemise int_item (get_int_value r idx tinyint)
read_as smallint r idx = itemise int_item (get_int_value r idx smallint)
read_as integer r idx = itemise int_item (get_int_value r idx integer)
read_as interval_year_month r idx = itemise int_item (get_int_value r idx interval_year_month)
read_as datetime r idx = itemise int_item (get_int_value r idx datetime)
read_as date r idx = itemise int_item (get_int_value r idx date)
read_as float r idx = itemise float_item (get_float_value r idx)
read_as double r idx = itemise double_item (get_double_value r idx)
read_as boolean r idx = itemise bool_item (get_bool_value r idx)
read_as string r idx = itemise string_item (get_string_value r idx string)
read_as json r idx = itemise string_item (get_string_value r idx json)
read_as char r idx = itemise string_item (get_string_value r idx char)
read_as varchar r idx = itemise string_item (get_string_value r idx varchar)
read_as binary r idx = itemise string_item (get_string_value r idx binary)
read_as decimal r idx = itemise string_item (get_string_value r idx decimal)
read_as timestamp r idx = itemise time_item (get_time_value r idx timestamp)
read_as timestamp_ntz r idx = itemise time_item (get_time_value r idx timestamp_ntz)
read_as interval_day_time r idx = itemise time_item (get_time_value r idx interval_day_time)
read_as array r idx = itemise complex_item (get_complex_value r idx array)
read_as map r idx = itemise complex_item (get_complex_value r idx map)
read_as struct r idx = itemise complex_item (get_complex_value r idx struct)

-- The value of a column, none if it is null.
unfoldable pub item_at : {C : Type 0} → TableRecord C → ℕ → Result (Option (Item C))
item_at r idx = or_thrown (err out_of_range) (get_elem? r.types idx) >>= λ t. read_as t r idx
