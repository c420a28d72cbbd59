-- ===== src/Members.antt =====
-- The values inside arrays and structs of a record: common/odps_array.cpp and common/odps_struct.cpp
-- with include/odps_array.h and include/odps_struct.h. A `shared_ptr<void>` is null or points to a
-- value that has kept the C++ type that it was made with; a cast to another type is undefined. An
-- array, map or struct inside is a parameter. A read or write out of range is undefined, since
-- `operator[]` of std::vector does not check.
pub mod Array
pub mod Struct
mod Typed
mod Elements
mod Arrays
mod Structs
mod Tests
use aliyun_odps_sdk_cpp.Prelude.{
  ℕ, Bool, true, false, Bytes, List, [], ◌∷◌, ◌++◌, Option, none, some, length, get_elem?, set,
  ◌==◌, if◌then◌else◌, map,
}
use aliyun_odps_sdk_cpp.Prelude.Int.{ℤ}
use aliyun_odps_sdk_cpp.Result.{Result, ok, err, plain_error, undefined, guard, ◌>>=◌, ◌>>◌}
use aliyun_odps_sdk_cpp.Types.{
  ColumnType, bigint, double, boolean, datetime, string, decimal, tinyint, smallint, integer, char,
  varchar, binary, date, timestamp, float, interval_year_month, interval_day_time, array, struct,
  timestamp_ntz,
}
use aliyun_odps_sdk_cpp.Types
use aliyun_odps_sdk_cpp.TableRecord.{type_code}

pub data CppType : Type 0 where
  int8 int16 int32 int64 float_type double_type bool_type string_type time_type : CppType
  array_type map_type struct_type : CppType

-- What a pointer points to.
pub data Stored (C : Type 0) : Type 0 where
  int8_value int16_value int32_value int64_value : ℤ → Stored C
  float_value double_value : ℕ → Stored C
  bool_value : Bool → Stored C
  string_value : Bytes → Stored C
  time_value : ℤ → ℤ → Stored C
  array_value map_value struct_value : C → Stored C

unfoldable pub cpp_type : {C : Type 0} → Stored C → CppType
cpp_type (int8_value v) = int8
cpp_type (int16_value v) = int16
cpp_type (int32_value v) = int32
cpp_type (int64_value v) = int64
cpp_type (float_value v) = float_type
cpp_type (double_value v) = double_type
cpp_type (bool_value v) = bool_type
cpp_type (string_value v) = string_type
cpp_type (time_value sec ns) = time_type
cpp_type (array_value v) = array_type
cpp_type (map_value v) = map_type
cpp_type (struct_value v) = struct_type

unfoldable pub cpp_code : CppType → ℕ
cpp_code int8 = 0
cpp_code int16 = 1
cpp_code int32 = 2
cpp_code int64 = 3
cpp_code float_type = 4
cpp_code double_type = 5
cpp_code bool_type = 6
cpp_code string_type = 7
cpp_code time_type = 8
cpp_code array_type = 9
cpp_code map_type = 10
cpp_code struct_type = 11

-- The getters, named without their `Get` and `Value`.
pub data Getter : Type 0 where
  get_tiny_int get_small_int get_integer get_big_int get_float get_double get_bool : Getter
  get_datetime get_date get_interval_year_month : Getter
  get_string get_char get_varchar get_binary get_decimal : Getter
  get_timestamp get_timestamp_ntz get_interval_day_time : Getter
  get_array get_map get_struct : Getter

-- The type of the members that a getter is for, and the C++ type that it reads.
unfoldable pub getter_type : Getter → ColumnType
getter_type get_tiny_int = tinyint
getter_type get_small_int = smallint
getter_type get_integer = integer
getter_type get_big_int = bigint
getter_type get_float = float
getter_type get_double = double
getter_type get_bool = boolean
getter_type get_datetime = datetime
getter_type get_date = date
getter_type get_interval_year_month = interval_year_month
getter_type get_string = string
getter_type get_char = char
getter_type get_varchar = varchar
getter_type get_binary = binary
getter_type get_decimal = decimal
getter_type get_timestamp = timestamp
getter_type get_timestamp_ntz = timestamp_ntz
getter_type get_interval_day_time = interval_day_time
getter_type get_array = array
getter_type get_map = Types.map
getter_type get_struct = struct

unfoldable pub getter_cast : Getter → CppType
getter_cast get_tiny_int = int8
getter_cast get_small_int = int16
getter_cast get_integer = int32
getter_cast get_big_int = int64
getter_cast get_float = float_type
getter_cast get_double = double_type
getter_cast get_bool = bool_type
getter_cast get_datetime = int64
getter_cast get_date = int64
getter_cast get_interval_year_month = int64
getter_cast get_string = string_type
getter_cast get_char = string_type
getter_cast get_varchar = string_type
getter_cast get_binary = string_type
getter_cast get_decimal = string_type
getter_cast get_timestamp = time_type
getter_cast get_timestamp_ntz = time_type
getter_cast get_interval_day_time = time_type
getter_cast get_array = array_type
getter_cast get_map = map_type
getter_cast get_struct = struct_type

-- The last three return the pointer, the others what it points to.
unfoldable pub getter_returns_pointer : Getter → Bool
getter_returns_pointer get_array = true
getter_returns_pointer get_map = true
getter_returns_pointer get_struct = true
getter_returns_pointer other = false

-- What a setter or an append stores, named without its `Set` or `Append` and `Value`. The pointers to
-- arrays, maps and structs may be null.
pub data Value (C : Type 0) : Type 0 where
  tiny_int small_int integer_of big_int datetime_of date_of year_month : ℤ → Value C
  float_of double_of : ℕ → Value C
  bool_of : Bool → Value C
  string_of char_of varchar_of binary_of decimal_of : Bytes → Value C
  timestamp_of timestamp_ntz_of day_time : ℤ → ℤ → Value C
  array_of map_of struct_of : Option C → Value C

unfoldable pub value_type : {C : Type 0} → Value C → ColumnType
value_type (tiny_int v) = tinyint
value_type (small_int v) = smallint
value_type (integer_of v) = integer
value_type (big_int v) = bigint
value_type (datetime_of v) = datetime
value_type (date_of v) = date
value_type (year_month v) = interval_year_month
value_type (float_of v) = float
value_type (double_of v) = double
value_type (bool_of v) = boolean
value_type (string_of v) = string
value_type (char_of v) = char
value_type (varchar_of v) = varchar
value_type (binary_of v) = binary
value_type (decimal_of v) = decimal
value_type (timestamp_of sec ns) = timestamp
value_type (timestamp_ntz_of sec ns) = timestamp_ntz
value_type (day_time sec ns) = interval_day_time
value_type (array_of v) = array
value_type (map_of v) = Types.map
value_type (struct_of v) = struct

-- The pointer with the type that the method's template argument gives.
unfoldable pub stored : {C : Type 0} → Value C → Option (Stored C)
stored (tiny_int v) = some (int8_value v)
stored (small_int v) = some (int16_value v)
stored (integer_of v) = some (int32_value v)
stored (big_int v) = some (int64_value v)
stored (datetime_of v) = some (int64_value v)
stored (date_of v) = some (int64_value v)
stored (year_month v) = some (int64_value v)
stored (float_of v) = some (float_value v)
stored (double_of v) = some (double_value v)
stored (bool_of v) = some (bool_value v)
stored (string_of v) = some (string_value v)
stored (char_of v) = some (string_value v)
stored (varchar_of v) = some (string_value v)
stored (binary_of v) = some (string_value v)
stored (decimal_of v) = some (string_value v)
stored (timestamp_of sec ns) = some (time_value sec ns)
stored (timestamp_ntz_of sec ns) = some (time_value sec ns)
stored (day_time sec ns) = some (time_value sec ns)
stored (array_of none) = none
stored (array_of (some v)) = some (array_value v)
stored (map_of none) = none
stored (map_of (some v)) = some (map_value v)
stored (struct_of none) = none
stored (struct_of (some v)) = some (struct_value v)

-- Whether the method stores the pointer that it is given (RewritePtr), or a value (Rewrite).
unfoldable pub stores_pointer : {C : Type 0} → Value C → Bool
stores_pointer (array_of v) = true
stores_pointer (map_of v) = true
stores_pointer (struct_of v) = true
stores_pointer other = false

abbrev pub found_at : {A : Type 0} → Option A → Result A
found_at none = err undefined
found_at (some a) = ok a

unfoldable pub at_index : {A : Type 0} → ℕ → List A → Result A
at_index idx xs = found_at (get_elem? xs idx)

unfoldable pub type_check : ColumnType → ColumnType → Result (Unit {0})
type_check type op_type = guard (type_code op_type == type_code type) plain_error

-- What Access and AccessPtr do with the pointer.
unfoldable pub dereference : {C : Type 0} → Getter → Option (Stored C) → Result (Option (Stored C))
dereference g none = if getter_returns_pointer g then ok none else err undefined
dereference g (some v) =
    guard (cpp_code (cpp_type v) == cpp_code (getter_cast g)) undefined >> ok (some v)
