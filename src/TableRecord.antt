-- ===== src/TableRecord.antt =====
-- The record of a table with its typed columns (include/odps_table.h, tunnel/odps_table_record.cpp).
-- Each column has eight bytes of mRawData: a value, or a pointer into one of the record's buffers.
mod Interface
mod Own
pub mod Frame
mod Setters
mod Columns
mod Calls
mod Reach
mod Tests
use aliyun_odps_sdk_cpp.Prelude.{
  ℕ, zero, suc, ◌+◌, ◌-◌, ◌%◌, ◌^◌, Bool, true, false, not, Bytes, List, [], ◌∷◌, Option, none,
  some, length, get_elem?, set, take, replicate, ltb, ◌==◌, if◌then◌else◌,
}
use aliyun_odps_sdk_cpp.Prelude.Int.{ℤ}
use aliyun_odps_sdk_cpp.Result.{
  Result, ok, err, invalid_argument, out_of_range, undefined, guard, ◌>>=◌, ◌>>◌,
}
use aliyun_odps_sdk_cpp.Types.{
  ColumnType, unknown, bigint, double, boolean, datetime, string, decimal, tinyint, smallint,
  integer, char, varchar, binary, date, timestamp, float, interval_year_month, interval_day_time,
  array, map, struct, json, timestamp_ntz, time_stamp,
}

-- The value of an enumerator, and one more.
unfoldable pub type_code : ColumnType → ℕ
type_code unknown = 0
type_code bigint = 1
type_code double = 2
type_code boolean = 3
type_code datetime = 4
type_code string = 5
type_code decimal = 6
type_code tinyint = 7
type_code smallint = 8
type_code integer = 9
type_code char = 10
type_code varchar = 11
type_code binary = 12
type_code date = 13
type_code timestamp = 14
type_code float = 15
type_code interval_year_month = 16
type_code interval_day_time = 17
type_code array = 18
type_code map = 19
type_code struct = 20
type_code json = 21
type_code timestamp_ntz = 22

-- What the eight bytes of a column hold: zeros, what an assignment through a pointer of some type wrote, or
-- the address of an entry of mStrColBufs or mTsColBufs. SetComplexValue writes the index.
pub data Raw : Type 0 where
  zeros : Raw
  raw_int : ℤ → Raw
  raw_float raw_double : ℕ → Raw
  raw_bool : Bool → Raw
  string_at time_at complex_at : ℕ → Raw

-- `C` is the type of the pointers to arrays, maps and structs.
pub record TableRecord (C : Type 0) : Type 0 where
  pub types : List ColumnType
  pub max_field_size : ℕ
  pub raw_data : List Raw
  pub is_null : List Bool
  pub str_bufs : List (ℕ × Bytes)
  pub ts_bufs : List (ℕ × (ℤ × ℤ))
  pub complex_bufs : List (ℕ × C)

-- The constructor from a schema.
unfoldable pub new_record : {C : Type 0} → List ColumnType → ℕ → TableRecord C
new_record types size = record {
  types = types;
  max_field_size = size;
  raw_data = replicate (length types) zeros;
  is_null = replicate (length types) true;
  str_bufs = [];
  ts_bufs = [];
  complex_bufs = [];
}

-- std::map with `uint32_t` keys.
unfoldable pub find_buf : {A : Type 0} → ℕ → List (ℕ × A) → Option A
find_buf k [] = none
find_buf k ((j, a) ∷ bufs) = let rest = find_buf k bufs in if j == k then some a else rest

unfoldable pub put_buf : {A : Type 0} → ℕ → A → List (ℕ × A) → List (ℕ × A)
put_buf k a [] = (k, a) ∷ []
put_buf k a ((j, b) ∷ bufs) =
    let rest = put_buf k a bufs in if j == k then (k, a) ∷ bufs else (j, b) ∷ rest

-- An element of a vector: `at` throws, `[]` is undefined out of range.
unfoldable pub or_thrown : {A : Type 0} → Result A → Option A → Result A
or_thrown thrown none = thrown
or_thrown thrown (some a) = ok a

-- Bytes that were written as another type are not read.
unfoldable pub as_int : Raw → Result ℤ
as_int (raw_int v) = ok v
as_int _ = err undefined

unfoldable pub as_float : Raw → Result ℕ
as_float (raw_float v) = ok v
as_float _ = err undefined

unfoldable pub as_double : Raw → Result ℕ
as_double (raw_double v) = ok v
as_double _ = err undefined

unfoldable pub as_bool : Raw → Result Bool
as_bool (raw_bool v) = ok v
as_bool _ = err undefined

module _ {C : Type 0} where
  unfoldable pub check_type : TableRecord C → ℕ → ColumnType → Result (Unit {0})
  check_type r idx type = or_thrown (err out_of_range) (get_elem? r.types idx) >>= λ t.
      guard (type_code t == type_code type) invalid_argument

  unfoldable pub is_null_value : TableRecord C → ℕ → Result Bool
  is_null_value r idx = or_thrown (err undefined) (get_elem? r.is_null idx)

  unfoldable pub raw_at : TableRecord C → ℕ → Result Raw
  raw_at r idx = or_thrown (err undefined) (get_elem? r.raw_data idx)

  -- `if (mIsNullValue[idx]) return NULL;`, and else what is read from the column's bytes.
  unfoldable pub unless_null :
      {A : Type 0} → TableRecord C → ℕ → (Raw → Result A) → Result (Option A)
  unless_null r idx reading = is_null_value r idx >>= λ b.
      if b then ok none else (raw_at r idx >>= λ c. reading c >>= λ a. ok (some a))

  unfoldable pub as_string : TableRecord C → Raw → Result Bytes
  as_string r (string_at k) = or_thrown (err undefined) (find_buf k r.str_bufs)
  as_string r _ = err undefined

  unfoldable pub as_time : TableRecord C → Raw → Result (ℤ × ℤ)
  as_time r (time_at k) = or_thrown (err undefined) (find_buf k r.ts_bufs)
  as_time r _ = err undefined

  unfoldable pub get_int_value : TableRecord C → ℕ → ColumnType → Result (Option ℤ)
  get_int_value r idx type = check_type r idx type >> unless_null r idx as_int

  unfoldable pub get_float_value : TableRecord C → ℕ → Result (Option ℕ)
  get_float_value r idx = check_type r idx float >> unless_null r idx as_float

  unfoldable pub get_double_value : TableRecord C → ℕ → Result (Option ℕ)
  get_double_value r idx = check_type r idx double >> unless_null r idx as_double

  unfoldable pub get_bool_value : TableRecord C → ℕ → Result (Option Bool)
  get_bool_value r idx = check_type r idx boolean >> unless_null r idx as_bool

  unfoldable pub get_string_value : TableRecord C → ℕ → ColumnType → Result (Option Bytes)
  get_string_value r idx type = check_type r idx type >> unless_null r idx (as_string r)

  unfoldable pub get_time_value : TableRecord C → ℕ → ColumnType → Result (Option (ℤ × ℤ))
  get_time_value r idx type = check_type r idx type >> unless_null r idx (as_time r)

  unfoldable pub get_complex_value : TableRecord C → ℕ → ColumnType → Result (Option C)
  get_complex_value r idx type =
      check_type r idx type
      >> unless_null r idx (λ c. or_thrown (err out_of_range) (find_buf idx r.complex_bufs))

  -- A write to the bytes of a column, and mIsNullValue[idx] = false.
  unfoldable pub put_raw : TableRecord C → ℕ → Raw → TableRecord C
  put_raw r idx c = record r { raw_data = set r.raw_data idx c; is_null = set r.is_null idx false }

  unfoldable pub set_int_value : TableRecord C → ℕ → ℤ → ColumnType → Result (TableRecord C)
  set_int_value r idx v type = check_type r idx type >> ok (put_raw r idx (raw_int v))

  unfoldable pub set_float_value : TableRecord C → ℕ → ℕ → Result (TableRecord C)
  set_float_value r idx v = check_type r idx float >> ok (put_raw r idx (raw_float v))

  unfoldable pub set_double_value : TableRecord C → ℕ → ℕ → Result (TableRecord C)
  set_double_value r idx v = check_type r idx double >> ok (put_raw r idx (raw_double v))

  unfoldable pub set_bool_value : TableRecord C → ℕ → Bool → Result (TableRecord C)
  set_bool_value r idx v = check_type r idx boolean >> ok (put_raw r idx (raw_bool v))

  -- `value` is none for a null pointer.
  unfoldable pub set_string_value :
      TableRecord C → ℕ → Option Bytes → ℕ → ColumnType → Result (TableRecord C)
  set_string_value r idx value len type =
      check_type r idx type
      >> guard (not (ltb r.max_field_size len)) invalid_argument
      >> (or_thrown (err invalid_argument) value >>= λ s. ok (
          put_raw (record r { str_bufs = put_buf idx (take len s) r.str_bufs }) idx
            (string_at idx)))

  unfoldable pub set_time_value : TableRecord C → ℕ → ℤ → ℤ → ColumnType → Result (TableRecord C)
  set_time_value r idx sec ns type =
      check_type r idx type
      >> ok (
          put_raw (record r { ts_bufs = put_buf idx (time_stamp sec ns) r.ts_bufs }) idx
            (time_at idx))

  unfoldable pub set_complex_value : TableRecord C → ℕ → C → ColumnType → Result (TableRecord C)
  set_complex_value r idx v type =
      check_type r idx type
      >> ok
          (put_raw (record r { complex_bufs = put_buf idx v r.complex_bufs }) idx (complex_at idx))

  -- SetNullValue: the column count less one is a uint32_t, so a record without columns wraps around.
  unfoldable pub set_null_value : TableRecord C → ℕ → Result (TableRecord C)
  set_null_value r idx =
      guard (not (ltb ((length r.types + (2 ^ 32 - 1)) % 2 ^ 32) idx)) invalid_argument
      >> (is_null_value r idx >>= λ b. ok (record r { is_null = set r.is_null idx true }))
