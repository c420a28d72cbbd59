-- ===== src/TableRecord/Columns.antt =====
-- What the setters of include/odps_table.h write, as the getter for the same type reads it.
use aliyun_odps_sdk_cpp.Prelude.{ℕ, ◌≡◌, ◌≢◌, refl, ap, Bytes, some}
use aliyun_odps_sdk_cpp.Prelude.Int.{ℤ}
use aliyun_odps_sdk_cpp.Result.{ok, err, undefined, out_of_range, ◌>>=◌}
use aliyun_odps_sdk_cpp.Types.{unknown}
use aliyun_odps_sdk_cpp.TableRecord.{
  TableRecord, raw_int, string_at, time_at, complex_at, or_thrown, find_buf, as_int, as_string,
  as_time,
}
use aliyun_odps_sdk_cpp.TableRecord.Interface.{
  IntSetter, StringSetter, TimeSetter, ComplexSetter, int_type, string_type, time_type,
  complex_type, int_item, string_item, time_item, complex_item, set_bigint, set_tinyint,
  set_smallint, set_integer, set_year_month, set_datetime, set_date, set_string, set_json, set_char,
  set_varchar, set_binary, set_decimal, set_timestamp, set_timestamp_ntz, set_day_time, set_array,
  set_map, set_struct,
}
use aliyun_odps_sdk_cpp.TableRecord.Own.{as_item}

pub int_type-known : (s : IntSetter) → int_type s ≢ unknown
unfolding int_type
int_type-known set_bigint e = cc e
int_type-known set_tinyint e = cc e
int_type-known set_smallint e = cc e
int_type-known set_integer e = cc e
int_type-known set_year_month e = cc e
int_type-known set_datetime e = cc e
int_type-known set_date e = cc e

pub string_type-known : (s : StringSetter) → string_type s ≢ unknown
unfolding string_type
string_type-known set_string e = cc e
string_type-known set_json e = cc e
string_type-known set_char e = cc e
string_type-known set_varchar e = cc e
string_type-known set_binary e = cc e
string_type-known set_decimal e = cc e

pub time_type-known : (s : TimeSetter) → time_type s ≢ unknown
unfolding time_type
time_type-known set_timestamp e = cc e
time_type-known set_timestamp_ntz e = cc e
time_type-known set_day_time e = cc e

pub complex_type-known : (s : ComplexSetter) → complex_type s ≢ unknown
unfolding complex_type
complex_type-known set_array e = cc e
complex_type-known set_map e = cc e
complex_type-known set_struct e = cc e

module _ {C : Type 0} where
  pub int-item :
      (s : IntSetter) (r : TableRecord C) (j : ℕ) (v : ℤ)
      → as_item (int_type s) r j (raw_int v) ≡ ok (int_item v)
  unfolding int_type as_item as_int
  int-item set_bigint r j v = refl
  int-item set_tinyint r j v = refl
  int-item set_smallint r j v = refl
  int-item set_integer r j v = refl
  int-item set_year_month r j v = refl
  int-item set_datetime r j v = refl
  int-item set_date r j v = refl

  pub string-item :
      (s : StringSetter) (r : TableRecord C) (j : ℕ) (b : Bytes)
      → find_buf j r.str_bufs ≡ some b
      → as_item (string_type s) r j (string_at j) ≡ ok (string_item b)
  unfolding string_type as_item as_string or_thrown
  string-item set_string r j b e =
      ap (λ o. or_thrown (err undefined) o >>= λ a. ok (string_item a)) e
  string-item set_json r j b e = ap (λ o. or_thrown (err undefined) o >>= λ a. ok (string_item a)) e
  string-item set_char r j b e = ap (λ o. or_thrown (err undefined) o >>= λ a. ok (string_item a)) e
  string-item set_varchar r j b e =
      ap (λ o. or_thrown (err undefined) o >>= λ a. ok (string_item a)) e
  string-item set_binary r j b e =
      ap (λ o. or_thrown (err undefined) o >>= λ a. ok (string_item a)) e
  string-item set_decimal r j b e =
      ap (λ o. or_thrown (err undefined) o >>= λ a. ok (string_item a)) e

  pub time-item :
      (s : TimeSetter) (r : TableRecord C) (j : ℕ) (b : ℤ × ℤ)
      → find_buf j r.ts_bufs ≡ some b
      → as_item (time_type s) r j (time_at j) ≡ ok (time_item b)
  unfolding time_type as_item as_time or_thrown
  time-item set_timestamp r j b e =
      ap (λ o. or_thrown (err undefined) o >>= λ a. ok (time_item a)) e
  time-item set_timestamp_ntz r j b e =
      ap (λ o. or_thrown (err undefined) o >>= λ a. ok (time_item a)) e
  time-item set_day_time r j b e = ap (λ o. or_thrown (err undefined) o >>= λ a. ok (time_item a)) e

  pub complex-item :
      (s : ComplexSetter) (r : TableRecord C) (j : ℕ) (b : C)
      → find_buf j r.complex_bufs ≡ some b
      → as_item (complex_type s) r j (complex_at j) ≡ ok (complex_item b)
  unfolding complex_type as_item or_thrown
  complex-item set_array r j b e =
      ap (λ o. or_thrown (err out_of_range) o >>= λ a. ok (complex_item a)) e
  complex-item set_map r j b e =
      ap (λ o. or_thrown (err out_of_range) o >>= λ a. ok (complex_item a)) e
  complex-item set_struct r j b e =
      ap (λ o. or_thrown (err out_of_range) o >>= λ a. ok (complex_item a)) e
