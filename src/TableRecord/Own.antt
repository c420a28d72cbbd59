-- ===== src/TableRecord/Own.antt =====
-- How the getters of a table's record (tunnel/odps_table_record.cpp) read a column of their own type.
use aliyun_odps_sdk_cpp.Prelude.{
  ℕ, ◌≡◌, ◌≢◌, refl, ap, ◌∙◌, Bool, true, false, none, some, get_elem?, ◌==◌, ==_refl,
  if◌then◌else◌,
}
use aliyun_odps_sdk_cpp.Result.{
  Result, ok, err, undefined, out_of_range, invalid_argument, guard, ◌>>=◌, ◌>>◌,
}
use aliyun_odps_sdk_cpp.Types.{
  ColumnType, unknown, bigint, double, boolean, datetime, string, decimal, tinyint, smallint,
  integer, char, varchar, binary, date, timestamp, float, interval_year_month, interval_day_time,
  array, map, struct, json, timestamp_ntz,
}
use aliyun_odps_sdk_cpp.TableRecord.{
  TableRecord, Raw, type_code, or_thrown, find_buf, check_type, is_null_value, raw_at, unless_null,
  as_int, as_float, as_double, as_bool, as_string, as_time, get_int_value, get_float_value,
  get_double_value, get_bool_value, get_string_value, get_time_value, get_complex_value,
}
use aliyun_odps_sdk_cpp.TableRecord.Interface.{
  Item, int_item, float_item, double_item, bool_item, string_item, time_item, complex_item, itemise,
  read_as, item_at,
}

abbrev reads : {A C : Type 0} → (Raw → Result A) → (A → Item C) → Raw → Result (Item C)
reads reading f c = reading c >>= λ a. ok (f a)

-- What the bytes of a column mean.
unfoldable pub as_item : {C : Type 0} → ColumnType → TableRecord C → ℕ → Raw → Result (Item C)
as_item unknown r j c = err undefined
as_item bigint r j c = reads as_int int_item c
as_item double r j c = reads as_double double_item c
as_item boolean r j c = reads as_bool bool_item c
as_item datetime r j c = reads as_int int_item c
as_item string r j c = reads (as_string r) string_item c
as_item decimal r j c = reads (as_string r) string_item c
as_item tinyint r j c = reads as_int int_item c
as_item smallint r j c = reads as_int int_item c
as_item integer r j c = reads as_int int_item c
as_item char r j c = reads (as_string r) string_item c
as_item varchar r j c = reads (as_string r) string_item c
as_item binary r j c = reads (as_string r) string_item c
as_item date r j c = reads as_int int_item c
as_item timestamp r j c = reads (as_time r) time_item c
as_item float r j c = reads as_float float_item c
as_item interval_year_month r j c = reads as_int int_item c
as_item interval_day_time r j c = reads (as_time r) time_item c
as_item array r j c =
    reads (λ _. or_thrown (err out_of_range) (find_buf j r.complex_bufs)) complex_item c
as_item map r j c =
    reads (λ _. or_thrown (err out_of_range) (find_buf j r.complex_bufs)) complex_item c
as_item struct r j c =
    reads (λ _. or_thrown (err out_of_range) (find_buf j r.complex_bufs)) complex_item c
as_item json r j c = reads (as_string r) string_item c
as_item timestamp_ntz r j c = reads (as_time r) time_item c

module _ {C : Type 0} where
  bind-reads :
      {A : Type 0} (o : Result Raw) (reading : Raw → Result A) (f : A → Item C)
      → itemise f (o >>= λ c. reading c >>= λ a. ok (some a))
        ≡ (o >>= λ c. reads reading f c >>= λ a. ok (some a))
  bind-reads (err e) reading f = refl
  bind-reads (ok c) reading f = one (reading c) f
    where
      one :
          {A : Type 0} (v : Result A) (f : A → Item C)
          → itemise f (v >>= λ a. ok (some a)) ≡ ((v >>= λ a. ok (f a)) >>= λ a. ok (some a))
      one (err e) f = refl
      one (ok a) f = refl

  itemise-reads :
      {A : Type 0} (r : TableRecord C) (j : ℕ) (reading : Raw → Result A) (f : A → Item C)
      → itemise f (unless_null r j reading) ≡ unless_null r j (reads reading f)
  unfolding unless_null
  itemise-reads r j reading f = by_null (is_null_value r j)
    where
      by_null :
          (b : Result Bool)
          → itemise f (
              b >>= λ b.
              if b then ok none else (raw_at r j >>= λ c. reading c >>= λ a. ok (some a)))
            ≡ (b >>= λ b.
                if b then ok none else (raw_at r j >>= λ c. reads reading f c >>= λ a. ok (some a)))
      by_null (err e) = refl
      by_null (ok true) = refl
      by_null (ok false) = bind-reads (raw_at r j) reading f

  own_check :
      (r : TableRecord C) (j : ℕ) (t : ColumnType)
      → get_elem? r.types j ≡ some t
      → check_type r j t ≡ ok tt
  unfolding check_type or_thrown
  own_check r j t e =
      ap
        (λ o. or_thrown (err out_of_range) o >>= λ u.
          guard (type_code u == type_code t) invalid_argument)
        e
      ∙ ap (λ b. guard b invalid_argument) (==_refl (type_code t))

  checked :
      {B : Type 0} (r : TableRecord C) (j : ℕ) (t : ColumnType) (rest : Result B)
      → get_elem? r.types j ≡ some t
      → (check_type r j t >> rest) ≡ rest
  checked r j t rest e = ap (λ o. o >> rest) (own_check r j t e)

  read_own :
      (r : TableRecord C) (j : ℕ) (t : ColumnType)
      → t ≢ unknown
      → get_elem? r.types j ≡ some t
      → read_as t r j ≡ unless_null r j (as_item t r j)
  unfolding read_as as_item get_int_value get_float_value get_double_value get_bool_value
      get_string_value get_time_value get_complex_value
  read_own r j unknown h e = absurd (h refl)
  read_own r j bigint h e =
      ap (itemise int_item) (checked r j bigint _ e) ∙ itemise-reads r j as_int int_item
  read_own r j double h e =
      ap (itemise double_item) (checked r j double _ e) ∙ itemise-reads r j as_double double_item
  read_own r j boolean h e =
      ap (itemise bool_item) (checked r j boolean _ e) ∙ itemise-reads r j as_bool bool_item
  read_own r j datetime h e =
      ap (itemise int_item) (checked r j datetime _ e) ∙ itemise-reads r j as_int int_item
  read_own r j string h e =
      ap (itemise string_item) (checked r j string _ e)
      ∙ itemise-reads r j (as_string r) string_item
  read_own r j decimal h e =
      ap (itemise string_item) (checked r j decimal _ e)
      ∙ itemise-reads r j (as_string r) string_item
  read_own r j tinyint h e =
      ap (itemise int_item) (checked r j tinyint _ e) ∙ itemise-reads r j as_int int_item
  read_own r j smallint h e =
      ap (itemise int_item) (checked r j smallint _ e) ∙ itemise-reads r j as_int int_item
  read_own r j integer h e =
      ap (itemise int_item) (checked r j integer _ e) ∙ itemise-reads r j as_int int_item
  read_own r j char h e =
      ap (itemise string_item) (checked r j char _ e) ∙ itemise-reads r j (as_string r) string_item
  read_own r j varchar h e =
      ap (itemise string_item) (checked r j varchar _ e)
      ∙ itemise-reads r j (as_string r) string_item
  read_own r j binary h e =
      ap (itemise string_item) (checked r j binary _ e)
      ∙ itemise-reads r j (as_string r) string_item
  read_own r j date h e =
      ap (itemise int_item) (checked r j date _ e) ∙ itemise-reads r j as_int int_item
  read_own r j timestamp h e =
      ap (itemise time_item) (checked r j timestamp _ e) ∙ itemise-reads r j (as_time r) time_item
  read_own r j float h e =
      ap (itemise float_item) (checked r j float _ e) ∙ itemise-reads r j as_float float_item
  read_own r j interval_year_month h e =
      ap (itemise int_item) (checked r j interval_year_month _ e)
      ∙ itemise-reads r j as_int int_item
  read_own r j interval_day_time h e =
      ap (itemise time_item) (checked r j interval_day_time _ e)
      ∙ itemise-reads r j (as_time r) time_item
  read_own r j array h e =
      ap (itemise complex_item) (checked r j array _ e)
      ∙ itemise-reads r j (λ _. or_thrown (err out_of_range) (find_buf j r.complex_bufs))
          complex_item
  read_own r j map h e =
      ap (itemise complex_item) (checked r j map _ e)
      ∙ itemise-reads r j (λ _. or_thrown (err out_of_range) (find_buf j r.complex_bufs))
          complex_item
  read_own r j struct h e =
      ap (itemise complex_item) (checked r j struct _ e)
      ∙ itemise-reads r j (λ _. or_thrown (err out_of_range) (find_buf j r.complex_bufs))
          complex_item
  read_own r j json h e =
      ap (itemise string_item) (checked r j json _ e) ∙ itemise-reads r j (as_string r) string_item
  read_own r j timestamp_ntz h e =
      ap (itemise time_item) (checked r j timestamp_ntz _ e)
      ∙ itemise-reads r j (as_time r) time_item

  pub item_at-own :
      (r : TableRecord C) (j : ℕ) (t : ColumnType)
      → t ≢ unknown
      → get_elem? r.types j ≡ some t
      → item_at r j ≡ unless_null r j (as_item t r j)
  unfolding item_at or_thrown
  item_at-own r j t h e =
      ap (λ o. or_thrown (err out_of_range) o >>= λ u. read_as u r j) e ∙ read_own r j t h e
