-- ===== src/TableRecord/Calls.antt =====
-- What the calls of the public setters of a table's record (include/odps_table.h) do to its columns.
use aliyun_odps_sdk_cpp.Prelude.{
  ℕ, ◌+◌, ◌-◌, ◌%◌, ◌^◌, ◌<◌, ◌≡◌, ◌≢◌, refl, subst, ap, ◌∙◌, Bool, true, not, Bytes, Option, none,
  some, length, get_elem?, get_elem?-bound, bound-get_elem?, length-set, get_elem?-set_here,
  get_elem?-set_other, set, take, ltb, if◌then◌else◌, arith, inl, inr,
}
use aliyun_odps_sdk_cpp.Prelude.Int.{ℤ}
use aliyun_odps_sdk_cpp.Result.{
  Result, ok, err, Error, undefined, invalid_argument, guard, ◌>>=◌, ◌>>◌,
}
use aliyun_odps_sdk_cpp.Types.{ColumnType, unknown, double, boolean, float, time_stamp}
use aliyun_odps_sdk_cpp.TableRecord.{
  TableRecord, Raw, raw_int, raw_float, raw_double, raw_bool, string_at, time_at, complex_at,
  or_thrown, put_buf, check_type, is_null_value, raw_at, unless_null, as_float, as_double, as_bool,
  put_raw, set_int_value, set_float_value, set_double_value, set_bool_value, set_string_value,
  set_time_value, set_complex_value, set_null_value,
}
use aliyun_odps_sdk_cpp.TableRecord.Interface.{
  StringSetter, TimeSetter, ComplexSetter, int_type, string_type, time_type, complex_type, Call,
  call_int, call_float, call_double, call_bool, call_string, call_time, call_complex, call_null,
  run, Item, int_item, float_item, double_item, bool_item, string_item, time_item, complex_item,
  item_at,
}
use aliyun_odps_sdk_cpp.TableRecord.Own.{as_item, item_at-own}
use aliyun_odps_sdk_cpp.TableRecord.Frame.{
  OwnCell, unknown-cases, item_at-same, item_at-unknown, find_buf-here, find_buf-other,
}
use aliyun_odps_sdk_cpp.Result.{ok-injective}
use aliyun_odps_sdk_cpp.TableRecord.Setters.{
  IsSound, sound, Outcome, ok-then, check-types, put-Outcome, by_column,
}
use aliyun_odps_sdk_cpp.TableRecord.Columns.{
  int_type-known, string_type-known, time_type-known, complex_type-known, int-item, string-item,
  time-item, complex-item,
}

unfoldable pub call_idx : {C : Type 0} → Call C → ℕ
call_idx (call_int s idx v) = idx
call_idx (call_float idx v) = idx
call_idx (call_double idx v) = idx
call_idx (call_bool idx v) = idx
call_idx (call_string s idx value len) = idx
call_idx (call_time s idx sec ns) = idx
call_idx (call_complex s idx v) = idx
call_idx (call_null idx) = idx

-- The value that a call gives its column; a null pointer gives none, and its call throws.
unfoldable pub call_value : {C : Type 0} → Call C → Option (Item C)
call_value (call_int s idx v) = some (int_item v)
call_value (call_float idx v) = some (float_item v)
call_value (call_double idx v) = some (double_item v)
call_value (call_bool idx v) = some (bool_item v)
call_value (call_string s idx none len) = none
call_value (call_string s idx (some text) len) = some (string_item (take len text))
call_value (call_time s idx sec ns) = some (time_item (time_stamp sec ns))
call_value (call_complex s idx v) = some (complex_item v)
call_value (call_null idx) = none

never-ok : {B : Type 0} (a : Result (Unit {0})) (e : Error) {v : B} → (a >> err e) ≡ ok v → ⊥
never-ok (err x) e h = cc h
never-ok (ok _) e h = cc h

module _ {C : Type 0} where
  plain-Outcome :
      (r s : TableRecord C) (idx : ℕ) (t : ColumnType) (c : Raw) (v : Item C)
      → IsSound r
      → t ≢ unknown
      → OwnCell idx c
      → as_item t (put_raw r idx c) idx c ≡ ok v
      → (check_type r idx t >> ok (put_raw r idx c)) ≡ ok s
      → Outcome r s idx (some v)
  plain-Outcome r s idx t c v whole known own item h =
      let (typed, e) = ok-then (check_type r idx t) _ h in
      subst (λ q. Outcome r q idx (some v)) (ok-injective e)
        (put-Outcome r r.str_bufs r.ts_bufs r.complex_bufs idx t c v whole
          (check-types r idx t typed) known own (λ j other. (refl, refl, refl)) item)

  string-Outcome :
      (w : StringSetter) (r s : TableRecord C) (idx : ℕ) (value : Option Bytes) (len : ℕ)
      → IsSound r
      → set_string_value r idx value len (string_type w) ≡ ok s
      → Outcome r s idx (call_value (call_string w idx value len))
  unfolding set_string_value call_value or_thrown put_raw
  string-Outcome w r s idx none len whole h = absurd (never-ok _ _ h)
  string-Outcome w r s idx (some text) len whole h =
      let (checks, e) = ok-then _ _ h in
      let (typed, _) = ok-then (check_type r idx (string_type w)) _ checks in
      let strs = put_buf idx (take len text) r.str_bufs in
      subst (λ q. Outcome r q idx (some (string_item (take len text)))) (ok-injective e)
        (put-Outcome r strs r.ts_bufs r.complex_bufs idx (string_type w) (string_at idx) _ whole
          (check-types r idx (string_type w) typed) (string_type-known w) refl
          (λ j other. (find_buf-other j idx (take len text) r.str_bufs other, refl, refl))
          (string-item w _ idx (take len text) (find_buf-here idx (take len text) r.str_bufs)))

  time-Outcome :
      (w : TimeSetter) (r s : TableRecord C) (idx : ℕ) (sec ns : ℤ)
      → IsSound r
      → set_time_value r idx sec ns (time_type w) ≡ ok s
      → Outcome r s idx (some (time_item (time_stamp sec ns)))
  unfolding set_time_value put_raw
  time-Outcome w r s idx sec ns whole h =
      let (typed, e) = ok-then (check_type r idx (time_type w)) _ h in
      let times = put_buf idx (time_stamp sec ns) r.ts_bufs in
      subst (λ q. Outcome r q idx (some (time_item (time_stamp sec ns)))) (ok-injective e)
        (put-Outcome r r.str_bufs times r.complex_bufs idx (time_type w) (time_at idx) _ whole
          (check-types r idx (time_type w) typed) (time_type-known w) refl
          (λ j other. (refl, find_buf-other j idx (time_stamp sec ns) r.ts_bufs other, refl))
          (time-item w _ idx (time_stamp sec ns) (find_buf-here idx (time_stamp sec ns) r.ts_bufs)))

  complex-Outcome :
      (w : ComplexSetter) (r s : TableRecord C) (idx : ℕ) (v : C)
      → IsSound r
      → set_complex_value r idx v (complex_type w) ≡ ok s
      → Outcome r s idx (some (complex_item v))
  unfolding set_complex_value put_raw
  complex-Outcome w r s idx v whole h =
      let (typed, e) = ok-then (check_type r idx (complex_type w)) _ h in
      let complexes = put_buf idx v r.complex_bufs in
      subst (λ q. Outcome r q idx (some (complex_item v))) (ok-injective e)
        (put-Outcome r r.str_bufs r.ts_bufs complexes idx (complex_type w) (complex_at idx) _ whole
          (check-types r idx (complex_type w) typed) (complex_type-known w) tt
          (λ j other. (refl, refl, find_buf-other j idx v r.complex_bufs other))
          (complex-item w _ idx v (find_buf-here idx v r.complex_bufs)))

  -- The record with a column that is null.
  abbrev with_null : TableRecord C → ℕ → TableRecord C
  with_null r idx = record r { is_null = set r.is_null idx true }

  pub null-item :
      (r : TableRecord C) (idx : ℕ) (t : ColumnType)
      → get_elem? r.types idx ≡ some t
      → get_elem? r.is_null idx ≡ some true
      → item_at r idx ≡ ok none
  unfolding unless_null is_null_value or_thrown
  null-item r idx t typed nulls = elim (unknown-cases t) [
    | inl u ↦ item_at-unknown r idx (typed ∙ ap some u)
    | inr known ↦
        item_at-own r idx t known typed
        ∙ ap
            (λ o. or_thrown (err undefined) o >>= λ b.
              if b then ok none else (raw_at r idx >>= λ c. as_item t r idx c >>= λ a. ok (some a)))
            nulls
  ]

  with_null-Outcome :
      (r : TableRecord C) (idx : ℕ)
      → IsSound r
      → idx < length r.is_null
      → Outcome r (with_null r idx) idx none
  with_null-Outcome r idx (sound nulls raws own) bound =
      let (t, typed) = bound-get_elem? r.types idx (omega (arith, bound, nulls)) in
      (
        sound (length-set r.is_null idx true ∙ nulls) raws own,
        by_column r (with_null r idx) idx none
            (null-item (with_null r idx) idx t typed (get_elem?-set_here r.is_null idx true bound))
            (λ j e.
              item_at-same r (with_null r idx) j refl (get_elem?-set_other r.is_null idx j true e)
                refl (λ c found. own j c found) (refl, refl, refl)),
      )

  found-null :
      (r s : TableRecord C) (idx : ℕ) (o : Option Bool)
      → (or_thrown (err undefined) o >>= λ b. ok (with_null r idx)) ≡ ok s
      → ((b : Bool) × (o ≡ some b)) × (with_null r idx ≡ s)
  unfolding or_thrown
  found-null r s idx none h = absurd (cc h)
  found-null r s idx (some b) h = ((b, refl), ok-injective h)

  null-Outcome :
      (r s : TableRecord C) (idx : ℕ)
      → IsSound r
      → set_null_value r idx ≡ ok s
      → Outcome r s idx none
  unfolding set_null_value is_null_value
  null-Outcome r s idx whole h =
      let (_, e) =
        ok-then (guard (not (ltb ((length r.types + (2 ^ 32 - 1)) % 2 ^ 32) idx)) invalid_argument)
          _ h in
      let ((b, found), same) = found-null r s idx (get_elem? r.is_null idx) e in
      subst (λ q. Outcome r q idx none) same
        (with_null-Outcome r idx whole (get_elem?-bound r.is_null idx b found))

-- A call of a setter that returns has replaced the value of its column, as the column's getter gives it, and
-- left the values of all other columns as they were: the record's buffers are not mixed up.
pub run-Outcome :
    {C : Type 0} (call : Call C) (r s : TableRecord C)
    → IsSound r
    → run call r ≡ ok s
    → Outcome r s (call_idx call) (call_value call)
unfolding run call_idx call_value set_int_value set_float_value set_double_value set_bool_value
    as_item as_float as_double as_bool
run-Outcome (call_int w idx v) r s whole h =
    plain-Outcome r s idx (int_type w) (raw_int v) (int_item v) whole (int_type-known w) tt
      (int-item w _ idx v) h
run-Outcome (call_float idx v) r s whole h =
    plain-Outcome r s idx float (raw_float v) (float_item v) whole (λ e. cc e) tt refl h
run-Outcome (call_double idx v) r s whole h =
    plain-Outcome r s idx double (raw_double v) (double_item v) whole (λ e. cc e) tt refl h
run-Outcome (call_bool idx v) r s whole h =
    plain-Outcome r s idx boolean (raw_bool v) (bool_item v) whole (λ e. cc e) tt refl h
run-Outcome (call_string w idx value len) r s whole h = string-Outcome w r s idx value len whole h
run-Outcome (call_time w idx sec ns) r s whole h = time-Outcome w r s idx sec ns whole h
run-Outcome (call_complex w idx v) r s whole h = complex-Outcome w r s idx v whole h
run-Outcome (call_null idx) r s whole h = null-Outcome r s idx whole h
