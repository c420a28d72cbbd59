-- ===== src/TableRecord/Reach.antt =====
-- The values of the columns of a table's record (include/odps_table.h) behind calls of its setters.
use aliyun_odps_sdk_cpp.Prelude.{
  ℕ, zero, suc, ◌≡◌, ◌⊎◌, refl, sym, subst, ap, ◌∙◌, Bool, true, false, List, Option, none, some,
  length, get_elem?, get_elem?-bound, bound-get_elem?, length-replicate, replicate, ◌==◌,
  if◌then◌else◌, arith, Option-cases, inl, inr,
}
use aliyun_odps_sdk_cpp.Result.{Result, ok, err, out_of_range}
use aliyun_odps_sdk_cpp.Types.{ColumnType}
use aliyun_odps_sdk_cpp.TableRecord.{TableRecord, zeros, new_record}
use aliyun_odps_sdk_cpp.TableRecord.Interface.{Call, run, Item, item_at}
use aliyun_odps_sdk_cpp.TableRecord.Frame.{OwnCell, item_at-none}
use aliyun_odps_sdk_cpp.TableRecord.Setters.{IsSound, sound, some-injective}
use aliyun_odps_sdk_cpp.TableRecord.Calls.{call_idx, call_value, run-Outcome, null-item}

-- The records that calls of the setters in Interface lead to from a new one.
pub data IsReachable {C : Type 0} : TableRecord C → Type 0 where
  at_start : (types : List ColumnType) (size : ℕ) → IsReachable (new_record types size)
  by_call :
      {r s : TableRecord C} (call : Call C) → run call r ≡ ok s → IsReachable r → IsReachable s

replicated : {A : Type 0} (n j : ℕ) (a b : A) → get_elem? (replicate n a) j ≡ some b → b ≡ a
replicated zero j a b h = absurd (cc h)
replicated (suc n) zero a b h = sym (some-injective h)
replicated (suc n) (suc j) a b h = replicated n j a b h

pub new-IsSound :
    {C : Type 0} (types : List ColumnType) (size : ℕ) → IsSound (new_record {C = C} types size)
unfolding new_record
new-IsSound types size =
    sound (length-replicate (length types) true) (length-replicate (length types) zeros)
      (λ j c found. subst (OwnCell j) (sym (replicated (length types) j zeros c found)) tt)

-- A value or null, or the exception for an index behind the last column.
abbrev pub IsRead : {C : Type 0} → Result (Option (Item C)) → Type 0
IsRead {C} r = ((v : Option (Item C)) × (r ≡ ok v)) ⊎ (r ≡ err out_of_range)

new-IsRead :
    (C : Type 0) (types : List ColumnType) (size j : ℕ)
    → IsRead (item_at (new_record {C = C} types size) j)
unfolding new_record
new-IsRead C types size j = elim (Option-cases (get_elem? types j)) [
  | inl e ↦ inr (item_at-none (new_record {C = C} types size) j e)
  | inr (t, e) ↦
      let bound = get_elem?-bound types j t e in
      let (b, found) =
        bound-get_elem? (replicate (length types) true) j
          (omega (arith, bound, length-replicate (length types) true)) in
      let all_null = found ∙ ap some (replicated (length types) j true b found) in
      inl (none, null-item (new_record {C = C} types size) j t e all_null)
]

if-IsRead :
    {C : Type 0} (b : Bool) (v : Option (Item C)) (r : Result (Option (Item C)))
    → IsRead r
    → IsRead (if b then ok v else r)
if-IsRead true v r h = inl (v, refl)
if-IsRead false v r h = h

reachable-all :
    {C : Type 0} {r : TableRecord C} → IsReachable r → IsSound r × ((j : ℕ) → IsRead (item_at r j))
reachable-all (at_start types size) = (new-IsSound types size, new-IsRead _ types size)
reachable-all (by_call {r} {s} call h reach) =
    let (whole, all) = reachable-all reach in
    let (still, values) = run-Outcome call r s whole h in
    (
      still,
      (λ j.
          subst IsRead (sym (values j))
            (if-IsRead (call_idx call == j) (call_value call) _ (all j))),
    )

-- Behind any calls, which returned, of the setters that have their column's type in their name or
-- signature and of SetNullValue, but not of SetIntValue, SetStringValue, SetTimeValue and
-- SetComplexValue with a type as an argument: reading any column with the getter for its type gives a
-- value or null, or throws out_of_range behind the last column. Bytes that were written as one type are
-- never read as another, and no pointer is followed that was not set.
pub reachable-IsRead :
    {C : Type 0} {r : TableRecord C} → IsReachable r → (j : ℕ) → IsRead (item_at r j)
reachable-IsRead reach = (reachable-all reach).1
