-- ===== src/Members/Typed.antt =====
-- The C++ type that each type of member is kept in (common/odps_array.cpp, common/odps_struct.cpp).
use aliyun_odps_sdk_cpp.Prelude.{
  ℕ, zero, suc, ◌≡◌, ◌≢◌, ◌⊎◌, ◌<◌, refl, sym, ap, ◌∙◌, Bool, true, false, List, [], ◌∷◌, ◌++◌,
  Option, none, some, length, get_elem?, ◌==◌, ==_iff, ==_refl, arith, Bool-cases, inl, inr, set,
  get_elem?-set_here, get_elem?-set_other,
}
use aliyun_odps_sdk_cpp.Result.{ok, err, plain_error}
use aliyun_odps_sdk_cpp.Types.{
  ColumnType, bigint, double, boolean, datetime, string, decimal, tinyint, smallint, integer, char,
  varchar, binary, date, timestamp, float, interval_year_month, interval_day_time, array, struct,
  timestamp_ntz, unknown, json,
}
use aliyun_odps_sdk_cpp.Types
use aliyun_odps_sdk_cpp.TableRecord.{type_code}
use aliyun_odps_sdk_cpp.TableRecord.Frame.{type_code-injective}
use aliyun_odps_sdk_cpp.Members.{
  CppType, int8, int16, int32, int64, float_type, double_type, bool_type, string_type, time_type,
  array_type, map_type, struct_type, Stored, cpp_type, cpp_code, Getter, getter_type, getter_cast,
  getter_returns_pointer, Value, value_type, stored, stores_pointer, at_index, type_check,
  dereference, get_tiny_int, get_small_int, tiny_int, small_int, array_of, map_of, struct_of,
}

-- The C++ type for a type of member; the last clause is for types that no method takes.
unfoldable pub type_kept : ColumnType → CppType
type_kept tinyint = int8
type_kept smallint = int16
type_kept integer = int32
type_kept bigint = int64
type_kept datetime = int64
type_kept date = int64
type_kept interval_year_month = int64
type_kept float = float_type
type_kept double = double_type
type_kept boolean = bool_type
type_kept timestamp = time_type
type_kept timestamp_ntz = time_type
type_kept interval_day_time = time_type
type_kept array = array_type
type_kept Types.map = map_type
type_kept struct = struct_type
type_kept other = string_type

unfoldable pub is_pointer : ColumnType → Bool
is_pointer array = true
is_pointer Types.map = true
is_pointer struct = true
is_pointer other = false

pub getter_cast-kept : (g : Getter) → getter_cast g ≡ type_kept (getter_type g)
unfolding getter_cast getter_type type_kept
getter_cast-kept get_tiny_int = refl
getter_cast-kept get_small_int = refl
getter_cast-kept other = refl

pub returns_pointer-is_pointer :
    (g : Getter) → getter_returns_pointer g ≡ is_pointer (getter_type g)
unfolding getter_returns_pointer getter_type is_pointer
returns_pointer-is_pointer get_tiny_int = refl
returns_pointer-is_pointer other = refl

-- A pointer to a member of a type.
abbrev pub IsKeptAs : {C : Type 0} → ColumnType → Option (Stored C) → Type 0
IsKeptAs t none = is_pointer t ≡ true
IsKeptAs t (some v) = cpp_type v ≡ type_kept t

pub stored-IsKeptAs : {C : Type 0} (v : Value C) → IsKeptAs (value_type v) (stored v)
unfolding stored value_type type_kept is_pointer cpp_type
stored-IsKeptAs (tiny_int v) = refl
stored-IsKeptAs (small_int v) = refl
stored-IsKeptAs (array_of none) = refl
stored-IsKeptAs (array_of (some v)) = refl
stored-IsKeptAs (map_of none) = refl
stored-IsKeptAs (map_of (some v)) = refl
stored-IsKeptAs (struct_of none) = refl
stored-IsKeptAs (struct_of (some v)) = refl
stored-IsKeptAs other = refl

-- A type check that returns has found the type.
pub type_check_lem :
    (t op_type : ColumnType)
    → ((type_check t op_type ≡ ok tt) × (op_type ≡ t))
      ⊎ ((type_check t op_type ≡ err plain_error) × (op_type ≢ t))
unfolding type_check
type_check_lem t op_type = elim (Bool-cases (type_code op_type == type_code t)) [
  | inl e ↦
      inl
        (rw e refl, type_code-injective op_type t ((==_iff (type_code op_type) (type_code t)).0 e))
  | inr e ↦ inr (rw e refl, λ same. absurd (ground (arith, e, ap type_code same)))
]

-- A getter for the type of a member reads it with the type that it is kept with.
pub dereference-kept :
    {C : Type 0} (g : Getter) (cell : Option (Stored C))
    → IsKeptAs (getter_type g) cell
    → dereference g cell ≡ ok cell
unfolding dereference
dereference-kept g none h = rw (returns_pointer-is_pointer g ∙ h) refl
dereference-kept g (some v) h =
    let same : cpp_code (cpp_type v) ≡ cpp_code (getter_cast g) =
      ap cpp_code (h ∙ sym (getter_cast-kept g)) in
    rw (same, ==_refl (cpp_code (getter_cast g))) refl

pub at_index_lem :
    {A : Type 0} (idx : ℕ) (xs : List A) (a : A)
    → get_elem? xs idx ≡ some a
    → at_index idx xs ≡ ok a
unfolding at_index
at_index_lem idx xs a h = rw h refl

pub stores_pointer-is_pointer :
    {C : Type 0} (v : Value C) → stores_pointer v ≡ is_pointer (value_type v)
unfolding stores_pointer value_type is_pointer
stores_pointer-is_pointer (tiny_int v) = refl
stores_pointer-is_pointer other = refl

pub get_elem?-last :
    {A : Type 0} (xs : List A) (x c : A) (i : ℕ)
    → get_elem? (xs ++ x ∷ []) i ≡ some c
    → (get_elem? xs i ≡ some c) ⊎ ((i ≡ length xs) × (x ≡ c))
get_elem?-last [] x c zero h = inr (refl, cc h)
get_elem?-last [] x c (suc i) h = absurd (cc h)
get_elem?-last (y ∷ xs) x c zero h = inl h
get_elem?-last (y ∷ xs) x c (suc i) h = elim (get_elem?-last xs x c i h) [
  | inl e ↦ inl e
  | inr (e, f) ↦ inr (ap suc e, f)
]

pub set_here_or_other :
    {A : Type 0} (xs : List A) (idx i : ℕ) (x c : A)
    → idx < length xs
    → get_elem? (set xs idx x) i ≡ some c
    → ((idx ≡ i) × (x ≡ c)) ⊎ (((idx == i) ≡ false) × (get_elem? xs i ≡ some c))
set_here_or_other xs idx i x c h e = elim (Bool-cases (idx == i)) [
  | inl same ↦
      let at : idx ≡ i = (==_iff idx i).0 same in
      inl (at, cc (sym (get_elem?-set_here xs idx x h) ∙ ap (get_elem? (set xs idx x)) at ∙ e))
  | inr other ↦ inr (other, sym (get_elem?-set_other xs idx i x other) ∙ e)
]
