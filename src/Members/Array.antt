-- ===== src/Members/Array.antt =====
-- ODPSArray (include/odps_array.h, common/odps_array.cpp): an element type, and the pointers to the
-- elements with a flag for each that is null.
use aliyun_odps_sdk_cpp.Prelude.{
  ℕ, Bool, true, false, not, List, [], ◌∷◌, ◌++◌, Option, none, some, set, ◌==◌, if◌then◌else◌,
}
use aliyun_odps_sdk_cpp.Result.{Result, ok, err, plain_error, undefined, guard, ◌>>=◌, ◌>>◌}
use aliyun_odps_sdk_cpp.Types.{ColumnType, array}
use aliyun_odps_sdk_cpp.TableRecord.{type_code}
use aliyun_odps_sdk_cpp.Members.{
  Stored, cpp_type, cpp_code, Getter, getter_type, Value, value_type, stored, stores_pointer,
  at_index, type_check, dereference,
}

pub record OdpsArray (C : Type 0) : Type 0 where
  pub element_type : ColumnType
  pub nulls : List Bool
  pub cells : List (Option (Stored C))

module _ {C : Type 0} where
  -- The type must be an array's, with one type inside.
  unfoldable pub new_array : ColumnType → List ColumnType → Result (OdpsArray C)
  new_array type (element ∷ []) =
      guard (type_code type == type_code array) plain_error
      >> ok record { element_type = element; nulls = []; cells = [] }
  new_array type sub_types = err plain_error

  unfoldable pub null_check : ℕ → OdpsArray C → Result (Unit {0})
  null_check idx a = at_index idx a.nulls >>= λ is_null. guard (not is_null) plain_error

  unfoldable pub get : Getter → ℕ → OdpsArray C → Result (Option (Stored C))
  get g idx a =
      type_check a.element_type (getter_type g)
      >> (null_check idx a >> (at_index idx a.cells >>= λ cell. dereference g cell))

  -- The value is written into what the pointer points to, if it points to something.
  unfoldable pub overwrite : Option (Stored C) → Option (Stored C) → Result (Option (Stored C))
  overwrite new none = ok new
  overwrite none (some old) = ok none
  overwrite (some new) (some old) =
      guard (cpp_code (cpp_type new) == cpp_code (cpp_type old)) undefined >> ok (some new)

  unfoldable pub new_cell : Value C → Option (Stored C) → Result (Option (Stored C))
  new_cell v old = if stores_pointer v then ok (stored v) else overwrite (stored v) old

  unfoldable pub put : Value C → ℕ → OdpsArray C → Result (OdpsArray C)
  put v idx a =
      type_check a.element_type (value_type v)
      >> (at_index idx a.nulls >>= λ was_null. at_index idx a.cells >>= λ old.
          new_cell v old >>= λ cell.
          ok record a { nulls = set a.nulls idx false; cells = set a.cells idx cell })

  unfoldable pub append : Value C → OdpsArray C → Result (OdpsArray C)
  append v a =
      type_check a.element_type (value_type v)
      >> ok record a { nulls = a.nulls ++ false ∷ []; cells = a.cells ++ stored v ∷ [] }

  unfoldable pub append_null : OdpsArray C → OdpsArray C
  append_null a = record a { nulls = a.nulls ++ true ∷ []; cells = a.cells ++ none ∷ [] }

  unfoldable pub set_null : ℕ → OdpsArray C → Result (OdpsArray C)
  set_null idx a = at_index idx a.nulls >>= λ was_null. ok record a { nulls = set a.nulls idx true }
