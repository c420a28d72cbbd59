-- ===== src/Members/Struct.antt =====
-- ODPSStruct (include/odps_struct.h, common/odps_struct.cpp): the types of the members, and the
-- pointers to them. A member is null if its pointer is.
use aliyun_odps_sdk_cpp.Prelude.{ℕ, List, [], ◌∷◌, Option, none, some, set, ◌==◌}
use aliyun_odps_sdk_cpp.Result.{Result, ok, err, plain_error, guard, ◌>>=◌, ◌>>◌}
use aliyun_odps_sdk_cpp.Types.{ColumnType, struct}
use aliyun_odps_sdk_cpp.TableRecord.{type_code}
use aliyun_odps_sdk_cpp.Members.{
  Stored, Getter, getter_type, Value, value_type, stored, at_index, type_check, dereference,
}

pub record OdpsStruct (C : Type 0) : Type 0 where
  pub member_types : List ColumnType
  pub members : List (Option (Stored C))

module _ {C : Type 0} where
  unfoldable pub null_members : List ColumnType → List (Option (Stored C))
  null_members [] = []
  null_members (t ∷ types) = none ∷ null_members types

  unfoldable pub new_struct : ColumnType → List ColumnType → Result (OdpsStruct C)
  new_struct type [] = err plain_error
  new_struct type (t ∷ types) =
      guard (type_code type == type_code struct) plain_error
      >> ok record { member_types = t ∷ types; members = null_members (t ∷ types) }

  unfoldable pub member_null_check : Option (Stored C) → Result (Unit {0})
  member_null_check none = err plain_error
  member_null_check (some v) = ok tt

  unfoldable pub member_check : ℕ → ColumnType → OdpsStruct C → Result (Unit {0})
  member_check idx op_type s = at_index idx s.member_types >>= λ t. type_check t op_type

  unfoldable pub get_member : Getter → ℕ → OdpsStruct C → Result (Option (Stored C))
  get_member g idx s =
      member_check idx (getter_type g) s
      >> (at_index idx s.members >>= λ cell. member_null_check cell >> dereference g cell)

  unfoldable pub put_member : Value C → ℕ → OdpsStruct C → Result (OdpsStruct C)
  put_member v idx s =
      member_check idx (value_type v) s
      >> (at_index idx s.members >>= λ old. ok record s { members = set s.members idx (stored v) })

  unfoldable pub set_null_member : ℕ → OdpsStruct C → Result (OdpsStruct C)
  set_null_member idx s =
      at_index idx s.members >>= λ old. ok record s { members = set s.members idx none }
