-- ===== src/Members/Tests.antt =====
-- An array of strings and a struct of a number and a string.
use aliyun_odps_sdk_cpp.Prelude.{ℕ, ◌≡◌, refl, arith, true, false, [], ◌∷◌, none, some}
use aliyun_odps_sdk_cpp.Prelude.Int.{pos}
use aliyun_odps_sdk_cpp.Result.{ok}
use aliyun_odps_sdk_cpp.Types.{array, struct, string, bigint}
use aliyun_odps_sdk_cpp.TableRecord.{type_code}
use aliyun_odps_sdk_cpp.Members.{
  string_value, int64_value, get_string, get_char, get_big_int, getter_type, string_of, big_int,
  value_type, stored, stores_pointer, at_index, type_check,
}
use aliyun_odps_sdk_cpp.Members.Array.{
  OdpsArray, new_array, get, overwrite, new_cell, put, append, append_null,
}
use aliyun_odps_sdk_cpp.Members.Struct.{
  OdpsStruct, null_members, new_struct, member_check, put_member,
}
use aliyun_odps_sdk_cpp.Members.Arrays.{
  Reachable, made, appended, null_appended, Reachable-IsGot, put-get,
}
use aliyun_odps_sdk_cpp.Members.Elements.{IsGot}
use aliyun_odps_sdk_cpp.Members.Structs
use aliyun_odps_sdk_cpp.Members.Structs.{ReachableStruct, IsMember, Reachable-IsMember}

abbrev empty_array : OdpsArray ℕ
empty_array = record { element_type = string; nulls = []; cells = [] }

abbrev one_string : OdpsArray ℕ
one_string = record {
  element_type = string;
  nulls = false ∷ [];
  cells = some (string_value (65 ∷ [])) ∷ [];
}

abbrev with_null : OdpsArray ℕ
with_null = record {
  element_type = string;
  nulls = false ∷ true ∷ [];
  cells = some (string_value (65 ∷ [])) ∷ none ∷ [];
}

abbrev two_strings : OdpsArray ℕ
two_strings = record {
  element_type = string;
  nulls = false ∷ false ∷ [];
  cells = some (string_value (65 ∷ [])) ∷ some (string_value (66 ∷ [])) ∷ [];
}

empty_made : new_array array (string ∷ []) ≡ ok empty_array
unfolding new_array type_code
empty_made = refl

one_appended : append (string_of (65 ∷ [])) empty_array ≡ ok one_string
unfolding append type_check type_code value_type stored
one_appended = refl

null_added : append_null one_string ≡ with_null
unfolding append_null
null_added = refl

second_put : put (string_of (66 ∷ [])) 1 (append_null one_string) ≡ ok two_strings
unfolding append_null put type_check type_code value_type stored at_index new_cell stores_pointer
    overwrite
second_put = refl

one_string-Reachable : Reachable one_string
one_string-Reachable =
    appended (string_of (65 ∷ [])) (made array (string ∷ []) empty_made) one_appended

Reachable-IsGot_example : IsGot get_char 0 one_string
Reachable-IsGot_example = Reachable-IsGot get_char 0 one_string-Reachable (omega arith)

put-get_example :
    (get get_string 1 two_strings ≡ ok (stored (string_of (66 ∷ []))))
    × (get get_string 0 two_strings ≡ get get_string 0 (append_null one_string))
unfolding append_null getter_type value_type
put-get_example =
    put-get (string_of (66 ∷ [])) 1 0 get_string get_string (null_appended one_string-Reachable)
      (omega arith) second_put refl refl

abbrev no_members : OdpsStruct ℕ
no_members = record { member_types = bigint ∷ string ∷ []; members = none ∷ none ∷ [] }

abbrev one_member : OdpsStruct ℕ
one_member = record {
  member_types = bigint ∷ string ∷ [];
  members = some (int64_value (pos 7)) ∷ none ∷ [];
}

struct_made : new_struct struct (bigint ∷ string ∷ []) ≡ ok no_members
unfolding new_struct null_members type_code
struct_made = refl

member_put : put_member (big_int (pos 7)) 0 no_members ≡ ok one_member
unfolding put_member member_check type_check type_code value_type stored at_index
member_put = refl

Reachable-IsMember_example : IsMember get_big_int 0 one_member
Reachable-IsMember_example =
    Reachable-IsMember get_big_int 0
      (Structs.was_put (big_int (pos 7)) 0 (Structs.made struct (bigint ∷ string ∷ []) struct_made)
        (omega arith) member_put)
      (omega arith)
