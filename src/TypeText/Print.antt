-- ===== src/TypeText/Print.antt =====
-- common/complex_type_schema.cpp: ODPSColumnTypeInfo::ToTypeString.
use aliyun_odps_sdk_cpp.Prelude.{
  ℕ, zero, suc, ◌+◌, ◌/◌, ◌%◌, Bool, false, ◌&&◌, Bytes, codes, [], ◌∷◌, ◌++◌, Option, none, some,
  ltb, ◌==◌, if◌then◌else◌,
}
use aliyun_odps_sdk_cpp.Prelude.Int.{ℤ, pos, negsuc}
use aliyun_odps_sdk_cpp.Result.{Result, ok, err, plain_error, internal_error, ◌>>=◌}
use aliyun_odps_sdk_cpp.Types.{
  ColumnType, TypeInfo, TypeInfos, decimal, char, varchar, array, map, struct, info, none_more,
  more, get_type_name,
}

-- The decimal digits of a number below 10 ^ fuel.
unfoldable pub digits : ℕ → ℕ → Bytes
digits zero n = []
digits (suc fuel) n =
    let rest = digits fuel (n / 10) in
    if ltb n 10 then (48 + n) ∷ [] else rest ++ (48 + n % 10) ∷ []

-- std::to_string of an int32_t, which has ten digits at most.
unfoldable pub to_string : ℤ → Bytes
unfolding digits
to_string (pos n) = digits 10 n
to_string (negsuc n) = 45 ∷ digits 10 (n + 1)

abbrev pub or_unknown : Option Bytes → Result Bytes
or_unknown none = err plain_error
or_unknown (some name) = ok name

abbrev pub type_name : ColumnType → Result Bytes
type_name t = or_unknown (get_type_name t)

unfoldable pub int_is_zero : ℤ → Bool
int_is_zero (pos n) = n == 0
int_is_zero (negsuc n) = false

-- The precision and scale of a decimal, if one of them is not 0.
unfoldable pub decimal_text : ℤ → ℤ → Bytes
unfolding int_is_zero to_string
decimal_text p s =
    if int_is_zero p && int_is_zero s
    then []
    else codes "(" ++ (to_string p ++ (codes "," ++ (to_string s ++ codes ")")))

abbrev pub behind_comma : TypeInfos → Bytes → Bytes
behind_comma none_more b = []
behind_comma (more t ts) b = codes "," ++ b

-- `at` of a missing part throws std::out_of_range.
unfoldable mutual
  pub to_type_string : TypeInfo → Result Bytes
  to_type_string (info decimal p s n m subs) =
      type_name decimal >>= λ name. ok (name ++ decimal_text p s)
  to_type_string (info char p s n m subs) =
      type_name char >>= λ name. ok (name ++ (codes "(" ++ (to_string n ++ codes ")")))
  to_type_string (info varchar p s n m subs) =
      type_name varchar >>= λ name. ok (name ++ (codes "(" ++ (to_string n ++ codes ")")))
  to_type_string (info array p s n m none_more) = err plain_error
  to_type_string (info array p s n m (more t ts)) = type_name array >>= λ name.
      to_type_string t >>= λ a. ok (name ++ (codes "<" ++ (a ++ codes ">")))
  to_type_string (info map p s n m none_more) = err plain_error
  to_type_string (info map p s n m (more k none_more)) = err plain_error
  to_type_string (info map p s n m (more k (more t ts))) = type_name map >>= λ name.
      to_type_string k >>= λ a.
      to_type_string t >>= λ b. ok (name ++ (codes "<" ++ (a ++ (codes "," ++ (b ++ codes ">")))))
  to_type_string (info struct p s n m none_more) = err internal_error
  to_type_string (info struct p s n m (more t ts)) = type_name struct >>= λ name.
      to_type_string t >>= λ a.
      members_text ts >>= λ b. ok (name ++ (codes "<" ++ ((a ++ behind_comma ts b) ++ codes ">")))
  to_type_string (info t p s n m subs) = type_name t

  -- The loop of the case ODPS_STRUCT: the types without the members' names.
  pub members_text : TypeInfos → Result Bytes
  members_text none_more = ok []
  members_text (more t us) =
      to_type_string t >>= λ a. members_text us >>= λ b. ok (a ++ behind_comma us b)
