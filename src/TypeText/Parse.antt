-- ===== src/TypeText/Parse.antt =====
-- common/complex_type_schema.cpp: TypeInfoStringTokenize, the constructor of ODPSColumnTypeInfo from
-- tokens, and ParseTypeInfoString.
use aliyun_odps_sdk_cpp.Prelude.{
  ℕ, zero, suc, ◌-◌, ◌^◌, ◌<◌, ◌≡◌, Bool, true, false, ◌&&◌, ◌||◌, not, Bytes, bytes_eq, codes,
  List, [], ◌∷◌, ◌++◌, Option, none, some, length, leb, ◌==◌, if◌then◌else◌, All,
}
use aliyun_odps_sdk_cpp.Prelude.Int.{ℤ, pos}
use aliyun_odps_sdk_cpp.Result.{
  Result, ok, err, internal_error, not_implemented, undefined, out_of_fuel, ◌>>=◌, ◌>>◌, guard,
}
use aliyun_odps_sdk_cpp.Types.{
  ColumnType, TypeInfo, TypeInfos, bigint, double, boolean, datetime, string, decimal, tinyint,
  smallint, integer, char, varchar, binary, date, timestamp, float, interval_year_month,
  interval_day_time, array, map, struct, json, timestamp_ntz, info, none_more, more, plain,
}
use aliyun_odps_sdk_cpp.TypeText.Print.{to_string}

between : ℕ → ℕ → ℕ → Bool
between a b c = leb a c && leb c b

-- std::isspace, std::isalnum and std::toupper of the "C" locale.
unfoldable pub is_space : ℕ → Bool
unfolding between
is_space c = c == 32 || between 9 13 c

unfoldable pub is_alnum : ℕ → Bool
unfolding between
is_alnum c = between 48 57 c || between 65 90 c || between 97 122 c

unfoldable pub to_upper : ℕ → ℕ
unfolding between
to_upper c = if between 97 122 c then c - 32 else c

unfoldable pub check_type_info_char : ℕ → Bool
unfolding is_space is_alnum
check_type_info_char c = is_alnum c || c == 95 || c == 46 || is_space c

-- What the code takes from boost: `trim` and `lexical_cast<int32_t>`, which fails by an exception.
pub record Boost : Type 0 where
  pub trim : Bytes → Bytes
  pub lexical_cast : Bytes → Option ℤ

-- Their documented behaviour on what the round trip meets.
pub record BoostLaws (b : Boost) : Type 0 where
  pub trim_lem : (s : Bytes) → All (λ c. is_space c ≡ false) s → b.trim s ≡ s
  pub lexical_cast_lem : (n : ℕ) → n < 2 ^ 31 → b.lexical_cast (to_string (pos n)) ≡ some (pos n)

unfoldable pub upper : Bytes → Bytes
unfolding to_upper
upper [] = []
upper (c ∷ cs) = to_upper c ∷ upper cs

unfoldable pub enumerators : List (Bytes × ColumnType)
enumerators =
    (codes "BIGINT", bigint)
    ∷ (codes "DOUBLE", double)
    ∷ (codes "BOOLEAN", boolean)
    ∷ (codes "DATETIME", datetime)
    ∷ (codes "STRING", string)
    ∷ (codes "DECIMAL", decimal)
    ∷ (codes "TINYINT", tinyint)
    ∷ (codes "SMALLINT", smallint)
    ∷ (codes "INT", integer)
    ∷ (codes "CHAR", char)
    ∷ (codes "VARCHAR", varchar)
    ∷ (codes "BINARY", binary)
    ∷ (codes "DATE", date)
    ∷ (codes "TIMESTAMP", timestamp)
    ∷ (codes "TIMESTAMP_NTZ", timestamp_ntz)
    ∷ (codes "FLOAT", float)
    ∷ (codes "INTERVAL_YEAR_MONTH", interval_year_month)
    ∷ (codes "INTERVAL_DAY_TIME", interval_day_time)
    ∷ (codes "ARRAY", array)
    ∷ (codes "MAP", map)
    ∷ (codes "STRUCT", struct)
    ∷ (codes "JSON", json)
    ∷ []

unfoldable pub find_enumerator : Bytes → List (Bytes × ColumnType) → Result ColumnType
find_enumerator tok [] = err not_implemented
find_enumerator tok ((name, t) ∷ rest) =
    if bytes_eq tok name then ok t else find_enumerator tok rest

-- TypeInfoTokenToEnumerator.
unfoldable pub token_to_enumerator : Bytes → Result ColumnType
unfolding find_enumerator enumerators
token_to_enumerator tok = find_enumerator tok enumerators

abbrev pub Tokens : Type 0
Tokens = List Bytes

-- ExpectToken.
unfoldable pub expect_token : Bytes → Tokens → Result Tokens
expect_token s [] = err internal_error
expect_token s (t ∷ ts) = if bytes_eq t s then ok ts else err internal_error

-- ExpectToken with `optional`.
unfoldable pub optional_token : Bytes → Tokens → Bool × Tokens
optional_token s [] = (false, [])
optional_token s (t ∷ ts) = if bytes_eq t s then (true, ts) else (false, t ∷ ts)

-- ExpectString.
unfoldable pub expect_string : Tokens → Result (Bytes × Tokens)
expect_string [] = err internal_error
expect_string (t ∷ ts) = ok (t, ts)

abbrev pub Parser : Type 0
Parser = Tokens → Result (TypeInfo × Tokens)

-- `*begin != ">"`, which is undefined at the end of the tokens.
unfoldable pub at_close : Tokens → Result Bool
at_close [] = err undefined
at_close (t ∷ ts) = ok (bytes_eq t (codes ">"))

abbrev pub with_name : Bytes → TypeInfo → TypeInfo
with_name name (info t p s n m subs) = info t p s n name subs

-- The loop of the case ODPS_STRUCT; a member takes a token at least.
unfoldable pub parse_members : Parser → ℕ → Tokens → Result (TypeInfos × Tokens)
unfolding at_close expect_string expect_token
parse_members one zero ts = err out_of_fuel
parse_members one (suc fuel) ts = at_close ts >>= elim [
  | true ↦ ok (none_more, ts)
  | false ↦ expect_string ts >>= λ (name, ts₁). expect_token (codes ":") ts₁ >>= λ ts₂.
      one ts₂ >>= λ (t, ts₃). at_close ts₃ >>= λ closed.
      (if closed then ok ts₃ else expect_token (codes ",") ts₃) >>= λ ts₄.
      parse_members one fuel ts₄ >>= λ (us, ts₅). ok (more (with_name name t) us, ts₅)
]

some_members : TypeInfos → Bool
some_members none_more = false
some_members (more t ts) = true

module _ (b : Boost) where
  -- The tokens behind the characters `tok`, the last of which is `prev`.
  unfoldable pub tokens_from : Bytes → ℕ → Bytes → Tokens
  unfolding upper check_type_info_char
  tokens_from tok prev [] = upper (b.trim tok) ∷ []
  tokens_from tok prev (c ∷ cs) =
      elim (not (check_type_info_char c) || not (check_type_info_char prev)) [
        | true ↦ upper (b.trim tok) ∷ tokens_from (c ∷ []) c cs
        | false ↦ tokens_from (tok ++ c ∷ []) c cs
      ]

  -- TypeInfoStringTokenize.
  unfoldable pub tokenize : Bytes → Tokens
  unfolding tokens_from
  tokenize [] = []
  tokenize (c ∷ cs) = tokens_from (c ∷ []) c cs

  abbrev pub or_bad_cast : Tokens → Option ℤ → Result (ℤ × Tokens)
  or_bad_cast ts none = err internal_error
  or_bad_cast ts (some n) = ok (n, ts)

  -- ExpectInteger.
  unfoldable pub expect_integer : Tokens → Result (ℤ × Tokens)
  expect_integer [] = err internal_error
  expect_integer (t ∷ ts) = or_bad_cast ts (b.lexical_cast t)

  -- The case ODPS_DECIMAL: a decimal without arguments is the old one.
  unfoldable pub parse_decimal : Parser
  unfolding optional_token expect_integer expect_token
  parse_decimal ts = elim (optional_token (codes "(") ts).0 [
    | true ↦ expect_integer (optional_token (codes "(") ts).1 >>= λ (p, ts₁).
        expect_token (codes ",") ts₁ >>= λ ts₂. expect_integer ts₂ >>= λ (s, ts₃).
        expect_token (codes ")") ts₃ >>= λ ts₄. ok (info decimal p s (pos 0) [] none_more, ts₄)
    | false ↦
        ok (info decimal (pos 54) (pos 18) (pos 0) [] none_more, (optional_token (codes "(") ts).1)
  ]

  unfoldable pub parse_length : ColumnType → Parser
  unfolding expect_integer expect_token
  parse_length t ts = expect_token (codes "(") ts >>= λ ts₁. expect_integer ts₁ >>= λ (n, ts₂).
      expect_token (codes ")") ts₂ >>= λ ts₃. ok (info t (pos 0) (pos 0) n [] none_more, ts₃)

  -- The switch over the type, with the parser of a part.
  unfoldable pub parse_args : Parser → ColumnType → Parser
  unfolding parse_decimal parse_length parse_members some_members expect_token
  parse_args one decimal ts = parse_decimal ts
  parse_args one char ts = parse_length char ts
  parse_args one varchar ts = parse_length varchar ts
  parse_args one array ts = expect_token (codes "<") ts >>= λ ts₁. one ts₁ >>= λ (t, ts₂).
      expect_token (codes ">") ts₂ >>= λ ts₃.
      ok (info array (pos 0) (pos 0) (pos 0) [] (more t none_more), ts₃)
  parse_args one map ts = expect_token (codes "<") ts >>= λ ts₁. one ts₁ >>= λ (k, ts₂).
      expect_token (codes ",") ts₂ >>= λ ts₃. one ts₃ >>= λ (t, ts₄).
      expect_token (codes ">") ts₄ >>= λ ts₅.
      ok (info map (pos 0) (pos 0) (pos 0) [] (more k (more t none_more)), ts₅)
  parse_args one struct ts = expect_token (codes "<") ts >>= λ ts₁.
      parse_members one (suc (length ts₁)) ts₁ >>= λ (us, ts₂).
      expect_token (codes ">") ts₂ >>= λ ts₃.
      guard (some_members us) internal_error >> ok (info struct (pos 0) (pos 0) (pos 0) [] us, ts₃)
  parse_args one t ts = ok (plain t, ts)

  -- The constructor; a type takes a token at least.
  unfoldable pub parse_type : ℕ → Parser
  unfolding parse_args token_to_enumerator
  parse_type zero ts = err out_of_fuel
  parse_type (suc fuel) [] = err internal_error
  parse_type (suc fuel) (tok ∷ ts) =
      token_to_enumerator tok >>= λ t. parse_args (parse_type fuel) t ts

  abbrev pub no_trailing : TypeInfo × Tokens → Result TypeInfo
  no_trailing (t, []) = ok t
  no_trailing (t, tok ∷ ts) = err internal_error

  -- ParseTypeInfoString.
  unfoldable pub parse_type_info_string : Bytes → Result TypeInfo
  unfolding parse_type tokenize
  parse_type_info_string s = parse_type (suc (length (tokenize s))) (tokenize s) >>= no_trailing
