-- ===== src/TypeText/Parts.antt =====
-- The parts of a type's text, and what the parser makes of them (common/complex_type_schema.cpp).
use aliyun_odps_sdk_cpp.Prelude.{
  ℕ, suc, ◌^◌, ◌<◌, ◌≡◌, refl, sym, subst, Bool, true, false, Bytes, bytes_eq, [], ◌∷◌, ◌++◌, arith,
}
use aliyun_odps_sdk_cpp.Prelude.Int.{pos}
use aliyun_odps_sdk_cpp.Result.{ok}
use aliyun_odps_sdk_cpp.Types.{
  ColumnType, unknown, bigint, double, boolean, datetime, string, decimal, tinyint, smallint,
  integer, char, varchar, binary, date, timestamp, float, interval_year_month, interval_day_time,
  array, map, struct, json, timestamp_ntz, info, none_more, plain,
}
use aliyun_odps_sdk_cpp.TypeText.Print.{to_string, type_name, to_type_string}
use aliyun_odps_sdk_cpp.TypeText.Parse.{
  Boost, BoostLaws, Parser, Tokens, token_to_enumerator, parse_decimal, parse_length, parse_args,
  parse_type,
}
use aliyun_odps_sdk_cpp.TypeText.Tokens.{IsSign}
use aliyun_odps_sdk_cpp.TypeText.Names.{is_known, number-NumberWord}
use aliyun_odps_sdk_cpp.TypeText.Lexing.{Lex, LexAll, then_all, then_sign, sign, word-Lex}

-- The types whose text is their name.
abbrev pub is_plain : ColumnType → Bool
is_plain unknown = false
is_plain decimal = false
is_plain char = false
is_plain varchar = false
is_plain array = false
is_plain map = false
is_plain struct = false
is_plain t = true

module _ (b : Boost) (laws : BoostLaws b) where
  pub parse_named :
      (f : ℕ) (t : ColumnType) (c : ℕ) (w : Bytes) (ts : Tokens)
      → token_to_enumerator (c ∷ w) ≡ ok t
      → parse_type b (suc f) ((c ∷ w) ∷ ts) ≡ parse_args b (parse_type b f) t ts
  unfolding parse_type
  parse_named f t c w ts e = rw e

  -- A type whose text is its name.
  pub plain_lem :
      (one : Parser) (t : ColumnType) (m : Bytes) (ts : Tokens)
      → is_plain t ≡ true
      → (to_type_string (info t (pos 0) (pos 0) (pos 0) m none_more) ≡ type_name t)
        × (parse_args b one t ts ≡ ok (plain t, ts))
        × (is_known t ≡ true)
  unfolding to_type_string parse_args
  plain_lem one unknown m ts h = absurd (ground arith)
  plain_lem one decimal m ts h = absurd (ground arith)
  plain_lem one char m ts h = absurd (ground arith)
  plain_lem one varchar m ts h = absurd (ground arith)
  plain_lem one array m ts h = absurd (ground arith)
  plain_lem one map m ts h = absurd (ground arith)
  plain_lem one struct m ts h = absurd (ground arith)
  plain_lem one bigint m ts h = (refl, refl, refl)
  plain_lem one double m ts h = (refl, refl, refl)
  plain_lem one boolean m ts h = (refl, refl, refl)
  plain_lem one datetime m ts h = (refl, refl, refl)
  plain_lem one string m ts h = (refl, refl, refl)
  plain_lem one tinyint m ts h = (refl, refl, refl)
  plain_lem one smallint m ts h = (refl, refl, refl)
  plain_lem one integer m ts h = (refl, refl, refl)
  plain_lem one binary m ts h = (refl, refl, refl)
  plain_lem one date m ts h = (refl, refl, refl)
  plain_lem one timestamp m ts h = (refl, refl, refl)
  plain_lem one float m ts h = (refl, refl, refl)
  plain_lem one interval_year_month m ts h = (refl, refl, refl)
  plain_lem one interval_day_time m ts h = (refl, refl, refl)
  plain_lem one json m ts h = (refl, refl, refl)
  plain_lem one timestamp_ntz m ts h = (refl, refl, refl)

  pub read_length :
      (t : ColumnType) (n : ℕ) (rest : Tokens)
      → n < 2 ^ 31
      → parse_length b t ((40 ∷ []) ∷ to_string (pos n) ∷ (41 ∷ []) ∷ rest)
        ≡ ok (info t (pos 0) (pos 0) (pos n) [] none_more, rest)
  unfolding parse_length bytes_eq
  read_length t n rest h = rw (laws.lexical_cast_lem n h)

  pub read_decimal :
      (p s : ℕ) (rest : Tokens)
      → p < 2 ^ 31
      → s < 2 ^ 31
      → parse_decimal b
          ((40 ∷ []) ∷ to_string (pos p) ∷ (44 ∷ []) ∷ to_string (pos s) ∷ (41 ∷ []) ∷ rest)
        ≡ ok (info decimal (pos p) (pos s) (pos 0) [] none_more, rest)
  unfolding parse_decimal bytes_eq
  read_decimal p s rest h k = rw (laws.lexical_cast_lem p h) (rw (laws.lexical_cast_lem s k))

  pub number-Lex : (n : ℕ) → Lex b laws (to_string (pos n)) (to_string (pos n) ∷ [])
  number-Lex n =
      let (c, w, e, ws) = number-NumberWord n in
      subst (λ s. Lex b laws s (s ∷ [])) (sym e) (word-Lex b laws c w ws)

  -- Something between a sign and a closing sign.
  pub between_signs :
      (l r : ℕ) (s : Bytes) (ts : Tokens)
      → IsSign l
      → IsSign r
      → Lex b laws s ts
      → LexAll b laws ((l ∷ []) ++ (s ++ r ∷ [])) (((l ∷ []) ∷ []) ++ (ts ++ (r ∷ []) ∷ []))
  between_signs l r s ts h k lex =
      then_all b laws (l ∷ []) (s ++ r ∷ []) ((l ∷ []) ∷ []) (ts ++ (r ∷ []) ∷ []) (sign b laws l h)
        (then_sign b laws s (r ∷ []) ts ((r ∷ []) ∷ []) lex (λ u. k.0) (sign b laws r k))
