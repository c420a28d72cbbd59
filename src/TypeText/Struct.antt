-- ===== src/TypeText/Struct.antt =====
-- The text of a struct in common/complex_type_schema.cpp: ToTypeString leaves out the members' names
-- that ParseTypeInfoString asks for.
use aliyun_odps_sdk_cpp.Prelude.{
  ℕ, ◌≡◌, refl, ap, sym, subst, ◌∙◌, true, false, Bytes, bytes_eq, [], ◌∷◌, ◌++◌, append-nil, ◌==◌,
  arith, Bool-cases, inl, inr, ==_iff,
}
use aliyun_odps_sdk_cpp.Prelude.Int.{pos}
use aliyun_odps_sdk_cpp.Result.{ok, err, internal_error, out_of_fuel}
use aliyun_odps_sdk_cpp.Types.{ColumnType, TypeInfo, struct, info, none_more, more}
use aliyun_odps_sdk_cpp.TypeText.Print.{to_type_string}
use aliyun_odps_sdk_cpp.TypeText.Parse.{
  Boost, BoostLaws, Parser, tokenize, parse_args, parse_members, parse_type, parse_type_info_string,
  expect_string, expect_token, at_close, check_type_info_char,
}
use aliyun_odps_sdk_cpp.TypeText.Tokens.{IsWordChar}
use aliyun_odps_sdk_cpp.TypeText.Names.{type-Named}
use aliyun_odps_sdk_cpp.TypeText.Lexing.{
  then_all, then_sign, sign, word-Lex, less-IsSign, greater-IsSign,
}
use aliyun_odps_sdk_cpp.TypeText.Parts.{is_plain, plain_lem}

-- A struct of one member.
abbrev pub struct_of_one : Bytes → ColumnType → TypeInfo
struct_of_one name t =
    info struct (pos 0) (pos 0) (pos 0) []
      (more (info t (pos 0) (pos 0) (pos 0) name none_more) none_more)

-- A word does not start with the sign `>`.
not_greater : (c : ℕ) → IsWordChar c → (c == 62) ≡ false
unfolding check_type_info_char
not_greater c (h, _, _) = elim (Bool-cases (c == 62)) [
  | inl e ↦
      let wrong = subst (λ k. check_type_info_char k ≡ true) ((==_iff c 62).0 e) h in
      absurd (ground (arith, wrong))
  | inr e ↦ e
]

module _ (b : Boost) (laws : BoostLaws b) where
  one_member :
      (one : Parser) (c : ℕ) (w : Bytes)
      → IsWordChar c
      → parse_args b one struct ((60 ∷ []) ∷ (c ∷ w) ∷ (62 ∷ []) ∷ []) ≡ err internal_error
  unfolding parse_args parse_members at_close expect_string expect_token bytes_eq
  one_member one c w h = rw (not_greater c h)

  -- A struct with one member of a type without arguments has a text, whatever the member's name,
  -- and ParseTypeInfoString refuses that text with an internal error.
  pub struct_unreadable :
      (name : Bytes) (t : ColumnType)
      → is_plain t ≡ true
      → (s : Bytes) × (to_type_string (struct_of_one name t) ≡ ok s)
        × (parse_type_info_string b s ≡ err internal_error)
  unfolding parse_type_info_string parse_type tokenize to_type_string
  struct_unreadable name t h =
      let none_read : Parser = λ ts. err out_of_fuel in
      let (text, args, known) = plain_lem b laws none_read t name [] h in
      let (c, w, e, ws, found) = type-Named t known in
      let (d, v, e', vs, found') = type-Named struct refl in
      let lex =
        then_sign b laws (d ∷ v) (60 ∷ ((c ∷ w) ++ 62 ∷ [])) ((d ∷ v) ∷ [])
          ((60 ∷ []) ∷ (c ∷ w) ∷ (62 ∷ []) ∷ []) (word-Lex b laws d v vs) (λ u. less-IsSign.0)
          (then_all b laws (60 ∷ []) ((c ∷ w) ++ 62 ∷ []) ((60 ∷ []) ∷ [])
            ((c ∷ w) ∷ (62 ∷ []) ∷ []) (sign b laws 60 less-IsSign)
            (then_sign b laws (c ∷ w) (62 ∷ []) ((c ∷ w) ∷ []) ((62 ∷ []) ∷ [])
              (word-Lex b laws c w ws) (λ u. greater-IsSign.0) (sign b laws 62 greater-IsSign))) in
      let s = (d ∷ v) ++ 60 ∷ ((c ∷ w) ++ 62 ∷ []) in
      let cut : tokenize b s ≡ (d ∷ v) ∷ (60 ∷ []) ∷ (c ∷ w) ∷ (62 ∷ []) ∷ [] =
        ap (tokenize b) (sym (append-nil s)) ∙ lex [] in
      (s, rw e' (rw text (rw e (rw append-nil))), rw cut (rw found' (rw (one_member _ c w ws.0))))
