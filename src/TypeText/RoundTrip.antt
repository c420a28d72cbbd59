-- ===== src/TypeText/RoundTrip.antt =====
-- The text of a type, written by ToTypeString and read by ParseTypeInfoString
-- (common/complex_type_schema.cpp).
use aliyun_odps_sdk_cpp.Prelude.{
  ℕ, zero, suc, ◌+◌, ◌^◌, ◌<◌, ◌≡◌, refl, ap, sym, subst, ◌∙◌, true, false, ◌&&◌, Bytes, bytes_eq,
  [], ◌∷◌, ◌++◌, append-nil, append_assoc, ◌==◌, arith, length, length-append,
}
use aliyun_odps_sdk_cpp.Prelude.Int.{pos}
use aliyun_odps_sdk_cpp.Result.{ok, err, out_of_fuel}
use aliyun_odps_sdk_cpp.Types.{
  ColumnType, TypeInfo, decimal, char, varchar, array, map, info, none_more, more, plain,
}
use aliyun_odps_sdk_cpp.TypeText.Print.{
  to_string, type_name, decimal_text, int_is_zero, to_type_string,
}
use aliyun_odps_sdk_cpp.TypeText.Parse.{
  Boost, BoostLaws, Parser, Tokens, tokenize, token_to_enumerator, parse_args, parse_type,
  parse_type_info_string,
}
use aliyun_odps_sdk_cpp.TypeText.Tokens.{IsSign}
use aliyun_odps_sdk_cpp.TypeText.Names.{is_known, type-Named}
use aliyun_odps_sdk_cpp.TypeText.Lexing.{
  Lex, LexAll, then_all, then_sign, sign, word-Lex, less-IsSign, greater-IsSign, comma-IsSign,
  open-IsSign, close-IsSign,
}
use aliyun_odps_sdk_cpp.TypeText.Parts.{
  is_plain, parse_named, plain_lem, read_length, read_decimal, number-Lex, between_signs,
}

-- The types without a struct in them, and with the settings that their constructors give. A decimal
-- has a precision or a scale.
pub data IsPrintable : TypeInfo → Type 0 where
  printed_plain : {t : ColumnType} → is_plain t ≡ true → IsPrintable (plain t)
  printed_decimal :
      {p s : ℕ}
      → p < 2 ^ 31
      → s < 2 ^ 31
      → 0 < p + s
      → IsPrintable (info decimal (pos p) (pos s) (pos 0) [] none_more)
  printed_char : {n : ℕ} → n < 2 ^ 31 → IsPrintable (info char (pos 0) (pos 0) (pos n) [] none_more)
  printed_varchar :
      {n : ℕ} → n < 2 ^ 31 → IsPrintable (info varchar (pos 0) (pos 0) (pos n) [] none_more)
  printed_array :
      {t : TypeInfo}
      → IsPrintable t
      → IsPrintable (info array (pos 0) (pos 0) (pos 0) [] (more t none_more))
  printed_map :
      {k t : TypeInfo}
      → IsPrintable k
      → IsPrintable t
      → IsPrintable (info map (pos 0) (pos 0) (pos 0) [] (more k (more t none_more)))

module _ (b : Boost) (laws : BoostLaws b) where
  -- A type's text, its tokens, and that they are read as the type.
  abbrev Printed : TypeInfo → Type 0
  Printed t =
      (s : Bytes) × (ts : Tokens) × (to_type_string t ≡ ok s)
      × Lex b laws s ts
      × ((f : ℕ) (rest : Tokens) → length ts < f → parse_type b f (ts ++ rest) ≡ ok (t, rest))

  headed :
      (t : ColumnType) (T : TypeInfo) (c : ℕ) (w : Bytes) (ts : Tokens)
      → token_to_enumerator (c ∷ w) ≡ ok t
      → ((f : ℕ) (rest : Tokens)
          → length ts < f
          → parse_args b (parse_type b f) t (ts ++ rest) ≡ ok (T, rest))
      → (f : ℕ) (rest : Tokens) → length ((c ∷ w) ∷ ts) < f
      → parse_type b f (((c ∷ w) ∷ ts) ++ rest) ≡ ok (T, rest)
  headed t T c w ts found args zero rest l = absurd (omega arith)
  headed t T c w ts found args (suc f) rest l =
      parse_named b laws f t c w (ts ++ rest) found ∙ args f rest (omega arith)

  -- A name, and arguments that a sign opens.
  Printed-with :
      (t : ColumnType) (T : TypeInfo) (l : ℕ) (s : Bytes) (ts : Tokens)
      → is_known t ≡ true
      → IsSign l
      → ((name : Bytes) → type_name t ≡ ok name → to_type_string T ≡ ok (name ++ (l ∷ s)))
      → LexAll b laws (l ∷ s) ts
      → ((f : ℕ) (rest : Tokens)
          → length ts < f
          → parse_args b (parse_type b f) t (ts ++ rest) ≡ ok (T, rest))
      → Printed T
  Printed-with t T l s ts k sg text lex args =
      let (c, w, e, ws, found) = type-Named t k in
      (
        (c ∷ w) ++ (l ∷ s),
        (c ∷ w) ∷ ts,
        text (c ∷ w) e,
        (λ r h.
            then_sign b laws (c ∷ w) (l ∷ s) ((c ∷ w) ∷ []) ts (word-Lex b laws c w ws) (λ u. sg.0)
              lex r),
        headed t T c w ts found args,
      )

  Printed-name : (t : ColumnType) → is_plain t ≡ true → Printed (plain t)
  Printed-name t h =
      let none_read : Parser = λ ts. err out_of_fuel in
      let (text, args, known) = plain_lem b laws none_read t [] [] h in
      let (c, w, e, ws, found) = type-Named t known in
      (
        c ∷ w,
        (c ∷ w) ∷ [],
        text ∙ e,
        word-Lex b laws c w ws,
        headed t (plain t) c w [] found
            (λ f rest l. (plain_lem b laws (parse_type b f) t [] rest h).1),
      )

  sized-LexAll :
      (n : ℕ)
      → LexAll b laws
          (40 ∷ (to_string (pos n) ++ 41 ∷ []))
          ((40 ∷ []) ∷ to_string (pos n) ∷ (41 ∷ []) ∷ [])
  sized-LexAll n =
      between_signs b laws 40 41 (to_string (pos n)) (to_string (pos n) ∷ []) open-IsSign
        close-IsSign (number-Lex b laws n)

  Printed-char : (n : ℕ) → n < 2 ^ 31 → Printed (info char (pos 0) (pos 0) (pos n) [] none_more)
  unfolding to_type_string parse_args
  Printed-char n h =
      Printed-with char _ 40 (to_string (pos n) ++ 41 ∷ [])
        ((40 ∷ []) ∷ to_string (pos n) ∷ (41 ∷ []) ∷ []) refl open-IsSign (λ name e. rw e)
        (sized-LexAll n) (λ f rest l. read_length b laws char n rest h)

  Printed-varchar :
      (n : ℕ) → n < 2 ^ 31 → Printed (info varchar (pos 0) (pos 0) (pos n) [] none_more)
  unfolding to_type_string parse_args
  Printed-varchar n h =
      Printed-with varchar _ 40 (to_string (pos n) ++ 41 ∷ [])
        ((40 ∷ []) ∷ to_string (pos n) ∷ (41 ∷ []) ∷ []) refl open-IsSign (λ name e. rw e)
        (sized-LexAll n) (λ f rest l. read_length b laws varchar n rest h)

  Printed-decimal :
      (p s : ℕ)
      → p < 2 ^ 31
      → s < 2 ^ 31
      → 0 < p + s
      → Printed (info decimal (pos p) (pos s) (pos 0) [] none_more)
  unfolding to_type_string parse_args decimal_text int_is_zero
  Printed-decimal p s h k some_set =
      let nonzero : ((p == 0) && (s == 0)) ≡ false = ground arith in
      let a = to_string (pos p) in
      let c = to_string (pos s) in
      Printed-with decimal _ 40 (a ++ 44 ∷ (c ++ 41 ∷ []))
        ((40 ∷ []) ∷ a ∷ (44 ∷ []) ∷ c ∷ (41 ∷ []) ∷ []) refl open-IsSign
        (λ name e. rw e (rw nonzero))
        (then_all b laws (40 ∷ []) (a ++ 44 ∷ (c ++ 41 ∷ [])) ((40 ∷ []) ∷ [])
          (a ∷ (44 ∷ []) ∷ c ∷ (41 ∷ []) ∷ []) (sign b laws 40 open-IsSign)
          (then_sign b laws a (44 ∷ (c ++ 41 ∷ [])) (a ∷ []) ((44 ∷ []) ∷ c ∷ (41 ∷ []) ∷ [])
            (number-Lex b laws p) (λ u. comma-IsSign.0)
            (between_signs b laws 44 41 c (c ∷ []) comma-IsSign close-IsSign
              (number-Lex b laws s))))
        (λ f rest l. read_decimal b laws p s rest h k)

  Printed-array :
      (t : TypeInfo)
      → Printed t
      → Printed (info array (pos 0) (pos 0) (pos 0) [] (more t none_more))
  unfolding to_type_string parse_args bytes_eq
  Printed-array t (s, ts, text, lex, read) =
      Printed-with array _ 60 (s ++ 62 ∷ []) ((60 ∷ []) ∷ (ts ++ (62 ∷ []) ∷ [])) refl less-IsSign
        (λ name e. rw e (rw text)) (between_signs b laws 60 62 s ts less-IsSign greater-IsSign lex)
        (λ f rest l.
          rw append_assoc
            (rw (read f ((62 ∷ []) ∷ rest) (omega (arith, length-append ts ((62 ∷ []) ∷ []))))))

  Printed-map :
      (k t : TypeInfo)
      → Printed k
      → Printed t
      → Printed (info map (pos 0) (pos 0) (pos 0) [] (more k (more t none_more)))
  unfolding to_type_string parse_args bytes_eq
  Printed-map k t (s, ts, text, lex, read) (s', ts', text', lex', read') =
      Printed-with map _ 60 (s ++ 44 ∷ (s' ++ 62 ∷ []))
        ((60 ∷ []) ∷ (ts ++ (44 ∷ []) ∷ (ts' ++ (62 ∷ []) ∷ []))) refl less-IsSign
        (λ name e. rw e (rw text (rw text')))
        (then_all b laws (60 ∷ []) (s ++ 44 ∷ (s' ++ 62 ∷ [])) ((60 ∷ []) ∷ []) _
          (sign b laws 60 less-IsSign)
          (then_sign b laws s (44 ∷ (s' ++ 62 ∷ [])) ts _ lex (λ u. comma-IsSign.0)
            (between_signs b laws 44 62 s' ts' comma-IsSign greater-IsSign lex')))
        (λ f rest l.
          let tail = (44 ∷ []) ∷ (ts' ++ (62 ∷ []) ∷ []) in
          let long = length-append ts tail in
          let long' = length-append ts' ((62 ∷ []) ∷ []) in
          rw (append_assoc ts tail rest) (
            rw (read f (tail ++ rest) (omega (arith, long)))
              (rw append_assoc (rw (read' f ((62 ∷ []) ∷ rest) (omega (arith, long, long')))))))

  type-Printed : {t : TypeInfo} → IsPrintable t → Printed t
  type-Printed (printed_plain {t} h) = Printed-name t h
  type-Printed (printed_decimal {p} {s} h k n) = Printed-decimal p s h k n
  type-Printed (printed_char {n} h) = Printed-char n h
  type-Printed (printed_varchar {n} h) = Printed-varchar n h
  type-Printed (printed_array {t} h) = Printed-array t (type-Printed h)
  type-Printed (printed_map {k} {t} h h') = Printed-map k t (type-Printed h) (type-Printed h')

  -- Every type, however deep, without a struct in it and without a decimal whose precision and scale are
  -- 0 has a text, and ParseTypeInfoString reads that text back as the same type with nothing left over.
  -- Precisions, scales and lengths are those of a non-negative int32_t.
  pub type_string_round_trip :
      {t : TypeInfo}
      → IsPrintable t
      → (s : Bytes) × (to_type_string t ≡ ok s) × (parse_type_info_string b s ≡ ok t)
  unfolding parse_type_info_string tokenize
  type_string_round_trip {t} h =
      let (s, ts, text, lex, read) = type-Printed h in
      let cut : tokenize b s ≡ ts =
        ap (tokenize b) (sym (append-nil s)) ∙ lex [] tt ∙ append-nil ts in
      (
        s,
        text,
        rw cut (
            rw (
              subst (λ u. parse_type b (suc (length ts)) u ≡ ok (t, [])) (append-nil ts)
                (read (suc (length ts)) [] (omega arith)))),
      )
