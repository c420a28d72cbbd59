-- ===== src/TypeText/Lexing.antt =====
-- Texts cut into tokens, put together (common/complex_type_schema.cpp).
use aliyun_odps_sdk_cpp.Prelude.{
  ℕ, ◌≡◌, refl, ap, sym, ◌∙◌, Bytes, [], ◌∷◌, ◌++◌, append_assoc, All,
}
use aliyun_odps_sdk_cpp.TypeText.Parse.{
  Boost, BoostLaws, Tokens, is_space, to_upper, check_type_info_char, tokenize,
}
use aliyun_odps_sdk_cpp.TypeText.Tokens.{IsWordChar, IsSign, Breaks, tokenize_word, tokenize_sign}

module _ (b : Boost) (laws : BoostLaws b) where
  -- A text that is cut into these tokens, before a sign and before anything.
  abbrev pub Lex : Bytes → Tokens → Type 0
  Lex s ts = (r : Bytes) → Breaks r → tokenize b (s ++ r) ≡ ts ++ tokenize b r

  abbrev pub LexAll : Bytes → Tokens → Type 0
  LexAll s ts = (r : Bytes) → tokenize b (s ++ r) ≡ ts ++ tokenize b r

  pub then_all :
      (s s' : Bytes) (ts ts' : Tokens) → LexAll s ts → LexAll s' ts' → LexAll (s ++ s') (ts ++ ts')
  then_all s s' ts ts' h k r =
      ap (tokenize b) (append_assoc s s' r)
      ∙ h (s' ++ r)
      ∙ ap (λ u. ts ++ u) (k r)
      ∙ sym (append_assoc ts ts' (tokenize b r))

  pub then_sign :
      (s s' : Bytes) (ts ts' : Tokens)
      → Lex s ts
      → ((r : Bytes) → Breaks (s' ++ r))
      → LexAll s' ts'
      → LexAll (s ++ s') (ts ++ ts')
  then_sign s s' ts ts' h e k r =
      ap (tokenize b) (append_assoc s s' r)
      ∙ h (s' ++ r) (e r)
      ∙ ap (λ u. ts ++ u) (k r)
      ∙ sym (append_assoc ts ts' (tokenize b r))

  pub sign : (c : ℕ) → IsSign c → LexAll (c ∷ []) ((c ∷ []) ∷ [])
  sign c h r = tokenize_sign b laws c r h

  pub word-Lex : (c : ℕ) (w : Bytes) → All IsWordChar (c ∷ w) → Lex (c ∷ w) ((c ∷ w) ∷ [])
  word-Lex c w h r k = tokenize_word b laws c w r h k

pub less-IsSign : IsSign 60
unfolding check_type_info_char is_space to_upper
less-IsSign = (refl, refl, refl)

pub greater-IsSign : IsSign 62
unfolding check_type_info_char is_space to_upper
greater-IsSign = (refl, refl, refl)

pub comma-IsSign : IsSign 44
unfolding check_type_info_char is_space to_upper
comma-IsSign = (refl, refl, refl)

pub open-IsSign : IsSign 40
unfolding check_type_info_char is_space to_upper
open-IsSign = (refl, refl, refl)

pub close-IsSign : IsSign 41
unfolding check_type_info_char is_space to_upper
close-IsSign = (refl, refl, refl)
