-- ===== src/TypeText/Tokens.antt =====
-- How TypeInfoStringTokenize (common/complex_type_schema.cpp) cuts words and signs.
use aliyun_odps_sdk_cpp.Prelude.{
  ℕ, ◌≤◌, ◌≡◌, refl, ap, ◌∙◌, true, false, Bytes, [], ◌∷◌, ◌++◌, append-nil, append_assoc, arith,
  All, Bool-cases, inl, inr,
}
use aliyun_odps_sdk_cpp.TypeText.Parse.{
  Boost, BoostLaws, is_space, to_upper, check_type_info_char, upper, tokens_from, tokenize,
}

abbrev pub IsWordChar : ℕ → Type 0
IsWordChar c = (check_type_info_char c ≡ true) × (is_space c ≡ false) × (to_upper c ≡ c)

abbrev pub IsSign : ℕ → Type 0
IsSign c = (check_type_info_char c ≡ false) × (is_space c ≡ false) × (to_upper c ≡ c)

-- Where a word ends.
abbrev pub Breaks : Bytes → Type 0
Breaks [] = Unit {0}
Breaks (c ∷ cs) = check_type_info_char c ≡ false

upper-same : (s : Bytes) → All (λ c. to_upper c ≡ c) s → upper s ≡ s
unfolding upper
upper-same [] h = refl
upper-same (c ∷ cs) h = rw h.0 (ap (◌∷◌ c) (upper-same cs h.1))

All-map : (P Q : ℕ → Type 0) (s : Bytes) → ((c : ℕ) → P c → Q c) → All P s → All Q s
All-map P Q [] f h = tt
All-map P Q (c ∷ cs) f h = (f c h.0, All-map P Q cs f h.1)

pub digit-IsWordChar : (c : ℕ) → 48 ≤ c → c ≤ 57 → IsWordChar c
unfolding check_type_info_char is_space to_upper
digit-IsWordChar c h k = (ground arith, ground arith, ground arith)

module _ (b : Boost) (laws : BoostLaws b) where
  -- A token of these characters stays as it is.
  token-same :
      (s : Bytes) → All (λ c. (is_space c ≡ false) × (to_upper c ≡ c)) s → upper (b.trim s) ≡ s
  token-same s h =
      rw (laws.trim_lem s (All-map _ (λ c. is_space c ≡ false) s (λ c p. p.0) h))
        (upper-same s (All-map _ (λ c. to_upper c ≡ c) s (λ c p. p.1) h))

  run :
      (tok : Bytes) (prev : ℕ) (w r : Bytes)
      → check_type_info_char prev ≡ true
      → All IsWordChar w
      → Breaks r
      → tokens_from b tok prev (w ++ r) ≡ upper (b.trim (tok ++ w)) ∷ tokenize b r
  unfolding tokens_from tokenize
  run tok prev [] [] e h k = rw append-nil
  run tok prev [] (c ∷ cs) e h k = rw (k, tokens_from) (rw append-nil)
  run tok prev (c ∷ w) r e h k =
      rw (h.0.0, tokens_from) (rw e (run (tok ++ c ∷ []) c w r h.0.0 h.1 k ∙ rw append_assoc))

  pub tokenize_word :
      (c : ℕ) (w r : Bytes)
      → All IsWordChar (c ∷ w)
      → Breaks r
      → tokenize b ((c ∷ w) ++ r) ≡ (c ∷ w) ∷ tokenize b r
  unfolding tokenize
  tokenize_word c w r h k =
      run (c ∷ []) c w r h.0.0 h.1 k
      ∙ ap (λ t. t ∷ tokenize b r)
          (token-same (c ∷ w) (All-map IsWordChar _ (c ∷ w) (λ d p. (p.1, p.2)) h))

  pub tokenize_sign : (c : ℕ) (r : Bytes) → IsSign c → tokenize b (c ∷ r) ≡ (c ∷ []) ∷ tokenize b r
  unfolding tokenize tokens_from
  tokenize_sign c [] (e, h, u) = rw (token-same (c ∷ []) ((h, u), tt))
  tokenize_sign c (d ∷ ds) (e, h, u) = elim (Bool-cases (check_type_info_char d)) [
    | inl k ↦ rw (k, tokens_from) (rw e (rw (token-same (c ∷ []) ((h, u), tt))))
    | inr k ↦ rw (k, tokens_from) (rw (token-same (c ∷ []) ((h, u), tt)))
  ]
