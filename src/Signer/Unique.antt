-- ===== src/Signer/Unique.antt =====
-- The lines of the string to sign, and what ends them (common/signer.cpp).
use aliyun_odps_sdk_cpp.Prelude.{
  ℕ, ◌≡◌, refl, sym, ◌∙◌, subst, false, Bytes, codes, List, [], ◌∷◌, ◌++◌, if◌then◌else◌, map, ◌==◌,
  arith, All, append_assoc,
}
use aliyun_odps_sdk_cpp.Signer.{start_with, signed_lines}
use aliyun_odps_sdk_cpp.Signer.Entries.{Entry}

abbrev pub IsWithout : ℕ → Bytes → Type 0
IsWithout c s = All (λ b. (b == c) ≡ false) s

-- A separator that two parts do not have ends them both.
pub part_unique :
    (c : ℕ) (xs ys us vs : Bytes)
    → IsWithout c xs
    → IsWithout c ys
    → xs ++ c ∷ us ≡ ys ++ c ∷ vs
    → (xs ≡ ys) × (us ≡ vs)
part_unique c [] [] us vs h k e = (refl, cc e)
part_unique c [] (y ∷ ys) us vs h (k, ks) e =
    let same : c ≡ y = cc e in absurd (ground (arith, same, k))
part_unique c (x ∷ xs) [] us vs (h, hs) k e =
    let same : x ≡ c = cc e in absurd (ground (arith, same, h))
part_unique c (x ∷ xs) (y ∷ ys) us vs (h, hs) (k, ks) e =
    let (same, rest) = part_unique c xs ys us vs hs ks (cc e) in
    let first : x ≡ y = cc e in (cc (first, same), rest)

not_without : (c : ℕ) (ys vs : Bytes) → IsWithout c (ys ++ c ∷ vs) → ⊥
not_without c [] vs (h, hs) = ground (arith, h)
not_without c (y ∷ ys) vs (h, hs) = not_without c ys vs hs

unfoldable pub signed_line : Bytes → Entry → Bytes
signed_line prefix (k, v) = if start_with k prefix then k ++ (codes ":" ++ v) else v

pub lines_unique :
    (prefix : Bytes) (m n : List Entry) (a b : Bytes)
    → All (λ e. IsWithout 10 (signed_line prefix e)) m
    → All (λ e. IsWithout 10 (signed_line prefix e)) n
    → IsWithout 10 a
    → IsWithout 10 b
    → signed_lines prefix m ++ a ≡ signed_lines prefix n ++ b
    → (map (signed_line prefix) m ≡ map (signed_line prefix) n) × (a ≡ b)
unfolding signed_lines signed_line
lines_unique prefix [] [] a b h k p q e = (refl, e)
lines_unique prefix [] ((l, w) ∷ n) a b h k p q e = absurd (
    not_without 10 (signed_line prefix (l, w)) (signed_lines prefix n ++ b) (
      subst (λ s. IsWithout 10 s)
        (e ∙ append_assoc (signed_line prefix (l, w)) (10 ∷ signed_lines prefix n) b) p))
lines_unique prefix ((l, w) ∷ n) [] a b h k p q e = absurd (
    not_without 10 (signed_line prefix (l, w)) (signed_lines prefix n ++ a) (
      subst (λ s. IsWithout 10 s)
        (sym e ∙ append_assoc (signed_line prefix (l, w)) (10 ∷ signed_lines prefix n) a) q))
lines_unique prefix ((k, v) ∷ m) ((l, w) ∷ n) a b (h, hs) (g, gs) p q e =
    let (same, rest) =
      part_unique 10 (signed_line prefix (k, v)) (signed_line prefix (l, w))
        (signed_lines prefix m ++ a) (signed_lines prefix n ++ b) h g
        (sym (append_assoc (signed_line prefix (k, v)) (10 ∷ signed_lines prefix m) a)
          ∙ e
          ∙ append_assoc (signed_line prefix (l, w)) (10 ∷ signed_lines prefix n) b) in
    let (lines, ends) = lines_unique prefix m n a b hs gs p q rest in (cc (same, lines), ends)
