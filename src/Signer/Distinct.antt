-- ===== src/Signer/Distinct.antt =====
-- Two lists of entries to sign with the same lines (common/signer.cpp).
use aliyun_odps_sdk_cpp.Prelude.{
  ◌≡◌, ◌⊎◌, refl, sym, ap, ◌∙◌, subst, inl, inr, true, false, Bytes, List, [], ◌∷◌, none, some,
  bytes_eq, Bool-cases, map, All,
}
use aliyun_odps_sdk_cpp.Signer.{content_type, content_md5, date_name, odps_prefix, start_with}
use aliyun_odps_sdk_cpp.Signer.Entries.{Entry, find_entry, bytes_less}
use aliyun_odps_sdk_cpp.Signer.Ordered.{IsSorted, IsAbove, found_first, bytes_less_irrefl}
use aliyun_odps_sdk_cpp.Signer.Unique.{IsWithout, signed_line}
use aliyun_odps_sdk_cpp.Signer.Shape.{
  IsKind, IsFrom, from_date, first_lem, All-with, prefixed_unique,
}

abbrev pub IsNamed : Entry → Type 0
IsNamed e = IsKind e.0

abbrev pub IsOver : Bytes → Entry → Type 0
IsOver j e = bytes_less j e.0 ≡ true

-- Two lists that begin with the same name and have the same lines.
pub peel :
    (j : Bytes) (m n : List Entry) (a b : Bytes)
    → start_with j odps_prefix ≡ false
    → IsSorted m
    → IsSorted n
    → find_entry j m ≡ some a
    → find_entry j n ≡ some b
    → All (IsFrom j) m
    → All (IsFrom j) n
    → map (signed_line odps_prefix) m ≡ map (signed_line odps_prefix) n
    → (m' : List Entry) × (n' : List Entry) × (m ≡ (j, a) ∷ m')
      × (n ≡ (j, a) ∷ n')
      × (map (signed_line odps_prefix) m' ≡ map (signed_line odps_prefix) n')
unfolding signed_line
peel j m n a b plain s t h g f k e =
    let (m', is_m) = first_lem j a m s h f in
    let (n', is_n) = first_lem j b n t g k in
    let line_a : signed_line odps_prefix (j, a) ≡ a = rw plain refl in
    let line_b : signed_line odps_prefix (j, b) ≡ b = rw plain refl in
    let lines : signed_line odps_prefix (j, a) ∷ map (signed_line odps_prefix) m'
        ≡ signed_line odps_prefix (j, b) ∷ map (signed_line odps_prefix) n' =
      sym (ap (map (signed_line odps_prefix)) is_m) ∙ e ∙ ap (map (signed_line odps_prefix)) is_n in
    let same : a ≡ b = sym line_a ∙ cc lines ∙ line_b in
    (m', n', is_m, is_n ∙ ap (λ v. (j, v) ∷ n') (sym same), cc lines)

-- What is known of the entries behind the content type.
abbrev pub IsRest : Entry → Type 0
IsRest e = IsKind e.0 × ((bytes_less content_md5 e.0 ≡ true) × (bytes_less content_type e.0 ≡ true))

abbrev pub HaveDates : List Entry → List Entry → Type 0
HaveDates m n =
    ((find_entry date_name m ≡ none) × (find_entry date_name n ≡ none))
    ⊎ ((a : Bytes) × (b : Bytes) × (find_entry date_name m ≡ some a)
        × (find_entry date_name n ≡ some b))

rest_IsFrom : (m : List Entry) → All IsRest m → All (IsFrom date_name) m
rest_IsFrom m h =
    All-with m
      (λ e r u. elim (from_date e.0 r.0 r.1.0 r.1.1) [ inl f ↦ inl f | inr (f, g) ↦ inr f ]) h h

-- Without a date, all have the prefix.
dateless :
    (m : List Entry)
    → All IsRest m
    → find_entry date_name m ≡ none
    → All (λ e. start_with e.0 odps_prefix ≡ true) m
unfolding find_entry
dateless [] h g = tt
dateless ((k, v) ∷ m) (r, h) g = elim (from_date k r.0 r.1.0 r.1.1) [
  | inl e ↦
      absurd (cc (sym (found_first k v m) ∙ subst (λ j. find_entry j ((k, v) ∷ m) ≡ none) e g))
  | inr (f, p) ↦ elim (Bool-cases (bytes_eq k date_name)) [
    | inl q ↦ absurd (cc (rw q at g))
    | inr q ↦ (p, dateless m h (rw q at g))
  ]
]

dated :
    (m : List Entry)
    → All IsRest m
    → IsAbove date_name m
    → All (λ e. start_with e.0 odps_prefix ≡ true) m
dated m h above =
    All-with m
      (λ e r over. elim (from_date e.0 r.0 r.1.0 r.1.1) [
        | inl f ↦ absurd (
            cc (
              sym (bytes_less_irrefl date_name)
              ∙ subst (λ j. bytes_less date_name j ≡ true) (sym f) over))
        | inr (f, p) ↦ p
      ])
      h above

pub rest_unique :
    (m n : List Entry)
    → IsSorted m
    → IsSorted n
    → All IsRest m
    → All IsRest n
    → All (λ e. IsWithout 58 e.0) m
    → All (λ e. IsWithout 58 e.0) n
    → HaveDates m n
    → map (signed_line odps_prefix) m ≡ map (signed_line odps_prefix) n
    → m ≡ n
unfolding start_with
rest_unique m n s t h g c d (inl (no_m, no_n)) e =
    prefixed_unique m n (All-with m (λ x p q. (p, q)) (dateless m h no_m) c)
      (All-with n (λ x p q. (p, q)) (dateless n g no_n) d) e
rest_unique m n s t h g c d (inr (a, b, has_m, has_n)) e =
    let (m', n', is_m, is_n, lines) =
      peel date_name m n a b refl s t has_m has_n (rest_IsFrom m h) (rest_IsFrom n g) e in
    let (above_m, u) = subst (λ l. IsSorted l) is_m s in
    let (above_n, w) = subst (λ l. IsSorted l) is_n t in
    let tail_m = subst (λ l. All IsRest l) is_m h in
    let tail_n = subst (λ l. All IsRest l) is_n g in
    let names_m = subst (λ l. All (λ x. IsWithout 58 x.0) l) is_m c in
    let names_n = subst (λ l. All (λ x. IsWithout 58 x.0) l) is_n d in
    let tails =
      prefixed_unique m' n' (All-with m' (λ x p q. (p, q)) (dated m' tail_m.1 above_m) names_m.1)
        (All-with n' (λ x p q. (p, q)) (dated n' tail_n.1 above_n) names_n.1) lines in
    is_m ∙ ap (λ l. (date_name, a) ∷ l) tails ∙ sym is_n
