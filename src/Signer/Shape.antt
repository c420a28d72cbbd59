-- ===== src/Signer/Shape.antt =====
-- The order in which the names to sign stand (common/signer.cpp).
use aliyun_odps_sdk_cpp.Prelude.{
  ◌≡◌, ◌⊎◌, refl, sym, ap, ◌∙◌, subst, inl, inr, true, Bytes, List, [], ◌∷◌, ◌++◌, some, bytes_eq,
  bytes_eq→eq, Bool-cases, map, ◌==◌, ==_iff, All,
}
use aliyun_odps_sdk_cpp.Signer.{
  content_type, content_md5, date_name, odps_prefix, start_with, is_signed,
}
use aliyun_odps_sdk_cpp.Signer.Entries.{Entry, find_entry, bytes_less}
use aliyun_odps_sdk_cpp.Signer.Ordered.{
  IsSorted, bytes_less_irrefl, above-find_entry, below-IsAbove, found_first,
}
use aliyun_odps_sdk_cpp.Signer.Unique.{IsWithout, part_unique, signed_line}

-- A name with the prefix begins with an x.
prefixed_first : (k : Bytes) → start_with k odps_prefix ≡ true → (l : Bytes) × (k ≡ 120 ∷ l)
unfolding start_with
prefixed_first [] h = absurd (cc h)
prefixed_first (c ∷ k) h = elim (Bool-cases (c == 120)) [
  | inl e ↦ (k, ap (λ b. b ∷ k) ((==_iff c 120).0 e))
  | inr e ↦ absurd (cc (rw e at h))
]

abbrev pub IsKind : Bytes → Type 0
IsKind k =
    (k ≡ content_type) ⊎ ((k ≡ content_md5) ⊎ ((k ≡ date_name) ⊎ (start_with k odps_prefix ≡ true)))

pub signed-IsKind : (k : Bytes) → is_signed odps_prefix k ≡ true → IsKind k
unfolding is_signed
signed-IsKind k h = elim (Bool-cases (bytes_eq k content_type)) [
  | inl e ↦ inl (bytes_eq→eq k content_type e)
  | inr e ↦ elim (Bool-cases (bytes_eq k content_md5)) [
    | inl f ↦ inr (inl (bytes_eq→eq k content_md5 f))
    | inr f ↦ elim (Bool-cases (bytes_eq k date_name)) [
      | inl g ↦ inr (inr (inl (bytes_eq→eq k date_name g)))
      | inr g ↦ inr (inr (inr (sym (rw (e, f, g) refl) ∙ h)))
    ]
  ]
]

abbrev pub IsFrom : Bytes → Entry → Type 0
IsFrom j e = (j ≡ e.0) ⊎ (bytes_less j e.0 ≡ true)

pub from_md5 : (k : Bytes) → IsKind k → (content_md5 ≡ k) ⊎ (bytes_less content_md5 k ≡ true)
unfolding bytes_less
from_md5 k (inl e) = inr (rw e refl)
from_md5 k (inr (inl e)) = inl (sym e)
from_md5 k (inr (inr (inl e))) = inr (rw e refl)
from_md5 k (inr (inr (inr e))) = let (l, f) = prefixed_first k e in inr (rw f refl)

pub from_type :
    (k : Bytes)
    → IsKind k
    → bytes_less content_md5 k ≡ true
    → (content_type ≡ k) ⊎ (bytes_less content_type k ≡ true)
unfolding bytes_less
from_type k (inl e) h = inl (sym e)
from_type k (inr (inl e)) h =
    absurd
      (cc (sym (bytes_less_irrefl content_md5) ∙ subst (λ j. bytes_less content_md5 j ≡ true) e h))
from_type k (inr (inr (inl e))) h = inr (rw e refl)
from_type k (inr (inr (inr e))) h = let (l, f) = prefixed_first k e in inr (rw f refl)

pub from_date :
    (k : Bytes)
    → IsKind k
    → bytes_less content_md5 k ≡ true
    → bytes_less content_type k ≡ true
    → (date_name ≡ k) ⊎ ((bytes_less date_name k ≡ true) × (start_with k odps_prefix ≡ true))
unfolding bytes_less
from_date k (inl e) h g =
    absurd (
      cc (sym (bytes_less_irrefl content_type) ∙ subst (λ j. bytes_less content_type j ≡ true) e g))
from_date k (inr (inl e)) h g =
    absurd
      (cc (sym (bytes_less_irrefl content_md5) ∙ subst (λ j. bytes_less content_md5 j ≡ true) e h))
from_date k (inr (inr (inl e))) h g = inl (sym e)
from_date k (inr (inr (inr e))) h g = let (l, f) = prefixed_first k e in inr (rw f refl, e)

pub All-with :
    {P Q R : Entry → Type 0} (m : List Entry)
    → ((e : Entry) → P e → Q e → R e)
    → All P m
    → All Q m
    → All R m
All-with [] f p q = tt
All-with (e ∷ m) f (p, ps) (q, qs) = (f e p q, All-with m f ps qs)

-- The smallest name stands first.
pub first_lem :
    (j a : Bytes) (m : List Entry)
    → IsSorted m
    → find_entry j m ≡ some a
    → All (IsFrom j) m
    → (rest : List Entry) × (m ≡ (j, a) ∷ rest)
unfolding find_entry
first_lem j a [] s h f = absurd (cc h)
first_lem j a ((k, v) ∷ m) (above, s) h (inl e, fs) =
    (m, cc (e, sym (found_first k v m) ∙ subst (λ i. find_entry i ((k, v) ∷ m) ≡ some a) e h))
first_lem j a ((k, v) ∷ m) (above, s) h (inr e, fs) =
    absurd (cc (sym (above-find_entry j ((k, v) ∷ m) (e, below-IsAbove j k m e above)) ∙ h))

-- Entries with the prefix can be told from their lines.
pub prefixed_unique :
    (m n : List Entry)
    → All (λ e. (start_with e.0 odps_prefix ≡ true) × IsWithout 58 e.0) m
    → All (λ e. (start_with e.0 odps_prefix ≡ true) × IsWithout 58 e.0) n
    → map (signed_line odps_prefix) m ≡ map (signed_line odps_prefix) n
    → m ≡ n
unfolding signed_line
prefixed_unique [] [] h g e = refl
prefixed_unique [] (x ∷ n) h g e = absurd (cc e)
prefixed_unique (x ∷ m) [] h g e = absurd (cc e)
prefixed_unique ((k, v) ∷ m) ((l, w) ∷ n) ((p, h), hs) ((q, g), gs) e =
    let line_k : signed_line odps_prefix (k, v) ≡ k ++ 58 ∷ v = rw p refl in
    let line_l : signed_line odps_prefix (l, w) ≡ l ++ 58 ∷ w = rw q refl in
    let (names, values) = part_unique 58 k l v w h g (sym line_k ∙ cc e ∙ line_l) in
    cc (names, values, prefixed_unique m n hs gs (cc e))
