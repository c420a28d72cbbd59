-- ===== src/Strings/Split.antt =====
-- The parts that SplitString (util/string_util.cpp) returns.
use aliyun_odps_sdk_cpp.Prelude.{
  ℕ, zero, suc, ◌<◌, ◌≡◌, refl, ap, sym, ◌∙◌, Bool, true, false, Bytes, List, [], ◌∷◌, ◌++◌, Option,
  none, some, length, if◌then◌else◌, arith, All, Bool-cases, inl, inr,
}
use aliyun_odps_sdk_cpp.Result.{ok}
use aliyun_odps_sdk_cpp.Strings.{is_one_of, next_part, longer_part, split_parts, split_string}

-- The parts with the delimiter between them.
unfoldable pub join_parts : ℕ → List Bytes → Bytes
join_parts d [] = []
join_parts d (part ∷ []) = part
join_parts d (part ∷ next ∷ parts) = part ++ d ∷ join_parts d (next ∷ parts)

unfoldable pub has_none_of : Bytes → Bytes → Bool
has_none_of delim [] = true
has_none_of delim (c ∷ cs) = if is_one_of delim c then false else has_none_of delim cs

-- How a part and what stands behind it make up the string.
abbrev pub IsCut : ℕ → Bytes → Bytes × Option Bytes → Type 0
IsCut d s (part, none) = (s ≡ part) × (has_none_of (d ∷ []) part ≡ true)
IsCut d s (part, some rest) =
    (s ≡ part ++ d ∷ rest) × (has_none_of (d ∷ []) part ≡ true) × (length rest < length s)

longer-IsCut :
    (d c : ℕ) (s : Bytes) (cut : Bytes × Option Bytes)
    → is_one_of (d ∷ []) c ≡ false
    → IsCut d s cut
    → IsCut d (c ∷ s) (longer_part c cut)
unfolding has_none_of
longer-IsCut d c s (part, none) e (h, k) = (ap (◌∷◌ c) h, rw e k)
longer-IsCut d c s (part, some rest) e (h, k, l) = (ap (◌∷◌ c) h, rw e k, omega (arith, l))

one_of-eq : (d c : ℕ) → is_one_of (d ∷ []) c ≡ true → c ≡ d
unfolding is_one_of
one_of-eq d c e = ground (arith, e)

pub next_part-IsCut : (d : ℕ) (s : Bytes) → IsCut d s (next_part (d ∷ []) s)
unfolding next_part has_none_of
next_part-IsCut d [] = (refl, refl)
next_part-IsCut d (c ∷ cs) = elim (Bool-cases (is_one_of (d ∷ []) c)) [
  | inl e ↦ rw e (ap (λ x. x ∷ cs) (one_of-eq d c e), refl, omega arith)
  | inr e ↦ rw e (longer-IsCut d c cs _ e (next_part-IsCut d cs))
]

-- Parts that make up the string, and have no delimiter.
abbrev pub AreParts : ℕ → Bytes → List Bytes → Type 0
AreParts d s parts = (join_parts d parts ≡ s) × All (λ part. has_none_of (d ∷ []) part ≡ true) parts

first-AreParts :
    (d fuel : ℕ) (s : Bytes) (cut : Bytes × Option Bytes)
    → IsCut d s cut
    → length s < suc fuel
    → ((rest : Bytes) → length rest < fuel → AreParts d rest (split_parts fuel (d ∷ []) rest))
    → AreParts d s (cut.0 ∷ (elim cut.1 [ none ↦ [] | some rest ↦ split_parts fuel (d ∷ []) rest ]))
unfolding split_parts join_parts
first-AreParts d fuel s (part, none) (h, k) l later = (sym h, (k, tt))
first-AreParts d zero s (part, some rest) (h, k, shorter) l later =
    absurd (omega (arith, shorter, l))
first-AreParts d (suc fuel) s (part, some rest) (h, k, shorter) l later =
    let (joined, clean) = later rest (omega (arith, shorter, l)) in
    (ap (λ r. part ++ d ∷ r) joined ∙ sym h, (k, clean))

split_parts-AreParts :
    (d fuel : ℕ) (s : Bytes) → length s < fuel → AreParts d s (split_parts fuel (d ∷ []) s)
unfolding split_parts
split_parts-AreParts d zero s h = absurd (omega (arith, h))
split_parts-AreParts d (suc fuel) s h =
    first-AreParts d fuel s (next_part (d ∷ []) s) (next_part-IsCut d s) h
      (λ rest shorter. split_parts-AreParts d fuel rest shorter)

-- Splitting a string that is not empty on one character returns parts without that character, and the
-- parts with the character between them are the string.
pub split_join :
    (d c : ℕ) (s : Bytes)
    → (parts : List Bytes) × (split_string (c ∷ s) (d ∷ []) ≡ ok parts)
      × (join_parts d parts ≡ c ∷ s)
      × All (λ part. has_none_of (d ∷ []) part ≡ true) parts
unfolding split_string
split_join d c s =
    let (joined, clean) = split_parts-AreParts d _ (c ∷ s) (omega arith) in (_, refl, joined, clean)
