-- ===== src/Predicate/Reader.antt =====
-- A reader of filter texts, to say what the text of a predicate means: groups in parentheses,
-- joined by ` and ` or ` or ` or behind `not `, around texts that the caller gives a truth value.
use aliyun_odps_sdk_cpp.Prelude.{
  ℕ, zero, suc, ◌≡◌, refl, sym, ap, ◌∙◌, Bool, true, false, not, ◌&&◌, ◌||◌, Bytes, codes, [], ◌∷◌,
  ◌++◌, Option, none, some, ◌==◌, if◌then◌else◌, append_assoc, append-nil, subst,
}

-- The text behind a prefix.
unfoldable pub strip : Bytes → Bytes → Option Bytes
strip [] s = some s
strip (p ∷ ps) [] = none
strip (p ∷ ps) (c ∷ cs) = let rest = strip ps cs in if p == c then rest else none

abbrev pub opening : ℕ
opening = 40

abbrev pub closing : ℕ
closing = 41

abbrev pub keep_inner : ℕ → Option (Bytes × Bytes) → Option (Bytes × Bytes)
keep_inner c none = none
keep_inner c (some (inner, after)) = some (c ∷ inner, after)

-- What stands before the parenthesis that closes the group, `depth` groups deep in it, and behind.
unfoldable pub take_group : ℕ → Bytes → Option (Bytes × Bytes)
take_group depth [] = none
take_group zero (c ∷ cs) =
    let deeper = keep_inner c (take_group 1 cs) in
    let same = keep_inner c (take_group 0 cs) in
    if c == closing then some ([], cs) else if c == opening then deeper else same
take_group (suc depth) (c ∷ cs) =
    let deeper = keep_inner c (take_group (suc (suc depth)) cs) in
    let same = keep_inner c (take_group (suc depth) cs) in
    let higher = keep_inner c (take_group depth cs) in
    if c == closing then higher else if c == opening then deeper else same

-- Parentheses that match.
pub data Balanced : Bytes → Type 0 where
  nothing : Balanced []
  plain :
      (c : ℕ) {s : Bytes}
      → (c == opening) ≡ false
      → (c == closing) ≡ false
      → Balanced s
      → Balanced (c ∷ s)
  group : {s r : Bytes} → Balanced s → Balanced r → Balanced (opening ∷ (s ++ closing ∷ r))

abbrev pub keep_all : Bytes → Option (Bytes × Bytes) → Option (Bytes × Bytes)
keep_all [] o = o
keep_all (c ∷ cs) o = keep_inner c (keep_all cs o)

keep_all-append :
    (s t : Bytes) (o : Option (Bytes × Bytes)) → keep_all (s ++ t) o ≡ keep_all s (keep_all t o)
keep_all-append [] t o = refl
keep_all-append (c ∷ s) t o = ap (keep_inner c) (keep_all-append s t o)

keep_all-some :
    (s inner after : Bytes) → keep_all s (some (inner, after)) ≡ some (s ++ inner, after)
keep_all-some [] inner after = refl
keep_all-some (c ∷ s) inner after = ap (keep_inner c) (keep_all-some s inner after)

take_group-open :
    (depth : ℕ) (s : Bytes)
    → take_group depth (opening ∷ s) ≡ keep_inner opening (take_group (suc depth) s)
unfolding take_group
take_group-open zero s = refl
take_group-open (suc depth) s = refl

take_group-plain :
    (depth c : ℕ) (s : Bytes)
    → (c == opening) ≡ false
    → (c == closing) ≡ false
    → take_group depth (c ∷ s) ≡ keep_inner c (take_group depth s)
unfolding take_group
take_group-plain zero c s e f = rw (e, f) refl
take_group-plain (suc depth) c s e f = rw (e, f) refl

-- A balanced text is passed over as a whole.
take_group-balanced :
    (depth : ℕ) {s : Bytes} (t : Bytes)
    → Balanced s
    → take_group depth (s ++ t) ≡ keep_all s (take_group depth t)
unfolding take_group
take_group-balanced depth t nothing = refl
take_group-balanced depth t (plain c {s} e f h) =
    take_group-plain depth c (s ++ t) e f ∙ ap (keep_inner c) (take_group-balanced depth t h)
take_group-balanced depth t (group {s} {r} h k) =
    take_group-open depth ((s ++ closing ∷ r) ++ t)
    ∙ ap (keep_inner opening) (
        ap (take_group (suc depth)) (append_assoc s (closing ∷ r) t)
        ∙ take_group-balanced (suc depth) (closing ∷ (r ++ t)) h
        ∙ ap (λ o. keep_all s (keep_inner closing o)) (take_group-balanced depth t k)
        ∙ sym (keep_all-append s (closing ∷ r) _))

pub append-Balanced : {s t : Bytes} → Balanced s → Balanced t → Balanced (s ++ t)
append-Balanced nothing k = k
append-Balanced (plain c e f h) k = plain c e f (append-Balanced h k)
append-Balanced {t} (group {s} {r} h h') k =
    subst (λ u. Balanced (opening ∷ u)) (sym (append_assoc s (closing ∷ r) t))
      (group h (append-Balanced h' k))

-- A balanced text in parentheses, behind its opening one.
pub take_group-closed :
    {s : Bytes} (t : Bytes) → Balanced s → take_group 0 (s ++ closing ∷ t) ≡ some (s, t)
unfolding take_group
take_group-closed {s} t h =
    take_group-balanced 0 (closing ∷ t) h
    ∙ keep_all-some s [] t
    ∙ ap (λ u. some (u, t)) (append-nil s)

-- The group behind a prefix, and what follows it.
unfoldable pub group_behind : Bytes → Bytes → Option (Bytes × Bytes)
group_behind prefix s = elim (strip prefix s) [ none ↦ none | some rest ↦ take_group 0 rest ]

abbrev pub negated : Option Bool → Bytes → Option Bool
negated (some b) [] = some (not b)
negated _ _ = none

unfoldable mutual
  -- The truth of a text, where `leaf` gives the truth of a text that is no group.
  pub read : (Bytes → Bool) → ℕ → Bytes → Option Bool
  read leaf zero s = none
  read leaf (suc fuel) [] = some true
  read leaf (suc fuel) (c ∷ cs) = elim (group_behind (codes "not (") (c ∷ cs)) [
    | some (inner, after) ↦ negated (read leaf fuel inner) after
    | none ↦ elim (group_behind (codes "(") (c ∷ cs)) [
      | some (inner, after) ↦ elim (read leaf fuel inner) [
        | none ↦ none
        | some b ↦ read_more leaf fuel b after
      ]
      | none ↦ some (leaf (c ∷ cs))
    ]
  ]

  -- The groups behind the first, and the truth so far.
  pub read_more : (Bytes → Bool) → ℕ → Bool → Bytes → Option Bool
  read_more leaf zero b s = none
  read_more leaf (suc fuel) b [] = some b
  read_more leaf (suc fuel) b (c ∷ cs) = elim (group_behind (codes " and (") (c ∷ cs)) [
    | some (inner, after) ↦ elim (read leaf fuel inner) [
      | none ↦ none
      | some d ↦ read_more leaf fuel (b && d) after
    ]
    | none ↦ elim (group_behind (codes " or (") (c ∷ cs)) [
      | some (inner, after) ↦ elim (read leaf fuel inner) [
        | none ↦ none
        | some d ↦ read_more leaf fuel (b || d) after
      ]
      | none ↦ none
    ]
  ]
