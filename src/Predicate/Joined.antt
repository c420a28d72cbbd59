-- ===== src/Predicate/Joined.antt =====
-- The text that the loop over the operands of a compound predicate builds
-- (max_storage_api/predicate.cpp).
use aliyun_odps_sdk_cpp.Prelude.{
  ◌≡◌, refl, sym, ap, ◌∙◌, Bool, true, false, ◌&&◌, ◌||◌, if◌then◌else◌, List, Bytes, codes, [],
  ◌∷◌, ◌++◌, Option, arith, append_assoc, append-nil, Bool-cases, inl, inr,
}
use aliyun_odps_sdk_cpp.Predicate.{
  CompoundOperator, and_all, or_any, not_one, compound_word, is_trivial, in_parens, is_or,
  join_texts,
}

abbrev pub lead : CompoundOperator → Bytes
lead op = codes " " ++ compound_word op ++ codes " "

-- What the loop puts behind the first group.
unfoldable pub suffix : CompoundOperator → List (Option Bytes) → Bytes
suffix op [] = []
suffix op (t ∷ ts) =
    let rest = suffix op ts in if is_trivial t then rest else (lead op ++ in_parens t) ++ rest

-- The loop stops early, with no text, at an operand of OR without a condition.
unfoldable pub gives_up : CompoundOperator → List (Option Bytes) → Bool
gives_up op [] = false
gives_up op (t ∷ ts) = (is_or op && is_trivial t) || gives_up op ts

or-false : (a b : Bool) → (a || b) ≡ false → (a ≡ false) × (b ≡ false)
or-false false b h = (refl, h)
or-false true b h = absurd (ground (arith, h))

gives_up-tail :
    (op : CompoundOperator) (t : Option Bytes) (ts : List (Option Bytes))
    → gives_up op (t ∷ ts) ≡ false
    → gives_up op ts ≡ false
unfolding gives_up
gives_up-tail op t ts h = (or-false (is_or op && is_trivial t) _ h).1

gives_up-head :
    (op : CompoundOperator) (t : Option Bytes) (ts : List (Option Bytes))
    → gives_up op (t ∷ ts) ≡ false
    → is_trivial t ≡ true
    → is_or op ≡ false
unfolding gives_up is_or
gives_up-head and_all t ts h e = refl
gives_up-head not_one t ts h e = refl
gives_up-head or_any t ts h e = sym e ∙ (or-false (is_trivial t) _ h).0

pub join-suffix :
    (op : CompoundOperator) (ts : List (Option Bytes)) (sb : Bytes)
    → gives_up op ts ≡ false
    → join_texts op false sb ts ≡ sb ++ suffix op ts
unfolding join_texts suffix
join-suffix op [] sb h = sym (append-nil sb)
join-suffix op (t ∷ ts) sb h =
    let later = gives_up-tail op t ts h in
    elim (Bool-cases (is_trivial t)) [
      | inl e ↦ rw (e, gives_up-head op t ts h e) (join-suffix op ts sb later)
      | inr e ↦ rw e (
          join-suffix op ts ((sb ++ lead op) ++ in_parens t) later
          ∙ ap (λ s. s ++ suffix op ts) (append_assoc sb (lead op) (in_parens t))
          ∙ append_assoc sb (lead op ++ in_parens t) (suffix op ts))
    ]

or-later : (a b : Bool) → a ≡ false → (a || b) ≡ true → b ≡ true
or-later false b e h = h
or-later true b e h = absurd (ground (arith, e))

and-false : (a b : Bool) → b ≡ false → (a && b) ≡ false
and-false false b e = refl
and-false true b e = e

pub given_up :
    (op : CompoundOperator) (is_first : Bool) (ts : List (Option Bytes)) (sb : Bytes)
    → gives_up op ts ≡ true
    → join_texts op is_first sb ts ≡ []
unfolding join_texts gives_up
given_up op is_first [] sb h = absurd (ground (arith, h))
given_up op is_first (t ∷ ts) sb h = elim (Bool-cases (is_trivial t)) [
  | inl e ↦ elim (Bool-cases (is_or op)) [
    | inl f ↦ rw (e, f) refl
    | inr f ↦ rw (e, f) (given_up op is_first ts sb (or-later _ _ (rw f refl) h))
  ]
  | inr e ↦ rw e (given_up op false ts _ (or-later _ _ (and-false (is_or op) _ e) h))
]
