-- ===== src/Predicate/Loop.antt =====
-- The reader on the texts of AND and of OR (max_storage_api/predicate.cpp), for operands whose texts
-- it reads.
use aliyun_odps_sdk_cpp.Prelude.{
  ℕ, zero, suc, ◌+◌, ◌<◌, ◌≤◌, ◌≡◌, refl, sym, ap, ◌∙◌, subst, Bool, true, false, ◌&&◌, ◌||◌, List,
  Bytes, [], ◌∷◌, ◌++◌, Option, none, some, length, arith, length-append, Bool-cases, inl, inr,
}
use mathlib.Core.Bool.{and_assoc, or_assoc}
use aliyun_odps_sdk_cpp.Predicate.{
  CompoundOperator, and_all, or_any, not_one, compound_word, is_trivial, in_parens, is_or,
  join_texts, compound_text,
}
use aliyun_odps_sdk_cpp.Predicate.Reader.{
  opening, closing, Balanced, nothing, plain, group, append-Balanced, read, read_more,
}
use aliyun_odps_sdk_cpp.Predicate.Value.{all_true, any_true, compound_value}
use aliyun_odps_sdk_cpp.Predicate.Joined.{lead, suffix, gives_up, join-suffix, given_up}
use aliyun_odps_sdk_cpp.Predicate.Groups.{read_more-and, read_more-or, read-group}

-- A text with the value that the reader gives it, on any fuel that exceeds its length.
abbrev pub Says : (Bytes → Bool) → Bytes → Bool → Type 0
Says leaf s b = Balanced s × ((fuel : ℕ) → length s < fuel → read leaf fuel s ≡ some b)

pub data Said (leaf : Bytes → Bool) : List (Option Bytes) → List Bool → Type 0 where
  said_end : Said leaf [] []
  said_null :
      {ts : List (Option Bytes)} {bs : List Bool}
      → Said leaf ts bs
      → Said leaf (none ∷ ts) (true ∷ bs)
  said_first :
      {s : Bytes} {b : Bool} {ts : List (Option Bytes)} {bs : List Bool}
      → Says leaf s b
      → Said leaf ts bs
      → Said leaf (some s ∷ ts) (b ∷ bs)

pub parens-Balanced : {s : Bytes} → Balanced s → Balanced (in_parens (some s))
unfolding in_parens
parens-Balanced h = group h nothing

pub lead-Balanced : (op : CompoundOperator) → Balanced (lead op)
unfolding compound_word
lead-Balanced and_all = search (plain, nothing)
lead-Balanced or_any = search (plain, nothing)
lead-Balanced not_one = search (plain, nothing)

segment-long :
    (op : CompoundOperator) (s rest : Bytes)
    → length s + length rest + 2 < length ((lead op ++ in_parens (some s)) ++ rest)
unfolding in_parens
segment-long op s rest = omega (
  arith,
  length-append (lead op ++ in_parens (some s)) rest,
  length-append (lead op) (in_parens (some s)),
  length-append (opening ∷ s) (closing ∷ []),
)

and_true : (b : Bool) → b ≡ (b && true)
and_true true = refl
and_true false = refl

or_false : (b : Bool) → b ≡ (b || false)
or_false true = refl
or_false false = refl

or_true : (b : Bool) → (b || true) ≡ true
or_true true = refl
or_true false = refl

parens-long : (s rest : Bytes) → length s + length rest + 2 ≤ length (in_parens (some s) ++ rest)
unfolding in_parens
parens-long s rest =
    omega
      (arith, length-append (in_parens (some s)) rest, length-append (opening ∷ s) (closing ∷ []))

module _ (leaf : Bytes → Bool) where
  empty-true : {b : Bool} → Says leaf [] b → b ≡ true
  unfolding read
  empty-true (_, reading) = cc (reading 1 (omega arith))

  suffix-Balanced :
      (op : CompoundOperator) {ts : List (Option Bytes)} {bs : List Bool}
      → Said leaf ts bs
      → Balanced (suffix op ts)
  unfolding suffix is_trivial
  suffix-Balanced op said_end = nothing
  suffix-Balanced op (said_null said) = suffix-Balanced op said
  suffix-Balanced op (said_first {s = []} says said) = suffix-Balanced op said
  suffix-Balanced op (said_first {s = c ∷ s} (balanced, _) said) =
      append-Balanced (append-Balanced (lead-Balanced op) (parens-Balanced balanced))
        (suffix-Balanced op said)

  more-and :
      {ts : List (Option Bytes)} {bs : List Bool}
      → Said leaf ts bs
      → (fuel : ℕ) (b : Bool) → length (suffix and_all ts) < fuel
      → read_more leaf fuel b (suffix and_all ts) ≡ some (b && all_true bs)
  unfolding suffix is_trivial all_true read_more
  more-and said_end zero b h = absurd (omega (arith, h))
  more-and said_end (suc fuel) b h = ap some (and_true b)
  more-and (said_null said) fuel b h = more-and said fuel b h
  more-and (said_first {s = []} says said) fuel b h = rw (empty-true says) (more-and said fuel b h)
  more-and (said_first {s = c ∷ s} says said) zero b h = absurd (omega (arith, h))
  more-and (said_first {s = c ∷ s} {b = d} {ts} (balanced, reading) said) (suc fuel) b h =
      let long = segment-long and_all (c ∷ s) (suffix and_all ts) in
      read_more-and leaf fuel b d (c ∷ s) (suffix and_all ts) balanced
        (reading fuel (omega (arith, long, h)))
      ∙ more-and said fuel (b && d) (omega (arith, long, h))
      ∙ ap some (and_assoc b d _)

  more-or :
      {ts : List (Option Bytes)} {bs : List Bool}
      → Said leaf ts bs
      → (fuel : ℕ) (b : Bool) → gives_up or_any ts ≡ false
      → length (suffix or_any ts) < fuel
      → read_more leaf fuel b (suffix or_any ts) ≡ some (b || any_true bs)
  unfolding suffix is_trivial any_true gives_up is_or read_more
  more-or said_end zero b e h = absurd (omega (arith, h))
  more-or said_end (suc fuel) b e h = ap some (or_false b)
  more-or (said_null said) fuel b e h = absurd (ground (arith, e))
  more-or (said_first {s = []} says said) fuel b e h = absurd (ground (arith, e))
  more-or (said_first {s = c ∷ s} says said) zero b e h = absurd (omega (arith, h))
  more-or (said_first {s = c ∷ s} {b = d} {ts} (balanced, reading) said) (suc fuel) b e h =
      let long = segment-long or_any (c ∷ s) (suffix or_any ts) in
      read_more-or leaf fuel b d (c ∷ s) (suffix or_any ts) balanced
        (reading fuel (omega (arith, long, h)))
      ∙ more-or said fuel (b || d) e (omega (arith, long, h))
      ∙ ap some (or_assoc b d _)

  gives_up-true :
      {ts : List (Option Bytes)} {bs : List Bool}
      → Said leaf ts bs
      → gives_up or_any ts ≡ true
      → any_true bs ≡ true
  unfolding gives_up is_or is_trivial any_true
  gives_up-true said_end e = e
  gives_up-true (said_null said) e = refl
  gives_up-true (said_first {s = []} says said) e = rw (empty-true says) refl
  gives_up-true (said_first {s = c ∷ s} {b = d} says said) e =
      ap (λ o. d || o) (gives_up-true said e) ∙ or_true d

  pub read-nothing : (fuel : ℕ) → 0 < fuel → read leaf fuel [] ≡ some true
  unfolding read
  read-nothing zero h = absurd (omega (arith, h))
  read-nothing (suc fuel) h = refl

  -- The text of one group and those behind it.
  first-Says :
      (op : CompoundOperator) {s : Bytes} {d e : Bool} {ts : List (Option Bytes)} {bs : List Bool}
      → Says leaf s d
      → Said leaf ts bs
      → gives_up op ts ≡ false
      → ((fuel : ℕ) → length (suffix op ts) < fuel → read_more leaf fuel d (suffix op ts) ≡ some e)
      → Says leaf (join_texts op false (in_parens (some s)) ts) e
  first-Says op {s} {d} {e} {ts} (balanced, reading) said h more =
      subst (λ u. Says leaf u e) (sym (join-suffix op ts (in_parens (some s)) h))
        (
          append-Balanced (parens-Balanced balanced) (suffix-Balanced op said),
          λ fuel longer. first_read fuel longer,
        )
    where
      first_read :
          (fuel : ℕ)
          → length (in_parens (some s) ++ suffix op ts) < fuel
          → read leaf fuel (in_parens (some s) ++ suffix op ts) ≡ some e
      first_read zero longer = absurd (omega (arith, longer))
      first_read (suc fuel) longer =
          let long = parens-long s (suffix op ts) in
          read-group leaf fuel d s (suffix op ts) balanced
            (reading fuel (omega (arith, long, longer)))
          ∙ more fuel (omega (arith, long, longer))

  gives_up-and : (ts : List (Option Bytes)) → gives_up and_all ts ≡ false
  unfolding gives_up is_or
  gives_up-and [] = refl
  gives_up-and (t ∷ ts) = gives_up-and ts

  pub whole-and :
      {ts : List (Option Bytes)} {bs : List Bool}
      → Said leaf ts bs
      → Says leaf (join_texts and_all true [] ts) (all_true bs)
  unfolding join_texts is_trivial is_or all_true
  whole-and said_end = (nothing, read-nothing)
  whole-and (said_null said) = whole-and said
  whole-and (said_first {s = []} says said) = rw (empty-true says) (whole-and said)
  whole-and (said_first {s = c ∷ s} {b = d} {ts} says said) =
      first-Says and_all says said (gives_up-and ts) (λ fuel h. more-and said fuel d h)

  -- OR over at least one operand.
  pub whole-or :
      {ts : List (Option Bytes)} {bs : List Bool}
      → Said leaf ts bs
      → Says leaf (compound_text or_any ts) (compound_value or_any bs)
  unfolding compound_text compound_value join_texts is_trivial is_or any_true
  whole-or said_end = (nothing, read-nothing)
  whole-or (said_null said) = (nothing, read-nothing)
  whole-or (said_first {s = []} says said) = rw (empty-true says) (nothing, read-nothing)
  whole-or (said_first {s = c ∷ s} {b = d} {ts} {bs} says said) =
      elim (Bool-cases (gives_up or_any ts)) [
        | inl e ↦
            rw
              (
                given_up or_any false ts (in_parens (some (c ∷ s))) e,
                gives_up-true said e,
                or_true d,
              )
              (nothing, read-nothing)
        | inr e ↦ first-Says or_any says said e (λ fuel h. more-or said fuel d e h)
      ]
