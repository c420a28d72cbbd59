-- ===== src/Predicate/Groups.antt =====
-- How the reader of filter texts reads a group that a compound predicate
-- (max_storage_api/predicate.cpp) wrote.
use aliyun_odps_sdk_cpp.Prelude.{
  ℕ, suc, ◌≡◌, refl, ap, ◌∙◌, Bool, not, ◌&&◌, ◌||◌, Bytes, codes, [], ◌∷◌, ◌++◌, none, some,
  append_assoc,
}
use aliyun_odps_sdk_cpp.Predicate.{
  CompoundOperator, and_all, or_any, not_one, compound_word, in_parens,
}
use aliyun_odps_sdk_cpp.Predicate.Reader.{
  closing, Balanced, take_group-closed, group_behind, read, read_more, strip, take_group,
}
use aliyun_odps_sdk_cpp.Predicate.Joined.{lead}

closed_by :
    {s : Bytes} (rest : Bytes)
    → Balanced s
    → take_group 0 ((s ++ closing ∷ []) ++ rest) ≡ some (s, rest)
closed_by {s} rest h =
    ap (take_group 0) (append_assoc s (closing ∷ []) rest) ∙ take_group-closed rest h

behind-lead :
    (op : CompoundOperator) {s : Bytes} (rest : Bytes)
    → Balanced s
    → group_behind (lead op ++ codes "(") ((lead op ++ in_parens (some s)) ++ rest) ≡ some (s, rest)
unfolding group_behind strip compound_word in_parens
behind-lead and_all rest h = closed_by rest h
behind-lead or_any rest h = closed_by rest h
behind-lead not_one rest h = closed_by rest h

or_not_and :
    (s rest : Bytes)
    → group_behind (lead and_all ++ codes "(") ((lead or_any ++ in_parens (some s)) ++ rest) ≡ none
unfolding group_behind strip compound_word in_parens
or_not_and s rest = refl

group_not_negated :
    (s rest : Bytes) → group_behind (codes "not (") (in_parens (some s) ++ rest) ≡ none
unfolding group_behind strip in_parens
group_not_negated s rest = refl

behind-group :
    {s : Bytes} (rest : Bytes)
    → Balanced s
    → group_behind (codes "(") (in_parens (some s) ++ rest) ≡ some (s, rest)
unfolding group_behind strip in_parens
behind-group rest h = closed_by rest h

behind-not :
    {s : Bytes}
    → Balanced s
    → group_behind (codes "not (") (codes "not" ++ codes " " ++ in_parens (some s)) ≡ some (s, [])
unfolding group_behind strip in_parens
behind-not h = take_group-closed [] h

module _ (leaf : Bytes → Bool) where
  pub read_more-and :
      (fuel : ℕ) (b d : Bool) (s rest : Bytes)
      → Balanced s
      → read leaf fuel s ≡ some d
      → read_more leaf (suc fuel) b ((lead and_all ++ in_parens (some s)) ++ rest)
        ≡ read_more leaf fuel (b && d) rest
  unfolding compound_word in_parens read_more
  read_more-and fuel b d s rest h e = rw (read_more, behind-lead and_all rest h, e) refl

  pub read_more-or :
      (fuel : ℕ) (b d : Bool) (s rest : Bytes)
      → Balanced s
      → read leaf fuel s ≡ some d
      → read_more leaf (suc fuel) b ((lead or_any ++ in_parens (some s)) ++ rest)
        ≡ read_more leaf fuel (b || d) rest
  unfolding compound_word in_parens read_more
  read_more-or fuel b d s rest h e =
      rw (read_more, or_not_and s rest, behind-lead or_any rest h, e) refl

  pub read-group :
      (fuel : ℕ) (d : Bool) (s rest : Bytes)
      → Balanced s
      → read leaf fuel s ≡ some d
      → read leaf (suc fuel) (in_parens (some s) ++ rest) ≡ read_more leaf fuel d rest
  unfolding in_parens read
  read-group fuel d s rest h e = rw (read, group_not_negated s rest, behind-group rest h, e) refl

  pub read-not :
      (fuel : ℕ) (d : Bool) (s : Bytes)
      → Balanced s
      → read leaf fuel s ≡ some d
      → read leaf (suc fuel) (codes "not" ++ codes " " ++ in_parens (some s)) ≡ some (not d)
  unfolding in_parens read
  read-not fuel d s h e = rw (read, behind-not h, e) refl
