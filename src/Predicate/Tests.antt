-- ===== src/Predicate/Tests.antt =====
-- Runs of the predicates' texts, and inputs of the theorems on them.
use aliyun_odps_sdk_cpp.Prelude.{
  ◌≡◌, refl, Bool, false, Bytes, codes, bytes_eq, [], ◌∷◌, some, none, ltb, arith,
}
use aliyun_odps_sdk_cpp.Result.{err, invalid_argument}
use aliyun_odps_sdk_cpp.Predicate.{
  Predicate, raw, compound, among, no_more, first, null_first, and_all, not_one, in_set, to_string,
  compound_text, compound_word, join_texts, in_parens, is_trivial, is_or, not_text, attribute_text,
  is_quoted, escape_loop, find_from, double_at, make_compound, is_not, operand_count, set_text,
  in_word,
}
use aliyun_odps_sdk_cpp.Predicate.Quote.{unquote, read_name, attribute_round_trip}
use aliyun_odps_sdk_cpp.Predicate.Reader.{read, group_behind, strip, plain, nothing, group}
use aliyun_odps_sdk_cpp.Predicate.Value.{
  value, IsLeaf, leaf_text, IsReadable, readable_leaf, readable_and, readable_not, readable_end,
  readable_null, readable_first, is_compound,
}
use aliyun_odps_sdk_cpp.Predicate.Meaning.{read-to_string}

attribute_round_trip_example : unquote (attribute_text (codes "a`b")) ≡ some (codes "a`b")
unfolding is_quoted bytes_eq
attribute_round_trip_example = attribute_round_trip (codes "a`b") refl

tick_text : attribute_text (codes "a`b") ≡ codes "`a``b`"
unfolding attribute_text is_quoted escape_loop find_from double_at bytes_eq
tick_text = refl

-- A name that begins and ends with back-ticks is passed on with its inner back-tick as it is.
passed_on : unquote (attribute_text (codes "`a`b`")) ≡ none
unfolding attribute_text is_quoted unquote read_name bytes_eq
passed_on = refl

abbrev over_one : Predicate
over_one = raw (codes "a > 1")

abbrev in_two : Predicate
in_two = raw (codes "b in (2)")

-- a > 1, a null pointer, a predicate without a text, and what does not hold of b.
abbrev sample : Predicate
sample = compound and_all (
    null_first
      (first over_one (first (raw []) (first (compound not_one (first in_two no_more)) no_more))))

sample_text : to_string sample ≡ codes "(a > 1) and (not (b in (2)))"
unfolding to_string compound_text join_texts in_parens is_trivial is_or not_text compound_word
sample_text = refl

in_text : to_string (among in_set (codes "b") (codes "1" ∷ codes "2" ∷ [])) ≡ codes "b in (1, 2)"
unfolding to_string set_text in_word
in_text = refl

over_one-IsLeaf : IsLeaf (codes "a > 1")
unfolding group_behind strip
over_one-IsLeaf = leaf_text (search (plain, nothing)) refl refl

in_two-IsLeaf : IsLeaf (codes "b in (2)")
unfolding group_behind strip
in_two-IsLeaf =
    leaf_text
      (plain 98 refl refl (
        plain 32 refl refl (
          plain 105 refl refl (
            plain 110 refl refl
              (plain 32 refl refl (group (plain 50 refl refl nothing) nothing))))))
      refl refl

empty-IsLeaf : IsLeaf []
unfolding group_behind strip
empty-IsLeaf = leaf_text nothing refl refl

sample-IsReadable : IsReadable sample
unfolding to_string is_compound
sample-IsReadable = readable_and (
    readable_null (
      readable_first (readable_leaf over_one refl over_one-IsLeaf) (
        readable_first (readable_leaf (raw []) refl empty-IsLeaf) (
          readable_first (readable_not (readable_leaf in_two refl in_two-IsLeaf) (λ e. cc e))
            readable_end))))

abbrev starts_with_a : Bytes → Bool
starts_with_a [] = false
starts_with_a (c ∷ cs) = ltb c 98

read-to_string_example :
    read starts_with_a 60 (to_string sample) ≡ some (value starts_with_a sample)
unfolding to_string compound_text join_texts in_parens is_trivial is_or not_text compound_word
read-to_string_example = read-to_string starts_with_a sample 60 sample-IsReadable (omega arith)

-- NOT of a predicate without a condition has no text either.
not_of_nothing : to_string (compound not_one (first (raw []) no_more)) ≡ []
unfolding to_string compound_text not_text is_trivial
not_of_nothing = refl

not_takes_one : make_compound not_one (first over_one (first in_two no_more)) ≡ err invalid_argument
unfolding make_compound is_not operand_count
not_takes_one = refl
