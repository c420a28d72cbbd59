-- ===== src/Predicate/Value.antt =====
-- The Boolean value of a predicate (max_storage_api/predicate.cpp), and the predicates whose leaves
-- cannot be taken for groups.
use aliyun_odps_sdk_cpp.Prelude.{
  ◌≡◌, ◌≢◌, Bool, true, false, not, ◌&&◌, ◌||◌, List, Bytes, codes, [], ◌∷◌, none,
}
use aliyun_odps_sdk_cpp.Predicate.{
  Predicate, Operands, attribute, constant, raw, binary, unary, compound, among, no_more,
  null_first, first, CompoundOperator, and_all, or_any, not_one, to_string,
}
use aliyun_odps_sdk_cpp.Predicate.Reader.{Balanced, group_behind}

-- No text is no condition, which all rows meet.
unfoldable pub leaf_value : (Bytes → Bool) → Bytes → Bool
leaf_value leaf [] = true
leaf_value leaf (c ∷ cs) = leaf (c ∷ cs)

unfoldable pub all_true : List Bool → Bool
all_true [] = true
all_true (b ∷ bs) = b && all_true bs

unfoldable pub any_true : List Bool → Bool
any_true [] = false
any_true (b ∷ bs) = b || any_true bs

-- A compound predicate without operands is no condition.
unfoldable pub compound_value : CompoundOperator → List Bool → Bool
compound_value op [] = true
compound_value and_all (b ∷ bs) = all_true (b ∷ bs)
compound_value or_any (b ∷ bs) = any_true (b ∷ bs)
compound_value not_one (b ∷ bs) = not b

unfoldable mutual
  -- The Boolean value of a predicate whose leaves have the values that `leaf` gives to their texts.
  pub value : (Bytes → Bool) → Predicate → Bool
  value leaf (attribute name) = leaf_value leaf (to_string (attribute name))
  value leaf (constant text) = leaf_value leaf (to_string (constant text))
  value leaf (raw text) = leaf_value leaf (to_string (raw text))
  value leaf (binary op a b) = leaf_value leaf (to_string (binary op a b))
  value leaf (unary op a) = leaf_value leaf (to_string (unary op a))
  value leaf (among op a items) = leaf_value leaf (to_string (among op a items))
  value leaf (compound op ps) = compound_value op (values leaf ps)

  -- A null pointer is no condition.
  pub values : (Bytes → Bool) → Operands → List Bool
  values leaf no_more = []
  values leaf (null_first ps) = true ∷ values leaf ps
  values leaf (first p ps) = value leaf p ∷ values leaf ps

-- A text that is not taken for a group, with parentheses that match.
pub data IsLeaf : Bytes → Type 0 where
  leaf_text :
      {s : Bytes}
      → Balanced s
      → group_behind (codes "not (") s ≡ none
      → group_behind (codes "(") s ≡ none
      → IsLeaf s

unfoldable pub is_compound : Predicate → Bool
is_compound (compound op ps) = true
is_compound _ = false

mutual
  -- Leaves are no groups, and NOT stands before an operand that has a text.
  pub data IsReadable : Predicate → Type 0 where
    readable_leaf : (p : Predicate) → is_compound p ≡ false → IsLeaf (to_string p) → IsReadable p
    readable_and : {ps : Operands} → AreReadable ps → IsReadable (compound and_all ps)
    readable_or : {ps : Operands} → AreReadable ps → IsReadable (compound or_any ps)
    readable_not :
        {p : Predicate} {ps : Operands}
        → IsReadable p
        → to_string p ≢ []
        → IsReadable (compound not_one (first p ps))

  pub data AreReadable : Operands → Type 0 where
    readable_end : AreReadable no_more
    readable_null : {ps : Operands} → AreReadable ps → AreReadable (null_first ps)
    readable_first :
        {p : Predicate} {ps : Operands} → IsReadable p → AreReadable ps → AreReadable (first p ps)
