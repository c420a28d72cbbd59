-- ===== src/Predicate/Meaning.antt =====
-- What the text of a predicate (max_storage_api/predicate.cpp) means.
use aliyun_odps_sdk_cpp.Prelude.{
  ℕ, zero, suc, ◌<◌, ◌≡◌, ◌≢◌, refl, Bool, false, not, List, Bytes, codes, [], ◌∷◌, ◌++◌, Option,
  some, length, arith, length-append,
}
use aliyun_odps_sdk_cpp.Predicate.{
  Predicate, Operands, attribute, constant, raw, binary, unary, compound, among, and_all, not_one,
  is_trivial, in_parens, not_text, compound_text, to_string, operand_texts,
}
use aliyun_odps_sdk_cpp.Predicate.Reader.{
  opening, closing, Balanced, nothing, plain, append-Balanced, read,
}
use aliyun_odps_sdk_cpp.Predicate.Value.{
  leaf_value, compound_value, value, values, IsLeaf, leaf_text, is_compound, IsReadable,
  AreReadable, readable_leaf, readable_and, readable_or, readable_not, readable_end, readable_null,
  readable_first,
}
use aliyun_odps_sdk_cpp.Predicate.Groups.{read-not}
use aliyun_odps_sdk_cpp.Predicate.Loop.{
  Says, Said, said_end, said_null, said_first, read-nothing, whole-and, whole-or, parens-Balanced,
}

not-Balanced : {s : Bytes} → Balanced s → Balanced (codes "not" ++ codes " " ++ in_parens (some s))
unfolding in_parens
not-Balanced h = append-Balanced {s = codes "not "} (search (plain, nothing)) (parens-Balanced h)

module _ (leaf : Bytes → Bool) where
  value-leaf :
      (p : Predicate) → is_compound p ≡ false → value leaf p ≡ leaf_value leaf (to_string p)
  unfolding value is_compound
  value-leaf (attribute s) h = refl
  value-leaf (constant s) h = refl
  value-leaf (raw s) h = refl
  value-leaf (binary op a b) h = refl
  value-leaf (unary op a) h = refl
  value-leaf (among op a items) h = refl
  value-leaf (compound op ps) h = absurd (ground (arith, h))

  leaf-Says : {s : Bytes} → IsLeaf s → Says leaf s (leaf_value leaf s)
  unfolding leaf_value read
  leaf-Says {s = []} (leaf_text balanced _ _) = (balanced, read-nothing leaf)
  leaf-Says {s = c ∷ cs} (leaf_text balanced not_not not_group) = (balanced, at_fuel)
    where
      at_fuel : (fuel : ℕ) → length (c ∷ cs) < fuel → read leaf fuel (c ∷ cs) ≡ some (leaf (c ∷ cs))
      at_fuel zero h = absurd (omega (arith, h))
      at_fuel (suc fuel) h = rw (read, not_not, not_group) refl

  not-Says :
      (s : Bytes) (ts : List (Option Bytes)) {b : Bool}
      → s ≢ []
      → Says leaf s b
      → Says leaf (compound_text not_one (some s ∷ ts)) (not b)
  unfolding compound_text not_text is_trivial in_parens
  not-Says [] ts h says = absurd (h refl)
  not-Says (c ∷ s) ts {b} h (balanced, reading) = (not-Balanced balanced, at_fuel)
    where
      at_fuel :
          (fuel : ℕ)
          → length (codes "not" ++ codes " " ++ in_parens (some (c ∷ s))) < fuel
          → read leaf fuel (codes "not" ++ codes " " ++ in_parens (some (c ∷ s))) ≡ some (not b)
      at_fuel zero h = absurd (omega (arith, h))
      at_fuel (suc fuel) h =
          read-not leaf fuel b (c ∷ s) balanced
            (reading fuel (omega (arith, h, length-append (opening ∷ c ∷ s) (closing ∷ []))))

  and-Says :
      {ts : List (Option Bytes)} {bs : List Bool}
      → Said leaf ts bs
      → Says leaf (compound_text and_all ts) (compound_value and_all bs)
  unfolding compound_text compound_value
  and-Says said_end = (nothing, read-nothing leaf)
  and-Says (said_null said) = whole-and leaf (said_null said)
  and-Says (said_first says said) = whole-and leaf (said_first says said)

  mutual
    unfolding to_string value compound_value

    text-Says : {p : Predicate} → IsReadable p → Says leaf (to_string p) (value leaf p)
    text-Says (readable_leaf p e h) = rw (value-leaf p e) (leaf-Says h)
    text-Says (readable_and h) = and-Says (texts-Said h)
    text-Says (readable_or h) = whole-or leaf (texts-Said h)
    text-Says (readable_not {p} {ps} h e) =
        not-Says (to_string p) (operand_texts ps) e (text-Says h)

    texts-Said : {ps : Operands} → AreReadable ps → Said leaf (operand_texts ps) (values leaf ps)
    texts-Said readable_end = said_end
    texts-Said (readable_null h) = said_null (texts-Said h)
    texts-Said (readable_first h k) = said_first (text-Says h) (texts-Said k)

-- The text of a readable predicate, read on more fuel than its length, has the Boolean value of the
-- predicate, whatever values its leaves have: the parentheses, the order of the operands and the
-- operands left out as no condition change nothing.
pub read-to_string :
    (leaf : Bytes → Bool) (p : Predicate) (fuel : ℕ)
    → IsReadable p
    → length (to_string p) < fuel
    → read leaf fuel (to_string p) ≡ some (value leaf p)
read-to_string leaf p fuel h longer = (text-Says leaf h).1 fuel longer
