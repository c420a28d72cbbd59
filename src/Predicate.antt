-- ===== src/Predicate.antt =====
-- The filter predicates of max_storage_api/predicate.cpp and their text. An operand of a compound
-- predicate is a shared pointer, and may be null.
mod Quote
mod Reader
mod Value
mod Joined
mod Groups
mod Loop
mod Meaning
mod Tests
use aliyun_odps_sdk_cpp.Prelude.{
  ℕ, zero, suc, ◌+◌, ◌-◌, Bool, true, false, Bytes, codes, List, [], ◌∷◌, ◌++◌, Option, none, some,
  length, take, drop, ltb, ◌==◌, ◌&&◌, not, if◌then◌else◌, bytes_eq,
}
use aliyun_odps_sdk_cpp.Result.{Result, ok, err, invalid_argument, guard, ◌>>◌}

pub data BinaryOperator : Type 0 where
  equals not_equals greater_than less_than : BinaryOperator
  greater_than_or_equal less_than_or_equal : BinaryOperator

pub data UnaryOperator : Type 0 where
  is_null not_null : UnaryOperator

pub data CompoundOperator : Type 0 where
  and_all or_any not_one : CompoundOperator

pub data InOperator : Type 0 where
  in_set not_in_set : InOperator

mutual
  pub data Predicate : Type 0 where
    attribute constant raw : Bytes → Predicate
    binary : BinaryOperator → Bytes → Bytes → Predicate
    unary : UnaryOperator → Bytes → Predicate
    compound : CompoundOperator → Operands → Predicate
    among : InOperator → Bytes → List Bytes → Predicate

  -- A vector of operands: each a null pointer or a predicate.
  pub data Operands : Type 0 where
    no_more : Operands
    null_first : Operands → Operands
    first : Predicate → Operands → Operands

abbrev pub back_tick : ℕ
back_tick = 96

abbrev one_further : Option ℕ → Option ℕ
one_further none = none
one_further (some i) = some (suc i)

-- `s.find(c, from)` for one character.
unfoldable pub find_from : ℕ → Bytes → ℕ → Option ℕ
find_from c [] from = none
find_from c (x ∷ xs) zero =
    let later = one_further (find_from c xs 0) in if x == c then some 0 else later
find_from c (x ∷ xs) (suc from) = one_further (find_from c xs from)

-- `s.replace(pos, 1, "``")`.
unfoldable pub double_at : ℕ → Bytes → Bytes
double_at at s = take at s ++ back_tick ∷ back_tick ∷ drop (suc at) s

-- The loop that escapes the back-ticks from a position on; it also ends when its fuel runs out.
unfoldable pub escape_loop : ℕ → Bytes → ℕ → Bytes
escape_loop zero escaped from = escaped
escape_loop (suc fuel) escaped from = elim (find_from back_tick escaped from) [
  | none ↦ escaped
  | some at ↦ escape_loop fuel (double_at at escaped) (at + 2)
]

-- `mValue.length() > 1`, and the first and the last character are back-ticks.
unfoldable pub is_quoted : Bytes → Bool
is_quoted value =
    ltb 1 (length value)
    && (bytes_eq (take 1 value) (back_tick ∷ [])
        && bytes_eq (drop (length value - 1) value) (back_tick ∷ []))

unfoldable pub attribute_text : Bytes → Bytes
attribute_text value =
    if is_quoted value
    then value
    else back_tick ∷ escape_loop (suc (length value)) value 0 ++ back_tick ∷ []

unfoldable pub binary_word : BinaryOperator → Bytes
binary_word equals = codes "="
binary_word not_equals = codes "!="
binary_word greater_than = codes ">"
binary_word less_than = codes "<"
binary_word greater_than_or_equal = codes ">="
binary_word less_than_or_equal = codes "<="

unfoldable pub unary_word : UnaryOperator → Bytes
unary_word is_null = codes "is null"
unary_word not_null = codes "is not null"

unfoldable pub compound_word : CompoundOperator → Bytes
compound_word and_all = codes "and"
compound_word or_any = codes "or"
compound_word not_one = codes "not"

unfoldable pub in_word : InOperator → Bytes
in_word in_set = codes "in"
in_word not_in_set = codes "not in"

-- The loop over the set: `, ` behind each item but the last.
unfoldable pub set_text : List Bytes → Bytes
set_text [] = []
set_text (item ∷ []) = item
set_text (item ∷ next ∷ items) = item ++ codes ", " ++ set_text (next ∷ items)

-- `!predicate || predicate->ToString().empty()`, where a null pointer has no text.
unfoldable pub is_trivial : Option Bytes → Bool
is_trivial none = true
is_trivial (some []) = true
is_trivial (some (c ∷ s)) = false

unfoldable pub in_parens : Option Bytes → Bytes
in_parens none = []
in_parens (some text) = codes "(" ++ text ++ codes ")"

unfoldable pub is_or : CompoundOperator → Bool
is_or and_all = false
is_or or_any = true
is_or not_one = false

-- The loop over the operands' texts, with what `sb` holds.
unfoldable pub join_texts : CompoundOperator → Bool → Bytes → List (Option Bytes) → Bytes
join_texts op is_first sb [] = sb
join_texts op is_first sb (text ∷ texts) =
    let skipped = join_texts op is_first sb texts in
    let lead = if is_first then [] else codes " " ++ compound_word op ++ codes " " in
    let added = join_texts op false (sb ++ lead ++ in_parens text) texts in
    if is_trivial text then if is_or op then [] else skipped else added

unfoldable pub not_text : Option Bytes → Bytes
not_text text = if is_trivial text then [] else codes "not" ++ codes " " ++ in_parens text

unfoldable pub compound_text : CompoundOperator → List (Option Bytes) → Bytes
compound_text op [] = []
compound_text and_all (text ∷ texts) = join_texts and_all true [] (text ∷ texts)
compound_text or_any (text ∷ texts) = join_texts or_any true [] (text ∷ texts)
compound_text not_one (text ∷ texts) = not_text text

unfoldable mutual
  pub to_string : Predicate → Bytes
  to_string (attribute value) = attribute_text value
  to_string (constant value) = value
  to_string (raw text) = text
  to_string (binary op left right) = left ++ codes " " ++ binary_word op ++ codes " " ++ right
  to_string (unary op operand) = operand ++ codes " " ++ unary_word op
  to_string (compound op operands) = compound_text op (operand_texts operands)
  to_string (among op operand items) =
      operand ++ codes " " ++ in_word op ++ codes " (" ++ set_text items ++ codes ")"

  -- The operands' texts, none for a null pointer.
  pub operand_texts : Operands → List (Option Bytes)
  operand_texts no_more = []
  operand_texts (null_first operands) = none ∷ operand_texts operands
  operand_texts (first p operands) = some (to_string p) ∷ operand_texts operands

unfoldable pub operand_count : Operands → ℕ
operand_count no_more = 0
operand_count (null_first operands) = suc (operand_count operands)
operand_count (first p operands) = suc (operand_count operands)

unfoldable pub is_not : CompoundOperator → Bool
is_not and_all = false
is_not or_any = false
is_not not_one = true

-- The constructor from a vector: NOT takes one operand at most.
unfoldable pub make_compound : CompoundOperator → Operands → Result Predicate
make_compound op operands =
    guard (not (is_not op && ltb 1 (operand_count operands))) invalid_argument
    >> ok (compound op operands)

-- AddPredicate on a compound predicate, which does not count the operands of NOT.
unfoldable pub add_predicate : Operands → Predicate → Operands
add_predicate no_more p = first p no_more
add_predicate (null_first operands) p = null_first (add_predicate operands p)
add_predicate (first q operands) p = first q (add_predicate operands p)
