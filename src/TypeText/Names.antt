-- ===== src/TypeText/Names.antt =====
-- The names of types and the texts of numbers as words (common/complex_type_schema.cpp).
use aliyun_odps_sdk_cpp.Prelude.{
  ℕ, zero, suc, ◌+◌, ◌/◌, ◌%◌, ◌≡◌, refl, subst, Bool, true, false, ◌&&◌, not, Bytes, bytes_eq,
  codes, [], ◌∷◌, ◌++◌, ltb, ◌==◌, arith, All, Bool-cases, inl, inr,
}
use aliyun_odps_sdk_cpp.Prelude.Int.{pos}
use aliyun_odps_sdk_cpp.Result.{ok}
use aliyun_odps_sdk_cpp.Types.{
  ColumnType, unknown, bigint, double, boolean, datetime, string, decimal, tinyint, smallint,
  integer, char, varchar, binary, date, timestamp, float, interval_year_month, interval_day_time,
  array, map, struct, json, timestamp_ntz, get_type_name,
}
use aliyun_odps_sdk_cpp.TypeText.Print.{digits, to_string, type_name}
use aliyun_odps_sdk_cpp.TypeText.Parse.{
  is_space, to_upper, check_type_info_char, token_to_enumerator,
}
use aliyun_odps_sdk_cpp.TypeText.Tokens.{IsWordChar, digit-IsWordChar}

abbrev pub is_known : ColumnType → Bool
is_known unknown = false
is_known t = true

word_char : ℕ → Bool
unfolding check_type_info_char is_space to_upper
word_char c = check_type_info_char c && (not (is_space c) && (to_upper c == c))

word_char-IsWordChar : (c : ℕ) → word_char c ≡ true → IsWordChar c
unfolding word_char
word_char-IsWordChar c h = (ground arith, ground arith, ground arith)

word : Bytes → Bool
unfolding word_char
word [] = true
word (c ∷ cs) = word_char c && word cs

word-All : (s : Bytes) → word s ≡ true → All IsWordChar s
unfolding word
word-All [] h = tt
word-All (c ∷ cs) h = (word_char-IsWordChar c (ground arith), word-All cs (ground arith))

-- A type's name is a word, and stands for the type.
abbrev pub Named : ColumnType → Type 0
Named t =
    (c : ℕ) × (w : Bytes) × (type_name t ≡ ok (c ∷ w))
    × All IsWordChar (c ∷ w)
    × (token_to_enumerator (c ∷ w) ≡ ok t)

pub type-Named : (t : ColumnType) → is_known t ≡ true → Named t
unfolding get_type_name word token_to_enumerator bytes_eq
type-Named unknown h = absurd (ground arith)
type-Named bigint h = (_, _, refl, word-All (codes "BIGINT") refl, refl)
type-Named double h = (_, _, refl, word-All (codes "DOUBLE") refl, refl)
type-Named boolean h = (_, _, refl, word-All (codes "BOOLEAN") refl, refl)
type-Named datetime h = (_, _, refl, word-All (codes "DATETIME") refl, refl)
type-Named string h = (_, _, refl, word-All (codes "STRING") refl, refl)
type-Named decimal h = (_, _, refl, word-All (codes "DECIMAL") refl, refl)
type-Named tinyint h = (_, _, refl, word-All (codes "TINYINT") refl, refl)
type-Named smallint h = (_, _, refl, word-All (codes "SMALLINT") refl, refl)
type-Named integer h = (_, _, refl, word-All (codes "INT") refl, refl)
type-Named char h = (_, _, refl, word-All (codes "CHAR") refl, refl)
type-Named varchar h = (_, _, refl, word-All (codes "VARCHAR") refl, refl)
type-Named binary h = (_, _, refl, word-All (codes "BINARY") refl, refl)
type-Named date h = (_, _, refl, word-All (codes "DATE") refl, refl)
type-Named timestamp h = (_, _, refl, word-All (codes "TIMESTAMP") refl, refl)
type-Named float h = (_, _, refl, word-All (codes "FLOAT") refl, refl)
type-Named interval_year_month h = (_, _, refl, word-All (codes "INTERVAL_YEAR_MONTH") refl, refl)
type-Named interval_day_time h = (_, _, refl, word-All (codes "INTERVAL_DAY_TIME") refl, refl)
type-Named array h = (_, _, refl, word-All (codes "ARRAY") refl, refl)
type-Named map h = (_, _, refl, word-All (codes "MAP") refl, refl)
type-Named struct h = (_, _, refl, word-All (codes "STRUCT") refl, refl)
type-Named json h = (_, _, refl, word-All (codes "JSON") refl, refl)
type-Named timestamp_ntz h = (_, _, refl, word-All (codes "TIMESTAMP_NTZ") refl, refl)

All-append : (P : ℕ → Type 0) (s t : Bytes) → All P s → All P t → All P (s ++ t)
All-append P [] t h k = k
All-append P (c ∷ cs) t h k = (h.0, All-append P cs t h.1 k)

digits-All : (fuel n : ℕ) → All IsWordChar (digits fuel n)
unfolding digits
digits-All zero n = tt
digits-All (suc fuel) n = elim (Bool-cases (ltb n 10)) [
  | inl e ↦ rw e (digit-IsWordChar (48 + n) (omega arith) (ground arith), tt)
  | inr e ↦ rw e (
      All-append IsWordChar (digits fuel (n / 10)) _ (digits-All fuel (n / 10))
        (digit-IsWordChar (48 + n % 10) (omega arith) (omega arith), tt))
]

append-last : (s : Bytes) (d : ℕ) → (c : ℕ) × (w : Bytes) × (s ++ d ∷ [] ≡ c ∷ w)
append-last [] d = (d, [], refl)
append-last (c ∷ cs) d = (c, cs ++ d ∷ [], refl)

digits-cons : (fuel n : ℕ) → (c : ℕ) × (w : Bytes) × (digits (suc fuel) n ≡ c ∷ w)
unfolding digits
digits-cons fuel n = elim (Bool-cases (ltb n 10)) [
  | inl e ↦ (48 + n, [], rw e)
  | inr e ↦ let (c, w, h) = append-last (digits fuel (n / 10)) (48 + n % 10) in (c, w, rw e h)
]

-- A number's text is a word.
abbrev pub NumberWord : ℕ → Type 0
NumberWord n = (c : ℕ) × (w : Bytes) × (to_string (pos n) ≡ c ∷ w) × All IsWordChar (c ∷ w)

pub number-NumberWord : (n : ℕ) → NumberWord n
unfolding to_string
number-NumberWord n =
    let (c, w, e) = digits-cons 9 n in (c, w, e, subst (All IsWordChar) e (digits-All 10 n))
