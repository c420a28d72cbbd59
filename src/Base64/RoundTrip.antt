-- ===== src/Base64/RoundTrip.antt =====
-- Base64Encoding and then Base64Decoding (util/base64.cpp).
use aliyun_odps_sdk_cpp.Prelude.{
  ℕ, zero, suc, ◌<◌, ◌≡◌, refl, ap, ◌∙◌, Bool, true, false, ◌&&◌, not, Bytes, [], ◌∷◌, length, ◌==◌,
  arith, All, Bool-cases, inl, inr, ==_iff,
}
use aliyun_odps_sdk_cpp.Result.{Result, ok, err, ◌>>=◌}
use aliyun_odps_sdk_cpp.Base64.{
  default_alphabet, default_plus, default_slash, letter, pad, index_0, index_1, index_2, index_3,
  value_of, read_group, padded_group, decode_groups, out_0, out_1, out_2, base64_encoding,
  base64_decoding,
}

abbrev value : ℕ → Result ℕ
value = value_of default_plus default_slash

abbrev is_value : Result ℕ → ℕ → Bool
is_value (ok v) i = v == i
is_value (err e) i = false

good : ℕ → Bool
good i = is_value (value (letter default_alphabet i)) i && not (letter default_alphabet i == pad)

good_below : ℕ → Bool
good_below zero = true
good_below (suc n) = good n && good_below n

good_below-good : (n i : ℕ) → good_below n ≡ true → i < n → good i ≡ true
unfolding good_below
good_below-good zero i h l = absurd (omega arith)
good_below-good (suc n) i h l = elim (Bool-cases (i == n)) [
  | inl e ↦ let same : i ≡ n = ground arith in rw same (ground arith)
  | inr e ↦ good_below-good n i (ground arith) (ground arith)
]

all_good : good_below 64 ≡ true
unfolding good_below good value_of
all_good = refl

is_value-ok : (r : Result ℕ) (i : ℕ) → is_value r i ≡ true → r ≡ ok i
is_value-ok (ok v) i h = ap ok ((==_iff v i).0 h)
is_value-ok (err e) i h = absurd (ground arith)

-- Every letter stands for its index, and is no padding.
letter_lem :
    (i : ℕ)
    → i < 64
    → (value (letter default_alphabet i) ≡ ok i) × ((letter default_alphabet i == pad) ≡ false)
unfolding good
letter_lem i h =
    let g = good_below-good 64 i all_good h in (is_value-ok _ i (ground arith), ground arith)

abbrev Read : Type 0
Read = Result (Bytes × Bool × Bytes)

abbrev group : ℕ → Bytes → Read
group = read_group default_plus default_slash

abbrev one_more : ℕ → Read → Read
one_more v r = r >>= λ (vs, padded, rest). ok (v ∷ vs, padded, rest)

group-letter :
    (left i : ℕ) (cs : Bytes)
    → i < 64
    → group (suc left) (letter default_alphabet i ∷ cs) ≡ one_more i (group left cs)
unfolding read_group
group-letter left i cs h = let (found, other) = letter_lem i h in rw other (rw found)

group-pad : (left : ℕ) (cs : Bytes) → group (suc left) (pad ∷ cs) ≡ ok ([], true, cs)
unfolding read_group
group-pad left cs = refl

group-full :
    (i j k l : ℕ) (rest : Bytes)
    → i < 64
    → j < 64
    → k < 64
    → l < 64
    → group 4 (
        letter default_alphabet i
        ∷ letter default_alphabet j
        ∷ letter default_alphabet k
        ∷ letter default_alphabet l
        ∷ rest)
      ≡ ok (i ∷ j ∷ k ∷ l ∷ [], false, rest)
unfolding read_group
group-full i j k l rest a b c d =
    group-letter 3 i _ a
    ∙ ap (one_more i) (
        group-letter 2 j _ b
        ∙ ap (one_more j) (group-letter 1 k _ c ∙ ap (one_more k) (group-letter 0 l rest d)))

group-three :
    (i j k : ℕ)
    → i < 64
    → j < 64
    → k < 64
    → group 4 (
        letter default_alphabet i
        ∷ letter default_alphabet j
        ∷ letter default_alphabet k
        ∷ pad
        ∷ [])
      ≡ ok (i ∷ j ∷ k ∷ [], true, [])
group-three i j k a b c =
    group-letter 3 i _ a
    ∙ ap (one_more i) (
        group-letter 2 j _ b
        ∙ ap (one_more j) (group-letter 1 k _ c ∙ ap (one_more k) (group-pad 0 [])))

group-two :
    (i j : ℕ)
    → i < 64
    → j < 64
    → group 4 (letter default_alphabet i ∷ letter default_alphabet j ∷ pad ∷ pad ∷ [])
      ≡ ok (i ∷ j ∷ [], true, pad ∷ [])
group-two i j a b =
    group-letter 3 i _ a
    ∙ ap (one_more i) (group-letter 2 j _ b ∙ ap (one_more j) (group-pad 1 (pad ∷ [])))

abbrev IsByte : ℕ → Type 0
IsByte n = n < 256

decode-encode :
    (fuel : ℕ) (bs : Bytes)
    → All IsByte bs
    → length (base64_encoding default_alphabet bs) < fuel
    → decode_groups default_plus default_slash fuel (base64_encoding default_alphabet bs) ≡ ok bs
unfolding decode_groups base64_encoding padded_group
decode-encode zero bs h l = absurd (omega arith)
decode-encode (suc fuel) [] h l = refl
decode-encode (suc fuel) (a ∷ []) (ha, _) l =
    rw (group-two (index_0 a) (index_1 a 0) (omega arith) (omega arith))
      (ap (λ n. ok (n ∷ [])) (omega arith))
decode-encode (suc fuel) (a ∷ b ∷ []) (ha, (hb, _)) l =
    let first : out_0 (index_0 a ∷ index_1 a b ∷ index_2 b 0 ∷ []) ≡ a = omega arith in
    let second : out_1 (index_0 a ∷ index_1 a b ∷ index_2 b 0 ∷ []) ≡ b = omega arith in
    rw
      (group-three (index_0 a) (index_1 a b) (index_2 b 0) (omega arith) (omega arith)
        (omega arith))
      cc
decode-encode (suc fuel) (a ∷ b ∷ c ∷ bs) (ha, (hb, (hc, hs))) l =
    let vs = index_0 a ∷ index_1 a b ∷ index_2 b c ∷ index_3 c ∷ [] in
    let first : out_0 vs ≡ a = omega arith in
    let second : out_1 vs ≡ b = omega arith in
    let third : out_2 vs ≡ c = omega arith in
    rw
      (group-full (index_0 a) (index_1 a b) (index_2 b c) (index_3 c)
        (base64_encoding default_alphabet bs) (omega arith) (omega arith) (omega arith)
        (omega arith))
      (rw (decode-encode fuel bs hs (omega arith)) cc)

-- Any string of bytes, encoded with the default alphabet, is decoded to itself.
pub base64_round_trip :
    (bs : Bytes)
    → All IsByte bs
    → base64_decoding default_plus default_slash (base64_encoding default_alphabet bs) ≡ ok bs
unfolding base64_decoding
base64_round_trip bs h =
    decode-encode (suc (length (base64_encoding default_alphabet bs))) bs h (omega arith)
