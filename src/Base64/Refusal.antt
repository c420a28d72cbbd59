-- ===== src/Base64/Refusal.antt =====
-- What Base64Decoding (util/base64.cpp) does with any input.
use aliyun_odps_sdk_cpp.Prelude.{
  ℕ, zero, suc, ◌+◌, ◌-◌, ◌%◌, ◌<◌, ◌≡◌, refl, sym, subst, Bool, true, false, Bytes, [], ◌∷◌,
  length, ◌==◌, if◌then◌else◌, arith, Bool-cases, inl, inr,
}
use aliyun_odps_sdk_cpp.Result.{Result, ok, err, local_error, ◌>>=◌}
use aliyun_odps_sdk_cpp.Base64.{
  pad, within, value_of, read_group, padded_group, decode_groups, out_0, out_1, out_2,
  base64_decoding,
}

-- How much of the input a group takes; the only exception is LOCAL_ERROR.
abbrev Takes : ℕ → ℕ → Result (Bytes × Bool × Bytes) → Type 0
Takes left n (err e) = e ≡ local_error
Takes left n (ok (vs, false, rest)) = n ≡ left + length rest
Takes left n (ok (vs, true, rest)) = n ≡ length vs + 1 + length rest

data Fails : Result ℕ → Type 0 where
  returned : {n : ℕ} → Fails (ok n)
  refused : Fails (err local_error)

if-Fails : (b : Bool) (r r' : Result ℕ) → Fails r → Fails r' → Fails (if b then r else r')
if-Fails true r r' h k = h
if-Fails false r r' h k = k

value-Fails : (plus slash c : ℕ) → Fails (value_of plus slash c)
unfolding value_of
value-Fails plus slash c = if-Fails (within 65 90 c) (ok (c - 65)) _ returned (
    if-Fails (within 97 122 c) (ok (c - 97 + 26)) _ returned (
      if-Fails (within 48 57 c) (ok (c + 52 - 48)) _ returned (
        if-Fails (c == plus) (ok 62) _ returned
          (if-Fails (c == slash) (ok 63) (err local_error) returned refused))))

abbrev prepend : ℕ → Result (Bytes × Bool × Bytes) → Result (Bytes × Bool × Bytes)
prepend v r = r >>= λ (vs, padded, rest). ok (v ∷ vs, padded, rest)

prepend-Takes :
    (left n v : ℕ) (r : Result (Bytes × Bool × Bytes))
    → Takes left n r
    → Takes (suc left) (suc n) (prepend v r)
prepend-Takes left n v (err e) h = h
prepend-Takes left n v (ok (vs, false, rest)) h = omega (arith, h)
prepend-Takes left n v (ok (vs, true, rest)) h = omega (arith, h)

then-Takes :
    (left n : ℕ) (v : Result ℕ) (r : Result (Bytes × Bool × Bytes))
    → Fails v
    → Takes left n r
    → Takes (suc left) (suc n) (v >>= λ w. prepend w r)
then-Takes left n (err _) r refused k = refl
then-Takes left n (ok v) r returned k = prepend-Takes left n v r k

group-Takes :
    (plus slash left : ℕ) (input : Bytes)
    → Takes left (length input) (read_group plus slash left input)
unfolding read_group
group-Takes plus slash zero input = omega arith
group-Takes plus slash (suc left) [] = refl
group-Takes plus slash (suc left) (c ∷ cs) = elim (Bool-cases (c == pad)) [
  | inl e ↦ rw e (omega arith)
  | inr e ↦ rw e (
      then-Takes left (length cs) (value_of plus slash c) (read_group plus slash left cs)
        (value-Fails plus slash c) (group-Takes plus slash left cs))
]

-- A returned string stands for an input of whole groups; the only exception is LOCAL_ERROR.
abbrev pub IsVerdict : ℕ → Result Bytes → Type 0
IsVerdict n (ok bs) = n % 4 ≡ 0
IsVerdict n (err e) = e ≡ local_error

padded-IsVerdict :
    (n : ℕ) (vs rest : Bytes)
    → n ≡ length vs + 1 + length rest
    → IsVerdict n (padded_group (length vs) vs rest)
unfolding padded_group
padded-IsVerdict n [] rest h = refl
padded-IsVerdict n (a ∷ []) rest h = refl
padded-IsVerdict n (a ∷ b ∷ []) [] h = refl
padded-IsVerdict n (a ∷ b ∷ []) (c ∷ []) h = elim (Bool-cases (c == pad)) [
  | inl e ↦ rw e (omega (arith, h))
  | inr e ↦ rw e
]
padded-IsVerdict n (a ∷ b ∷ []) (c ∷ d ∷ rest) h = refl
padded-IsVerdict n (a ∷ b ∷ c ∷ []) [] h = omega (arith, h)
padded-IsVerdict n (a ∷ b ∷ c ∷ []) (d ∷ rest) h = refl
padded-IsVerdict n (a ∷ b ∷ c ∷ d ∷ vs) rest h = refl

module _ (plus slash : ℕ) where
  abbrev behind : ℕ → Result (Bytes × Bool × Bytes) → Result Bytes
  behind fuel r = r >>= λ (vs, padded, rest). elim padded [
    | true ↦ padded_group (length vs) vs rest
    | false ↦
        decode_groups plus slash fuel rest >>= λ bytes. ok (out_0 vs ∷ out_1 vs ∷ out_2 vs ∷ bytes)
  ]

  grow :
      (n : ℕ) (a b c : ℕ) (r : Result Bytes)
      → IsVerdict n r
      → IsVerdict (4 + n) (r >>= λ bytes. ok (a ∷ b ∷ c ∷ bytes))
  grow n a b c (ok bs) h = omega (arith, h)
  grow n a b c (err e) h = h

  behind-IsVerdict :
      (fuel n : ℕ) (r : Result (Bytes × Bool × Bytes))
      → ((rest : Bytes)
          → length rest < fuel
          → IsVerdict (length rest) (decode_groups plus slash fuel rest))
      → n < suc fuel
      → Takes 4 n r
      → IsVerdict n (behind fuel r)
  behind-IsVerdict fuel n (err e) before l h = h
  behind-IsVerdict fuel n (ok (vs, true, rest)) before l h = padded-IsVerdict n vs rest h
  behind-IsVerdict fuel n (ok (vs, false, rest)) before l h =
      subst (λ k. IsVerdict k (behind fuel (ok (vs, false, rest)))) (sym h)
        (grow (length rest) _ _ _ (decode_groups plus slash fuel rest)
          (before rest (omega (arith, h, l))))

  groups-IsVerdict :
      (fuel : ℕ) (input : Bytes)
      → length input < fuel
      → IsVerdict (length input) (decode_groups plus slash fuel input)
  unfolding decode_groups
  groups-IsVerdict zero input l = absurd (omega arith)
  groups-IsVerdict (suc fuel) [] l = refl
  groups-IsVerdict (suc fuel) (c ∷ cs) l =
      behind-IsVerdict fuel (length (c ∷ cs)) _ (groups-IsVerdict fuel) l
        (group-Takes plus slash 4 (c ∷ cs))

  -- Whatever the input is, Base64Decoding ends: either it returns bytes and the length of the input
  -- is a multiple of four, or it throws LOCAL_ERROR.
  pub base64_decoding-IsVerdict :
      (input : Bytes) → IsVerdict (length input) (base64_decoding plus slash input)
  unfolding base64_decoding
  base64_decoding-IsVerdict input = groups-IsVerdict (suc (length input)) input (omega arith)
