-- ===== src/Volume/Moved.antt =====
-- The bytes that the loops of volume_serialize.cpp move.
use aliyun_odps_sdk_cpp.Prelude.{
  ℕ, zero, suc, ◌+◌, ◌-◌, ◌≡◌, ◌≤◌, ◌<◌, refl, sym, ap, ◌∙◌, Bytes, List, [], ◌∷◌, ◌++◌,
  append_assoc, append-nil, length, take, drop, ltb, arith, Bool-cases, inl, inr,
}
use aliyun_odps_sdk_cpp.Result.{ok}
use aliyun_odps_sdk_cpp.Volume.{write_buffers, uint32_bytes, get_int, read_pieces}

pub take-drop : (n : ℕ) (xs : Bytes) → take n xs ++ drop n xs ≡ xs
take-drop zero xs = refl
take-drop (suc n) [] = refl
take-drop (suc n) (x ∷ xs) = ap (◌∷◌ x) (take-drop n xs)

pub length-drop : (n : ℕ) (xs : Bytes) → length (drop n xs) ≡ length xs - n
length-drop zero xs = omega arith
length-drop (suc n) [] = omega arith
length-drop (suc n) (x ∷ xs) = omega (arith, length-drop n xs)

pub length-take : (n : ℕ) (xs : Bytes) → n ≤ length xs → length (take n xs) ≡ n
length-take zero xs h = refl
length-take (suc n) [] h = absurd (omega (arith, h))
length-take (suc n) (x ∷ xs) h = ap suc (length-take n xs (omega (arith, h)))

pub take-all : (n : ℕ) (xs : Bytes) → length xs ≤ n → take n xs ≡ xs
take-all zero [] h = refl
take-all zero (x ∷ xs) h = absurd (omega (arith, h))
take-all (suc n) [] h = refl
take-all (suc n) (x ∷ xs) h = ap (◌∷◌ x) (take-all n xs (omega (arith, h)))

pub drop-all : (n : ℕ) (xs : Bytes) → length xs ≤ n → drop n xs ≡ []
drop-all zero [] h = refl
drop-all zero (x ∷ xs) h = absurd (omega (arith, h))
drop-all (suc n) [] h = refl
drop-all (suc n) (x ∷ xs) h = drop-all n xs (omega (arith, h))

pub take-append : (xs ys : Bytes) → take (length xs) (xs ++ ys) ≡ xs
take-append [] ys = refl
take-append (x ∷ xs) ys = ap (◌∷◌ x) (take-append xs ys)

pub drop-append : (xs ys : Bytes) → drop (length xs) (xs ++ ys) ≡ ys
drop-append [] ys = refl
drop-append (x ∷ xs) ys = drop-append xs ys

pub take-append_more :
    (n : ℕ) (xs ys : Bytes) → length xs ≤ n → take n (xs ++ ys) ≡ xs ++ take (n - length xs) ys
take-append_more n [] ys h = ap (λ k. take k ys) (omega arith)
take-append_more zero (x ∷ xs) ys h = absurd (omega (arith, h))
take-append_more (suc n) (x ∷ xs) ys h =
    ap (◌∷◌ x)
      (take-append_more n xs ys (omega (arith, h)) ∙ ap (λ k. xs ++ take k ys) (omega arith))

pub drop-append_more :
    (n : ℕ) (xs ys : Bytes) → length xs ≤ n → drop n (xs ++ ys) ≡ drop (n - length xs) ys
drop-append_more n [] ys h = ap (λ k. drop k ys) (omega arith)
drop-append_more zero (x ∷ xs) ys h = absurd (omega (arith, h))
drop-append_more (suc n) (x ∷ xs) ys h =
    drop-append_more n xs ys (omega (arith, h)) ∙ ap (λ k. drop k ys) (omega arith)

pub take-append_less : (n : ℕ) (xs ys : Bytes) → n ≤ length xs → take n (xs ++ ys) ≡ take n xs
take-append_less zero xs ys h = refl
take-append_less (suc n) [] ys h = absurd (omega (arith, h))
take-append_less (suc n) (x ∷ xs) ys h = ap (◌∷◌ x) (take-append_less n xs ys (omega (arith, h)))

pub drop-append_less : (n : ℕ) (xs ys : Bytes) → n ≤ length xs → drop n (xs ++ ys) ≡ drop n xs ++ ys
drop-append_less zero xs ys h = refl
drop-append_less (suc n) [] ys h = absurd (omega (arith, h))
drop-append_less (suc n) (x ∷ xs) ys h = drop-append_less n xs ys (omega (arith, h))

pub take-nil : (n : ℕ) → take {A = ℕ} n [] ≡ []
take-nil zero = refl
take-nil (suc n) = refl

pub drop-nil : (n : ℕ) → drop {A = ℕ} n [] ≡ []
drop-nil zero = refl
drop-nil (suc n) = refl

pub drop-drop : (n m : ℕ) (xs : Bytes) → drop m (drop n xs) ≡ drop (n + m) xs
drop-drop zero m xs = ap (λ k. drop k xs) (omega arith)
drop-drop (suc n) zero [] = sym (drop-nil (suc n + 0))
drop-drop (suc n) (suc m) [] = sym (drop-nil (suc n + suc m))
drop-drop (suc n) m (x ∷ xs) =
    let e : suc (n + m) ≡ suc n + m = omega arith in drop-drop n m xs ∙ ap (λ k. drop k (x ∷ xs)) e

-- All bytes of some pieces.
unfoldable pub flat : List Bytes → Bytes
flat [] = []
flat (p ∷ pieces) = p ++ flat pieces

pub flat-append : (ps qs : List Bytes) → flat (ps ++ qs) ≡ flat ps ++ flat qs
unfolding flat
flat-append [] qs = refl
flat-append (p ∷ ps) qs =
    ap (λ t. p ++ t) (flat-append ps qs) ∙ sym (append_assoc p (flat ps) (flat qs))

-- The room of some buffers.
unfoldable pub sum : List ℕ → ℕ
sum [] = 0
sum (n ∷ ns) = n + sum ns

abbrev IsRead : Bytes → ℕ → Bytes × List Bytes → Type 0
IsRead s size (buf, rest) = (buf ≡ take size s) × (flat rest ≡ drop size s)

pub read_pieces-IsRead :
    (pieces : List Bytes) (size : ℕ)
    → ((read_pieces pieces size).0 ≡ take size (flat pieces))
      × (flat (read_pieces pieces size).1 ≡ drop size (flat pieces))
unfolding read_pieces flat
read_pieces-IsRead [] zero = (refl, refl)
read_pieces-IsRead [] (suc size) = (refl, refl)
read_pieces-IsRead (p ∷ pieces) zero = (refl, refl)
read_pieces-IsRead (p ∷ pieces) (suc size) = elim (Bool-cases (ltb (suc size) (length p))) [
  | inl e ↦ rw e (
    sym (take-append_less (suc size) p (flat pieces) (ground (arith, e))),
    sym (drop-append_less (suc size) p (flat pieces) (ground (arith, e))),
  )
  | inr e ↦
      let (h, k) = read_pieces-IsRead pieces (suc size - length p) in
      rw e (
        ap (λ t. p ++ t) h ∙ sym (take-append_more (suc size) p (flat pieces) (ground (arith, e))),
        k ∙ sym (drop-append_more (suc size) p (flat pieces) (ground (arith, e))),
      )
]

-- With room enough the loop writes all bytes, and uses as much room.
pub write_buffers_lem :
    (offers : List ℕ) (written buf : Bytes)
    → length buf ≤ sum offers
    → (rest : List ℕ) × (write_buffers offers written buf
        ≡ ok record { written = written ++ buf; offers = rest })
      × (sum rest + length buf ≡ sum offers)
unfolding write_buffers sum
write_buffers_lem [] written [] h = ([], rw (append-nil written) refl, refl)
write_buffers_lem [] written (b ∷ bs) h = absurd (omega (arith, h))
write_buffers_lem (n ∷ offers) written [] h =
    (n ∷ offers, rw (append-nil written) refl, omega arith)
write_buffers_lem (n ∷ offers) written (b ∷ bs) h = elim (Bool-cases (ltb (length (b ∷ bs)) n)) [
  | inl e ↦ ((n - length (b ∷ bs)) ∷ offers, rw e refl, ground (arith, e))
  | inr e ↦
      let (rest, k, l) =
        write_buffers_lem offers (written ++ take n (b ∷ bs)) (drop n (b ∷ bs))
          (omega (arith, h, length-drop n (b ∷ bs))) in
      (
        rest,
        rw e (
            k
            ∙ ap (λ t. ok record { written = t; offers = rest })
                (append_assoc written (take n (b ∷ bs)) (drop n (b ∷ bs))
                  ∙ ap (λ t. written ++ t) (take-drop n (b ∷ bs)))),
        ground (arith, e, l, length-drop n (b ∷ bs)),
      )
]

pub get_int-uint32_bytes :
    (v : ℕ) (rest : Bytes) → v < 4_294_967_296 → get_int (uint32_bytes v ++ rest) ≡ v
unfolding get_int uint32_bytes
get_int-uint32_bytes v rest h = omega (arith, h)
