-- ===== src/Hash/Order.antt =====
-- The hash of an upsert (tunnel/hash_helper.h) and the order of the keys.
use mathlib.Core.List.{Permᴰ}
use aliyun_odps_sdk_cpp.Prelude.{
  ℕ, ◌≡◌, refl, ap, subst, ◌∙◌, Bytes, List, [], ◌∷◌, Option, none, some, arith,
}
use aliyun_odps_sdk_cpp.Result.{Result, ok, err, ok-injective, ◌>>=◌}
use aliyun_odps_sdk_cpp.TableRecord.{TableRecord}
use aliyun_odps_sdk_cpp.Hash.{
  combine_hash, final_hash, find_column, then_value, if_found, get_hash_val, hash_vals, combine_all,
  get_hasher,
}

combine_swap : (h a b : ℕ) → combine_hash (combine_hash h a) b ≡ combine_hash (combine_hash h b) a
unfolding combine_hash
combine_swap h a b = omega arith

-- Hashes with the same combined hash, from any start.
abbrev Alike : List ℕ → List ℕ → Type 0
Alike hs ks = (h : ℕ) → combine_all h ks ≡ combine_all h hs

-- If one list of hashes is there, so is the other, and they combine to the same.
abbrev Follows : Result (List ℕ) → Result (List ℕ) → Type 0
Follows R S = (hs : List ℕ) → R ≡ ok hs → (ks : List ℕ) × (S ≡ ok ks) × Alike hs ks

value-Follows :
    (v : Result ℕ) (R S : Result (List ℕ)) → Follows R S → Follows (then_value v R) (then_value v S)
unfolding combine_all
value-Follows (err e) R S f hs h = absurd (cc h)
value-Follows (ok v) (err e) S f hs h = absurd (cc h)
value-Follows (ok v) (ok rs) S f hs h =
    let (ks, e, alike) = f rs refl in
    (
      v ∷ ks,
      ap (then_value (ok v)) e,
      (λ k. alike (combine_hash k v) ∙ ap (combine_all k) (ok-injective h)),
    )

swap-Follows :
    (v w : Result ℕ) (R : Result (List ℕ))
    → Follows (then_value v (then_value w R)) (then_value w (then_value v R))
unfolding combine_all
swap-Follows (err e) w R hs h = absurd (cc h)
swap-Follows (ok v) (err e) R hs h = absurd (cc h)
swap-Follows (ok v) (ok w) (err e) hs h = absurd (cc h)
swap-Follows (ok v) (ok w) (ok rs) hs h = (
  w ∷ v ∷ rs,
  refl,
  (λ k. ap (λ x. combine_all x rs) (combine_swap k w v) ∙ ap (combine_all k) (ok-injective h)),
)

same-Follows : (R : Result (List ℕ)) → Follows R R
same-Follows R hs h = (hs, h, (λ k. refl))

trans-Follows : (R S T : Result (List ℕ)) → Follows R S → Follows S T → Follows R T
trans-Follows R S T f g hs h =
    let (ks, e, alike) = f hs h in
    let (js, e', alike') = g ks e in (js, e', (λ k. alike' k ∙ alike k))

module _ {C : Type 0} (r : TableRecord C) (columns : List (Bytes × ℕ)) where
  found-Follows :
      (o : Option ℕ) (R S : Result (List ℕ))
      → Follows R S
      → Follows (if_found r o R) (if_found r o S)
  found-Follows none R S f = f
  found-Follows (some i) R S f = value-Follows (get_hash_val r i) R S f

  exchange-Follows :
      (o p : Option ℕ) (R : Result (List ℕ))
      → Follows (if_found r o (if_found r p R)) (if_found r p (if_found r o R))
  exchange-Follows none p R = same-Follows (if_found r p R)
  exchange-Follows (some i) none R = same-Follows (then_value (get_hash_val r i) R)
  exchange-Follows (some i) (some j) R = swap-Follows (get_hash_val r i) (get_hash_val r j) R

  vals-Follows :
      {keys others : List Bytes}
      → Permᴰ keys others
      → Follows (hash_vals r columns keys) (hash_vals r columns others)
  unfolding hash_vals
  vals-Follows Permᴰ.nil = same-Follows (ok [])
  vals-Follows (Permᴰ.cons {a} {l₁} {l₂} e p) =
      subst (λ b. Follows (hash_vals r columns (a ∷ l₁)) (hash_vals r columns (b ∷ l₂))) e
        (found-Follows (find_column a columns) _ _ (vals-Follows p))
  vals-Follows (Permᴰ.swap {a} {b} {b'} {l} e f) =
      subst (λ c. Follows (hash_vals r columns (a ∷ b ∷ l)) (hash_vals r columns (c ∷ b' ∷ l))) f
        (subst (λ d. Follows (hash_vals r columns (a ∷ b ∷ l)) (hash_vals r columns (b ∷ d ∷ l))) e
          (exchange-Follows (find_column a columns) (find_column b columns)
            (hash_vals r columns l)))
  vals-Follows (Permᴰ.trans p q) = trans-Follows _ _ _ (vals-Follows p) (vals-Follows q)

final-same :
    (R S : Result (List ℕ)) (h : ℕ)
    → Follows R S
    → (R >>= λ hs. ok (final_hash (combine_all 0 hs))) ≡ ok h
    → (S >>= λ hs. ok (final_hash (combine_all 0 hs))) ≡ ok h
final-same (err e) S h f k = absurd (cc k)
final-same (ok hs) S h f k =
    let (ks, e, alike) = f hs refl in
    ap (λ o. o >>= λ rs. ok (final_hash (combine_all 0 rs))) e
    ∙ ap (λ x. ok (final_hash x)) (alike 0)
    ∙ k

-- If the hash of a record is there for some keys, the keys in any other order give the same hash.
pub get_hasher_reordered :
    {C : Type 0} (r : TableRecord C) (columns : List (Bytes × ℕ)) (keys others : List Bytes) (h : ℕ)
    → Permᴰ keys others
    → get_hasher r columns keys ≡ ok h
    → get_hasher r columns others ≡ ok h
unfolding get_hasher
get_hasher_reordered r columns keys others h p e =
    final-same (hash_vals r columns keys) (hash_vals r columns others) h (vals-Follows r columns p)
      e
