-- ===== src/Upload/Sets.antt =====
-- Maps given by their keys, for the maps of blocks in tunnel/upload.cpp.
use aliyun_odps_sdk_cpp.Prelude.{
  ℕ, suc, ◌≤◌, ◌≡◌, refl, sym, ap, ◌∙◌, true, false, ◌||◌, List, [], ◌∷◌, length, ◌==◌, ==_iff,
  ==_refl, if◌then◌else◌, arith, Bool-cases, inl, inr, subst,
}
use aliyun_odps_sdk_cpp.Upload.{has_key, put_key}

-- No key stands twice.
pub data IsMap : List ℕ → Type 0 where
  no_keys : IsMap []
  one_more : {k : ℕ} {keys : List ℕ} → has_key k keys ≡ false → IsMap keys → IsMap (k ∷ keys)

abbrev pub Contains : List ℕ → List ℕ → Type 0
Contains keys more = (k : ℕ) → has_key k keys ≡ true → has_key k more ≡ true

pub put_key-IsMap : (k : ℕ) {keys : List ℕ} → IsMap keys → IsMap (put_key k keys)
unfolding put_key
put_key-IsMap k {keys} h = elim (Bool-cases (has_key k keys)) [
  | inl e ↦ rw e h
  | inr e ↦ rw e (one_more e h)
]

-- The keys behind a write.
pub has_key-put :
    (k j : ℕ) (keys : List ℕ) → has_key k (put_key j keys) ≡ ((k == j) || has_key k keys)
unfolding put_key has_key
has_key-put k j keys = elim (Bool-cases (has_key j keys)) [
  | inl e ↦ rw e (elim (Bool-cases (k == j)) [
    | inl f ↦ rw f (subst (λ i. has_key i keys ≡ true) (sym ((==_iff k j).0 f)) e)
    | inr f ↦ rw f refl
  ])
  | inr e ↦ rw e refl
]

pub key-here : (k j : ℕ) (keys : List ℕ) → (k == j) ≡ true → has_key k (j ∷ keys) ≡ true
unfolding has_key
key-here k j keys e = rw e refl

key-later : (k j : ℕ) (keys : List ℕ) → (k == j) ≡ false → has_key k (j ∷ keys) ≡ has_key k keys
unfolding has_key
key-later k j keys e = rw e refl

pub still : (z k : ℕ) (keys : List ℕ) → has_key z keys ≡ true → has_key z (k ∷ keys) ≡ true
still z k keys found = elim (Bool-cases (z == k)) [
  | inl e ↦ key-here z k keys e
  | inr e ↦ key-later z k keys e ∙ found
]

differs :
    (z k : ℕ) (keys : List ℕ) → has_key z keys ≡ true → has_key k keys ≡ false → (z == k) ≡ false
differs z k keys found fresh = elim (Bool-cases (z == k)) [
  | inl e ↦
      let same = subst (λ i. has_key i keys ≡ true) ((==_iff z k).0 e) found in
      absurd (ground (arith, sym same ∙ fresh))
  | inr e ↦ e
]

pub with_one :
    (more : List ℕ) (k : ℕ) (keys : List ℕ)
    → has_key k more ≡ true
    → Contains keys more
    → Contains (k ∷ keys) more
with_one more k keys there h z found = elim (Bool-cases (z == k)) [
  | inl e ↦ subst (λ i. has_key i more ≡ true) (sym ((==_iff z k).0 e)) there
  | inr e ↦ h z (sym (key-later z k keys e) ∙ found)
]

abbrev without : ℕ → List ℕ → List ℕ
without k [] = []
without k (j ∷ keys) = let rest = without k keys in if k == j then keys else j ∷ rest

length-without :
    (k : ℕ) (keys : List ℕ) → has_key k keys ≡ true → suc (length (without k keys)) ≡ length keys
unfolding has_key
length-without k [] h = absurd (ground (arith, h))
length-without k (j ∷ keys) h = elim (Bool-cases (k == j)) [
  | inl e ↦ rw e refl
  | inr e ↦ rw e (ap suc (length-without k keys (sym (key-later k j keys e) ∙ h)))
]

has_key-without :
    (k j : ℕ) (keys : List ℕ)
    → (k == j) ≡ false
    → has_key k keys ≡ true
    → has_key k (without j keys) ≡ true
unfolding has_key
has_key-without k j [] e h = h
has_key-without k j (i ∷ keys) e h = elim (Bool-cases (j == i)) [
  | inl f ↦
      let other : (k == i) ≡ false = ground (arith, e, f) in
      rw f (sym (key-later k i keys other) ∙ h)
  | inr f ↦ rw f (elim (Bool-cases (k == i)) [
    | inl g ↦ key-here k i (without j keys) g
    | inr g ↦
        key-later k i (without j keys) g
        ∙ has_key-without k j keys e (sym (key-later k i keys g) ∙ h)
  ])
]

-- A map that another contains has no more keys.
pub length-Contains :
    {keys : List ℕ} (more : List ℕ) → IsMap keys → Contains keys more → length keys ≤ length more
unfolding has_key
length-Contains more no_keys h = omega arith
length-Contains more (one_more {k} {keys} fresh m) h =
    let there = h k (key-here k k keys (==_refl k)) in
    let rest = length-Contains (without k more) m (λ z found.
      has_key-without z k more (differs z k keys found fresh) (h z (still z k keys found))) in
    omega (arith, rest, length-without k more there)

-- Of two maps of the same size, one contains the other only if they have the same keys.
pub same_size-Contains :
    {keys : List ℕ} (more : List ℕ)
    → IsMap keys
    → length keys ≡ length more
    → Contains keys more
    → Contains more keys
same_size-Contains {keys} more m e h k found = elim (Bool-cases (has_key k keys)) [
  | inl there ↦ there
  | inr fresh ↦
      let longer = length-Contains more (one_more fresh m) (with_one more k keys found h) in
      absurd (omega (arith, longer, e))
]
