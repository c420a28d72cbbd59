-- ===== src/Upsert/Buckets.antt =====
-- The numbers of the buckets that UpsertSession::LoadSlots (tunnel/upsert.cpp) accepts.
use aliyun_odps_sdk_cpp.Prelude.{
  ℕ, zero, suc, ◌≡◌, ◌<◌, refl, sym, ap, ◌∙◌, true, List, [], ◌∷◌, length, ltb, arith, Bool-cases,
  inl, inr, lt→ltb, subst,
}
use aliyun_odps_sdk_cpp.Result.{ok, ok-injective}
use aliyun_odps_sdk_cpp.Upload.{has_key, put_key}
use aliyun_odps_sdk_cpp.Upload.Sets.{IsMap, no_keys, put_key-IsMap, same_size-Contains}
use aliyun_odps_sdk_cpp.Upsert.{
  insert_buckets, all_below, check_buckets, insert_slots, load_upsert_slots,
}

range : ℕ → List ℕ
range zero = []
range (suc n) = n ∷ range n

length-range : (n : ℕ) → length (range n) ≡ n
unfolding range
length-range zero = refl
length-range (suc n) = ap suc (length-range n)

has_key-range : (k n : ℕ) → has_key k (range n) ≡ ltb k n
unfolding range has_key
has_key-range k zero = ground arith
has_key-range k (suc n) = ground (arith, has_key-range k n)

all_below-key :
    (n k : ℕ) (keys : List ℕ) → all_below n keys ≡ true → has_key k keys ≡ true → ltb k n ≡ true
unfolding all_below has_key
all_below-key n k [] h e = absurd (cc e)
all_below-key n k (j ∷ keys) h e = ground (arith, h, e, all_below-key n k keys)

insert_buckets-IsMap : (bs : List ℕ) (keys : List ℕ) → IsMap keys → IsMap (insert_buckets bs keys)
unfolding insert_buckets
insert_buckets-IsMap [] keys m = m
insert_buckets-IsMap (b ∷ bs) keys m = insert_buckets-IsMap bs (put_key b keys) (put_key-IsMap b m)

abbrev pub AreNumbered : List ℕ → Type 0
AreNumbered keys = IsMap keys × (all_below (length keys) keys ≡ true)

insert_slots-AreNumbered :
    (slots : List (List ℕ)) (keys more : List ℕ)
    → AreNumbered keys
    → insert_slots slots keys ≡ ok more
    → AreNumbered more
unfolding insert_slots check_buckets
insert_slots-AreNumbered [] keys more h e = subst AreNumbered (ok-injective e) h
insert_slots-AreNumbered (slot ∷ slots) keys more (m, h) e =
    let next = insert_buckets slot keys in
    elim (Bool-cases (all_below (length next) next)) [
      | inl good ↦
          insert_slots-AreNumbered slots next more (insert_buckets-IsMap slot keys m, good)
            (rw good at e)
      | inr bad ↦ absurd (cc (rw bad at e))
    ]

-- The keys are the numbers below their count.
pub numbered-key :
    (k : ℕ) (keys : List ℕ) → AreNumbered keys → k < length keys → has_key k keys ≡ true
numbered-key k keys (m, h) p =
    let n = length keys in
    same_size-Contains (range n) m (sym (length-range n))
      (λ j found. has_key-range j n ∙ all_below-key n j keys h found) k
      (has_key-range k n ∙ lt→ltb k n p)

pub load_upsert_slots-AreNumbered :
    (slots : List (List ℕ)) (keys : List ℕ) → load_upsert_slots slots ≡ ok keys → AreNumbered keys
unfolding load_upsert_slots all_below
load_upsert_slots-AreNumbered [] keys e = absurd (cc e)
load_upsert_slots-AreNumbered (slot ∷ slots) keys e =
    insert_slots-AreNumbered (slot ∷ slots) [] keys (no_keys, refl) e
