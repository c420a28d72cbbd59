-- ===== src/Pool/Store.antt =====
-- The map of pools: what is found behind a write, and behind a clean-up.
use aliyun_odps_sdk_cpp.Prelude.{
  ◌≡◌, refl, sym, subst, false, Bytes, bytes_eq, bytes_eq_refl, bytes_eq→eq, List, [], ◌∷◌, some, ℕ,
  Bool-cases, inl, inr,
}
use aliyun_odps_sdk_cpp.Pool.{PoolState, find_pool, put_pool, pool_at, clean_pools, keep_usable}

pub find-put :
    (k : Bytes) (s : PoolState) (m : List (Bytes × PoolState))
    → find_pool k (put_pool k s m) ≡ some s
unfolding find_pool put_pool
find-put k s [] = rw (bytes_eq_refl k)
find-put k s ((j, t) ∷ m) = elim (Bool-cases (bytes_eq k j)) [
  | inl e ↦ rw e (rw e)
  | inr e ↦ rw e (rw e (find-put k s m))
]

pub find-put_other :
    (i k : Bytes) (s : PoolState) (m : List (Bytes × PoolState))
    → bytes_eq i k ≡ false
    → find_pool i (put_pool k s m) ≡ find_pool i m
unfolding find_pool put_pool
find-put_other i k s [] h = rw h
find-put_other i k s ((j, t) ∷ m) h = elim (Bool-cases (bytes_eq k j)) [
  | inl e ↦
      let other : bytes_eq i j ≡ false = subst (λ b. bytes_eq i b ≡ false) (bytes_eq→eq k j e) h in
      rw e (rw other)
  | inr e ↦ rw e (elim (Bool-cases (bytes_eq i j)) [
    | inl e' ↦ rw e'
    | inr e' ↦ rw e' (find-put_other i k s m h)
  ])
]

-- What a property of every pool, missing ones as empty, has to keep.
pub put-all :
    (P : Bytes → PoolState → Type 0) (k : Bytes) (s : PoolState) (m : List (Bytes × PoolState))
    → P k s
    → ((n : Bytes) → P n (pool_at n m))
    → (n : Bytes) → P n (pool_at n (put_pool k s m))
put-all P k s m h all n = elim (Bool-cases (bytes_eq n k)) [
  | inl e ↦
      subst (λ b. P b (pool_at b (put_pool k s m))) (sym (bytes_eq→eq n k e))
        (rw (find-put k s m) h)
  | inr e ↦ rw (find-put_other n k s m e) (all n)
]

pub pool_at-clean :
    (now : ℕ) (n : Bytes) (m : List (Bytes × PoolState))
    → pool_at n (clean_pools now m)
      ≡ record (pool_at n m) { idle = keep_usable now (pool_at n m).idle }
unfolding clean_pools find_pool keep_usable
pool_at-clean now n [] = refl
pool_at-clean now n ((k, s) ∷ m) = elim (Bool-cases (bytes_eq n k)) [
  | inl e ↦ rw e
  | inr e ↦ rw e (pool_at-clean now n m)
]
