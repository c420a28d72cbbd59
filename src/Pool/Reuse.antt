-- ===== src/Pool/Reuse.antt =====
-- Which connection Acquire returns, and what a clean-up leaves
-- (common/curl_connection_pool.cpp).
use aliyun_odps_sdk_cpp.Prelude.{
  ℕ, ◌≡◌, refl, ap, ◌∙◌, false, Bytes, List, [], ◌∷◌, ◌++◌, Option, none, some, leb, if◌then◌else◌,
  arith, All, Bool-cases, inl, inr,
}
use aliyun_odps_sdk_cpp.Result.{Result, ok, err, internal_error, connection_pool_limit_reached}
use aliyun_odps_sdk_cpp.Pool.{
  Conn, PoolState, Pools, pool_at, drain, unusable, acquire_from, acquire, keep_usable,
  cleanup_connections, max_total_connections,
}
use aliyun_odps_sdk_cpp.Pool.Store.{pool_at-clean}

-- What a caller gets from the usable connections of a pool and its count of those in use.
abbrev pub promised : Bytes → ℕ → ℕ → ℕ → Option ℕ → List Conn → ℕ → Result Conn
promised name timeout max_idle later handle (c ∷ cs) in_use = ok (record c { last_update = later })
promised name timeout max_idle later handle [] in_use =
    if leb max_total_connections in_use then err connection_pool_limit_reached else elim handle [
      | none ↦ err internal_error
      | some h ↦ ok (record {
        handle = h;
        pool_name = name;
        connect_timeout = timeout;
        max_idle_time = max_idle;
        last_update = later;
        failed = false;
      })
    ]

abbrev from_drained :
    Bytes → ℕ → ℕ → ℕ → Option ℕ → PoolState → Option Conn × List Conn → Pools → Result Conn
from_drained name timeout max_idle later handle s r p =
    (acquire_from name timeout max_idle later handle s r p).0

drained-promised :
    (name : Bytes) (t i now later : ℕ) (handle : Option ℕ) (s : PoolState) (p : Pools)
    (cs : List Conn)
    → from_drained name t i later handle s (drain now cs) p
      ≡ promised name t i later handle (keep_usable now cs) s.in_use
unfolding drain keep_usable acquire_from
drained-promised name t i now later none s p [] = ground arith
drained-promised name t i now later (some h) s p [] = ground arith
drained-promised name t i now later handle s p (c ∷ cs) = elim (Bool-cases (unusable now c)) [
  | inl e ↦ rw e (drained-promised name t i now later handle s p cs)
  | inr e ↦ rw e
]

-- Acquire returns the first idle connection of its pool that is neither expired nor failed, with a
-- new time of use. Only if there is none, it refuses at 65535 connections in use, and below that it
-- returns a new connection with the caller's settings, or fails if libcurl opens none.
pub acquire-promised :
    (name : Bytes) (timeout max_idle now later : ℕ) (handle : Option ℕ) (p : Pools)
    → (acquire name timeout max_idle now later handle p).0
      ≡ promised name timeout max_idle later handle
          (keep_usable now (pool_at name p.pools).idle)
          (pool_at name p.pools).in_use
unfolding acquire
acquire-promised name t i now later handle p =
    drained-promised name t i now later handle (pool_at name p.pools) p (pool_at name p.pools).idle

keep_usable-usable :
    (now : ℕ) (cs : List Conn) → All (λ c. unusable now c ≡ false) (keep_usable now cs)
unfolding keep_usable
keep_usable-usable now [] = tt
keep_usable-usable now (c ∷ cs) = elim (Bool-cases (unusable now c)) [
  | inl e ↦ rw e (keep_usable-usable now cs)
  | inr e ↦ rw e (e, keep_usable-usable now cs)
]

keep_usable-keeps :
    (now : ℕ) (cs : List Conn) → All (λ c. unusable now c ≡ false) cs → keep_usable now cs ≡ cs
unfolding keep_usable
keep_usable-keeps now [] h = refl
keep_usable-keeps now (c ∷ cs) h = rw h.0 (ap (◌∷◌ c) (keep_usable-keeps now cs h.1))

keep_usable-append :
    (now : ℕ) (cs ds : List Conn)
    → keep_usable now (cs ++ ds) ≡ keep_usable now cs ++ keep_usable now ds
unfolding keep_usable
keep_usable-append now [] ds = refl
keep_usable-append now (c ∷ cs) ds = elim (Bool-cases (unusable now c)) [
  | inl e ↦ rw e (keep_usable-append now cs ds)
  | inr e ↦ rw e (ap (◌∷◌ c) (keep_usable-append now cs ds))
]

keep_usable-cons :
    (now : ℕ) (c : Conn) (cs : List Conn)
    → unusable now c ≡ false
    → keep_usable now (c ∷ cs) ≡ c ∷ keep_usable now cs
unfolding keep_usable
keep_usable-cons now c cs h = rw h refl

-- After a clean-up no pool has an expired or failed idle connection, each pool's count of
-- connections in use is as before, and a pool that had none of those keeps its list as it was. Every
-- idle connection that is neither expired nor failed stays, between what stays of the connections
-- before it and of those behind it.
pub cleanup_connections_lem :
    (now : ℕ) (p : Pools) (name : Bytes)
    → All (λ c. unusable now c ≡ false) (pool_at name (cleanup_connections now p).pools).idle
      × ((pool_at name (cleanup_connections now p).pools).in_use ≡ (pool_at name p.pools).in_use)
      × (All (λ c. unusable now c ≡ false) (pool_at name p.pools).idle
          → pool_at name (cleanup_connections now p).pools ≡ pool_at name p.pools)
      × ((before : List Conn) (c : Conn) (behind : List Conn)
          → (pool_at name p.pools).idle ≡ before ++ c ∷ behind
          → unusable now c ≡ false
          → (pool_at name (cleanup_connections now p).pools).idle
            ≡ keep_usable now before ++ c ∷ keep_usable now behind)
unfolding cleanup_connections
cleanup_connections_lem now p name =
    let e = pool_at-clean now name p.pools in
    (
      rw e (keep_usable-usable now _),
      ap (λ s. s.in_use) e,
      λ h. e ∙ ap (λ cs. record (pool_at name p.pools) { idle = cs }) (keep_usable-keeps now _ h),
      λ before c behind h u.
          ap (λ s. s.idle) e
          ∙ ap (keep_usable now) h
          ∙ keep_usable-append now before (c ∷ behind)
          ∙ ap (λ cs. keep_usable now before ++ cs) (keep_usable-cons now c behind u),
    )
