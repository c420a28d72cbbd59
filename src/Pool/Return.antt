-- ===== src/Pool/Return.antt =====
-- A connection of common/curl_connection_pool.cpp that is given back and taken again.
use aliyun_odps_sdk_cpp.Prelude.{
  ℕ, ◌+◌, ◌-◌, ◌≤◌, ◌≡◌, ap, ◌∙◌, true, false, Bytes, [], ◌∷◌, Option, some, ltb, arith, Bool-cases,
  inl, inr,
}
use aliyun_odps_sdk_cpp.Result.{ok}
use aliyun_odps_sdk_cpp.Pool.{
  Conn, PoolState, Pools, find_pool, pool_at, or_empty, with_pool, put_pool, unusable, is_expired,
  acquire, keep_usable, cleanup_connections, cleanup_if_due, cleanup_interval, release_into,
  release,
}
use aliyun_odps_sdk_cpp.Pool.Store.{find-put, pool_at-clean}
use aliyun_odps_sdk_cpp.Pool.Reuse.{promised, acquire-promised}

-- A connection as Reset leaves it.
abbrev pub refreshed : ℕ → Conn → Conn
refreshed later c = record c { failed = false; last_update = later }

refreshed-usable :
    (now later : ℕ) (c : Conn)
    → now ≤ later + c.max_idle_time
    → unusable now (refreshed later c) ≡ false
unfolding unusable is_expired
refreshed-usable now later c h = ground arith

keep_one : (now : ℕ) (c : Conn) → unusable now c ≡ false → keep_usable now (c ∷ []) ≡ c ∷ []
unfolding keep_usable
keep_one now c h = rw h

due-idle :
    (now : ℕ) (c : Conn) (name : Bytes) (n : ℕ) (p : Pools)
    → unusable now c ≡ false
    → (pool_at name
        (cleanup_if_due now (with_pool name (record { idle = c ∷ []; in_use = n }) p)).pools).idle
      ≡ c ∷ []
unfolding cleanup_if_due cleanup_connections
due-idle now c name n p h =
    let s : PoolState = record { idle = c ∷ []; in_use = n } in
    let there : pool_at name (put_pool name s p.pools) ≡ s =
      ap or_empty (find-put name s p.pools) in
    elim (Bool-cases (ltb (p.last_clean + cleanup_interval) now)) [
      | inl e ↦ rw e (
          ap (λ t. t.idle) (pool_at-clean now name (put_pool name s p.pools))
          ∙ ap (λ t. keep_usable now t.idle) there
          ∙ keep_one now c h)
      | inr e ↦ rw e (ap (λ t. t.idle) there)
    ]

release-idle :
    (now later : ℕ) (c : Conn) (s : PoolState) (p : Pools)
    → find_pool c.pool_name p.pools ≡ some s
    → s.idle ≡ []
    → unusable now c ≡ false
    → now ≤ later
    → (pool_at c.pool_name (release now later true c p).pools).idle ≡ refreshed later c ∷ []
unfolding release release_into
release-idle now later c s p found empty fresh h = rw found (
    rw fresh (
      rw empty (
        due-idle now (refreshed later c) c.pool_name (s.in_use - 1) p
          (refreshed-usable now later c (omega arith)))))

-- A usable connection that is given back to its pool while the pool has none idle, and that
-- libcurl resets, is the one that the next Acquire for that pool returns, if that comes before its
-- idle time has passed.
pub acquire-release :
    (now later now' later' timeout max_idle : ℕ) (handle : Option ℕ) (c : Conn) (s : PoolState)
    (p : Pools)
    → find_pool c.pool_name p.pools ≡ some s
    → s.idle ≡ []
    → unusable now c ≡ false
    → now ≤ later
    → now' ≤ later + c.max_idle_time
    → (acquire c.pool_name timeout max_idle now' later' handle (release now later true c p)).0
      ≡ ok (refreshed later' c)
acquire-release now later now' later' t i handle c s p found empty fresh h k =
    let q = release now later true c p in
    acquire-promised c.pool_name t i now' later' handle q
    ∙ ap
        (λ cs.
          promised c.pool_name t i later' handle (keep_usable now' cs)
            (pool_at c.pool_name q.pools).in_use)
        (release-idle now later c s p found empty fresh h)
    ∙ ap (λ cs. promised c.pool_name t i later' handle cs (pool_at c.pool_name q.pools).in_use)
        (keep_one now' (refreshed later c) (refreshed-usable now' later c k))
