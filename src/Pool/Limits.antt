-- ===== src/Pool/Limits.antt =====
-- The limits of each pool of common/curl_connection_pool.cpp.
use aliyun_odps_sdk_cpp.Prelude.{
  ℕ, ◌+◌, ◌-◌, ◌<◌, ◌≤◌, ◌≡◌, refl, Bool, true, false, Bytes, List, [], ◌∷◌, ◌++◌, Option, none,
  some, length, length-append, append-nil, ltb, leb, arith, All, Bool-cases, inl, inr,
}
use aliyun_odps_sdk_cpp.Pool.{
  Conn, PoolState, Pools, find_pool, pool_at, or_empty, with_pool, drain, unusable, acquire_from,
  acquire, keep_usable, cleanup_connections, cleanup_if_due, after_reset, release_into, release,
  max_idle_connections, max_total_connections, cleanup_interval,
}
use aliyun_odps_sdk_cpp.Pool.Store.{put-all, pool_at-clean}

-- The bounds on one pool, and that its idle connections bear its name.
abbrev pub IsWithin : Bytes → PoolState → Type 0
IsWithin name s =
    (length s.idle ≤ max_idle_connections)
    × (length s.idle + s.in_use ≤ max_total_connections)
    × All (λ c. c.pool_name ≡ name) s.idle

abbrev pub AreWithin : Pools → Type 0
AreWithin p = (name : Bytes) → IsWithin name (pool_at name p.pools)

pub keep_usable-length : (now : ℕ) (cs : List Conn) → length (keep_usable now cs) ≤ length cs
unfolding keep_usable
keep_usable-length now [] = omega arith
keep_usable-length now (c ∷ cs) = elim (Bool-cases (unusable now c)) [
  | inl e ↦ rw e (omega (arith, keep_usable-length now cs))
  | inr e ↦ rw e (omega (arith, keep_usable-length now cs))
]

pub keep_usable-All :
    (P : Conn → Type 0) (now : ℕ) (cs : List Conn) → All P cs → All P (keep_usable now cs)
unfolding keep_usable
keep_usable-All P now [] h = tt
keep_usable-All P now (c ∷ cs) h = elim (Bool-cases (unusable now c)) [
  | inl e ↦ rw e (keep_usable-All P now cs h.1)
  | inr e ↦ rw e (h.0, keep_usable-All P now cs h.1)
]

All-append : (P : Conn → Type 0) (cs ds : List Conn) → All P cs → All P ds → All P (cs ++ ds)
All-append P [] ds h k = k
All-append P (c ∷ cs) ds h k = (h.0, All-append P cs ds h.1 k)

-- What the loop of Acquire leaves.
abbrev pub Drained : (Conn → Type 0) → List Conn → Option Conn × List Conn → Type 0
Drained P cs (none, rest) = rest ≡ []
Drained P cs (some c, rest) = (length rest < length cs) × P c × All P rest

weaken :
    (P : Conn → Type 0) (c : Conn) (cs : List Conn) (r : Option Conn × List Conn)
    → Drained P cs r
    → Drained P (c ∷ cs) r
weaken P c cs (none, rest) d = d
weaken P c cs (some b, rest) (l, h, hs) = (omega arith, h, hs)

pub drain-Drained :
    (P : Conn → Type 0) (now : ℕ) (cs : List Conn) → All P cs → Drained P cs (drain now cs)
unfolding drain
drain-Drained P now [] h = refl
drain-Drained P now (c ∷ cs) h = elim (Bool-cases (unusable now c)) [
  | inl e ↦ rw e (weaken P c cs (drain now cs) (drain-Drained P now cs h.1))
  | inr e ↦ rw e (omega arith, h.0, h.1)
]

put-AreWithin :
    (k : Bytes) (s : PoolState) (p : Pools)
    → IsWithin k s
    → AreWithin p
    → AreWithin (with_pool k s p)
put-AreWithin k s p h all = put-all IsWithin k s p.pools h all

acquire_from-AreWithin :
    (name : Bytes) (t i later : ℕ) (handle : Option ℕ) (s : PoolState) (r : Option Conn × List Conn)
    (p : Pools)
    → IsWithin name s
    → Drained (λ c. c.pool_name ≡ name) s.idle r
    → AreWithin p
    → AreWithin (acquire_from name t i later handle s r p).1
unfolding acquire_from
acquire_from-AreWithin name t i later handle s (some c, rest) p (a, b, _) (l, q, ns) all =
    put-AreWithin name _ p (omega arith, omega arith, ns) all
acquire_from-AreWithin name t i later none s (none, rest) p (a, b, _) d all =
    let kept =
      put-AreWithin name (record s { idle = rest }) p (rw d (omega arith, omega arith, tt)) all in
    elim (Bool-cases (leb max_total_connections (length rest + s.in_use))) [
      | inl e ↦ rw e kept
      | inr e ↦ rw e kept
    ]
acquire_from-AreWithin name t i later (some h) s (none, rest) p (a, b, _) d all =
    elim (Bool-cases (leb max_total_connections (length rest + s.in_use))) [
      | inl e ↦ rw e (
          put-AreWithin name (record s { idle = rest }) p (rw d (omega arith, omega arith, tt)) all)
      | inr e ↦
          let room : length rest + s.in_use < max_total_connections = ground arith in
          rw e (
            put-AreWithin name (record { idle = rest; in_use = s.in_use + 1 }) p
              (rw d (omega arith, omega (arith, room), tt)) all)
    ]

-- Acquire keeps every pool within its limits, whatever it returns.
pub acquire-AreWithin :
    (name : Bytes) (timeout max_idle now later : ℕ) (handle : Option ℕ) (p : Pools)
    → AreWithin p
    → AreWithin (acquire name timeout max_idle now later handle p).1
unfolding acquire
acquire-AreWithin name t i now later handle p all =
    acquire_from-AreWithin name t i later handle (pool_at name p.pools) _ p (all name)
      (drain-Drained (λ c. c.pool_name ≡ name) now (pool_at name p.pools).idle (all name).2) all

pub cleanup-AreWithin : (now : ℕ) (p : Pools) → AreWithin p → AreWithin (cleanup_connections now p)
unfolding cleanup_connections
cleanup-AreWithin now p all name =
    let (a, b, ns) = all name in
    let shorter = keep_usable-length now (pool_at name p.pools).idle in
    rw (pool_at-clean now name p.pools) (
      omega (arith, shorter),
      omega (arith, shorter),
      keep_usable-All (λ c. c.pool_name ≡ name) now (pool_at name p.pools).idle ns,
    )

cleanup_if_due-AreWithin : (now : ℕ) (p : Pools) → AreWithin p → AreWithin (cleanup_if_due now p)
unfolding cleanup_if_due
cleanup_if_due-AreWithin now p all = elim (Bool-cases (ltb (p.last_clean + cleanup_interval) now)) [
  | inl e ↦ rw e (cleanup-AreWithin now p all)
  | inr e ↦ rw e all
]

keep_after :
    (now later : ℕ) (reset_ok : Bool) (c : Conn) (s : PoolState) (p : Pools)
    → IsWithin c.pool_name s
    → length s.idle < max_idle_connections
    → AreWithin p
    → AreWithin (
        with_pool c.pool_name
          (record { idle = s.idle ++ after_reset reset_ok later c; in_use = s.in_use - 1 })
          p)
keep_after now later true c s p (a, b, ns) room all =
    let l = length-append s.idle (after_reset true later c) in
    put-AreWithin c.pool_name _ p
      (
        omega (arith, l),
        omega (arith, l),
        All-append (λ d. d.pool_name ≡ c.pool_name) s.idle _ ns (refl, tt),
      )
      all
keep_after now later false c s p (a, b, ns) room all =
    put-AreWithin c.pool_name _ p (rw append-nil (a, omega arith, ns)) all

release_into-AreWithin :
    (now later : ℕ) (reset_ok : Bool) (c : Conn) (o : Option PoolState) (p : Pools)
    → IsWithin c.pool_name (or_empty o)
    → AreWithin p
    → AreWithin (release_into now later reset_ok c o p)
unfolding release_into
release_into-AreWithin now later reset_ok c none p h all = all
release_into-AreWithin now later reset_ok c (some s) p (a, b, ns) all =
    let counted : AreWithin (with_pool c.pool_name (record s { in_use = s.in_use - 1 }) p) =
      put-AreWithin c.pool_name _ p (a, omega arith, ns) all in
    elim (Bool-cases (unusable now c)) [
      | inl e ↦ rw e counted
      | inr e ↦ elim (Bool-cases (leb max_idle_connections (length s.idle))) [
        | inl e' ↦ rw e (rw e' counted)
        | inr e' ↦
            let room : length s.idle < max_idle_connections = ground arith in
            rw e (
              rw e' (
                cleanup_if_due-AreWithin now _
                  (keep_after now later reset_ok c s p (a, b, ns) room all)))
      ]
    ]

-- Release keeps every pool within its limits, whichever way it ends.
pub release-AreWithin :
    (now later : ℕ) (reset_ok : Bool) (c : Conn) (p : Pools)
    → AreWithin p
    → AreWithin (release now later reset_ok c p)
unfolding release
release-AreWithin now later reset_ok c p all =
    release_into-AreWithin now later reset_ok c (find_pool c.pool_name p.pools) p (all c.pool_name)
      all
