-- ===== src/Pool.antt =====
-- common/curl_connection_pool.cpp and .h: the pool of HTTP connections. Each operation runs under
-- the pool's lock and is one function. The clock's readings, whether libcurl opens a connection and
-- whether its reset succeeds are arguments. Times are seconds and not negative.
pub mod Store
pub mod Limits
pub mod Ownership
pub mod Reuse
pub mod Return
pub mod Guarded
mod Tests
use aliyun_odps_sdk_cpp.Prelude.{
  ℕ, ◌+◌, ◌-◌, ◌<◌, Bool, true, false, ◌||◌, Bytes, bytes_eq, List, [], ◌∷◌, ◌++◌, map, Option,
  none, some, length, ltb, leb, if◌then◌else◌,
}
use aliyun_odps_sdk_cpp.Result.{Result, ok, err, internal_error, connection_pool_limit_reached}

abbrev pub max_idle_connections : ℕ
max_idle_connections = 128

abbrev pub max_total_connections : ℕ
max_total_connections = 65535

abbrev pub cleanup_interval : ℕ
cleanup_interval = 120

-- `handle` stands for the two handles of libcurl.
pub record Conn : Type 0 where
  pub handle : ℕ
  pub pool_name : Bytes
  pub connect_timeout : ℕ
  pub max_idle_time : ℕ
  pub last_update : ℕ
  pub failed : Bool

pub record PoolState : Type 0 where
  pub idle : List Conn
  pub in_use : ℕ

pub record Pools : Type 0 where
  pub pools : List (Bytes × PoolState)
  pub last_clean : ℕ

unfoldable pub is_expired : ℕ → Conn → Bool
is_expired now c = ltb (c.last_update + c.max_idle_time) now

unfoldable pub unusable : ℕ → Conn → Bool
unfolding is_expired
unusable now c = is_expired now c || c.failed

abbrev pub empty_pool : PoolState
empty_pool = record { idle = []; in_use = 0 }

-- mConnectionPools.find.
unfoldable pub find_pool : Bytes → List (Bytes × PoolState) → Option PoolState
find_pool k [] = none
find_pool k ((j, s) ∷ m) = if bytes_eq k j then some s else find_pool k m

abbrev pub or_empty : Option PoolState → PoolState
or_empty none = empty_pool
or_empty (some s) = s

-- mConnectionPools[k], which makes a missing pool.
abbrev pub pool_at : Bytes → List (Bytes × PoolState) → PoolState
pool_at k m = or_empty (find_pool k m)

unfoldable pub put_pool : Bytes → PoolState → List (Bytes × PoolState) → List (Bytes × PoolState)
put_pool k s [] = (k, s) ∷ []
put_pool k s ((j, t) ∷ m) = if bytes_eq k j then (j, s) ∷ m else (j, t) ∷ put_pool k s m

abbrev pub with_pool : Bytes → PoolState → Pools → Pools
with_pool k s p = record p { pools = put_pool k s p.pools }

-- The loop of Acquire: idle connections are dropped up to the first that can be used.
unfoldable pub drain : ℕ → List Conn → Option Conn × List Conn
drain now [] = (none, [])
drain now (c ∷ cs) = if unusable now c then drain now cs else (some c, cs)

-- The end of Acquire; `handle` is what libcurl gives a new connection, if it does.
unfoldable pub acquire_from :
    Bytes → ℕ → ℕ → ℕ → Option ℕ → PoolState → Option Conn × List Conn → Pools → Result Conn × Pools
acquire_from name timeout max_idle later handle s (some c, rest) p = (
  ok (record c { last_update = later }),
  with_pool name (record { idle = rest; in_use = s.in_use + 1 }) p,
)
acquire_from name timeout max_idle later handle s (none, rest) p =
    if leb max_total_connections (length rest + s.in_use)
    then (err connection_pool_limit_reached, with_pool name (record s { idle = rest }) p)
    else elim handle [
      | none ↦ (err internal_error, with_pool name (record s { idle = rest }) p)
      | some h ↦ (
        ok (record {
          handle = h;
          pool_name = name;
          connect_timeout = timeout;
          max_idle_time = max_idle;
          last_update = later;
          failed = false;
        }),
        with_pool name (record { idle = rest; in_use = s.in_use + 1 }) p,
      )
    ]

-- Acquire; the clock reads `now` first and `later` when the connection is stamped.
unfoldable pub acquire : Bytes → ℕ → ℕ → ℕ → ℕ → Option ℕ → Pools → Result Conn × Pools
unfolding acquire_from drain
acquire name timeout max_idle now later handle p =
    let s = pool_at name p.pools in
    acquire_from name timeout max_idle later handle s (drain now s.idle) p

-- remove_if of CleanupConnections on one list.
unfoldable pub keep_usable : ℕ → List Conn → List Conn
keep_usable now [] = []
keep_usable now (c ∷ cs) =
    let rest = keep_usable now cs in if unusable now c then rest else c ∷ rest

unfoldable pub clean_pools : ℕ → List (Bytes × PoolState) → List (Bytes × PoolState)
unfolding keep_usable
clean_pools now [] = []
clean_pools now ((k, s) ∷ m) = (k, record s { idle = keep_usable now s.idle }) ∷ clean_pools now m

unfoldable pub cleanup_connections : ℕ → Pools → Pools
unfolding clean_pools
cleanup_connections now p = record { pools = clean_pools now p.pools; last_clean = now }

-- `if (ShouldTriggerCleanup(now)) CleanupConnections(now);`
unfoldable pub cleanup_if_due : ℕ → Pools → Pools
unfolding cleanup_connections
cleanup_if_due now p =
    if ltb (p.last_clean + cleanup_interval) now then cleanup_connections now p else p

-- Reset leaves a connection that is idle from `later` on, or throws.
abbrev pub after_reset : Bool → ℕ → Conn → List Conn
after_reset true later c = record c { failed = false; last_update = later } ∷ []
after_reset false later c = []

unfoldable pub release_into : ℕ → ℕ → Bool → Conn → Option PoolState → Pools → Pools
unfolding cleanup_if_due
release_into now later reset_ok c none p = p
release_into now later reset_ok c (some s) p =
    let counted = record s { in_use = s.in_use - 1 } in
    if unusable now c
    then with_pool c.pool_name counted p
    else if leb max_idle_connections (length s.idle)
    then with_pool c.pool_name counted p
    else cleanup_if_due now
        (with_pool c.pool_name (record counted { idle = s.idle ++ after_reset reset_ok later c }) p)

-- Release of a connection that is there.
unfoldable pub release : ℕ → ℕ → Bool → Conn → Pools → Pools
unfolding release_into
release now later reset_ok c p = release_into now later reset_ok c (find_pool c.pool_name p.pools) p

pub record PoolStats : Type 0 where
  pub idle_connections : ℕ
  pub in_use_connections : ℕ
  pub total_connections : ℕ

abbrev pub stats_of : PoolState → PoolStats
stats_of s = record {
  idle_connections = length s.idle;
  in_use_connections = s.in_use;
  total_connections = length s.idle + s.in_use;
}

-- GetPoolStats: a pool that does not exist has the default figures, all 0.
unfoldable pub get_pool_stats : Bytes → Pools → PoolStats
get_pool_stats name p = stats_of (pool_at name p.pools)

-- GetAllStats.
unfoldable pub get_all_stats : List (Bytes × PoolState) → List (Bytes × PoolStats)
get_all_stats [] = []
get_all_stats ((k, s) ∷ m) = (k, stats_of s) ∷ get_all_stats m

-- CurlConnectionGuard: a connection, if it has not been given away, and whether mPool is set.
pub record Guard : Type 0 where
  pub connection : Option Conn
  pub has_pool : Bool

abbrev pub release_held : ℕ → ℕ → Bool → Guard → Option Conn → Bool → Pools → Guard × Pools
release_held now later reset_ok g (some c) true p =
    (record { connection = none; has_pool = false }, release now later reset_ok c p)
release_held now later reset_ok g (some c) false p = (g, p)
release_held now later reset_ok g none b p = (g, p)

-- CurlConnectionGuard::Release, which the destructor runs too.
unfoldable pub guard_release : ℕ → ℕ → Bool → Guard × Pools → Guard × Pools
unfolding release
guard_release now later reset_ok (g, p) =
    release_held now later reset_ok g g.connection g.has_pool p

-- CurlConnectionGuard::MarkAsFailed on the connection.
abbrev pub mark_as_failed : Conn → Conn
mark_as_failed c = record c { failed = true }
