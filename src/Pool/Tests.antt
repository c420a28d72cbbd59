-- ===== src/Pool/Tests.antt =====
-- Runs of the connection pool.
use native.Mathlib.Omega.{arith}
use aliyun_odps_sdk_cpp.Prelude.{
  ◌≡◌, refl, true, false, Bytes, bytes_eq, codes, List, [], ◌∷◌, ◌++◌, none, some, All,
}
use aliyun_odps_sdk_cpp.Result.{ok}
use aliyun_odps_sdk_cpp.Pool.{
  Conn, Pools, acquire, release, keep_usable, pool_at, find_pool, put_pool, cleanup_connections,
  unusable,
}
use aliyun_odps_sdk_cpp.Pool.Ownership.{
  system, step_acquire, step_release, IsReachable, at_start, behind_step, IsAccounted,
  reachable-IsAccounted,
}
use aliyun_odps_sdk_cpp.Pool.Return.{refreshed, acquire-release}
use aliyun_odps_sdk_cpp.Pool.Guarded.{IsReleased, release_all, guard_release-once}
use aliyun_odps_sdk_cpp.Pool.Reuse.{promised, acquire-promised, cleanup_connections_lem}

abbrev name : Bytes
name = codes "default"

abbrev fresh : Pools
fresh = record { pools = []; last_clean = 0 }

abbrev one : Conn
one = record {
  handle = 1;
  pool_name = name;
  connect_timeout = 30;
  max_idle_time = 600;
  last_update = 1000;
  failed = false;
}

abbrev idle_pools : Pools
idle_pools = record {
  pools = (name, record { idle = record one { failed = true } ∷ one ∷ []; in_use = 3 }) ∷ [];
  last_clean = 900;
}

abbrev used : Pools
used = record { pools = (name, record { idle = []; in_use = 1 }) ∷ []; last_clean = 0 }

acquired : acquire name 30 600 1000 1000 (some 1) fresh ≡ (ok one, used)
unfolding acquire find_pool put_pool
acquired = refl

used-IsReachable : IsReachable (system (release 1100 1100 true one used) [])
used-IsReachable =
    behind_step
      (behind_step at_start
        (step_acquire name 30 600 1000 1000 (some 1) fresh used [] one acquired))
      (step_release 1100 1100 true used [] [] one)

reachable-IsAccounted_example : IsAccounted (system (release 1100 1100 true one used) [])
reachable-IsAccounted_example = reachable-IsAccounted used-IsReachable

acquire-promised_example :
    (acquire name 30 600 1200 1200 none idle_pools).0
    ≡ promised name 30 600 1200 none (keep_usable 1200 (pool_at name idle_pools.pools).idle) 3
unfolding find_pool bytes_eq
acquire-promised_example = acquire-promised name 30 600 1200 1200 none idle_pools

cleanup_connections_lem_example :
    All
      (λ c. unusable 1200 c ≡ false)
      (pool_at name (cleanup_connections 1200 idle_pools).pools).idle
    × ((pool_at name (cleanup_connections 1200 idle_pools).pools).in_use
        ≡ (pool_at name idle_pools.pools).in_use)
    × (All (λ c. unusable 1200 c ≡ false) (pool_at name idle_pools.pools).idle
        → pool_at name (cleanup_connections 1200 idle_pools).pools ≡ pool_at name idle_pools.pools)
    × ((before : List Conn) (c : Conn) (behind : List Conn)
        → (pool_at name idle_pools.pools).idle ≡ before ++ c ∷ behind
        → unusable 1200 c ≡ false
        → (pool_at name (cleanup_connections 1200 idle_pools).pools).idle
          ≡ keep_usable 1200 before ++ c ∷ keep_usable 1200 behind)
cleanup_connections_lem_example = cleanup_connections_lem 1200 idle_pools name

guard_release-once_example :
    IsReleased 1200 1200 true
      (some one)
      true
      (record { connection = some one; has_pool = true })
      used
      (release_all
        ((1200, 1200, true) ∷ (1300, 1300, false) ∷ [])
        (record { connection = some one; has_pool = true }, used))
guard_release-once_example =
    guard_release-once 1200 1200 true ((1300, 1300, false) ∷ [])
      (record { connection = some one; has_pool = true }) used

acquire-release_example :
    (acquire name 30 600 1200 1200 none (release 1100 1100 true one used)).0
    ≡ ok (refreshed 1200 one)
unfolding find_pool bytes_eq unusable
acquire-release_example =
    acquire-release 1100 1100 1200 1200 30 600 none one (record { idle = []; in_use = 1 }) used refl
      refl refl (omega arith) (omega arith)
