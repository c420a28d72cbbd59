-- ===== src/Pool/Guarded.antt =====
-- A guard of a connection (common/curl_connection_pool.cpp) that is released any number of times.
use aliyun_odps_sdk_cpp.Prelude.{
  ℕ, ◌-◌, ◌≡◌, ◌⊎◌, refl, ap, ◌∙◌, Bool, true, false, Bytes, bytes_eq, List, [], ◌∷◌, Option, none,
  some, if◌then◌else◌, inl, inr,
}
use aliyun_odps_sdk_cpp.Pool.{Conn, Pools, Guard, release, release_held, guard_release}
use aliyun_odps_sdk_cpp.Pool.Ownership.{in_use_of, release-in_use}

-- The two readings of the clock in a call of Release, and whether the connection's Reset succeeds.
abbrev pub ReleaseCall : Type 0
ReleaseCall = ℕ × ℕ × Bool

unfoldable pub release_all : List ReleaseCall → Guard × Pools → Guard × Pools
release_all [] gp = gp
release_all ((now, later, reset_ok) ∷ calls) gp =
    release_all calls (guard_release now later reset_ok gp)

-- A guard with nothing to give back.
abbrev pub IsEmpty : Guard → Type 0
IsEmpty g = (g.connection ≡ none) ⊎ (g.has_pool ≡ false)

nothing_held :
    (now later : ℕ) (reset_ok : Bool) (g : Guard) (o : Option Conn) (b : Bool) (p : Pools)
    → (o ≡ none) ⊎ (b ≡ false)
    → release_held now later reset_ok g o b p ≡ (g, p)
nothing_held now later r g none b p h = refl
nothing_held now later r g (some c) false p h = refl
nothing_held now later r g (some c) true p (inl e) = absurd (cc e)
nothing_held now later r g (some c) true p (inr e) = absurd (cc e)

release_all_empty :
    (calls : List ReleaseCall) (g : Guard) (p : Pools)
    → IsEmpty g
    → release_all calls (g, p) ≡ (g, p)
unfolding release_all guard_release
release_all_empty [] g p h = refl
release_all_empty ((now, later, r) ∷ calls) g p h =
    ap (release_all calls) (nothing_held now later r g g.connection g.has_pool p h)
    ∙ release_all_empty calls g p h

abbrev empty_guard : Guard
empty_guard = record { connection = none; has_pool = false }

-- What a guard and the pools are behind `calls`, the first of them with the given arguments.
abbrev pub IsReleased : ℕ → ℕ → Bool → Option Conn → Bool → Guard → Pools → Guard × Pools → Type 0
IsReleased now later reset_ok (some c) true g p gp =
    (gp ≡ (record { connection = none; has_pool = false }, release now later reset_ok c p))
    × ((n : Bytes)
        → in_use_of n gp.1 ≡ (if bytes_eq n c.pool_name then in_use_of n p - 1 else in_use_of n p))
IsReleased now later reset_ok (some c) false g p gp = gp ≡ (g, p)
IsReleased now later reset_ok none b g p gp = gp ≡ (g, p)

held-IsReleased :
    (now later : ℕ) (reset_ok : Bool) (calls : List ReleaseCall) (g : Guard) (o : Option Conn)
    (b : Bool) (p : Pools)
    → g.connection ≡ o
    → g.has_pool ≡ b
    → IsReleased now later reset_ok o b g p
        (release_all calls (release_held now later reset_ok g o b p))
held-IsReleased now later r calls g (some c) true p e f =
    let all = release_all_empty calls empty_guard (release now later r c p) (inl refl) in
    (all, λ n. ap (λ gp. in_use_of n gp.1) all ∙ release-in_use now later r c p n)
held-IsReleased now later r calls g (some c) false p e f = release_all_empty calls g p (inr f)
held-IsReleased now later r calls g none b p e f = release_all_empty calls g p (inl e)

-- However often a guard is released, and it is at least once by its destructor, a connection that it
-- holds of a pool is given back to the pool by the first Release alone: the count of connections in use
-- of the connection's pool is one less, if it was not 0, those of all others are as they were, and the
-- guard holds nothing. A guard that holds no connection, or has no pool, changes nothing.
pub guard_release-once :
    (now later : ℕ) (reset_ok : Bool) (calls : List ReleaseCall) (g : Guard) (p : Pools)
    → IsReleased now later reset_ok g.connection g.has_pool g p
        (release_all ((now, later, reset_ok) ∷ calls) (g, p))
unfolding release_all guard_release
guard_release-once now later r calls g p =
    held-IsReleased now later r calls g g.connection g.has_pool p refl refl
