-- ===== src/Pool/Ownership.antt =====
-- Who holds the connections of common/curl_connection_pool.cpp: the clients' steps, one at a time as the pool's lock orders them.
use aliyun_odps_sdk_cpp.Prelude.{
  ℕ, suc, ◌+◌, ◌-◌, ◌≡◌, refl, ap, sym, subst, ◌∙◌, Bool, Bytes, bytes_eq, bytes_eq_refl,
  bytes_eq→eq, List, [], ◌∷◌, ◌++◌, Option, none, some, length, leb, ltb, if◌then◌else◌, arith,
  Bool-cases, inl, inr,
}
use aliyun_odps_sdk_cpp.Result.{Result, ok, err, Error}
use aliyun_odps_sdk_cpp.Pool.{
  Conn, PoolState, Pools, find_pool, pool_at, or_empty, with_pool, unusable, acquire_from, acquire,
  cleanup_connections, cleanup_if_due, release_into, release, mark_as_failed, max_idle_connections,
  max_total_connections, cleanup_interval,
}
use aliyun_odps_sdk_cpp.Pool.Store.{find-put, find-put_other, pool_at-clean}
use aliyun_odps_sdk_cpp.Pool.Limits.{
  AreWithin, Drained, drain-Drained, acquire-AreWithin, release-AreWithin,
}

abbrev pub in_use_of : Bytes → Pools → ℕ
in_use_of n p = (pool_at n p.pools).in_use

-- How many of some connections belong to a pool.
abbrev pub count : Bytes → List Conn → ℕ
count n [] = 0
count n (c ∷ cs) = if bytes_eq n c.pool_name then suc (count n cs) else count n cs

-- The pool and the connections that clients hold.
pub record System : Type 0 where
  pub pool : Pools
  pub held : List Conn

abbrev pub system : Pools → List Conn → System
system p held = record { pool = p; held = held }

pub data Step : System → System → Type 0 where
  step_acquire :
      (name : Bytes) (timeout max_idle now later : ℕ) (handle : Option ℕ) (p p' : Pools)
      (held : List Conn) (c : Conn)
      → acquire name timeout max_idle now later handle p ≡ (ok c, p')
      → Step (system p held) (system p' (c ∷ held))
  step_refuse :
      (name : Bytes) (timeout max_idle now later : ℕ) (handle : Option ℕ) (p p' : Pools)
      (held : List Conn) (e : Error)
      → acquire name timeout max_idle now later handle p ≡ (err e, p')
      → Step (system p held) (system p' held)
  step_release :
      (now later : ℕ) (reset_ok : Bool) (p : Pools) (before behind : List Conn) (c : Conn)
      → Step
          (system p (before ++ c ∷ behind))
          (system (release now later reset_ok c p) (before ++ behind))
  step_fail :
      (p : Pools) (before behind : List Conn) (c : Conn)
      → Step (system p (before ++ c ∷ behind)) (system p (before ++ mark_as_failed c ∷ behind))

-- The systems that come about from a pool without connections.
pub data IsReachable : System → Type 0 where
  at_start : {n : ℕ} → IsReachable (system (record { pools = []; last_clean = n }) [])
  behind_step : {s t : System} → IsReachable s → Step s t → IsReachable t

in_use-put :
    (n k : Bytes) (s : PoolState) (p : Pools)
    → in_use_of n (with_pool k s p) ≡ (if bytes_eq n k then s.in_use else in_use_of n p)
in_use-put n k s p = elim (Bool-cases (bytes_eq n k)) [
  | inl e ↦
      subst
        (λ b. in_use_of b (with_pool k s p) ≡ (if bytes_eq b k then s.in_use else in_use_of b p))
        (sym (bytes_eq→eq n k e))
        (rw (bytes_eq_refl k) (ap (λ o. (or_empty o).in_use) (find-put k s p.pools)))
  | inr e ↦ rw e (ap (λ o. (or_empty o).in_use) (find-put_other n k s p.pools e))
]

-- A pool's figure that becomes its own value changes nothing.
same_in_use :
    (n k : Bytes) (s : PoolState) (p : Pools)
    → s.in_use ≡ in_use_of k p
    → in_use_of n (with_pool k s p) ≡ in_use_of n p
same_in_use n k s p e = in_use-put n k s p ∙ elim (Bool-cases (bytes_eq n k)) [
  | inl h ↦ rw h (e ∙ ap (λ b. in_use_of b p) (sym (bytes_eq→eq n k h)))
  | inr h ↦ rw h
]

-- What Acquire does to the figures of the pools.
abbrev Counts : Bytes → Pools → Result Conn × Pools → Type 0
Counts name p (ok c, p') =
    (c.pool_name ≡ name)
    × ((n : Bytes)
        → in_use_of n p' ≡ (if bytes_eq n name then suc (in_use_of n p) else in_use_of n p))
Counts name p (err e, p') = (n : Bytes) → in_use_of n p' ≡ in_use_of n p

one_more :
    (name : Bytes) (p : Pools) (rest : List Conn) (n : Bytes)
    → in_use_of n (with_pool name (record { idle = rest; in_use = in_use_of name p + 1 }) p)
      ≡ (if bytes_eq n name then suc (in_use_of n p) else in_use_of n p)
one_more name p rest n = in_use-put n name _ p ∙ elim (Bool-cases (bytes_eq n name)) [
  | inl h ↦ rw h (ap (λ b. in_use_of b p + 1) (sym (bytes_eq→eq n name h)) ∙ omega arith)
  | inr h ↦ rw h
]

acquire_from-Counts :
    (name : Bytes) (t i later : ℕ) (handle : Option ℕ) (r : Option Conn × List Conn) (p : Pools)
    → Drained (λ c. c.pool_name ≡ name) (pool_at name p.pools).idle r
    → Counts name p (acquire_from name t i later handle (pool_at name p.pools) r p)
unfolding acquire_from
acquire_from-Counts name t i later handle (some c, rest) p (l, e, es) = (e, one_more name p rest)
acquire_from-Counts name t i later none (none, rest) p d =
    let kept =
      λ (n : Bytes). same_in_use n name (record (pool_at name p.pools) { idle = rest }) p refl in
    elim (Bool-cases (leb max_total_connections (length rest + in_use_of name p))) [
      | inl e ↦ rw e kept
      | inr e ↦ rw e kept
    ]
acquire_from-Counts name t i later (some h) (none, rest) p d =
    let kept =
      λ (n : Bytes). same_in_use n name (record (pool_at name p.pools) { idle = rest }) p refl in
    elim (Bool-cases (leb max_total_connections (length rest + in_use_of name p))) [
      | inl e ↦ rw e kept
      | inr e ↦ rw e (refl, one_more name p rest)
    ]

acquire-Counts :
    (name : Bytes) (t i now later : ℕ) (handle : Option ℕ) (p : Pools)
    → AreWithin p
    → Counts name p (acquire name t i now later handle p)
unfolding acquire
acquire-Counts name t i now later handle p all =
    acquire_from-Counts name t i later handle _ p
      (drain-Drained (λ c. c.pool_name ≡ name) now (pool_at name p.pools).idle (all name).2)

cleanup_if_due-in_use :
    (now : ℕ) (p : Pools) (n : Bytes) → in_use_of n (cleanup_if_due now p) ≡ in_use_of n p
unfolding cleanup_if_due cleanup_connections
cleanup_if_due-in_use now p n = elim (Bool-cases (ltb (p.last_clean + cleanup_interval) now)) [
  | inl e ↦ rw e (ap (λ s. s.in_use) (pool_at-clean now n p.pools))
  | inr e ↦ rw e
]

one_less :
    (k : Bytes) (s : PoolState) (p : Pools) (n : Bytes)
    → s.in_use ≡ in_use_of k p - 1
    → in_use_of n (with_pool k s p) ≡ (if bytes_eq n k then in_use_of n p - 1 else in_use_of n p)
one_less k s p n e = in_use-put n k s p ∙ elim (Bool-cases (bytes_eq n k)) [
  | inl h ↦ rw h (e ∙ ap (λ b. in_use_of b p - 1) (sym (bytes_eq→eq n k h)))
  | inr h ↦ rw h
]

release_into-in_use :
    (now later : ℕ) (reset_ok : Bool) (c : Conn) (o : Option PoolState) (p : Pools) (n : Bytes)
    → (or_empty o).in_use ≡ in_use_of c.pool_name p
    → in_use_of n (release_into now later reset_ok c o p)
      ≡ (if bytes_eq n c.pool_name then in_use_of n p - 1 else in_use_of n p)
unfolding release_into
release_into-in_use now later reset_ok c none p n e = elim (Bool-cases (bytes_eq n c.pool_name)) [
  | inl h ↦
      let none_used : in_use_of n p ≡ 0 =
        ap (λ b. in_use_of b p) (bytes_eq→eq n c.pool_name h) ∙ sym e in
      rw h (omega (arith, none_used))
  | inr h ↦ rw h
]
release_into-in_use now later reset_ok c (some s) p n e =
    let less = ap (λ k. k - 1) e in
    elim (Bool-cases (unusable now c)) [
      | inl h ↦ rw h (one_less c.pool_name _ p n less)
      | inr h ↦ elim (Bool-cases (leb max_idle_connections (length s.idle))) [
        | inl h' ↦ rw h (rw h' (one_less c.pool_name _ p n less))
        | inr h' ↦ rw h (rw h' (cleanup_if_due-in_use now _ n ∙ one_less c.pool_name _ p n less))
      ]
    ]

pub release-in_use :
    (now later : ℕ) (reset_ok : Bool) (c : Conn) (p : Pools) (n : Bytes)
    → in_use_of n (release now later reset_ok c p)
      ≡ (if bytes_eq n c.pool_name then in_use_of n p - 1 else in_use_of n p)
unfolding release
release-in_use now later reset_ok c p n =
    release_into-in_use now later reset_ok c (find_pool c.pool_name p.pools) p n refl

count-take :
    (n : Bytes) (before : List Conn) (c : Conn) (behind : List Conn)
    → count n (before ++ c ∷ behind) ≡ (
        if bytes_eq n c.pool_name
        then suc (count n (before ++ behind))
        else count n (before ++ behind))
count-take n [] c behind = refl
count-take n (d ∷ before) c behind = ground (arith, count-take n before c behind)

-- The pools are within their limits, and each pool's figure is the number of its connections held.
abbrev pub IsAccounted : System → Type 0
IsAccounted s =
    AreWithin s.pool × ((name : Bytes) → count name s.held ≡ (pool_at name s.pool.pools).in_use)

taken :
    (n k : Bytes) (all rest used left : ℕ)
    → all ≡ (if bytes_eq n k then suc rest else rest)
    → all ≡ used
    → left ≡ (if bytes_eq n k then used - 1 else used)
    → rest ≡ left
taken n k all rest used left e e' e'' = ground arith

Step-IsAccounted : {s t : System} → Step s t → IsAccounted s → IsAccounted t
Step-IsAccounted (step_acquire name t i now later h p p' held c e) (all, same) =
    let (named, figures) : Counts name p (ok c, p') =
      subst (Counts name p) e (acquire-Counts name t i now later h p all) in
    (
      subst (λ r. AreWithin r.1) e (acquire-AreWithin name t i now later h p all),
      λ n. rw named (ap (λ k. if bytes_eq n name then suc k else k) (same n) ∙ sym (figures n)),
    )
Step-IsAccounted (step_refuse name t i now later h p p' held er e) (all, same) =
    let figures : Counts name p (err er, p') =
      subst (Counts name p) e (acquire-Counts name t i now later h p all) in
    (
      subst (λ r. AreWithin r.1) e (acquire-AreWithin name t i now later h p all),
      λ n. same n ∙ sym (figures n),
    )
Step-IsAccounted (step_release now later done p before behind c) (all, same) = (
  release-AreWithin now later done c p all,
  λ n.
      taken n c.pool_name _ _ _ _ (count-take n before c behind) (same n)
        (release-in_use now later done c p n),
)
Step-IsAccounted (step_fail p before behind c) (all, same) = (
  all,
  λ n. count-take n before (mark_as_failed c) behind ∙ sym (count-take n before c behind) ∙ same n,
)

-- However clients acquire connections, mark them as failed and give them back, and whatever the
-- clock and libcurl do: no pool ever has more than 128 idle connections or more than 65535 in all,
-- its idle connections bear its name, and its count of connections in use is exactly the number of
-- its connections that clients hold.
pub reachable-IsAccounted : {s : System} → IsReachable s → IsAccounted s
unfolding find_pool
reachable-IsAccounted (at_start {n}) = (λ name. (omega arith, omega arith, tt), λ name. refl)
reachable-IsAccounted (behind_step r s) = Step-IsAccounted s (reachable-IsAccounted r)
