-- ===== src/Upload/Retry.antt =====
-- How often the retries of tunnel/util.cpp and tunnel/util.h call, and what they return.
use aliyun_odps_sdk_cpp.Prelude.{
  ℕ, zero, suc, ◌+◌, ◌*◌, ◌≤◌, ◌<◌, ◌≡◌, refl, sym, ap, ◌∙◌, Bool, true, false, List, [], ◌∷◌,
  length, ◌==◌, ==_iff, arith, Bool-cases, inl, inr, ◌⊎◌, subst,
}
use aliyun_odps_sdk_cpp.Result.{Result, ok, err, Error}
use aliyun_odps_sdk_cpp.Upload.{
  Reply, waited, retry_loop, success_with_retry, after_attempt, attempt_loop, read_with_retry,
}

abbrev pub total : List ℕ → ℕ
total [] = 0
total (w ∷ waits) = w + total waits

-- What is left of a wait that doubles.
abbrev grown : ℕ → ℕ → ℕ
grown zero interval = interval
grown (suc left) interval = grown left (interval * 2)

grown-more : (left interval : ℕ) → interval ≤ grown left interval
grown-more zero interval = omega arith
grown-more (suc left) interval = omega (arith, grown-more left (interval * 2))

loop-waits :
    (replies : ℕ → Reply) (left k interval : ℕ)
    → total (retry_loop left k interval replies).0 + interval ≤ grown left interval
unfolding retry_loop
loop-waits replies zero k interval = omega arith
loop-waits replies (suc left) k interval = elim (Bool-cases (replies k).successful) [
  | inl e ↦ rw e (omega (arith, grown-more left (interval * 2)))
  | inr e ↦ rw e (omega (arith, loop-waits replies left (suc k) (interval * 2)))
]

-- The request behind request `k` that came last: at most `left` later, all before it failed, and it
-- failed too only if it is the last that was allowed.
abbrev EndsAt : (ℕ → Reply) → ℕ → ℕ → List ℕ × Bool → Type 0
EndsAt replies left k (waits, success) =
    (length waits ≤ left)
    × ((replies (k + length waits)).successful ≡ success)
    × ((j : ℕ) → j < length waits → (replies (k + j)).successful ≡ false)
    × (success ≡ false → length waits ≡ left)

waited-EndsAt :
    (replies : ℕ → Reply) (left k interval : ℕ) (out : List ℕ × Bool)
    → (replies k).successful ≡ false
    → EndsAt replies left (suc k) out
    → EndsAt replies (suc left) k (waited interval out)
waited-EndsAt replies left k interval (waits, success) failed (few, last, before, whole) = (
  omega (arith, few),
  ap (λ i. (replies i).successful) (omega arith) ∙ last,
  earlier,
  (λ e. omega (arith, whole e)),
)
  where
    earlier : (j : ℕ) → j < suc (length waits) → (replies (k + j)).successful ≡ false
    earlier zero h = ap (λ i. (replies i).successful) (omega arith) ∙ failed
    earlier (suc j) h = ap (λ i. (replies i).successful) (omega arith) ∙ before j (omega (arith, h))

retry_loop-EndsAt :
    (replies : ℕ → Reply) (left k interval : ℕ)
    → (replies k).successful ≡ false
    → EndsAt replies left k (retry_loop left (suc k) interval replies)
unfolding retry_loop
retry_loop-EndsAt replies zero k interval failed = (
  omega arith,
  ap (λ i. (replies i).successful) (omega arith) ∙ failed,
  (λ j h. absurd (omega (arith, h))),
  (λ _. refl),
)
retry_loop-EndsAt replies (suc left) k interval failed =
    elim (Bool-cases (replies (suc k)).successful) [
      | inl e ↦ rw e (
        omega arith,
        ap (λ i. (replies i).successful) (omega arith) ∙ e,
        (λ j h. ap (λ i. (replies i).successful) (omega (arith, h)) ∙ failed),
        (λ wrong. absurd (ground (arith, wrong))),
      )
      | inr e ↦ rw e (
          waited-EndsAt replies left k interval _ failed
            (retry_loop-EndsAt replies left (suc k) (interval * 2) e))
    ]

-- How the requests of SuccessWithRetry end.
abbrev pub IsRetried : (ℕ → Reply) → List ℕ × Bool → Type 0
IsRetried replies (waits, success) =
    (total waits ≤ 63)
    × (length waits ≤ 6)
    × ((replies (length waits)).successful ≡ success)
    × ((j : ℕ) → j < length waits → (replies j).successful ≡ false)
    × (success ≡ false → (length waits ≡ 6) ⊎ (((replies 0).status == 429) ≡ false))

ends-IsRetried :
    (replies : ℕ → Reply) (out : List ℕ × Bool)
    → total out.0 ≤ 63
    → EndsAt replies 6 0 out
    → IsRetried replies out
ends-IsRetried replies (waits, success) slept (few, last, before, whole) = (
  slept,
  few,
  ap (λ i. (replies i).successful) (omega arith) ∙ last,
  (λ j h. ap (λ i. (replies i).successful) (omega arith) ∙ before j h),
  (λ e. inl (whole e)),
)

-- SuccessWithRetry sends one request and six more at most, and sleeps 63 seconds at most between them. It
-- returns whether the last request succeeded; all before it failed; and if the last failed too, six
-- followed the first, or the first was answered with another status than 429.
pub success_with_retry-IsRetried :
    (replies : ℕ → Reply) → IsRetried replies (success_with_retry replies)
unfolding success_with_retry
success_with_retry-IsRetried replies = elim (Bool-cases (replies 0).successful) [
  | inl e ↦ rw e (
    omega arith,
    omega arith,
    e,
    (λ j h. absurd (omega (arith, h))),
    (λ wrong. absurd (ground (arith, wrong))),
  )
  | inr e ↦ elim (Bool-cases ((replies 0).status == 429)) [
    | inl busy ↦
        let retried : success_with_retry replies ≡ retry_loop 6 1 1 replies = rw (e, busy) refl in
        subst (IsRetried replies) (sym retried) (
          ends-IsRetried replies _ (omega (arith, loop-waits replies 6 1 1))
            (retry_loop-EndsAt replies 6 0 1 e))
    | inr other ↦
        rw (e, other)
          (omega arith, omega arith, e, (λ j h. absurd (omega (arith, h))), (λ _. inr refl))
  ]
]

-- What ReadWithRetry gives back without another attempt.
pub data IsFinal {ℓ} {A : Type ℓ} (caught : Error → Bool) : Result A → Type ℓ where
  returned : {a : A} → IsFinal caught (ok a)
  uncaught : {e : Error} → caught e ≡ false → IsFinal caught (err e)

abbrev pub IsCaught {ℓ} : {A : Type ℓ} → (Error → Bool) → Result A → Type ℓ
IsCaught caught r = (e : Error) × (r ≡ err e) × (caught e ≡ true)

-- How the attempts from `k` on end, at `end` at the latest.
abbrev Ends {ℓ} : {A : Type ℓ} → (Error → Bool) → (ℕ → Result A) → ℕ → ℕ → ℕ × Result A → Type ℓ
Ends caught func k end (last, r) =
    (k ≤ last)
    × (last ≤ end)
    × (r ≡ func last)
    × ((j : ℕ) → k ≤ j → j < last → IsCaught caught (func j))
    × ((last ≡ end) ⊎ IsFinal caught r)

module _ {ℓ} {A : Type ℓ} (caught : Error → Bool) (func : ℕ → Result A) where
  after-Ends :
      (k end : ℕ) (r : Result A) (again : ℕ × Result A)
      → r ≡ func k
      → k < end
      → Ends caught func (suc k) end again
      → Ends caught func k end (after_attempt caught k r again)
  unfolding after_attempt
  after-Ends k end (ok a) again e h rest = (
    omega arith,
    omega (arith, h),
    e,
    (λ j from below. absurd (omega (arith, from, below))),
    inr returned,
  )
  after-Ends k end (err x) (last, r) e h (from, upto, same, failed, final) =
      elim (Bool-cases (caught x)) [
        | inl c ↦ rw c (omega (arith, from), upto, same, earlier c, final)
        | inr c ↦ rw c (
          omega arith,
          omega (arith, h),
          e,
          (λ j from below. absurd (omega (arith, from, below))),
          inr (uncaught c),
        )
      ]
    where
      earlier : caught x ≡ true → (j : ℕ) → k ≤ j → j < last → IsCaught caught (func j)
      earlier c j above below = elim (Bool-cases (k == j)) [
        | inl same_one ↦ (x, ap func (sym ((==_iff k j).0 same_one)) ∙ sym e, c)
        | inr other ↦ failed j (ground (arith, above, other)) below
      ]

  loop-Ends : (left k : ℕ) → Ends caught func k (k + left) (attempt_loop caught left k func)
  unfolding attempt_loop
  loop-Ends zero k = (
    omega arith,
    omega arith,
    refl,
    (λ j from below. absurd (omega (arith, from, below))),
    inl (omega arith),
  )
  loop-Ends (suc left) k =
      let rest =
        subst (λ end. Ends caught func (suc k) end (attempt_loop caught left (suc k) func))
          (omega arith) (loop-Ends left (suc k)) in
      after-Ends k (k + suc left) (func k) _ refl (omega arith) rest

-- ReadWithRetry calls the function `times + 1` times at most, and gives back what the last call
-- returned or threw. Every call before it threw an exception that is caught; and the last call did not,
-- or it was the last one allowed.
pub read_with_retry_lem {ℓ} :
    {A : Type ℓ} (caught : Error → Bool) (times : ℕ) (func : ℕ → Result A)
    → ((read_with_retry caught times func).0 ≤ times)
      × ((read_with_retry caught times func).1 ≡ func (read_with_retry caught times func).0)
      × ((j : ℕ) → j < (read_with_retry caught times func).0 → IsCaught caught (func j))
      × (((read_with_retry caught times func).0 ≡ times)
          ⊎ IsFinal caught (read_with_retry caught times func).1)
unfolding read_with_retry
read_with_retry_lem caught zero func =
    (omega arith, refl, (λ j h. absurd (omega (arith, h))), inl refl)
read_with_retry_lem caught (suc times) func =
    let (from, upto, same, failed, final) = loop-Ends caught func (suc times) 0 in
    (
      omega (arith, upto),
      same,
      (λ j h. failed j (omega arith) h),
      elim final [ inl e ↦ inl (omega (arith, e)) | inr f ↦ inr f ],
    )
