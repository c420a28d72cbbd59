-- ===== src/Slots/Covered.antt =====
-- How many addresses of a streaming upload (tunnel/stream_upload.cpp) are disabled at a time.
use aliyun_odps_sdk_cpp.Prelude.{
  ℕ, zero, suc, ◌≤◌, ◌≡◌, refl, sym, subst, ap, ◌∙◌, Bool, true, false, ◌||◌, Bytes, bytes_eq,
  bytes_eq_refl, List, [], ◌∷◌, length, set, if◌then◌else◌, arith, Bool-cases, inl, inr, All,
}
use aliyun_odps_sdk_cpp.Prelude.Int.{ℤ, ◌-ℤ◌}
use aliyun_odps_sdk_cpp.Slots.{
  Slot, is_recent, is_out, is_member, add_member, out_addrs, check_slots, disable_at,
}
use aliyun_odps_sdk_cpp.Slots.Open.{recent-earlier, IsFresh}

-- The slot was not disabled lately, or its address is one of `addrs`.
abbrev pub IsAt : ℕ → List Bytes → Slot → Type 0
IsAt now addrs s = is_recent now s.disable_time ≡ true → is_member s.server_addr addrs ≡ true

-- Two addresses at most have slots that were disabled lately.
pub data Covered (now : ℕ) (ss : List Slot) : Type 0 where
  covered : (addrs : List Bytes) → length addrs ≤ 2 → All (IsAt now addrs) ss → Covered now ss

pub All-map :
    {P Q : Slot → Type 0} (ss : List Slot) → ((s : Slot) → P s → Q s) → All P ss → All Q ss
All-map [] f h = tt
All-map (s ∷ ss) f (h, k) = (f s h, All-map ss f k)

pub All-set :
    (P : Slot → Type 0) (ss : List Slot) (i : ℕ) (s : Slot) → P s → All P ss → All P (set ss i s)
All-set P [] i s p h = tt
All-set P (r ∷ ss) zero s p (h, k) = (p, k)
All-set P (r ∷ ss) (suc i) s p (h, k) = (h, All-set P ss i s p k)

pub Covered-later :
    {now : ℕ} (later : ℕ) {ss : List Slot} → now ≤ later → Covered now ss → Covered later ss
Covered-later {now} later {ss} h (covered addrs few all) =
    covered addrs few (All-map ss (λ s at e. at (recent-earlier now later s.disable_time h e)) all)

-- Sixty seconds after the start of the clock, a fresh slot was not disabled lately.
pub fresh-old : (now : ℕ) (s : Slot) → 59 ≤ now → IsFresh s → is_recent now s.disable_time ≡ false
unfolding is_recent ◌-ℤ◌
fresh-old now s h e = ap (is_recent now) e ∙ ground arith

pub not_both : true ≡ false → ⊥
not_both e = ground (arith, e)

or-right : (a b : Bool) → b ≡ true → (a || b) ≡ true
or-right true b e = refl
or-right false b e = e

add_member-here : (a : Bytes) (bs : List Bytes) → is_member a (add_member a bs) ≡ true
unfolding is_member add_member
add_member-here a bs = elim (Bool-cases (is_member a bs)) [
  | inl e ↦ rw e e
  | inr e ↦ rw e (rw (bytes_eq_refl a) refl)
]

add_member-kept :
    (a b : Bytes) (bs : List Bytes) → is_member a bs ≡ true → is_member a (add_member b bs) ≡ true
unfolding is_member add_member
add_member-kept a b bs h = elim (Bool-cases (is_member b bs)) [
  | inl e ↦ rw e h
  | inr e ↦ rw e (or-right (bytes_eq a b) _ h)
]

-- The addresses of all slots that are out.
abbrev IsListed : ℕ → Bytes → List Bytes → Slot → Type 0
IsListed now addr addrs s = is_out now addr s ≡ true → is_member s.server_addr addrs ≡ true

out_addrs-All :
    (now : ℕ) (addr : Bytes) (ss : List Slot) → All (IsListed now addr (out_addrs now addr ss)) ss
unfolding out_addrs
out_addrs-All now addr [] = tt
out_addrs-All now addr (s ∷ ss) =
    let rest = out_addrs-All now addr ss in
    elim (Bool-cases (is_out now addr s)) [
      | inl e ↦
          let more : out_addrs now addr (s ∷ ss)
              ≡ add_member s.server_addr (out_addrs now addr ss) =
            rw e refl in
          subst (λ bs. All (IsListed now addr bs) (s ∷ ss)) (sym more)
            (
              (λ _. add_member-here s.server_addr (out_addrs now addr ss)),
              All-map ss
                  (λ r listed out. add_member-kept r.server_addr s.server_addr _ (listed out)) rest,
            )
      | inr e ↦
          let same : out_addrs now addr (s ∷ ss) ≡ out_addrs now addr ss = rw e refl in
          subst (λ bs. All (IsListed now addr bs) (s ∷ ss)) (sym same)
            ((λ out. absurd (not_both (sym out ∙ e))), rest)
    ]

disabled-IsAt :
    (now : ℕ) (addr : Bytes) (t : ℤ) (addrs : List Bytes) (s : Slot)
    → IsListed now addr addrs s
    → IsAt now addrs (if bytes_eq s.server_addr addr then record s { disable_time = t } else s)
unfolding is_out
disabled-IsAt now addr t addrs s h = elim (Bool-cases (bytes_eq s.server_addr addr)) [
  | inl e ↦ rw e (λ _. h (or-right (is_recent now s.disable_time) _ e))
  | inr e ↦ rw e (λ r. h (rw r refl))
]

disable_at-All :
    (now : ℕ) (addr : Bytes) (t : ℤ) (addrs : List Bytes) (ss : List Slot)
    → All (IsListed now addr addrs) ss
    → All (IsAt now addrs) (disable_at addr t ss)
unfolding disable_at
disable_at-All now addr t addrs [] h = tt
disable_at-All now addr t addrs (s ∷ ss) (h, k) =
    (disabled-IsAt now addr t addrs s h, disable_at-All now addr t addrs ss k)

pub disable_at-Covered :
    (now : ℕ) (addr : Bytes) (t : ℤ) (ss : List Slot)
    → check_slots now ss addr ≡ true
    → Covered now (disable_at addr t ss)
unfolding check_slots
disable_at-Covered now addr t ss e =
    covered (out_addrs now addr ss) (ground (arith, e))
      (disable_at-All now addr t _ ss (out_addrs-All now addr ss))

pub fresh-Covered : (now : ℕ) (ss : List Slot) → 59 ≤ now → All IsFresh ss → Covered now ss
fresh-Covered now ss h all =
    covered [] (omega arith)
      (All-map ss (λ s f e. absurd (not_both (sym e ∙ fresh-old now s h f))) all)
