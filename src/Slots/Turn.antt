-- ===== src/Slots/Turn.antt =====
-- The slot that NextSlot (tunnel/stream_upload.cpp) picks, and that its loop ends.
use native.Mathlib.Nat.{mod-lt, mod-eq_of_lt, mod_self}
use aliyun_odps_sdk_cpp.Prelude.{
  ℕ, zero, suc, ◌+◌, ◌%◌, ◌^◌, ◌≤◌, ◌<◌, ◌≡◌, ◌≢◌, refl, sym, subst, ap, ◌∙◌, true, false, List,
  some, length, get_elem?, get_elem?-bound, bound-get_elem?, ltb, ◌==◌, arith, Bool-cases, inl, inr,
  ◌⊎◌,
}
use aliyun_odps_sdk_cpp.Result.{Result, ok}
use aliyun_odps_sdk_cpp.Slots.{
  Slot, StreamState, is_disabled, advance, take_turn, next_loop, moved_to, next_slot,
}
use aliyun_odps_sdk_cpp.Slots.Open.{Open, open_here, open_later}
use aliyun_odps_sdk_cpp.Slots.Sound.{IsSound, sound}
use aliyun_odps_sdk_cpp.Slots.Reach.{IsReachable, reachable-IsSound}

-- An index and the slot there, which is not disabled.
abbrev pub IsEnabledAt : ℕ → List Slot → ℕ → Slot → Type 0
IsEnabledAt now ss i s = (get_elem? ss i ≡ some s) × (is_disabled now s ≡ false)

Open-enabled :
    {now : ℕ} {ss : List Slot} → Open now ss → (j : ℕ) × (s : Slot) × IsEnabledAt now ss j s
Open-enabled (open_here {s} e) = (0, s, (refl, e))
Open-enabled (open_later o) = let (j, s, h) = Open-enabled o in (suc j, s, h)

advance-lem :
    (n current : ℕ)
    → current < n
    → n < 2 ^ 32
    → ((suc current < n) × (advance n current ≡ suc current))
      ⊎ ((suc current ≡ n) × (advance n current ≡ 0))
unfolding advance
advance-lem n current h small =
    let word = mod-eq_of_lt {n = suc current} {m = 2 ^ 32} (omega (arith, h, small)) in
    elim (Bool-cases (ltb (suc current) n)) [
      | inl e ↦
          let less : suc current < n = ground (arith, e) in
          inl (less, ap (λ k. k % n) word ∙ mod-eq_of_lt less)
      | inr e ↦
          let same : suc current ≡ n = ground (arith, e, h) in
          inr (same, ap (λ k. k % n) (word ∙ same) ∙ mod_self n)
    ]

-- How many turns it takes from one index to another.
abbrev Apart : ℕ → ℕ → ℕ → ℕ → Type 0
Apart n current j fuel =
    ((current < j) × (j ≤ current + fuel)) ⊎ ((j ≤ current) × (j + n ≤ current + fuel))

abbrev Picks : ℕ → List Slot → Result (ℕ × Slot) → Type 0
Picks now ss r = (i : ℕ) × (s : Slot) × (r ≡ ok (i, s)) × IsEnabledAt now ss i s

nearer :
    (n current j fuel : ℕ)
    → current < n
    → n < 2 ^ 32
    → j < n
    → advance n current ≢ j
    → Apart n current j (suc fuel)
    → Apart n (advance n current) j fuel
nearer n current j fuel h small k other apart =
    ground (arith, advance-lem n current h small, other, apart)

advance-bound : (n current : ℕ) → 0 < n → advance n current < n
unfolding advance
advance-bound n current h = mod-lt (suc current % 2 ^ 32) h

enabled-Picks :
    (fuel now : ℕ) (ss : List Slot) (current : ℕ) (s : Slot)
    → IsEnabledAt now ss (advance (length ss) current) s
    → Picks now ss (next_loop (suc fuel) now ss current)
unfolding next_loop take_turn
enabled-Picks fuel now ss current s (found, enabled) =
    let i = advance (length ss) current in
    let again = next_loop fuel now ss i in
    (i, s, ap (λ o. take_turn now i o again) found ∙ rw enabled refl, (found, enabled))

-- A turn ends at a slot that is not disabled, or goes on from there.
turn-Picks :
    (fuel now : ℕ) (ss : List Slot) (current : ℕ)
    → advance (length ss) current < length ss
    → Picks now ss (next_loop fuel now ss (advance (length ss) current))
      ⊎ ((s : Slot) × IsEnabledAt now ss (advance (length ss) current) s)
    → Picks now ss (next_loop (suc fuel) now ss current)
unfolding next_loop take_turn
turn-Picks fuel now ss current h (inr (s, enabled)) = enabled-Picks fuel now ss current s enabled
turn-Picks fuel now ss current h (inl later) =
    let (s, found) = bound-get_elem? ss (advance (length ss) current) h in
    elim (Bool-cases (is_disabled now s)) [
      | inr e ↦ enabled-Picks fuel now ss current s (found, e)
      | inl e ↦ subst (Picks now ss) (sym (next_loop-on s found e)) later
    ]
  where
    next_loop-on :
        (s : Slot)
        → get_elem? ss (advance (length ss) current) ≡ some s
        → is_disabled now s ≡ true
        → next_loop (suc fuel) now ss current ≡ next_loop fuel now ss (advance (length ss) current)
    next_loop-on s found e =
        let i = advance (length ss) current in
        ap (λ o. take_turn now i o (next_loop fuel now ss i)) found ∙ rw e refl

loop-Picks :
    (fuel now : ℕ) (ss : List Slot) (current j : ℕ) (t : Slot)
    → current < length ss
    → length ss < 2 ^ 32
    → IsEnabledAt now ss j t
    → Apart (length ss) current j fuel
    → Picks now ss (next_loop fuel now ss current)
loop-Picks zero now ss current j t h small (found, enabled) apart =
    let bound = get_elem?-bound ss j t found in absurd (ground (arith, bound, h, apart))
loop-Picks (suc fuel) now ss current j t h small (found, enabled) apart =
    let bound = get_elem?-bound ss j t found in
    let i = advance (length ss) current in
    let inside = advance-bound (length ss) current (omega (arith, h)) in
    turn-Picks fuel now ss current inside (elim (Bool-cases (i == j)) [
      | inl e ↦
          let same : i ≡ j = ground (arith, e) in
          inr (t, subst (λ k. IsEnabledAt now ss k t) (sym same) (found, enabled))
      | inr e ↦
          let other : i ≢ j = ground (arith, e) in
          inl (
            loop-Picks fuel now ss i j t inside small (found, enabled)
              (nearer (length ss) current j fuel h small bound other apart))
    ])

within_turns : (n i j : ℕ) → i < n → j < n → Apart n i j n
within_turns n i j h k = ground (arith, h, k)

picked-next :
    (now : ℕ) (st : StreamState) (i : ℕ) (s : Slot)
    → 0 < length st.slots
    → next_loop (suc (length st.slots)) now st.slots st.current_slot ≡ ok (i, s)
    → next_slot now st ≡ (record st { current_slot = i }, ok s)
unfolding next_slot moved_to
picked-next now st i s h e =
    let some_left : (length st.slots == 0) ≡ false = ground (arith, h) in
    rw some_left (ap (moved_to st) e)

sound-Open : {now : ℕ} {ss : List Slot} → IsSound now ss → 0 < length ss → Open now ss
sound-Open (sound (inl e) c) h = absurd (omega (arith, h, ap length e))
sound-Open (sound (inr o) c) h = o

-- In every state that loads and writes lead to, NextSlot does not turn for ever and does not fail: if
-- the session has slots (fewer than 2^32), it returns one of them that is not disabled, and remembers
-- its index.
pub reachable-next_slot :
    {now : ℕ} {st : StreamState}
    → IsReachable now st
    → 0 < length st.slots
    → length st.slots < 2 ^ 32
    → (i : ℕ) × (s : Slot) × (next_slot now st ≡ (record st { current_slot = i }, ok s))
      × IsEnabledAt now st.slots i s
reachable-next_slot {now} {st} reach some_slots small =
    let (old, sounds) = reachable-IsSound reach in
    let (j, t, enabled) = Open-enabled (sound-Open sounds some_slots) in
    let inside = advance-bound (length st.slots) st.current_slot some_slots in
    let bound = get_elem?-bound st.slots j t enabled.0 in
    let (i, s, e, picked) = turn-Picks (length st.slots) now st.slots st.current_slot inside (
      inl (
        loop-Picks (length st.slots) now st.slots _ j t inside small enabled
          (within_turns _ _ j inside bound))) in
    (i, s, picked-next now st i s some_slots e, picked)
