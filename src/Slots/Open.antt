-- ===== src/Slots/Open.antt =====
-- Slots of a streaming upload (tunnel/stream_upload.cpp) that a write can take.
use mathlib.Core.Bool.{and-false}
use aliyun_odps_sdk_cpp.Prelude.{
  ℕ, zero, suc, ◌≤◌, ◌<◌, ◌≡◌, refl, sym, ap, ◌∙◌, Bool, true, false, not, ◌||◌, Bytes, bytes_eq,
  codes, List, [], ◌∷◌, Option, none, some, length, set, arith, Bool-cases, inl, inr, All,
}
use aliyun_odps_sdk_cpp.Prelude.Int.{ℤ, negsuc, ◌-ℤ◌}
use aliyun_odps_sdk_cpp.Result.{Result, ok, err, ◌>>=◌}
use aliyun_odps_sdk_cpp.Strings.{split_string}
use aliyun_odps_sdk_cpp.Slots.{
  Slot, SlotMap, is_recent, never_disabled, is_disabled, is_out, out_count, check_slots, disable_at,
  new_slot, first_part, find_addr, slot_at, push_slot, push_slots,
}

-- Some slot is not disabled.
pub data Open (now : ℕ) : List Slot → Type 0 where
  open_here : {s : Slot} {ss : List Slot} → is_disabled now s ≡ false → Open now (s ∷ ss)
  open_later : {s : Slot} {ss : List Slot} → Open now ss → Open now (s ∷ ss)

-- What is recent was recent before.
pub recent-earlier :
    (now later : ℕ) (t : ℤ) → now ≤ later → is_recent later t ≡ true → is_recent now t ≡ true
unfolding is_recent ◌-ℤ◌
recent-earlier now later t h e = ground (arith, e)

pub disabled-later :
    (now later : ℕ) (s : Slot)
    → now ≤ later
    → is_disabled now s ≡ false
    → is_disabled later s ≡ false
unfolding is_disabled
disabled-later now later s h e = elim (Bool-cases (is_recent later s.disable_time)) [
  | inl r ↦ rw r (sym (rw (recent-earlier now later s.disable_time h r) refl) ∙ e)
  | inr r ↦ rw r (and-false (not (never_disabled s.disable_time)))
]

pub Open-later : {now : ℕ} (later : ℕ) {ss : List Slot} → now ≤ later → Open now ss → Open later ss
Open-later {now} later h (open_here {s} e) = open_here (disabled-later now later s h e)
Open-later later h (open_later o) = open_later (Open-later later h o)

or-parts : (a b : Bool) → (a || b) ≡ false → (a ≡ false) × (b ≡ false)
or-parts false b e = (refl, e)
or-parts true b e = absurd (ground (arith, e))

out-enabled :
    (now : ℕ) (addr : Bytes) (s : Slot)
    → is_out now addr s ≡ false
    → (is_disabled now s ≡ false) × (bytes_eq s.server_addr addr ≡ false)
unfolding is_out is_disabled
out-enabled now addr s e =
    let (r, b) = or-parts (is_recent now s.disable_time) _ e in
    (rw r (and-false (not (never_disabled s.disable_time))), b)

out_count-bound : (now : ℕ) (addr : Bytes) (ss : List Slot) → out_count now addr ss ≤ length ss
unfolding out_count
out_count-bound now addr [] = omega arith
out_count-bound now addr (s ∷ ss) =
    let later = out_count-bound now addr ss in
    elim (Bool-cases (is_out now addr s)) [
      | inl e ↦ rw e (omega (arith, later))
      | inr e ↦ rw e (omega (arith, later))
    ]

-- Where not all slots are out, one stays when an address is disabled.
disable-Open :
    (now : ℕ) (addr : Bytes) (t : ℤ) (ss : List Slot)
    → out_count now addr ss < length ss
    → Open now (disable_at addr t ss)
unfolding out_count disable_at
disable-Open now addr t [] h = absurd (omega (arith, h))
disable-Open now addr t (s ∷ ss) h = elim (Bool-cases (is_out now addr s)) [
  | inl e ↦ open_later (disable-Open now addr t ss (fewer e))
  | inr e ↦ let (enabled, other) = out-enabled now addr s e in rw other (open_here enabled)
]
  where
    fewer : is_out now addr s ≡ true → out_count now addr ss < length ss
    fewer e =
        let counted : out_count now addr (s ∷ ss) ≡ suc (out_count now addr ss) = rw e refl in
        omega (arith, h, counted)

pub check-count :
    (now : ℕ) (addr : Bytes) (ss : List Slot)
    → check_slots now ss addr ≡ true
    → out_count now addr ss < length ss
unfolding check_slots
check-count now addr ss e = ground (arith, out_count-bound now addr ss, e)

pub disable_at-Open :
    (now : ℕ) (addr : Bytes) (t : ℤ) (ss : List Slot)
    → check_slots now ss addr ≡ true
    → Open now (disable_at addr t ss)
disable_at-Open now addr t ss e = disable-Open now addr t ss (check-count now addr ss e)

-- A slot that no write has failed on.
abbrev pub IsFresh : Slot → Type 0
IsFresh s = s.disable_time ≡ negsuc 0

abbrev pub IsNew : Result Slot → Type 0
IsNew (err e) = Unit
IsNew (ok s) = IsFresh s

bind-IsNew :
    {A : Type 0} (r : Result A) (f : A → Result Slot) → ((a : A) → IsNew (f a)) → IsNew (r >>= f)
bind-IsNew (err e) f h = tt
bind-IsNew (ok a) f h = h a

pub new_slot-IsNew : (id : ℕ) (addr : Bytes) → IsNew (new_slot id addr)
unfolding new_slot
new_slot-IsNew id [] = tt
new_slot-IsNew id (c ∷ cs) =
    bind-IsNew (split_string (c ∷ cs) (codes ":")) _
      (λ parts. bind-IsNew (first_part parts) _ (λ ip. refl))

pub fresh-enabled : (now : ℕ) (s : Slot) → IsFresh s → is_disabled now s ≡ false
unfolding is_disabled never_disabled
fresh-enabled now s e = rw (ap never_disabled e) refl

pub set-Open :
    (now : ℕ) (ss : List Slot) (i : ℕ) (s : Slot)
    → is_disabled now s ≡ false
    → Open now ss
    → Open now (set ss i s)
set-Open now [] i s e o = elim o [ ]
set-Open now (r ∷ ss) zero s e o = open_here e
set-Open now (r ∷ ss) (suc i) s e (open_here h) = open_here h
set-Open now (r ∷ ss) (suc i) s e (open_later o) = open_later (set-Open now ss i s e o)

at-IsNew : (i : ℕ) (o : Option Bytes) → IsNew (slot_at i o)
unfolding slot_at
at-IsNew i none = tt
at-IsNew i (some addr) = new_slot-IsNew i addr

push-one :
    (r : Result Slot) (later : List Slot × Result (Unit {0}))
    → IsNew r
    → All IsFresh later.0
    → All IsFresh (push_slot r later).0
push-one (err e) later h k = tt
push-one (ok s) later h k = (h, k)

pub push-All : (left i : ℕ) (slots : SlotMap) → All IsFresh (push_slots left i slots).0
unfolding push_slots
push-All zero i slots = tt
push-All (suc left) i slots =
    push-one _ (push_slots left (suc i) slots) (at-IsNew i (find_addr i slots))
      (push-All left (suc i) slots)
