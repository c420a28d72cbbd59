-- ===== src/Slots/Sound.antt =====
-- What each operation on the slots of a streaming upload (tunnel/stream_upload.cpp) keeps.
use aliyun_odps_sdk_cpp.Prelude.{
  ℕ, ◌≤◌, ◌≡◌, refl, sym, subst, ◌∙◌, Bool, true, false, not, ◌&&◌, Bytes, bytes_eq, List, [], ◌∷◌,
  Option, none, some, length, set, get_elem?, ◌==◌, Bool-cases, inl, inr, All, ◌⊎◌,
}
use aliyun_odps_sdk_cpp.Prelude.Int.{ℤ, pos, ◌-ℤ◌, ltb_ℤ}
use aliyun_odps_sdk_cpp.Result.{Result, ok, err}
use aliyun_odps_sdk_cpp.Slots.{
  Slot, SlotMap, StreamState, Answer, WriteReply, is_recent, check_slots, disable_at, restore,
  new_slot, disable_times, finish_load, load_slots, moved_to, next_slot, put_slot, update_found,
  update_slot, disable_slot, answered, reload, update_slots, is_gateway_error, written, on_write,
}
use aliyun_odps_sdk_cpp.Slots.Open.{
  Open, open_here, Open-later, disable_at-Open, IsFresh, IsNew, new_slot-IsNew, fresh-enabled,
  set-Open, push-All,
}
use aliyun_odps_sdk_cpp.Slots.Covered.{
  IsAt, Covered, covered, All-set, not_both, Covered-later, fresh-old, disable_at-Covered,
  fresh-Covered,
}

-- There are no slots, or one is not disabled; and two addresses at most were disabled lately.
pub data IsSound (now : ℕ) (ss : List Slot) : Type 0 where
  sound : (ss ≡ []) ⊎ Open now ss → Covered now ss → IsSound now ss

pub IsSound-later :
    {now : ℕ} (later : ℕ) {ss : List Slot} → now ≤ later → IsSound now ss → IsSound later ss
IsSound-later later h (sound (inl e) c) = sound (inl e) (Covered-later later h c)
IsSound-later later h (sound (inr o) c) =
    sound (inr (Open-later later h o)) (Covered-later later h c)

disable_at-IsSound :
    (now : ℕ) (addr : Bytes) (t : ℤ) (ss : List Slot)
    → check_slots now ss addr ≡ true
    → IsSound now (disable_at addr t ss)
disable_at-IsSound now addr t ss e =
    sound (inr (disable_at-Open now addr t ss e)) (disable_at-Covered now addr t ss e)

module _ (now : ℕ) (old : 59 ≤ now) where
  pub fresh-IsSound : (ss : List Slot) → All IsFresh ss → IsSound now ss
  fresh-IsSound [] all = sound (inl refl) (fresh-Covered now [] old all)
  fresh-IsSound (s ∷ ss) all =
      sound (inr (open_here (fresh-enabled now s all.0))) (fresh-Covered now (s ∷ ss) old all)

  restore-IsSound :
      (times : List (Bytes × ℤ)) (ss : List Slot)
      → IsSound now ss
      → IsSound now (restore now times ss)
  unfolding restore
  restore-IsSound [] ss h = h
  restore-IsSound ((addr, t) ∷ times) ss h = elim (Bool-cases (is_recent now t)) [
    | inl r ↦ elim (Bool-cases (check_slots now ss addr)) [
      | inl e ↦ rw (r, e) (restore-IsSound times _ (disable_at-IsSound now addr t ss e))
      | inr e ↦ rw (r, e) (restore-IsSound times ss h)
    ]
    | inr r ↦ rw r (restore-IsSound times ss h)
  ]

  set-IsSound :
      (ss : List Slot) (i : ℕ) (s : Slot) → IsFresh s → IsSound now ss → IsSound now (set ss i s)
  set-IsSound ss i s f (sound (inl e) c) =
      subst (λ r. IsSound now (set r i s)) (sym e) (fresh-IsSound [] tt)
  set-IsSound ss i s f (sound (inr o) (covered addrs few all)) =
      sound (inr (set-Open now ss i s (fresh-enabled now s f) o)) (
        covered addrs few (
          All-set (IsAt now addrs) ss i s (λ e. absurd (not_both (sym e ∙ fresh-old now s old f)))
            all))

  finish-IsSound :
      (current : ℕ) (times : List (Bytes × ℤ)) (st : StreamState)
      (pushed : List Slot × Result (Unit {0}))
      → All IsFresh pushed.0
      → IsSound now (finish_load now current times st pushed).0.slots
  unfolding finish_load
  finish-IsSound current times st (pushed, err e) all = fresh-IsSound pushed all
  finish-IsSound current times st (pushed, ok _) all =
      restore-IsSound times pushed (fresh-IsSound pushed all)

  pub load-IsSound :
      (pick : ℕ) (slots : SlotMap) (st : StreamState)
      → IsSound now st.slots
      → IsSound now (load_slots now pick slots st).0.slots
  unfolding load_slots
  load-IsSound pick [] st h = h
  load-IsSound pick (entry ∷ entries) st h =
      finish-IsSound _ (disable_times st.slots []) st _
        (push-All (length (entry ∷ entries)) 0 (entry ∷ entries))

  answered-IsSound :
      (answer : Answer) (st : StreamState)
      → IsSound now st.slots
      → IsSound now (answered now st answer).0.slots
  unfolding answered
  answered-IsSound (err e) st h = h
  answered-IsSound (ok (slots, pick)) st h = load-IsSound pick slots st h

  reload-IsSound :
      (force : Bool) (answer : Answer) (st : StreamState)
      → IsSound now st.slots
      → IsSound now (reload force now answer st).0.slots
  unfolding reload
  reload-IsSound force answer st h =
      elim (Bool-cases (not force && ltb_ℤ (pos now -ℤ st.last_update) (pos 30))) [
        | inl e ↦ rw e h
        | inr e ↦ rw e (answered-IsSound answer st h)
      ]

  put-IsSound :
      (id : ℕ) (st : StreamState) (r : Result Slot)
      → IsNew r
      → IsSound now st.slots
      → IsSound now (put_slot id st r).0.slots
  unfolding put_slot
  put-IsSound id st (err e) f h = h
  put-IsSound id st (ok s) f h = set-IsSound st.slots id s f h

  found-IsSound :
      (id : ℕ) (addr : Bytes) (st : StreamState) (o : Option Slot)
      → IsSound now st.slots
      → IsSound now (update_found id addr st o).0.slots
  unfolding update_found
  found-IsSound id addr st none h = h
  found-IsSound id addr st (some s) h = elim (Bool-cases (bytes_eq s.server_addr addr)) [
    | inl e ↦ rw e h
    | inr e ↦ rw e (put-IsSound id st (new_slot id addr) (new_slot-IsNew id addr) h)
  ]

  update-IsSound :
      (id : ℕ) (addr : Bytes) (n : Result ℕ) (answer : Answer) (st : StreamState)
      → IsSound now st.slots
      → IsSound now (update_slots now id addr n answer st).slots
  unfolding update_slots update_slot
  update-IsSound id addr (err e) answer st h = h
  update-IsSound id addr (ok n) answer st h = elim (Bool-cases (n == length st.slots)) [
    | inl e ↦ rw e (found-IsSound id addr st (get_elem? st.slots id) h)
    | inr e ↦ rw e (reload-IsSound true answer st h)
  ]

  disable-IsSound :
      (addr : Bytes) (st : StreamState)
      → IsSound now st.slots
      → IsSound now (disable_slot now addr st).slots
  unfolding disable_slot
  disable-IsSound addr st h = elim (Bool-cases (bytes_eq addr [])) [
    | inl e ↦ rw e h
    | inr e ↦ elim (Bool-cases (check_slots now st.slots addr)) [
      | inl f ↦ rw (e, f) (disable_at-IsSound now addr (pos now) st.slots f)
      | inr f ↦ rw (e, f) h
    ]
  ]

  moved-slots : (st : StreamState) (r : Result (ℕ × Slot)) → (moved_to st r).0.slots ≡ st.slots
  unfolding moved_to
  moved-slots st (err e) = refl
  moved-slots st (ok (i, s)) = refl

  next-slots : (st : StreamState) → (next_slot now st).0.slots ≡ st.slots
  unfolding next_slot
  next-slots st = elim (Bool-cases (length st.slots == 0)) [
    | inl e ↦ rw e refl
    | inr e ↦ rw e (moved-slots st _)
  ]

  written-IsSound :
      (reply : WriteReply) (picked : StreamState × Result Slot)
      → IsSound now picked.0.slots
      → IsSound now (written now reply picked).0.slots
  unfolding written
  written-IsSound reply (st, err e) h = h
  written-IsSound reply (st, ok s) h = elim (Bool-cases reply.successful) [
    | inl e ↦
        rw e (update-IsSound s.slot_id reply.routed_server reply.slot_number reply.answer st h)
    | inr e ↦ elim (Bool-cases (is_gateway_error reply.status)) [
      | inl f ↦ rw (e, f) (disable-IsSound s.server_addr _ (reload-IsSound false reply.answer st h))
      | inr f ↦ rw (e, f) h
    ]
  ]

  pub on_write-IsSound :
      (reply : WriteReply) (st : StreamState)
      → IsSound now st.slots
      → IsSound now (on_write now reply st).0.slots
  unfolding on_write
  on_write-IsSound reply st h =
      written-IsSound reply (next_slot now st) (subst (IsSound now) (sym (next-slots st)) h)
