-- ===== src/Slots.antt =====
-- The slots of a streaming upload: tunnel/slot.h and tunnel/stream_upload.cpp. An operation reads the
-- clock once, since it holds the lock; `std::map` is a list with one entry for a key.
mod Open
mod Covered
mod Sound
mod Reach
mod Turn
mod Tests
use aliyun_odps_sdk_cpp.Prelude.{
  ℕ, zero, suc, ◌+◌, ◌-◌, ◌%◌, ◌^◌, Bool, true, false, not, ◌&&◌, ◌||◌, Bytes, bytes_eq, codes,
  List, [], ◌∷◌, Option, none, some, length, get_elem?, set, leb, ltb, ◌==◌, if◌then◌else◌,
}
use aliyun_odps_sdk_cpp.Prelude.Int.{ℤ, pos, negsuc, ◌-ℤ◌, ltb_ℤ}
use aliyun_odps_sdk_cpp.Result.{
  Result, ok, err, Error, invalid_argument, empty_slot_map, slot_not_found, out_of_range,
  server_error, out_of_fuel, ◌>>=◌,
}
use aliyun_odps_sdk_cpp.Strings.{split_string}

pub record Slot : Type 0 where
  pub slot_id : ℕ
  pub server_addr : Bytes
  pub server_ip : Bytes
  pub disable_time : ℤ

unfoldable pub first_part : List Bytes → Result Bytes
first_part [] = err out_of_range
first_part (part ∷ parts) = ok part

-- The constructor of a slot.
unfoldable pub new_slot : ℕ → Bytes → Result Slot
new_slot id [] = err invalid_argument
new_slot id (c ∷ cs) = split_string (c ∷ cs) (codes ":") >>= λ parts. first_part parts >>= λ ip.
    ok record { slot_id = id; server_addr = c ∷ cs; server_ip = ip; disable_time = negsuc 0 }

abbrev pub SlotMap : Type 0
SlotMap = List (ℤ × Bytes)

unfoldable pub is_key : ℕ → ℤ → Bool
is_key i (pos k) = k == i
is_key i (negsuc k) = false

unfoldable pub find_addr : ℕ → SlotMap → Option Bytes
find_addr i [] = none
find_addr i ((k, addr) ∷ slots) =
    let rest = find_addr i slots in if is_key i k then some addr else rest

pub record StreamState : Type 0 where
  pub slots : List Slot
  pub current_slot : ℕ
  pub last_update : ℤ

abbrev pub slot_disable_time : ℤ
slot_disable_time = pos 60

abbrev pub addr_disable_max_num : ℕ
addr_disable_max_num = 2

-- `GetCurrentTimeInSeconds() - t < SLOT_DISABLE_TIME`.
unfoldable pub is_recent : ℕ → ℤ → Bool
is_recent now t = ltb_ℤ (pos now -ℤ t) slot_disable_time

unfoldable pub never_disabled : ℤ → Bool
never_disabled (pos n) = false
never_disabled (negsuc zero) = true
never_disabled (negsuc (suc n)) = false

-- The condition of the loop in NextSlot.
unfoldable pub is_disabled : ℕ → Slot → Bool
is_disabled now s = not (never_disabled s.disable_time) && is_recent now s.disable_time

-- The condition in CheckSlots.
unfoldable pub is_out : ℕ → Bytes → Slot → Bool
is_out now addr s = is_recent now s.disable_time || bytes_eq s.server_addr addr

unfoldable pub out_count : ℕ → Bytes → List Slot → ℕ
out_count now addr [] = 0
out_count now addr (s ∷ ss) =
    let rest = out_count now addr ss in if is_out now addr s then suc rest else rest

unfoldable pub is_member : Bytes → List Bytes → Bool
is_member a [] = false
is_member a (b ∷ bs) = bytes_eq a b || is_member a bs

unfoldable pub add_member : Bytes → List Bytes → List Bytes
add_member a bs = if is_member a bs then bs else a ∷ bs

unfoldable pub out_addrs : ℕ → Bytes → List Slot → List Bytes
out_addrs now addr [] = []
out_addrs now addr (s ∷ ss) =
    let rest = out_addrs now addr ss in
    if is_out now addr s then add_member s.server_addr rest else rest

unfoldable pub check_slots : ℕ → List Slot → Bytes → Bool
check_slots now slots addr =
    not (length slots - out_count now addr slots == 0)
    && leb (length (out_addrs now addr slots)) addr_disable_max_num

unfoldable pub disable_at : Bytes → ℤ → List Slot → List Slot
disable_at addr t [] = []
disable_at addr t (s ∷ ss) =
    (if bytes_eq s.server_addr addr then record s { disable_time = t } else s)
    ∷ disable_at addr t ss

unfoldable pub bytes_lt : Bytes → Bytes → Bool
bytes_lt [] [] = false
bytes_lt [] (y ∷ ys) = true
bytes_lt (x ∷ xs) [] = false
bytes_lt (x ∷ xs) (y ∷ ys) = let rest = bytes_lt xs ys in if x == y then rest else ltb x y

-- `addrDisableTimeMap[addr] = t`, in the order of the keys.
unfoldable pub put_time : Bytes → ℤ → List (Bytes × ℤ) → List (Bytes × ℤ)
put_time addr t [] = (addr, t) ∷ []
put_time addr t ((a, u) ∷ times) =
    let rest = put_time addr t times in
    if bytes_eq a addr
    then (a, t) ∷ times
    else if bytes_lt addr a
    then (addr, t) ∷ (a, u) ∷ times
    else (a, u) ∷ rest

unfoldable pub disable_times : List Slot → List (Bytes × ℤ) → List (Bytes × ℤ)
disable_times [] times = times
disable_times (s ∷ ss) times = disable_times ss (put_time s.server_addr s.disable_time times)

-- `Slot(i, slots.at(i))`, where a missing key is SLOT_NOT_FOUND.
unfoldable pub slot_at : ℕ → Option Bytes → Result Slot
slot_at i none = err slot_not_found
slot_at i (some addr) = new_slot i addr

abbrev pub push_slot : Result Slot → List Slot × Result (Unit {0}) → List Slot × Result (Unit {0})
push_slot (err e) later = ([], err e)
push_slot (ok s) (later, outcome) = (s ∷ later, outcome)

-- The loop that fills mSlots from `i` on: what it has pushed, and how it ended.
unfoldable pub push_slots : ℕ → ℕ → SlotMap → List Slot × Result (Unit {0})
push_slots zero i slots = ([], ok tt)
push_slots (suc left) i slots =
    push_slot (slot_at i (find_addr i slots)) (push_slots left (suc i) slots)

-- The loop that disables again the addresses that were disabled not long ago.
unfoldable pub restore : ℕ → List (Bytes × ℤ) → List Slot → List Slot
restore now [] slots = slots
restore now ((addr, t) ∷ times) slots =
    restore now times
      (if is_recent now t && check_slots now slots addr then disable_at addr t slots else slots)

-- The rest of LoadSlots, behind the loop that fills mSlots.
unfoldable pub finish_load :
    ℕ
    → ℕ
    → List (Bytes × ℤ)
    → StreamState
    → List Slot × Result (Unit {0})
    → StreamState × Result (Unit {0})
finish_load now current times st (pushed, err e) = (record st { slots = pushed }, err e)
finish_load now current times st (pushed, ok _) = (
  record { slots = restore now times pushed; current_slot = current; last_update = pos now },
  ok tt,
)

-- LoadSlots, where `pick` is what rand() returns. What it has cleared stays so when it throws.
unfoldable pub load_slots : ℕ → ℕ → SlotMap → StreamState → StreamState × Result (Unit {0})
load_slots now pick [] st = (st, err empty_slot_map)
load_slots now pick (entry ∷ entries) st =
    finish_load now (pick % length (entry ∷ entries)) (disable_times st.slots []) st
      (push_slots (length (entry ∷ entries)) 0 (entry ∷ entries))

-- One turn of the loop in NextSlot: mCurrentSlot is a uint32_t.
unfoldable pub advance : ℕ → ℕ → ℕ
advance n current = (suc current % 2 ^ 32) % n

-- What a turn that has come to an index does with the slot there.
unfoldable pub take_turn : ℕ → ℕ → Option Slot → Result (ℕ × Slot) → Result (ℕ × Slot)
take_turn now i none again = err out_of_range
take_turn now i (some s) again = if is_disabled now s then again else ok (i, s)

unfoldable pub next_loop : ℕ → ℕ → List Slot → ℕ → Result (ℕ × Slot)
next_loop zero now slots current = err out_of_fuel
next_loop (suc fuel) now slots current =
    let i = advance (length slots) current in
    take_turn now i (get_elem? slots i) (next_loop fuel now slots i)

unfoldable pub moved_to : StreamState → Result (ℕ × Slot) → StreamState × Result Slot
moved_to st (err e) = (st, err e)
moved_to st (ok (i, s)) = (record st { current_slot = i }, ok s)

-- NextSlot. One turn brings mCurrentSlot in range, and the others go over all slots once at most.
unfoldable pub next_slot : ℕ → StreamState → StreamState × Result Slot
next_slot now st =
    if length st.slots == 0
    then (st, err empty_slot_map)
    else moved_to st (next_loop (suc (length st.slots)) now st.slots st.current_slot)

unfoldable pub put_slot : ℕ → StreamState → Result Slot → StreamState × Result (Unit {0})
put_slot id st (err e) = (st, err e)
put_slot id st (ok s) = (record st { slots = set st.slots id s }, ok tt)

unfoldable pub update_found :
    ℕ → Bytes → StreamState → Option Slot → StreamState × Result (Unit {0})
update_found id addr st none = (st, ok tt)
update_found id addr st (some s) =
    if bytes_eq s.server_addr addr then (st, ok tt) else put_slot id st (new_slot id addr)

-- UpdateSlot for one slot: an index out of range is ignored.
unfoldable pub update_slot : ℕ → Bytes → StreamState → StreamState × Result (Unit {0})
update_slot id addr st = update_found id addr st (get_elem? st.slots id)

unfoldable pub disable_slot : ℕ → Bytes → StreamState → StreamState
disable_slot now addr st =
    if bytes_eq addr []
    then st
    else if check_slots now st.slots addr
    then record st { slots = disable_at addr (pos now) st.slots }
    else st

-- What the server answers to the request of a reload: an error, or its slots and what rand() returns.
abbrev pub Answer : Type 0
Answer = Result (SlotMap × ℕ)

unfoldable pub answered : ℕ → StreamState → Answer → StreamState × Result (Unit {0})
answered now st (err e) = (st, err e)
answered now st (ok (slots, pick)) = load_slots now pick slots st

unfoldable pub reload : Bool → ℕ → Answer → StreamState → StreamState × Result (Unit {0})
reload force now answer st =
    if not force && ltb_ℤ (pos now -ℤ st.last_update) (pos 30)
    then (st, ok tt)
    else answered now st answer

-- The response to a write: its status, the headers for the server and the number of slots (an error
-- when it is no number), and what a reload would answer.
pub record WriteReply : Type 0 where
  pub successful : Bool
  pub status : ℕ
  pub routed_server : Bytes
  pub slot_number : Result ℕ
  pub answer : Answer

-- UpdateSlot behind a write; it ignores every exception, the one for a header that is no number too.
unfoldable pub update_slots : ℕ → ℕ → Bytes → Result ℕ → Answer → StreamState → StreamState
update_slots now id addr (err e) answer st = st
update_slots now id addr (ok n) answer st =
    if n == length st.slots then (update_slot id addr st).0 else (reload true now answer st).0

unfoldable pub is_gateway_error : ℕ → Bool
is_gateway_error status = (status == 502) || (status == 504)

unfoldable pub written : ℕ → WriteReply → StreamState × Result Slot → StreamState × Result Slot
written now reply (st, err e) = (st, err e)
written now reply (st, ok s) =
    if reply.successful
    then (update_slots now s.slot_id reply.routed_server reply.slot_number reply.answer st, ok s)
    else if is_gateway_error reply.status
    then (disable_slot now s.server_addr (reload false now reply.answer st).0, err server_error)
    else (st, err server_error)

-- OnWriteRecordPack as far as it concerns the slots: the slot of the write, or what was thrown.
unfoldable pub on_write : ℕ → WriteReply → StreamState → StreamState × Result Slot
on_write now reply st = written now reply (next_slot now st)
