-- ===== src/Slots/Reach.antt =====
-- The states of a streaming upload's slots (tunnel/stream_upload.cpp) that writes and reloads lead to.
use aliyun_odps_sdk_cpp.Prelude.{ℕ, ◌≤◌, [], arith}
use aliyun_odps_sdk_cpp.Prelude.Int.{negsuc}
use aliyun_odps_sdk_cpp.Slots.{SlotMap, StreamState, WriteReply, load_slots, on_write}
use aliyun_odps_sdk_cpp.Slots.Sound.{
  IsSound, IsSound-later, fresh-IsSound, load-IsSound, on_write-IsSound,
}

-- The states at a time: the session starts without slots, and then slots are loaded (Initiate) and
-- packs are written, in any order, at times that do not decrease.
pub data IsReachable : ℕ → StreamState → Type 0 where
  at_start :
      {now : ℕ}
      → 59 ≤ now
      → IsReachable now (record { slots = []; current_slot = 0; last_update = negsuc 0 })
  by_load :
      {now later : ℕ} {st : StreamState} (pick : ℕ) (slots : SlotMap)
      → now ≤ later
      → IsReachable now st
      → IsReachable later (load_slots later pick slots st).0
  by_write :
      {now later : ℕ} {st : StreamState} (reply : WriteReply)
      → now ≤ later
      → IsReachable now st
      → IsReachable later (on_write later reply st).0

-- Whatever the server answers, in any order of loads and writes from the sixtieth second of the clock
-- on: a session has no slots or one that is not disabled, and the slots that were disabled less than
-- sixty seconds ago have two addresses at most.
pub reachable-IsSound :
    {now : ℕ} {st : StreamState} → IsReachable now st → (59 ≤ now) × IsSound now st.slots
reachable-IsSound (at_start {now} h) = (h, fresh-IsSound now h [] tt)
reachable-IsSound (by_load {now} {later} {st} pick slots le h) =
    let (old, s) = reachable-IsSound h in
    let still : 59 ≤ later = omega (arith, old, le) in
    (still, load-IsSound later still pick slots st (IsSound-later later le s))
reachable-IsSound (by_write {now} {later} {st} reply le h) =
    let (old, s) = reachable-IsSound h in
    let still : 59 ≤ later = omega (arith, old, le) in
    (still, on_write-IsSound later still reply st (IsSound-later later le s))
