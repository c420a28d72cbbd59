-- ===== src/Slots/Tests.antt =====
-- A session with three slots, a write that fails at one server, and the slot of the next write.
use aliyun_odps_sdk_cpp.Prelude.{ℕ, ◌≤◌, ◌≡◌, false, bytes_eq, codes, [], ◌∷◌, arith}
use aliyun_odps_sdk_cpp.Prelude.Int.{pos, negsuc, ◌-ℤ◌}
use aliyun_odps_sdk_cpp.Result.{ok, err, plain_error}
use aliyun_odps_sdk_cpp.Strings.{split_string, split_parts, next_part, is_one_of}
use aliyun_odps_sdk_cpp.Slots.{
  Slot, SlotMap, StreamState, WriteReply, load_slots, finish_load, push_slots, slot_at, new_slot,
  first_part, find_addr, is_key, disable_times, restore, on_write, written, next_slot, next_loop,
  take_turn, advance, moved_to, is_disabled, never_disabled, is_recent, is_gateway_error, reload,
  answered, disable_slot, check_slots, out_count, out_addrs, is_out, is_member, add_member,
  disable_at,
}
use aliyun_odps_sdk_cpp.Slots.Sound.{IsSound}
use aliyun_odps_sdk_cpp.Slots.Reach.{IsReachable, at_start, by_load, by_write, reachable-IsSound}
use aliyun_odps_sdk_cpp.Slots.Turn.{IsEnabledAt, reachable-next_slot}

abbrev three : SlotMap
three = (pos 0, codes "a:1") ∷ (pos 1, codes "b:1") ∷ (pos 2, codes "c:1") ∷ []

abbrev empty_session : StreamState
empty_session = record { slots = []; current_slot = 0; last_update = negsuc 0 }

abbrev bad_gateway : WriteReply
bad_gateway = record {
  successful = false;
  status = 502;
  routed_server = [];
  slot_number = ok 3;
  answer = err plain_error;
}

abbrev loaded : StreamState
loaded = (load_slots 1000 7 three empty_session).0

abbrev failed : StreamState
failed = (on_write 1010 bad_gateway loaded).0

failed-IsReachable : IsReachable 1010 failed
failed-IsReachable =
    by_write {now = 1000} {st = loaded} bad_gateway (omega arith)
      (by_load {now = 900} {st = empty_session} 7 three (omega arith) (at_start (omega arith)))

reachable-IsSound_example : (59 ≤ 1010) × IsSound 1010 failed.slots
reachable-IsSound_example = reachable-IsSound failed-IsReachable

reachable-next_slot_example :
    (i : ℕ) × (s : Slot) × (next_slot 1010 failed ≡ (record failed { current_slot = i }, ok s))
    × IsEnabledAt 1010 failed.slots i s
unfolding load_slots finish_load push_slots slot_at new_slot first_part find_addr is_key
    disable_times restore on_write written next_slot next_loop take_turn advance moved_to
    is_disabled never_disabled is_recent is_gateway_error reload answered disable_slot check_slots
    out_count out_addrs is_out is_member add_member disable_at bytes_eq split_string split_parts
    next_part is_one_of ◌-ℤ◌
reachable-next_slot_example = reachable-next_slot failed-IsReachable (omega arith) (omega arith)
