-- ===== src/Upsert.antt =====
-- The stream of an upsert: tunnel/upsert_stream.cpp with the packs of tunnel/record_pack.cpp, and the
-- buckets of tunnel/upsert.cpp. A record is a parameter, and so are the sizes of a pack's buffer and
-- what becomes of each attempt to send one: `data_size c rs` is the size with the records `rs`, where
-- `c` tells whether the serializer has completed them.
mod Kept
mod Buckets
mod Safe
mod Tests
use aliyun_odps_sdk_cpp.Prelude.{
  ℕ, zero, suc, ◌%◌, Bool, true, false, ◌&&◌, ◌||◌, not, List, [], ◌∷◌, ◌++◌, Option, none, some,
  length, leb, ltb, ◌==◌, if◌then◌else◌,
}
use aliyun_odps_sdk_cpp.Prelude.Int.{ℤ, pos, negsuc, ◌+ℤ◌, ◌-ℤ◌, ltb_ℤ}
use aliyun_odps_sdk_cpp.Upload.{put_key}
use aliyun_odps_sdk_cpp.Result.{
  Result, ok, err, Error, empty_slot_map, invalid_bucket_value, pack_not_flushed,
  upsert_stream_closed, upsert_stream_error, server_error, plain_error, undefined, out_of_fuel,
  ◌>>=◌,
}

-- UpsertSession::LoadSlots. A slot is the list of its buckets, and a map is the list of its keys. The
-- numbers of the buckets are their bit patterns, as the test reads them.
unfoldable pub insert_buckets : List ℕ → List ℕ → List ℕ
insert_buckets [] keys = keys
insert_buckets (b ∷ bs) keys = insert_buckets bs (put_key b keys)

unfoldable pub all_below : ℕ → List ℕ → Bool
all_below n [] = true
all_below n (k ∷ keys) = ltb k n && all_below n keys

unfoldable pub check_buckets : List ℕ → Result (List ℕ)
check_buckets keys = if all_below (length keys) keys then ok keys else err invalid_bucket_value

unfoldable pub insert_slots : List (List ℕ) → List ℕ → Result (List ℕ)
insert_slots [] keys = ok keys
insert_slots (slot ∷ slots) keys =
    check_buckets (insert_buckets slot keys) >>= λ more. insert_slots slots more

unfoldable pub load_upsert_slots : List (List ℕ) → Result (List ℕ)
load_upsert_slots [] = err empty_slot_map
load_upsert_slots (slot ∷ slots) = insert_slots (slot ∷ slots) []

pub data Status : Type 0 where
  normal error closed : Status

unfoldable pub check_status : Status → Result (Unit {0})
check_status normal = ok tt
check_status closed = err upsert_stream_closed
check_status error = err upsert_stream_error

-- WriteRecordPack and OnFlush return; WriteRecordPack throws; WriteRecordPack returns and OnFlush
-- throws. The flag is what OnFlushFail answers: try again.
pub data Attempt : Type 0 where
  written : Attempt
  refused : Bool → Attempt
  listener_refused : Bool → Attempt

pub record Pack (R : Type 0) : Type 0 where
  pub records : List R
  pub completed : Bool

abbrev pub empty_pack : {R : Type 0} → Pack R
empty_pack = record { records = []; completed = false }

pub record Stream (R : Type 0) : Type 0 where
  pub packs : List (ℕ × Pack R)
  pub status : Status
  pub slot_size : ℤ
  pub max_size : ℤ
  pub total : ℤ
  pub listens : Bool

-- How a call ended: the stream, what was sent and for which bucket, and what was thrown.
pub record Done (R : Type 0) : Type 0 where
  pub stream : Stream R
  pub sent : List (ℕ × List R)
  pub thrown : Option Error

-- How the attempts to send a pack ended, with the attempts that are left.
pub record Tried (R : Type 0) : Type 0 where
  pub pack : Pack R
  pub packets : List (List R)
  pub attempts : List Attempt
  pub failed : Option Error
  pub broken : Bool

-- A turn of a loop, with the attempts and the total that it leaves.
pub record FlushTurn (R : Type 0) : Type 0 where
  pub done : Done R
  pub left : List Attempt
  pub sum : ℤ

module _ {R : Type 0} where
  unfoldable pub find_pack : ℕ → List (ℕ × Pack R) → Option (Pack R)
  find_pack b [] = none
  find_pack b ((k, p) ∷ packs) = if b == k then some p else find_pack b packs

  unfoldable pub put_pack : ℕ → Pack R → List (ℕ × Pack R) → List (ℕ × Pack R)
  put_pack b p [] = (b, p) ∷ []
  put_pack b p ((k, q) ∷ packs) = if b == k then (k, p) ∷ packs else (k, q) ∷ put_pack b p packs

  abbrev pub completed_pack : Pack R → Pack R
  completed_pack p = record p { completed = true }

  abbrev pub with_packet : List R → Tried R → Tried R
  with_packet rs t = record t { packets = rs ∷ t.packets }

  -- The do-while loop of Flush around RecordPack::Flush, which completes the pack, sends it, and
  -- resets it once it is sent.
  unfoldable pub try_flush : Bool → List Attempt → Pack R → Tried R
  try_flush listens [] p = record {
    pack = completed_pack p;
    packets = [];
    attempts = [];
    failed = some out_of_fuel;
    broken = false;
  }
  try_flush listens (written ∷ attempts) p = record {
    pack = empty_pack;
    packets = p.records ∷ [];
    attempts = attempts;
    failed = none;
    broken = false;
  }
  try_flush true (refused true ∷ attempts) p = try_flush true attempts (completed_pack p)
  try_flush true (refused false ∷ attempts) p = record {
    pack = completed_pack p;
    packets = [];
    attempts = attempts;
    failed = some server_error;
    broken = true;
  }
  try_flush false (refused again ∷ attempts) p = record {
    pack = completed_pack p;
    packets = [];
    attempts = attempts;
    failed = some server_error;
    broken = false;
  }
  try_flush true (listener_refused true ∷ attempts) p =
      with_packet p.records (try_flush true attempts empty_pack)
  try_flush true (listener_refused false ∷ attempts) p = record {
    pack = empty_pack;
    packets = p.records ∷ [];
    attempts = attempts;
    failed = some server_error;
    broken = true;
  }
  try_flush false (listener_refused again ∷ attempts) p = record {
    pack = empty_pack;
    packets = p.records ∷ [];
    attempts = attempts;
    failed = none;
    broken = false;
  }

  abbrev pub addressed : ℕ → List (List R) → List (ℕ × List R)
  addressed b [] = []
  addressed b (rs ∷ packets) = (b, rs) ∷ addressed b packets

  abbrev pub with_sent : List (ℕ × List R) → Done R → Done R
  with_sent sent d = record d { sent = sent ++ d.sent }

  abbrev pub stopped : Stream R → Error → Done R
  stopped s thrown = record { stream = s; sent = []; thrown = some thrown }

  -- The constructor makes a pack for each bucket. The sizes are those that a client can set.
  unfoldable pub new_packs : List ℕ → List (ℕ × Pack R)
  new_packs [] = []
  new_packs (b ∷ buckets) = (b, empty_pack) ∷ new_packs buckets

  unfoldable pub new_stream : List ℕ → ℤ → ℤ → Bool → Stream R
  new_stream buckets slot_size max_size listens = record {
    packs = new_packs buckets;
    status = normal;
    slot_size = slot_size;
    max_size = max_size;
    total = pos 0;
    listens = listens;
  }

  unfoldable pub unless_thrown : Option Error → Done R → Done R → Done R
  unless_thrown none d rest = with_sent d.sent rest
  unless_thrown (some thrown) d rest = d

  unfoldable pub reset_found : ℕ → Option (Pack R) → List (ℕ × Pack R) → List (ℕ × Pack R)
  reset_found b none packs = packs
  reset_found b (some p) packs = put_pack b empty_pack packs

  unfoldable pub reset_packs : List ℕ → List (ℕ × Pack R) → List (ℕ × Pack R)
  reset_packs [] packs = packs
  reset_packs (b ∷ buckets) packs = reset_packs buckets (reset_found b (find_pack b packs) packs)

  unfoldable pub reset : List ℕ → Stream R → Stream R
  reset buckets s = record s { packs = reset_packs buckets s.packs; total = pos 0; status = normal }

  -- The end of Flush.
  unfoldable pub set_total : Bool → ℤ → Stream R → Stream R
  set_total all total s = record s { total = if all then pos 0 else total }

  unfoldable pub if_open : Result (Unit {0}) → Stream R → Done R → Done R
  if_open (err thrown) s rest = stopped s thrown
  if_open (ok _) s rest = rest

  unfoldable pub closed_if : Option Error → Done R → Done R
  closed_if none d = record d { stream = record d.stream { status = closed } }
  closed_if (some thrown) d = d

-- A pack's buffer with some records, completed or not.
module _ {R : Type 0} (data_size : Bool → List R → ℕ) where
  abbrev pub size_of : Pack R → ℤ
  size_of p = pos (data_size p.completed p.records)

  unfoldable pub is_due : Bool → Stream R → Pack R → Bool
  is_due all s p = ltb_ℤ s.slot_size (size_of p) || all

  -- One turn of Flush's loop over the buckets, with the total so far.
  unfoldable pub pass_over : List Attempt → ℤ → Stream R → FlushTurn R
  pass_over attempts total s = record {
    done = record { stream = s; sent = []; thrown = none };
    left = attempts;
    sum = total;
  }

  -- OnFlushFail's refusal breaks the stream.
  unfoldable pub flushed : ℕ → Tried R → ℤ → Stream R → FlushTurn R
  flushed b t total s = record {
    done = record {
      stream = record s {
        packs = put_pack b t.pack s.packs;
        status = if t.broken then error else s.status;
      };
      sent = addressed b t.packets;
      thrown = t.failed;
    };
    left = t.attempts;
    sum = total +ℤ size_of t.pack;
  }

  unfoldable pub flush_found :
      Bool → ℕ → Option (Pack R) → List Attempt → ℤ → Stream R → FlushTurn R
  flush_found all b none attempts total s = pass_over attempts total s
  flush_found all b (some p) attempts total s =
      if length p.records == 0
      then pass_over attempts total s
      else if is_due all s p
      then flushed b (try_flush s.listens attempts p) total s
      else pass_over attempts (total +ℤ size_of p) s

  unfoldable pub flush_buckets : Bool → List ℕ → List Attempt → ℤ → Stream R → Done R
  flush_buckets all [] attempts total s = record {
    stream = set_total all total s;
    sent = [];
    thrown = none;
  }
  flush_buckets all (b ∷ buckets) attempts total s =
      let turn = flush_found all b (find_pack b s.packs) attempts total s in
      unless_thrown turn.done.thrown turn.done
        (flush_buckets all buckets turn.left turn.sum turn.done.stream)

  -- `buckets` are the keys of the session's map.
  unfoldable pub flush : Bool → List ℕ → List Attempt → Stream R → Done R
  flush all buckets attempts s = flush_buckets all buckets attempts (pos 0) s

  unfoldable pub flush_if_needed : List ℕ → List Attempt → Pack R → Stream R → Done R
  flush_if_needed buckets attempts p s =
      if ltb_ℤ s.slot_size (size_of p)
      then flush false buckets attempts s
      else if ltb_ℤ s.max_size s.total
      then flush true buckets attempts s
      else record { stream = s; sent = []; thrown = none }

  -- A null pointer is followed where there is no pack.
  unfoldable pub append_to : Option (Pack R) → ℕ → List ℕ → R → List Attempt → Stream R → Done R
  append_to none b buckets r attempts s = stopped s undefined
  append_to (some p) b buckets r attempts s =
      let more : Pack R = record p { records = p.records ++ r ∷ [] } in
      if p.completed
      then stopped s pack_not_flushed
      else flush_if_needed buckets attempts more record s {
        packs = put_pack b more s.packs;
        total = s.total +ℤ (size_of more -ℤ size_of p);
      }

  -- The record with its operation and its columns, and its hash as a size_t.
  unfoldable pub write_open : List ℕ → ℕ → R → List Attempt → Stream R → Done R
  write_open buckets hash r attempts s =
      let b = hash % length buckets in
      if length buckets == 0
      then stopped s undefined
      else append_to (find_pack b s.packs) b buckets r attempts s

  unfoldable pub write_record : List ℕ → ℕ → R → List Attempt → Stream R → Done R
  write_record buckets hash r attempts s =
      if_open (check_status s.status) s (write_open buckets hash r attempts s)

  unfoldable pub close_from : Status → List ℕ → List Attempt → Stream R → Done R
  close_from normal buckets attempts s =
      let d = flush true buckets attempts s in closed_if d.thrown d
  close_from other buckets attempts s = record { stream = s; sent = []; thrown = none }

  unfoldable pub close_stream : List ℕ → List Attempt → Stream R → Done R
  close_stream buckets attempts s = close_from s.status buckets attempts s
