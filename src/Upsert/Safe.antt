-- ===== src/Upsert/Safe.antt =====
-- That a write to an upsert stream (tunnel/upsert_stream.cpp) finds a pack.
use aliyun_odps_sdk_cpp.Prelude.{
  ℕ, ◌%◌, ◌≡◌, ◌≢◌, ◌<◌, refl, sym, Bool, true, false, List, [], ◌∷◌, ◌++◌, Option, none, some,
  length, ◌==◌, if◌then◌else◌, arith, Bool-cases, inl, inr, subst,
}
use aliyun_odps_sdk_cpp.Prelude.Int.{ℤ, pos, ltb_ℤ, ◌+ℤ◌, ◌-ℤ◌}
use aliyun_odps_sdk_cpp.Result.{
  ok, Error, undefined, pack_not_flushed, upsert_stream_closed, upsert_stream_error,
}
use aliyun_odps_sdk_cpp.Upload.{has_key}
use aliyun_odps_sdk_cpp.Upsert.{
  Pack, Stream, Done, Attempt, written, refused, listener_refused, Status, normal, error, closed,
  check_status, find_pack, put_pack, size_of, completed_pack, try_flush, stopped, unless_thrown,
  empty_pack, is_due, set_total, pass_over, flushed, new_packs, new_stream, flush_found,
  flush_buckets, flush, flush_if_needed, append_to, write_open, if_open, write_record, closed_if,
  close_from, close_stream, reset, reset_packs, reset_found, load_upsert_slots,
}
use aliyun_odps_sdk_cpp.Upsert.Kept.{find_pack-put}
use aliyun_odps_sdk_cpp.Upsert.Buckets.{AreNumbered, numbered-key, load_upsert_slots-AreNumbered}

module _ {R : Type 0} where
  -- Each key has a pack.
  abbrev pub HasPacks : List ℕ → List (ℕ × Pack R) → Type 0
  HasPacks keys packs = (b : ℕ) → has_key b keys ≡ true → find_pack b packs ≢ none

  new_packs-HasPacks : (keys : List ℕ) → HasPacks keys (new_packs keys)
  unfolding new_packs find_pack has_key
  new_packs-HasPacks [] b h = absurd (cc h)
  new_packs-HasPacks (k ∷ keys) b h = elim (Bool-cases (b == k)) [
    | inl e ↦ rw e (λ n. cc n)
    | inr e ↦ rw e (new_packs-HasPacks keys b (rw e at h))
  ]

  put_pack-HasPacks :
      (keys : List ℕ) (k : ℕ) (p : Pack R) (packs : List (ℕ × Pack R))
      → HasPacks keys packs
      → HasPacks keys (put_pack k p packs)
  put_pack-HasPacks keys k p packs h b there = elim (Bool-cases (b == k)) [
    | inl e ↦ rw (find_pack-put b k p packs, e) (λ n. cc n)
    | inr e ↦ rw (find_pack-put b k p packs, e) (h b there)
  ]

  -- What a call may end with: the packs are there, and nothing undefined was done.
  abbrev pub IsSound : List ℕ → Done R → Type 0
  IsSound keys d = HasPacks keys d.stream.packs × (d.thrown ≢ some undefined)

  try_flush-defined :
      (listens : Bool) (attempts : List Attempt) (p : Pack R)
      → (try_flush listens attempts p).failed ≢ some undefined
  unfolding try_flush
  try_flush-defined listens [] p e = cc e
  try_flush-defined listens (written ∷ attempts) p e = cc e
  try_flush-defined true (refused true ∷ attempts) p e =
      try_flush-defined true attempts (completed_pack p) e
  try_flush-defined true (refused false ∷ attempts) p e = cc e
  try_flush-defined false (refused again ∷ attempts) p e = cc e
  try_flush-defined true (listener_refused true ∷ attempts) p e =
      try_flush-defined true attempts empty_pack e
  try_flush-defined true (listener_refused false ∷ attempts) p e = cc e
  try_flush-defined false (listener_refused again ∷ attempts) p e = cc e

  reset_found-HasPacks :
      (keys : List ℕ) (b : ℕ) (found : Option (Pack R)) (packs : List (ℕ × Pack R))
      → HasPacks keys packs
      → HasPacks keys (reset_found b found packs)
  unfolding reset_found
  reset_found-HasPacks keys b none packs h = h
  reset_found-HasPacks keys b (some p) packs h = put_pack-HasPacks keys b empty_pack packs h

  reset_packs-HasPacks :
      (keys buckets : List ℕ) (packs : List (ℕ × Pack R))
      → HasPacks keys packs
      → HasPacks keys (reset_packs buckets packs)
  unfolding reset_packs
  reset_packs-HasPacks keys [] packs h = h
  reset_packs-HasPacks keys (b ∷ buckets) packs h =
      reset_packs-HasPacks keys buckets (reset_found b (find_pack b packs) packs)
        (reset_found-HasPacks keys b (find_pack b packs) packs h)

  stopped-IsSound :
      (keys : List ℕ) (s : Stream R) (thrown : Error)
      → HasPacks keys s.packs
      → thrown ≢ undefined
      → IsSound keys (stopped s thrown)
  stopped-IsSound keys s thrown h n = (h, λ e. n (cc e))

  unless_thrown-IsSound :
      (keys : List ℕ) (thrown : Option Error) (d rest : Done R)
      → IsSound keys d
      → IsSound keys rest
      → IsSound keys (unless_thrown thrown d rest)
  unfolding unless_thrown
  unless_thrown-IsSound keys (some thrown) d rest h k = h
  unless_thrown-IsSound keys none d rest h k = k

module _ {R : Type 0} (data_size : Bool → List R → ℕ) where
  flush_found-IsSound :
      (all : Bool) (keys : List ℕ) (b : ℕ) (found : Option (Pack R)) (attempts : List Attempt)
      (total : ℤ) (s : Stream R)
      → HasPacks keys s.packs
      → IsSound keys (flush_found data_size all b found attempts total s).done
  unfolding flush_found pass_over flushed
  flush_found-IsSound all keys b none attempts total s h = (h, λ e. cc e)
  flush_found-IsSound all keys b (some p) attempts total s h =
      elim (Bool-cases (length p.records == 0)) [
        | inl empty ↦ rw empty (h, λ e. cc e)
        | inr more ↦ elim (Bool-cases (is_due data_size all s p)) [
          | inl due ↦
              rw (more, due)
                (
                  put_pack-HasPacks keys b (try_flush s.listens attempts p).pack s.packs h,
                  try_flush-defined s.listens attempts p,
                )
          | inr later ↦ rw (more, later) (h, λ e. cc e)
        ]
      ]

  flush_buckets-IsSound :
      (all : Bool) (keys buckets : List ℕ) (attempts : List Attempt) (total : ℤ) (s : Stream R)
      → HasPacks keys s.packs
      → IsSound keys (flush_buckets data_size all buckets attempts total s)
  unfolding flush_buckets set_total
  flush_buckets-IsSound all keys [] attempts total s h = (h, λ e. cc e)
  flush_buckets-IsSound all keys (k ∷ buckets) attempts total s h =
      let turn = flush_found data_size all k (find_pack k s.packs) attempts total s in
      let sound = flush_found-IsSound all keys k (find_pack k s.packs) attempts total s h in
      unless_thrown-IsSound keys turn.done.thrown turn.done _ sound
        (flush_buckets-IsSound all keys buckets turn.left turn.sum turn.done.stream sound.0)

  flush_if_needed-IsSound :
      (keys buckets : List ℕ) (attempts : List Attempt) (p : Pack R) (s : Stream R)
      → HasPacks keys s.packs
      → IsSound keys (flush_if_needed data_size buckets attempts p s)
  unfolding flush_if_needed flush
  flush_if_needed-IsSound keys buckets attempts p s h =
      elim (Bool-cases (ltb_ℤ s.slot_size (size_of data_size p))) [
        | inl e ↦ rw e (flush_buckets-IsSound false keys buckets attempts (pos 0) s h)
        | inr e ↦ elim (Bool-cases (ltb_ℤ s.max_size s.total)) [
          | inl f ↦ rw (e, f) (flush_buckets-IsSound true keys buckets attempts (pos 0) s h)
          | inr f ↦ rw (e, f) (h, λ e. cc e)
        ]
      ]

  append_to-IsSound :
      (keys : List ℕ) (found : Option (Pack R)) (k : ℕ) (buckets : List ℕ) (r : R)
      (attempts : List Attempt) (s : Stream R)
      → HasPacks keys s.packs
      → found ≢ none
      → IsSound keys (append_to data_size found k buckets r attempts s)
  unfolding append_to
  append_to-IsSound keys none k buckets r attempts s h n = absurd (n refl)
  append_to-IsSound keys (some p) k buckets r attempts s h n =
      let more : Pack R = record p { records = p.records ++ r ∷ [] } in
      let t : Stream R = record s {
        packs = put_pack k more s.packs;
        total = s.total +ℤ (size_of data_size more -ℤ size_of data_size p);
      } in
      let choose = λ (c : Bool). IsSound keys (
        if c
        then stopped s pack_not_flushed
        else flush_if_needed data_size buckets attempts more t) in
      elim (Bool-cases p.completed) [
        | inl done ↦ subst choose (sym done) (stopped-IsSound keys s pack_not_flushed h (λ e. cc e))
        | inr not_done ↦ subst choose (sym not_done) (
            flush_if_needed-IsSound keys buckets attempts more t
              (put_pack-HasPacks keys k more s.packs h))
      ]

  write_open-IsSound :
      (keys : List ℕ) (hash : ℕ) (r : R) (attempts : List Attempt) (s : Stream R)
      → AreNumbered keys
      → (length keys == 0) ≡ false
      → HasPacks keys s.packs
      → IsSound keys (write_open data_size keys hash r attempts s)
  unfolding write_open
  write_open-IsSound keys hash r attempts s numbered any h =
      let k = hash % length keys in
      let below : k < length keys = ground (arith, any) in
      rw any (
        append_to-IsSound keys (find_pack k s.packs) k keys r attempts s h
          (h k (numbered-key k keys numbered below)))

  if_open-IsSound :
      (keys : List ℕ) (status : Status) (s : Stream R) (d : Done R)
      → HasPacks keys s.packs
      → IsSound keys d
      → IsSound keys (if_open (check_status status) s d)
  unfolding if_open check_status
  if_open-IsSound keys normal s d h k = k
  if_open-IsSound keys error s d h k = stopped-IsSound keys s upsert_stream_error h (λ e. cc e)
  if_open-IsSound keys closed s d h k = stopped-IsSound keys s upsert_stream_closed h (λ e. cc e)

  write_record-IsSound :
      (keys : List ℕ) (hash : ℕ) (r : R) (attempts : List Attempt) (s : Stream R)
      → AreNumbered keys
      → (length keys == 0) ≡ false
      → HasPacks keys s.packs
      → IsSound keys (write_record data_size keys hash r attempts s)
  unfolding write_record
  write_record-IsSound keys hash r attempts s numbered any h =
      if_open-IsSound keys s.status s _ h (write_open-IsSound keys hash r attempts s numbered any h)

  closed_if-IsSound :
      (keys : List ℕ) (thrown : Option Error) (d : Done R)
      → IsSound keys d
      → IsSound keys (closed_if thrown d)
  unfolding closed_if
  closed_if-IsSound keys none d h = h
  closed_if-IsSound keys (some thrown) d h = h

  close_from-IsSound :
      (keys : List ℕ) (status : Status) (attempts : List Attempt) (s : Stream R)
      → HasPacks keys s.packs
      → IsSound keys (close_from data_size status keys attempts s)
  unfolding close_from flush
  close_from-IsSound keys normal attempts s h =
      let d = flush_buckets data_size true keys attempts (pos 0) s in
      closed_if-IsSound keys d.thrown d (flush_buckets-IsSound true keys keys attempts (pos 0) s h)
  close_from-IsSound keys error attempts s h = (h, λ e. cc e)
  close_from-IsSound keys closed attempts s h = (h, λ e. cc e)

  -- The streams that a client can reach, whatever the calls throw.
  pub data Reachable (keys : List ℕ) : Stream R → Type 0 where
    started :
        (slot_size max_size : ℤ) (listens : Bool)
        → Reachable keys (new_stream keys slot_size max_size listens)
    wrote :
        {s : Stream R} (hash : ℕ) (r : R) (attempts : List Attempt)
        → Reachable keys s
        → Reachable keys (write_record data_size keys hash r attempts s).stream
    flushed_some :
        {s : Stream R} (all : Bool) (attempts : List Attempt)
        → Reachable keys s
        → Reachable keys (flush data_size all keys attempts s).stream
    closed_it :
        {s : Stream R} (attempts : List Attempt)
        → Reachable keys s
        → Reachable keys (close_stream data_size keys attempts s).stream
    reset_it : {s : Stream R} → Reachable keys s → Reachable keys (reset keys s)

  Reachable-HasPacks :
      (keys : List ℕ) {s : Stream R}
      → AreNumbered keys
      → (length keys == 0) ≡ false
      → Reachable keys s
      → HasPacks keys s.packs
  unfolding new_stream flush close_stream reset
  Reachable-HasPacks keys n e (started slot_size max_size listens) = new_packs-HasPacks keys
  Reachable-HasPacks keys n e (wrote {s} hash r attempts h) =
      (write_record-IsSound keys hash r attempts s n e (Reachable-HasPacks keys n e h)).0
  Reachable-HasPacks keys n e (flushed_some {s} all attempts h) =
      (flush_buckets-IsSound all keys keys attempts (pos 0) s (Reachable-HasPacks keys n e h)).0
  Reachable-HasPacks keys n e (closed_it {s} attempts h) =
      (close_from-IsSound keys s.status attempts s (Reachable-HasPacks keys n e h)).0
  Reachable-HasPacks keys n e (reset_it {s} h) =
      reset_packs-HasPacks keys keys s.packs (Reachable-HasPacks keys n e h)

  -- If LoadSlots has accepted the slots, with at least one bucket, and the session keeps its buckets,
  -- then on a stream made for them, after any calls, a call of Write never divides by zero and never
  -- follows the null pointer of a bucket without a pack.
  pub Reachable-write_record_defined :
      (slots : List (List ℕ)) (keys : List ℕ) (hash : ℕ) (r : R) (attempts : List Attempt)
      {s : Stream R}
      → load_upsert_slots slots ≡ ok keys
      → (length keys == 0) ≡ false
      → Reachable keys s
      → (write_record data_size keys hash r attempts s).thrown ≢ some undefined
  Reachable-write_record_defined slots keys hash r attempts {s} loaded any h =
      let numbered = load_upsert_slots-AreNumbered slots keys loaded in
      (write_record-IsSound keys hash r attempts s numbered any
        (Reachable-HasPacks keys numbered any h)).1
