-- ===== src/Upsert/Kept.antt =====
-- That an upsert stream (tunnel/upsert_stream.cpp) keeps every record until it is sent.
use aliyun_odps_sdk_cpp.Prelude.{
  ℕ, ◌%◌, ◌≡◌, ◌≢◌, ◌⊎◌, inl, inr, refl, sym, ap, ◌∙◌, Bool, true, false, List, [], ◌∷◌, ◌++◌,
  append_assoc, append-nil, Option, none, some, length, ◌==◌, ==_iff, if◌then◌else◌, arith,
  Bool-cases, subst,
}
use aliyun_odps_sdk_cpp.Prelude.Int.{ℤ, pos, ltb_ℤ, ◌+ℤ◌, ◌-ℤ◌}
use aliyun_odps_sdk_cpp.Result.{Result, ok, err, Error, undefined, pack_not_flushed}
use aliyun_odps_sdk_cpp.Upsert.{
  Pack, Stream, Done, Attempt, written, refused, listener_refused, check_status, find_pack,
  put_pack, size_of, completed_pack, try_flush, addressed, stopped, unless_thrown, empty_pack,
  is_due, set_total, pass_over, flushed, flush_found, flush_buckets, flush, flush_if_needed,
  append_to, write_open, if_open, write_record,
}

module _ {R : Type 0} where
  -- The records that a bucket's pack holds.
  unfoldable pub held_in : Option (Pack R) → List R
  held_in none = []
  held_in (some p) = p.records

  unfoldable pub held : ℕ → List (ℕ × Pack R) → List R
  unfolding held_in
  held b packs = held_in (find_pack b packs)

  -- The records that were sent for a bucket, in the order of sending.
  unfoldable pub sent_to : ℕ → List (ℕ × List R) → List R
  sent_to b [] = []
  sent_to b ((k, rs) ∷ sent) = (if b == k then rs else []) ++ sent_to b sent

  sent_to-append :
      (b : ℕ) (xs ys : List (ℕ × List R)) → sent_to b (xs ++ ys) ≡ sent_to b xs ++ sent_to b ys
  unfolding sent_to
  sent_to-append b [] ys = refl
  sent_to-append b ((k, rs) ∷ xs) ys =
      ap (λ t. (if b == k then rs else []) ++ t) (sent_to-append b xs ys)
      ∙ sym (append_assoc (if b == k then rs else []) (sent_to b xs) (sent_to b ys))

  pub find_pack-put :
      (b k : ℕ) (p : Pack R) (packs : List (ℕ × Pack R))
      → find_pack b (put_pack k p packs) ≡ (if b == k then some p else find_pack b packs)
  unfolding find_pack put_pack
  find_pack-put b k p [] = refl
  find_pack-put b k p ((j, q) ∷ packs) = ground (arith, find_pack-put b k p packs)

  joined : List (List R) → List R
  joined [] = []
  joined (rs ∷ packets) = rs ++ joined packets

  -- What was sent and what is in the pack make up what was in the pack.
  try_flush-joined :
      (listens : Bool) (attempts : List Attempt) (p : Pack R)
      → joined (try_flush listens attempts p).packets ++ (try_flush listens attempts p).pack.records
        ≡ p.records
  unfolding try_flush joined
  try_flush-joined listens [] p = refl
  try_flush-joined listens (written ∷ attempts) p = append-nil _ ∙ append-nil _
  try_flush-joined true (refused true ∷ attempts) p =
      try_flush-joined true attempts (completed_pack p)
  try_flush-joined true (refused false ∷ attempts) p = refl
  try_flush-joined false (refused again ∷ attempts) p = refl
  try_flush-joined true (listener_refused true ∷ attempts) p =
      append_assoc p.records (joined (try_flush true attempts empty_pack).packets)
        (try_flush true attempts (empty_pack {R = R})).pack.records
      ∙ ap (λ t. p.records ++ t) (try_flush-joined true attempts empty_pack)
      ∙ append-nil _
  try_flush-joined true (listener_refused false ∷ attempts) p = append-nil _ ∙ append-nil _
  try_flush-joined false (listener_refused again ∷ attempts) p = append-nil _ ∙ append-nil _

  sent_to-addressed :
      (b k : ℕ) (packets : List (List R))
      → sent_to b (addressed k packets) ≡ (if b == k then joined packets else [])
  unfolding sent_to joined
  sent_to-addressed b k [] = elim (Bool-cases (b == k)) [ inl e ↦ rw e refl | inr e ↦ rw e refl ]
  sent_to-addressed b k (rs ∷ packets) = elim (Bool-cases (b == k)) [
    | inl e ↦ ap (λ t. (if b == k then rs else []) ++ t) (sent_to-addressed b k packets) ∙ rw e refl
    | inr e ↦ ap (λ t. (if b == k then rs else []) ++ t) (sent_to-addressed b k packets) ∙ rw e refl
  ]

  -- Nothing of a bucket is lost or sent twice between two streams.
  abbrev pub IsKept : ℕ → List (ℕ × Pack R) → List (ℕ × List R) → List (ℕ × Pack R) → Type 0
  IsKept b packs sent later = sent_to b sent ++ held b later ≡ held b packs

  no_records : (b : ℕ) (packs : List (ℕ × Pack R)) → IsKept b packs [] packs
  unfolding sent_to
  no_records b packs = refl

  held-put :
      (b k : ℕ) (p : Pack R) (packs : List (ℕ × Pack R))
      → held b (put_pack k p packs) ≡ (if b == k then p.records else held b packs)
  unfolding held
  held-put b k p packs = elim (Bool-cases (b == k)) [
    | inl e ↦ rw (find_pack-put b k p packs, e) refl
    | inr e ↦ rw (find_pack-put b k p packs, e) refl
  ]

  held-found :
      (b k : ℕ) (p : Pack R) (packs : List (ℕ × Pack R))
      → (b == k) ≡ true
      → find_pack k packs ≡ some p
      → held b packs ≡ p.records
  unfolding held
  held-found b k p packs e found =
      ap (λ i. held_in (find_pack i packs)) ((==_iff b k).0 e) ∙ ap held_in found

  flushed-IsKept :
      (b k : ℕ) (listens : Bool) (attempts : List Attempt) (p : Pack R) (packs : List (ℕ × Pack R))
      → find_pack k packs ≡ some p
      → IsKept b packs
          (addressed k (try_flush listens attempts p).packets)
          (put_pack k (try_flush listens attempts p).pack packs)
  flushed-IsKept b k listens attempts p packs found = elim (Bool-cases (b == k)) [
    | inl e ↦
        rw
          (
            sent_to-addressed b k (try_flush listens attempts p).packets,
            held-put b k (try_flush listens attempts p).pack packs,
            e,
          )
          (try_flush-joined listens attempts p ∙ sym (held-found b k p packs e found))
    | inr e ↦
        rw
          (
            sent_to-addressed b k (try_flush listens attempts p).packets,
            held-put b k (try_flush listens attempts p).pack packs,
            e,
          )
          refl
  ]

module _ {R : Type 0} (data_size : Bool → List R → ℕ) where
  flush_found-IsKept :
      (all : Bool) (b k : ℕ) (found : Option (Pack R)) (attempts : List Attempt) (total : ℤ)
      (s : Stream R)
      → find_pack k s.packs ≡ found
      → let turn = flush_found data_size all k found attempts total s in
        IsKept b s.packs turn.done.sent turn.done.stream.packs
  unfolding flush_found pass_over flushed
  flush_found-IsKept all b k none attempts total s e = no_records b s.packs
  flush_found-IsKept all b k (some p) attempts total s e =
      elim (Bool-cases (length p.records == 0)) [
        | inl empty ↦ rw empty (no_records b s.packs)
        | inr more ↦ elim (Bool-cases (is_due data_size all s p)) [
          | inl due ↦ rw (more, due) (flushed-IsKept b k s.listens attempts p s.packs e)
          | inr later ↦ rw (more, later) (no_records b s.packs)
        ]
      ]

  unless_thrown-IsKept :
      (b : ℕ) (packs : List (ℕ × Pack R)) (thrown : Option Error) (d rest : Done R)
      → IsKept b packs d.sent d.stream.packs
      → IsKept b d.stream.packs rest.sent rest.stream.packs
      → IsKept b packs (unless_thrown thrown d rest).sent (unless_thrown thrown d rest).stream.packs
  unfolding unless_thrown
  unless_thrown-IsKept b packs (some thrown) d rest h k = h
  unless_thrown-IsKept b packs none d rest h k =
      ap (λ t. t ++ held b rest.stream.packs) (sent_to-append b d.sent rest.sent)
      ∙ append_assoc (sent_to b d.sent) (sent_to b rest.sent) (held b rest.stream.packs)
      ∙ ap (λ t. sent_to b d.sent ++ t) k
      ∙ h

  flush_buckets-IsKept :
      (all : Bool) (b : ℕ) (buckets : List ℕ) (attempts : List Attempt) (total : ℤ) (s : Stream R)
      → let d = flush_buckets data_size all buckets attempts total s in
        IsKept b s.packs d.sent d.stream.packs
  unfolding flush_buckets set_total
  flush_buckets-IsKept all b [] attempts total s = no_records b s.packs
  flush_buckets-IsKept all b (k ∷ buckets) attempts total s =
      let turn = flush_found data_size all k (find_pack k s.packs) attempts total s in
      unless_thrown-IsKept b s.packs turn.done.thrown turn.done _
        (flush_found-IsKept all b k (find_pack k s.packs) attempts total s refl)
        (flush_buckets-IsKept all b buckets turn.left turn.sum turn.done.stream)

  -- A flush of all packs or of those that are due, however its attempts end and whatever it throws,
  -- loses no record and sends none twice: for each bucket, what was sent and then what its pack holds
  -- afterwards is what its pack held before, in the same order.
  pub flush-IsKept :
      (all : Bool) (b : ℕ) (buckets : List ℕ) (attempts : List Attempt) (s : Stream R)
      → let d = flush data_size all buckets attempts s in IsKept b s.packs d.sent d.stream.packs
  unfolding flush
  flush-IsKept all b buckets attempts s = flush_buckets-IsKept all b buckets attempts (pos 0) s

  -- What a call of Write took: the record, or nothing if it threw.
  abbrev pub HasTaken : ℕ → R → List (ℕ × Pack R) → Done R → Type 0
  HasTaken k r packs d =
      (taken : List R) × ((taken ≡ r ∷ []) ⊎ ((taken ≡ []) × (d.thrown ≢ none)))
      × ((b : ℕ)
          → sent_to b d.sent ++ held b d.stream.packs
            ≡ held b packs ++ (if b == k then taken else []))

  nothing_taken :
      (k : ℕ) (r : R) (s : Stream R) (thrown : Error) → HasTaken k r s.packs (stopped s thrown)
  unfolding sent_to
  nothing_taken k r s thrown = (
    [],
    inr (refl, λ e. cc e),
    λ b. elim (Bool-cases (b == k)) [
      | inl e ↦ rw e (sym (append-nil _))
      | inr e ↦ rw e (sym (append-nil _))
    ],
  )

  flush_if_needed-IsKept :
      (b : ℕ) (buckets : List ℕ) (attempts : List Attempt) (p : Pack R) (s : Stream R)
      → let d = flush_if_needed data_size buckets attempts p s in
        IsKept b s.packs d.sent d.stream.packs
  unfolding flush_if_needed
  flush_if_needed-IsKept b buckets attempts p s =
      elim (Bool-cases (ltb_ℤ s.slot_size (size_of data_size p))) [
        | inl e ↦ rw e (flush-IsKept false b buckets attempts s)
        | inr e ↦ elim (Bool-cases (ltb_ℤ s.max_size s.total)) [
          | inl f ↦ rw (e, f) (flush-IsKept true b buckets attempts s)
          | inr f ↦ rw (e, f) (no_records b s.packs)
        ]
      ]

  taken_in :
      (k : ℕ) (r : R) (p : Pack R) (packs : List (ℕ × Pack R)) (b : ℕ)
      → find_pack k packs ≡ some p
      → held b (put_pack k (record p { records = p.records ++ r ∷ [] }) packs)
        ≡ held b packs ++ (if b == k then r ∷ [] else [])
  taken_in k r p packs b e =
      let more : Pack R = record p { records = p.records ++ r ∷ [] } in
      elim (Bool-cases (b == k)) [
        | inl same ↦
            rw (held-put b k more packs, same)
              (ap (λ t. t ++ r ∷ []) (sym (held-found b k p packs same e)))
        | inr other ↦ rw (held-put b k more packs, other) (sym (append-nil (held b packs)))
      ]

  append_to-HasTaken :
      (found : Option (Pack R)) (k : ℕ) (buckets : List ℕ) (r : R) (attempts : List Attempt)
      (s : Stream R)
      → find_pack k s.packs ≡ found
      → HasTaken k r s.packs (append_to data_size found k buckets r attempts s)
  unfolding append_to
  append_to-HasTaken none k buckets r attempts s e = nothing_taken k r s undefined
  append_to-HasTaken (some p) k buckets r attempts s e =
      let more : Pack R = record p { records = p.records ++ r ∷ [] } in
      let t : Stream R = record s {
        packs = put_pack k more s.packs;
        total = s.total +ℤ (size_of data_size more -ℤ size_of data_size p);
      } in
      let d = flush_if_needed data_size buckets attempts more t in
      let choose =
        λ (c : Bool). HasTaken k r s.packs (if c then stopped s pack_not_flushed else d) in
      elim (Bool-cases p.completed) [
        | inl done ↦ subst choose (sym done) (nothing_taken k r s pack_not_flushed)
        | inr not_done ↦ subst choose (sym not_done) (
          r ∷ [],
          inl refl,
          λ b. flush_if_needed-IsKept b buckets attempts more t ∙ taken_in k r p s.packs b e,
        )
      ]

  write_open-HasTaken :
      (buckets : List ℕ) (hash : ℕ) (r : R) (attempts : List Attempt) (s : Stream R)
      → HasTaken (hash % length buckets) r s.packs (write_open data_size buckets hash r attempts s)
  unfolding write_open
  write_open-HasTaken buckets hash r attempts s =
      let k = hash % length buckets in
      elim (Bool-cases (length buckets == 0)) [
        | inl e ↦ rw e (nothing_taken k r s undefined)
        | inr e ↦ rw e (append_to-HasTaken (find_pack k s.packs) k buckets r attempts s refl)
      ]

  if_open-HasTaken :
      (open_so : Result (Unit {0})) (k : ℕ) (r : R) (s : Stream R) (d : Done R)
      → HasTaken k r s.packs d
      → HasTaken k r s.packs (if_open open_so s d)
  unfolding if_open
  if_open-HasTaken (err thrown) k r s d h = nothing_taken k r s thrown
  if_open-HasTaken (ok _) k r s d h = h

  -- A call of Write, with whatever it flushes and whatever it throws, has taken the record into the
  -- pack of its hash's bucket, or has thrown and taken nothing. For each bucket, what was sent and
  -- then what its pack holds afterwards is what its pack held before, followed by the record if it is
  -- the record's bucket and the record was taken.
  pub write_record-HasTaken :
      (buckets : List ℕ) (hash : ℕ) (r : R) (attempts : List Attempt) (s : Stream R)
      → HasTaken
          (hash % length buckets)
          r
          s.packs
          (write_record data_size buckets hash r attempts s)
  unfolding write_record
  write_record-HasTaken buckets hash r attempts s =
      if_open-HasTaken (check_status s.status) (hash % length buckets) r s _
        (write_open-HasTaken buckets hash r attempts s)
