-- ===== src/Serialize/Record/Stream.antt =====
-- A whole stream: tunnel/serialize.cpp's Serialize on each record and then Complete, against
-- Deserialize until it returns false.
use aliyun_odps_sdk_cpp.Prelude.{
  ℕ, zero, suc, ◌+◌, ◌^◌, ◌<◌, ◌≤◌, ◌≡◌, refl, ap, sym, subst, ◌∙◌, Bool, true, false, Bytes, List,
  [], ◌∷◌, ◌++◌, append_assoc, length, ==_refl, arith, if◌then◌else◌, replicate,
}
use aliyun_odps_sdk_cpp.Prelude.Int.{pos}
use mathlib.Core.List.{append_cancel_left}
use aliyun_odps_sdk_cpp.Result.{Result, ok, err, out_of_fuel, ◌>>=◌, ok-injective}
use aliyun_odps_sdk_cpp.Serialize.External.{External, Laws}
use aliyun_odps_sdk_cpp.Serialize.Cell.{Sums}
use aliyun_odps_sdk_cpp.Serialize.Record.{
  Record, Config, Serializer, Deserializer, serialize, complete, deserialize, total_records_field,
  total_checksum, read_fields, go_on, reached_end, meta_total_records_tag, meta_checksum_tag,
  put_coded, new_deserializer, int_is,
}
use aliyun_odps_sdk_cpp.Serialize.Record.Fields.{FitsRecord}
use aliyun_odps_sdk_cpp.Serialize.Record.RoundTrip.{
  InStep, Sync, turn-total, turn-checksum, fits-length, record_round_trip,
}

module _ (x : External) (config : Config) where
  -- Serialize on each record, then Complete.
  unfoldable pub write_stream : List Record → Serializer → Result Serializer
  write_stream [] w = ok (complete x config w)
  write_stream (r ∷ rs) w = serialize x config false r w >>= λ (done, w'). write_stream rs w'

  -- Deserialize into the one record `r` until it returns false.
  unfoldable pub read_stream : ℕ → Record → Deserializer → Result (List Record × Deserializer)
  read_stream zero r d = err out_of_fuel
  read_stream (suc fuel) r d = deserialize x config r d >>= λ (more, r', d'). elim more [
    | true ↦ read_stream fuel r' d' >>= λ (rs, d''). ok (r' ∷ rs, d'')
    | false ↦ ok ([], d')
  ]

-- The checksum over everything, on the writer's side and on the reader's.
abbrev final_checksum : External → Bool → Bytes → Sums → ℕ → ℕ
final_checksum x stream b s c =
    if stream then x.checksum (put_coded x stream b s).coded else x.checksum c

final-eq :
    (x : External) (stream : Bool) (b : Bytes) (w : Serializer) (d : Deserializer)
    → InStep x stream w d
    → final_checksum x stream b w.sums w.crc_crc ≡ final_checksum x stream b d.sums d.crc_crc
final-eq x true b w d h = ap (λ c. x.checksum (x.process_bytes c b)) h
final-eq x false b w d h = ap x.checksum h.1

final-lt :
    (x : External)
    → Laws x
    → (stream : Bool) (b : Bytes) (s : Sums) (c : ℕ) → final_checksum x stream b s c < 2 ^ 32
final-lt x laws true b s c = laws.checksum-lt _
final-lt x laws false b s c = laws.checksum-lt _

-- A reader that is in step with any writer.
abbrev reader_of : External → Serializer → Deserializer
reader_of x w = record (new_deserializer x []) {
  sums = record w.sums { record_crc = x.crc_start };
  crc_crc = w.crc_crc;
  total_records = w.total_records;
}

reader_of-InStep :
    (x : External) (stream : Bool) (w : Serializer) → InStep x stream w (reader_of x w)
reader_of-InStep x true w = refl
reader_of-InStep x false w = (refl, refl)

module _ (x : External) (laws : Laws x) (config : Config) where
  open config use {columns, max_field_size, stream}

  abbrev total_bytes : ℕ → Bytes
  total_bytes n = x.write_sint64 meta_total_records_tag (pos n)

  -- The reader behind the count of records.
  abbrev counted : Deserializer → Bytes → Deserializer
  counted d rest = record d {
    input = rest;
    sums = put_coded x stream (total_bytes d.total_records) d.sums;
    got_total_records = true;
    received_total_records = pos d.total_records;
  }

  total-step :
      (d : Deserializer) (n : ℕ) (rest : Bytes) (r : Record) (m : List Bool)
      → n ≡ d.total_records
      → n < 2 ^ 63
      → total_records_field x config d (x.write_sint64_no_tag (pos n) ++ rest) r m
        ≡ ok (go_on (counted d rest) r m)
  unfolding total_records_field int_is
  total-step d n rest r m e h = rw (← e) (rw (laws.sint64_lem (pos n) rest h) (rw (==_refl n)))

  checksum-step :
      (d : Deserializer) (crc : ℕ) (rest : Bytes) (r : Record)
      → crc < 2 ^ 32
      → crc ≡ (if stream then x.checksum d.sums.coded else x.checksum d.crc_crc)
      → total_checksum x config d (x.write_uint32_no_tag crc ++ rest) r
        ≡ ok (reached_end (record d { input = rest; received_checksum = crc }) r)
  unfolding total_checksum
  checksum-step d crc rest r h e = rw (← e) (rw (laws.uint32_lem crc rest h) (rw (==_refl crc)))

  read_checksum :
      (d : Deserializer) (crc : ℕ) (rest : Bytes) (r : Record) (m : List Bool) (fuel : ℕ)
      → d.got_total_records ≡ true
      → crc < 2 ^ 32
      → crc ≡ (if stream then x.checksum d.sums.coded else x.checksum d.crc_crc)
      → 0 < fuel
      → read_fields x config fuel
          (record d { input = x.write_uint32 meta_checksum_tag crc ++ rest })
          r
          m
        ≡ ok (false, r, record d { input = rest; received_checksum = crc })
  unfolding read_fields
  read_checksum d crc rest r m zero g h e l = absurd (omega arith)
  read_checksum d crc rest r m (suc fuel) g h e l =
      let input = x.write_uint32 meta_checksum_tag crc ++ rest in
      let tagged = laws.tag_uint32 meta_checksum_tag crc rest (omega arith, omega arith) in
      rw
        (turn-checksum x laws config (record d { input = input })
          (x.write_uint32_no_tag crc ++ rest) r m tagged g)
        (rw (checksum-step (record d { input = input }) crc rest r h e))

  -- The checksum that Complete writes.
  abbrev complete_checksum : Serializer → ℕ
  complete_checksum w = final_checksum x stream (total_bytes w.total_records) w.sums w.crc_crc

  end_run :
      (w : Serializer) (d : Deserializer) (rest : Bytes) (r : Record)
      → Sync x laws config w d
      → w.total_records < 2 ^ 63
      → deserialize x config r (record d {
        input =
            total_bytes w.total_records
            ++ (x.write_uint32 meta_checksum_tag (complete_checksum w) ++ rest);
      })
        ≡ ok (false, r, record (counted d rest) { received_checksum = complete_checksum w })
  unfolding deserialize read_fields
  end_run w d rest r sync h =
      let n = w.total_records in
      let crc = complete_checksum w in
      let after = x.write_uint32 meta_checksum_tag crc ++ rest in
      let input = total_bytes n ++ after in
      let tagged =
        laws.tag_sint64 meta_total_records_tag (pos n) after (omega arith, omega arith) in
      let shorter = laws.tag_shrinks input tagged.0 in
      let m = replicate (length columns) false in
      let same : crc ≡ final_checksum x stream (total_bytes d.total_records) d.sums d.crc_crc =
        final-eq x stream (total_bytes n) w d sync.in_step
        ∙ ap (λ k. final_checksum x stream (total_bytes k) d.sums d.crc_crc) sync.counts in
      rw
        (turn-total x laws config (record d { input = input })
          (x.write_sint64_no_tag (pos n) ++ after) r m tagged sync.not_ended)
        (rw (total-step (record d { input = input }) n after r m sync.counts h) (
          read_checksum (counted d rest) crc rest r m (length input) refl
            (final-lt x laws stream (total_bytes n) w.sums w.crc_crc) same
            (omega (arith, shorter))))

  -- The bytes of Complete are the end of the stream to any reader in step with the writer.
  abbrev EndsWith : Serializer → Bytes → Type 0
  EndsWith w b =
      (d : Deserializer) (rest : Bytes) (r : Record)
      → Sync x laws config w d
      → (d' : Deserializer) × (deserialize x config r (record d { input = b ++ rest })
          ≡ ok (false, r, d'))
        × (d'.input ≡ rest)
        × (d'.received_total_records ≡ pos w.total_records)

  read_end :
      (w : Serializer)
      → w.total_records < 2 ^ 63
      → (b : Bytes) × ((complete x config w).output ≡ w.output ++ b) × EndsWith w b
  unfolding complete
  read_end w h =
      let end_tag = x.write_uint32 meta_checksum_tag (complete_checksum w) in
      (
        total_bytes w.total_records ++ end_tag,
        refl,
        λ d rest r sync. (
          record (counted d rest) { received_checksum = complete_checksum w },
          rw (append_assoc (total_bytes w.total_records) end_tag rest) (end_run w d rest r sync h),
          refl,
          ap pos (sym sync.counts),
        ),
      )

  -- What one record was written to gives it back to every reader in step with the writer.
  abbrev GivesAt : Record → Deserializer → Bytes → Record → Serializer → Bytes → Type 0
  GivesAt r d rest r₀ w' b =
      (d' : Deserializer) × (deserialize x config r₀ (record d { input = b ++ rest })
        ≡ ok (true, r, d'))
      × (d'.input ≡ rest)
      × Sync x laws config w' d'

  abbrev Gives : Record → Serializer → Serializer → Bytes → Type 0
  Gives r w w' b =
      (d : Deserializer) (rest : Bytes) (r₀ : Record)
      → length r₀ ≡ length columns
      → Sync x laws config w d
      → GivesAt r d rest r₀ w' b

  reader_of-Sync : (w : Serializer) → Sync x laws config w (reader_of x w)
  unfolding new_deserializer
  reader_of-Sync w = record {
    in_step = reader_of-InStep x stream w;
    counts = refl;
    not_ended = refl;
  }

  record_Gives :
      (r r' : Record) (w : Serializer)
      → length columns ≤ 10000
      → FitsRecord x max_field_size columns r r'
      → (b : Bytes) × (w' : Serializer) × (serialize x config false r w ≡ ok (true, w'))
        × (w'.output ≡ w.output ++ b)
        × (w'.total_records ≡ w.total_records + 1)
        × Gives r' w w' b
  record_Gives r r' w small f =
      let l = (fits-length x max_field_size f).0 in
      let (b, w₁, hw, out, count, hr) =
        record_round_trip x laws config r r' r w (reader_of x w) small l f (reader_of-Sync w) in
      (
        b,
        w₁,
        hw,
        out,
        count,
        λ d rest r₀ l₀ sync.
            let (b', w₂, hw', out', count', hr') =
              record_round_trip x laws config r r' r₀ w d small l₀ f sync in
            let same : w₂ ≡ w₁ = ap (λ p. p.1) (ok-injective (sym hw' ∙ hw)) in
            let bytes : b' ≡ b =
              append_cancel_left w.output b' b (sym out' ∙ ap (λ v. v.output) same ∙ out) in
            subst (λ v. GivesAt r' d rest r₀ v b) same
              (subst (λ c. GivesAt r' d rest r₀ w₂ c) bytes (hr' rest)),
      )

  abbrev pub ReadsBack : List Record → Serializer → Bytes → Type 0
  ReadsBack rs w b =
      (d : Deserializer) (rest : Bytes) (r₀ : Record) (fuel : ℕ)
      → length r₀ ≡ length columns
      → Sync x laws config w d
      → length rs < fuel
      → (d' : Deserializer) × (read_stream x config fuel r₀ (record d { input = b ++ rest })
          ≡ ok (rs, d'))
        × (d'.input ≡ rest)
        × (d'.received_total_records ≡ pos (w.total_records + length rs))

  read_none : (w : Serializer) (b : Bytes) → EndsWith w b → ReadsBack [] w b
  unfolding read_stream
  read_none w b e d rest r₀ zero l sync k = absurd (omega arith)
  read_none w b e d rest r₀ (suc fuel) l sync k =
      let (d', run, left, total) = e d rest r₀ sync in
      (d', rw run, left, total ∙ ap pos (omega arith))

  read_one :
      (r : Record) (rs : List Record) (w w' : Serializer) (b bs : Bytes)
      → length r ≡ length columns
      → w'.total_records ≡ w.total_records + 1
      → Gives r w w' b
      → ReadsBack rs w' bs
      → ReadsBack (r ∷ rs) w (b ++ bs)
  unfolding read_stream
  read_one r rs w w' b bs l' c one more d rest r₀ zero l sync k = absurd (omega arith)
  read_one r rs w w' b bs l' c one more d rest r₀ (suc fuel) l sync k =
      let (d₁, run, left, sync₁) = one d (bs ++ rest) r₀ l sync in
      let (d', run', left', total) = more d₁ rest r fuel l' sync₁ (omega arith) in
      let back : read_stream x config fuel r d₁ ≡ ok (rs, d') =
        subst (λ i. read_stream x config fuel r (record d₁ { input = i }) ≡ ok (rs, d')) (sym left)
          run' in
      (d', rw append_assoc (rw run (rw back)), left', total ∙ ap pos (omega (arith, c)))

  -- The records of a stream, and those that are read back.
  pub data FitsRecords : List Record → List Record → Type 0 where
    no_records : FitsRecords [] []
    more_records :
        {r r' : Record} {rs rs' : List Record}
        → FitsRecord x max_field_size columns r r'
        → FitsRecords rs rs'
        → FitsRecords (r ∷ rs) (r' ∷ rs')

  -- Any list of records that fit the schema, written by Serialize and ended by Complete, is written
  -- without an exception. Any reader in step with the writer at the start gets from those bytes, by
  -- calls of Deserialize until one returns false, the records that belong to them in that order; it
  -- finds every checksum and the count of records right and stops where the stream ends. It needs one
  -- call more than there are records. A record comes back as it was but for what is inside arrays,
  -- maps and structs: a DATE there, a number of days, becomes its multiple of 86400 towards 0, and a
  -- CHAR or VARCHAR is cut or padded to its length. A map inside has the indices 0, 1, 2 and so on, as
  -- the setters give them, and not the gaps that a key read twice leaves.
  pub stream_round_trip :
      {rs rs' : List Record} (w : Serializer)
      → length columns ≤ 10000
      → FitsRecords rs rs'
      → w.total_records + length rs < 2 ^ 63
      → (b : Bytes) × (w' : Serializer) × (write_stream x config rs w ≡ ok w')
        × (w'.output ≡ w.output ++ b)
        × ReadsBack rs' w b
  unfolding write_stream
  stream_round_trip w small no_records h =
      let (b, out, e) = read_end w (omega arith) in
      (b, complete x config w, refl, out, read_none w b e)
  stream_round_trip w small (more_records {r = r} {r' = r'} {rs = rs} {rs' = rs'} f fs) h =
      let (b, w₁, hw, out, count, one) = record_Gives r r' w small f in
      let (bs, w₂, hw', out', more) = stream_round_trip w₁ small fs (omega (arith, count)) in
      (
        b ++ bs,
        w₂,
        rw hw hw',
        out' ∙ ap (λ o. o ++ bs) out ∙ append_assoc w.output b bs,
        read_one r' rs' w w₁ b bs (fits-length x max_field_size f).1 count one more,
      )
