-- ===== src/Serialize/Record/RoundTrip.antt =====
-- One record through Serialize and Deserialize of tunnel/serialize.cpp.
use aliyun_odps_sdk_cpp.Prelude.{
  ℕ, zero, suc, ◌+◌, ◌^◌, ◌<◌, ◌≤◌, ◌≡◌, refl, ap, sym, ◌∙◌, Bool, true, false, Bytes, List, [],
  ◌∷◌, ◌++◌, append_assoc, none, length, ==_refl, arith, if◌then◌else◌, replicate,
}
use aliyun_odps_sdk_cpp.Result.{ok}
use aliyun_odps_sdk_cpp.Types.{TypeInfo}
use aliyun_odps_sdk_cpp.Serialize.External.{External, Laws, TagAt}
use aliyun_odps_sdk_cpp.Serialize.Words.{le_bytes}
use aliyun_odps_sdk_cpp.Serialize.Cell.{Sums}
use aliyun_odps_sdk_cpp.Serialize.Record.{
  Record, Config, Serializer, Deserializer, serialize, deserialize, fill_null, turn, end_record,
  total_records_field, meta_field, total_checksum, read_fields, got_record, record_end_tag,
  meta_total_records_tag, meta_checksum_tag, mode_checksum, put_coded, next_crc_crc,
}
use aliyun_odps_sdk_cpp.Serialize.Record.Fields.{
  Agree, FitsRecord, no_columns, null_column, column, at, columns_round_trip,
}

-- What the two sides keep in common between records.
abbrev pub InStep : External → Bool → Serializer → Deserializer → Type 0
InStep x true w d = w.sums.coded ≡ d.sums.coded
InStep x false w d = (d.sums.record_crc ≡ x.crc_start) × (w.crc_crc ≡ d.crc_crc)

pub fill_null-nothing :
    (n : ℕ) (r : Record) → length r ≡ n → fill_null (replicate n false) r ≡ replicate n none
unfolding fill_null
fill_null-nothing zero [] e = refl
fill_null-nothing zero (v ∷ r) e = absurd (omega arith)
fill_null-nothing (suc n) [] e = absurd (omega arith)
fill_null-nothing (suc n) (v ∷ r) e = ap (◌∷◌ none) (fill_null-nothing n r (omega arith))

pub Agree-checksum :
    (x : External) (stream : Bool) (s s' : Sums)
    → Agree stream s s'
    → mode_checksum x stream s ≡ mode_checksum x stream s'
Agree-checksum x true s s' a = ap x.checksum a
Agree-checksum x false s s' a = ap x.checksum a

-- The registers of the reader behind a record.
abbrev reader_sums : External → Bool → Bytes → Sums → Sums
reader_sums x stream end_tag s =
    let s' = put_coded x stream end_tag s in
    if stream then s' else record s' { record_crc = x.crc_start }

pub start-Agree :
    (x : External) (stream : Bool) (w : Serializer) (d : Deserializer)
    → InStep x stream w d
    → Agree stream (record w.sums { record_crc = x.crc_start }) d.sums
start-Agree x true w d h = h
start-Agree x false w d h = sym h.0

mode_checksum-lt :
    (x : External) → Laws x → (stream : Bool) (s : Sums) → mode_checksum x stream s < 2 ^ 32
mode_checksum-lt x laws true s = laws.checksum-lt _
mode_checksum-lt x laws false s = laws.checksum-lt _

pub fits-length :
    (x : External) (limit : ℕ) {ts : List TypeInfo} {r r' : Record}
    → FitsRecord x limit ts r r'
    → (length r ≡ length ts) × (length r' ≡ length ts)
fits-length x limit no_columns = (refl, refl)
fits-length x limit (null_column f) = let (e, e') = fits-length x limit f in (ap suc e, ap suc e')
fits-length x limit (column f fs) = let (e, e') = fits-length x limit fs in (ap suc e, ap suc e')

-- Behind a record both sides are in step again.
end-InStep :
    (x : External) (stream : Bool) (s s' : Sums) (c c' n n' : ℕ) (input output tag : Bytes)
    (w : Serializer) (d : Deserializer)
    → InStep x stream w d
    → Agree stream s s'
    → InStep x stream
        (record w {
          output = output;
          sums = put_coded x stream tag s;
          crc_crc = next_crc_crc x stream w.crc_crc c;
          total_records = n;
        })
        (record d {
          input = input;
          sums = reader_sums x stream tag s';
          crc_crc = next_crc_crc x stream d.crc_crc c;
          total_records = n';
        })
end-InStep x true s s' c c' n n' input output tag w d h a = ap (λ r. x.process_bytes r tag) a
end-InStep x false s s' c c' n n' input output tag w d h a =
    (refl, ap (λ r. x.process_bytes r (le_bytes 4 c)) h.1)

module _ (x : External) (laws : Laws x) (config : Config) where
  open config use {columns, max_field_size, stream}

  -- The reader and the writer have seen the same records, and no end of the stream.
  pub record Sync (w : Serializer) (d : Deserializer) : Type 0 where
    pub in_step : InStep x stream w d
    pub counts : w.total_records ≡ d.total_records
    pub not_ended : d.got_total_records ≡ false

  pub turn-end :
      (d : Deserializer) (mid : Bytes) (r : Record) (m : List Bool)
      → TagAt x record_end_tag d.input mid
      → d.got_total_records ≡ false
      → turn x config d r m ≡ end_record x config d mid r m
  unfolding turn
  turn-end d mid r m (p, e, q) g = rw e (rw q (rw g (ground arith)))

  pub turn-total :
      (d : Deserializer) (mid : Bytes) (r : Record) (m : List Bool)
      → TagAt x meta_total_records_tag d.input mid
      → d.got_total_records ≡ false
      → turn x config d r m ≡ total_records_field x config d mid r m
  unfolding turn
  turn-total d mid r m (p, e, q) g = rw e (rw q (rw g (ground arith)))

  pub turn-checksum :
      (d : Deserializer) (mid : Bytes) (r : Record) (m : List Bool)
      → TagAt x meta_checksum_tag d.input mid
      → d.got_total_records ≡ true
      → turn x config d r m ≡ total_checksum x config d mid r
  unfolding turn meta_field
  turn-checksum d mid r m (p, e, q) g = rw e (rw q (rw g (ground arith)))

  end-step :
      (d : Deserializer) (crc : ℕ) (rest : Bytes) (r : Record) (m : List Bool)
      → crc < 2 ^ 32
      → crc ≡ mode_checksum x stream d.sums
      → end_record x config d (x.write_uint32_no_tag crc ++ rest) r m
        ≡ ok (
            got_record
              (record d {
                input = rest;
                sums = reader_sums x stream (x.write_uint32 record_end_tag crc) d.sums;
                crc_crc = next_crc_crc x stream d.crc_crc crc;
                total_records = d.total_records + 1;
              })
              (fill_null m r))
  unfolding end_record
  end-step d crc rest r m h e = rw (← e) (rw (laws.uint32_lem crc rest h) (rw (==_refl crc)))

  -- The reader behind a record whose bytes end in the tag for `crc`.
  abbrev behind : Deserializer → Bytes → Sums → ℕ → Deserializer
  behind d rest s crc = record d {
    input = rest;
    sums = reader_sums x stream (x.write_uint32 record_end_tag crc) s;
    crc_crc = next_crc_crc x stream d.crc_crc crc;
    total_records = d.total_records + 1;
  }

  finish :
      (d : Deserializer) (crc : ℕ) (rest : Bytes) (s : Sums) (rec r : Record) (m : List Bool)
      (f : ℕ)
      → d.got_total_records ≡ false
      → crc < 2 ^ 32
      → crc ≡ mode_checksum x stream s
      → length (x.write_uint32 record_end_tag crc ++ rest) < f
      → fill_null m rec ≡ r
      → read_fields x config f (at d (x.write_uint32 record_end_tag crc ++ rest) s) rec m
        ≡ ok (true, r, behind d rest s crc)
  unfolding read_fields
  finish d crc rest s rec r m zero g h e l filled = absurd (omega arith)
  finish d crc rest s rec r m (suc f) g h e l filled =
      let input = x.write_uint32 record_end_tag crc ++ rest in
      let tagged = laws.tag_uint32 record_end_tag crc rest (omega arith, omega arith) in
      rw (turn-end (at d input s) (x.write_uint32_no_tag crc ++ rest) rec m tagged g)
        (rw (end-step (at d input s) crc rest rec m h e) (rw filled))

  -- A record `r` that fits the schema is written without an exception. A reader in step with the
  -- writer gets the record `r'` that belongs to it back from those bytes, whatever stands behind them
  -- and whatever record it is given to fill, and is then in step with the writer again. `r'` is `r`
  -- but for what is inside arrays, maps and structs: a DATE there, a number of days, becomes its
  -- multiple of 86400 towards 0, and a CHAR or VARCHAR is cut or padded to its length. A map inside has
  -- the indices 0, 1, 2 and so on, as the setters give them, and not the gaps that a key read twice
  -- leaves.
  pub record_round_trip :
      (r r' r₀ : Record) (w : Serializer) (d : Deserializer)
      → length columns ≤ 10000
      → length r₀ ≡ length columns
      → FitsRecord x max_field_size columns r r'
      → Sync w d
      → (b : Bytes) × (w' : Serializer) × (serialize x config false r w ≡ ok (true, w'))
        × (w'.output ≡ w.output ++ b)
        × (w'.total_records ≡ w.total_records + 1)
        × ((rest : Bytes)
            → (d' : Deserializer) × (deserialize x config r₀ (record d { input = b ++ rest })
                ≡ ok (true, r', d'))
              × (d'.input ≡ rest)
              × Sync w' d')
  unfolding serialize deserialize
  record_round_trip r r' r₀ w d small l f sync =
      let s = record w.sums { record_crc = x.crc_start } in
      let (bs, s₁, hw, hr) =
        columns_round_trip x laws config 0 s d.sums refl (omega arith) f
          (start-Agree x stream w d sync.in_step) in
      let crc = mode_checksum x stream s₁ in
      let end_tag = x.write_uint32 record_end_tag crc in
      (
        bs ++ end_tag,
        _,
        rw hw,
        refl,
        refl,
        λ rest.
            let (f', s₁', rec', m', run, h', a, filled) =
              hr d (end_tag ++ rest) (suc (length (bs ++ (end_tag ++ rest)))) r₀
                (replicate (length columns) false) [] sync.not_ended (omega arith)
                (rw (fits-length x max_field_size f).1 (fill_null-nothing (length columns) r₀ l))
                refl in
            (
              behind d rest s₁' crc,
              rw append_assoc (
                  run
                  ∙ finish d crc rest s₁' rec' r' m' f' sync.not_ended
                      (mode_checksum-lt x laws stream s₁) (Agree-checksum x stream s₁ s₁' a) h'
                      filled),
              refl,
              record {
                in_step = end-InStep x stream s₁ s₁' crc crc _ _ rest _ end_tag w d sync.in_step a;
                counts = ap (λ n. n + 1) sync.counts;
                not_ended = sync.not_ended;
              },
            ),
      )
