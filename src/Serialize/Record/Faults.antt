-- ===== src/Serialize/Record/Faults.antt =====
-- Damaged streams before Deserialize of tunnel/serialize.cpp: its checksums and its count.
use aliyun_odps_sdk_cpp.Prelude.{
  ℕ, zero, suc, ◌^◌, ◌<◌, ◌≤◌, ◌≡◌, ◌≢◌, refl, sym, ◌∙◌, Bool, false, Bytes, List, [], ◌++◌, length,
  ◌==◌, arith, replicate,
}
use aliyun_odps_sdk_cpp.Prelude.Int.{pos}
use aliyun_odps_sdk_cpp.Result.{ok, err, internal_error}
use aliyun_odps_sdk_cpp.Serialize.External.{External, Laws}
use aliyun_odps_sdk_cpp.Serialize.Cell.{Sums}
use aliyun_odps_sdk_cpp.Serialize.Record.{
  Record, Config, Serializer, Deserializer, deserialize, end_record, total_records_field,
  read_fields, write_cells, record_end_tag, meta_total_records_tag, mode_checksum, int_is,
}
use aliyun_odps_sdk_cpp.Serialize.Record.Fields.{FitsRecord, at, columns_round_trip}
use aliyun_odps_sdk_cpp.Serialize.Record.RoundTrip.{
  Sync, turn-end, turn-total, Agree-checksum, fits-length, fill_null-nothing, start-Agree,
}

ne→==_false : (m n : ℕ) → m ≢ n → (m == n) ≡ false
ne→==_false m n h = ground arith

module _ (x : External) (laws : Laws x) (config : Config) where
  open config use {columns, max_field_size, stream}

  refuse :
      (d : Deserializer) (crc : ℕ) (rest : Bytes) (s : Sums) (rec : Record) (m : List Bool) (f : ℕ)
      → d.got_total_records ≡ false
      → crc < 2 ^ 32
      → mode_checksum x stream s ≢ crc
      → length (x.write_uint32 record_end_tag crc ++ rest) < f
      → read_fields x config f (at d (x.write_uint32 record_end_tag crc ++ rest) s) rec m
        ≡ err internal_error
  unfolding read_fields end_record
  refuse d crc rest s rec m zero g h e l = absurd (omega arith)
  refuse d crc rest s rec m (suc f) g h e l =
      let input = x.write_uint32 record_end_tag crc ++ rest in
      let tagged = laws.tag_uint32 record_end_tag crc rest (omega arith, omega arith) in
      rw (turn-end x laws config (at d input s) (x.write_uint32_no_tag crc ++ rest) rec m tagged g)
        (rw (laws.uint32_lem crc rest h) (rw (ne→==_false _ _ e)))

  -- A record whose columns arrive as they were written, but under any other checksum than the
  -- writer's, is refused: `bs` are the bytes that the columns were written to.
  pub bad_checksum :
      (r r' r₀ : Record) (w : Serializer) (d : Deserializer)
      → length columns ≤ 10000
      → length r₀ ≡ length columns
      → FitsRecord x max_field_size columns r r'
      → Sync x laws config w d
      → (bs : Bytes) × (s : Sums) × (write_cells x config 1 columns r
            (record w.sums { record_crc = x.crc_start })
          ≡ ok (bs, s))
        × ((crc : ℕ) (rest : Bytes)
            → crc < 2 ^ 32
            → crc ≢ mode_checksum x stream s
            → deserialize x config r₀
                (record d { input = bs ++ (x.write_uint32 record_end_tag crc ++ rest) })
              ≡ err internal_error)
  unfolding deserialize
  bad_checksum r r' r₀ w d small l f sync =
      let s = record w.sums { record_crc = x.crc_start } in
      let (bs, s₁, hw, hr) =
        columns_round_trip x laws config 0 s d.sums refl (omega arith) f
          (start-Agree x stream w d sync.in_step) in
      (
        bs,
        s₁,
        hw,
        λ crc rest h other.
            let end_tag = x.write_uint32 record_end_tag crc in
            let (f', s₁', rec', m', run, h', a, filled) =
              hr d (end_tag ++ rest) (suc (length (bs ++ (end_tag ++ rest)))) r₀
                (replicate (length columns) false) [] sync.not_ended (omega arith)
                (rw (fits-length x max_field_size f).1 (fill_null-nothing (length columns) r₀ l))
                refl in
            run
            ∙ refuse d crc rest s₁' rec' m' f' sync.not_ended h
                (λ e. other (sym (Agree-checksum x stream s₁ s₁' a ∙ e))) h',
      )

  -- A count of records at the end of the stream that is not the number of records that the reader
  -- has got is refused with an internal error.
  pub bad_count :
      (r₀ : Record) (n : ℕ) (d : Deserializer) (rest : Bytes)
      → d.got_total_records ≡ false
      → n < 2 ^ 63
      → n ≢ d.total_records
      → deserialize x config r₀
          (record d { input = x.write_sint64 meta_total_records_tag (pos n) ++ rest })
        ≡ err internal_error
  unfolding deserialize read_fields total_records_field int_is
  bad_count r₀ n d rest g h other =
      let input = x.write_sint64 meta_total_records_tag (pos n) ++ rest in
      let tagged = laws.tag_sint64 meta_total_records_tag (pos n) rest (omega arith, omega arith) in
      rw
        (turn-total x laws config (record d { input = input })
          (x.write_sint64_no_tag (pos n) ++ rest) r₀ (replicate (length columns) false) tagged g)
        (rw (laws.sint64_lem (pos n) rest h) (rw (ne→==_false _ _ other)))
