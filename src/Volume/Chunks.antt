-- ===== src/Volume/Chunks.antt =====
-- The stream of chunks that VolumeSerializer (tunnel/volume_serialize.cpp) writes.
use aliyun_odps_sdk_cpp.Prelude.{
  ℕ, ◌+◌, ◌-◌, ◌%◌, ◌≡◌, ◌≤◌, ◌<◌, refl, sym, ap, ◌∙◌, true, false, Bytes, List, [], ◌∷◌, ◌++◌,
  append_assoc, append-nil, length, length-append, take, leb, arith, All,
}
use aliyun_odps_sdk_cpp.Result.{Result, ok, ◌>>=◌}
use aliyun_odps_sdk_cpp.Volume.{
  VolumeSerializer, write_internal, write_big_endian, uint32_bytes, chunk_left, write_part,
  end_chunk, write,
}
use aliyun_odps_sdk_cpp.Volume.Moved.{length-take, flat, flat-append, sum, write_buffers_lem}

-- The calls of a client.
unfoldable pub write_all : (Bytes → ℕ) → List Bytes → VolumeSerializer → Result VolumeSerializer
write_all checksum [] s = ok s
write_all checksum (buf ∷ bufs) s = write checksum buf s >>= λ t. write_all checksum bufs t

-- Every chunk is followed by the checksum of all that stands before it but the checksums.
unfoldable pub framed : (Bytes → ℕ) → Bytes → List Bytes → Bytes
framed checksum seen [] = []
framed checksum seen (chunk ∷ chunks) =
    chunk ++ (uint32_bytes (checksum (seen ++ chunk)) ++ framed checksum (seen ++ chunk) chunks)

-- Only the last chunk is shorter, and none is empty.
abbrev pub AreChunks : ℕ → List Bytes → Type 0
AreChunks size [] = Unit {0}
AreChunks size (chunk ∷ []) = (0 < length chunk) × (length chunk ≤ size)
AreChunks size (chunk ∷ next ∷ chunks) = (length chunk ≡ size) × AreChunks size (next ∷ chunks)

abbrev pub AreFull : ℕ → List Bytes → Type 0
AreFull size chunks = All (λ (chunk : Bytes). length chunk ≡ size) chunks

AreFull-append :
    (size : ℕ) (chunks : List Bytes) (chunk : Bytes)
    → AreFull size chunks
    → length chunk ≡ size
    → AreFull size (chunks ++ chunk ∷ [])
AreFull-append size [] chunk h e = (e, tt)
AreFull-append size (first ∷ chunks) chunk (h, hs) e = (h, AreFull-append size chunks chunk hs e)

pub AreFull-AreChunks :
    (size : ℕ) (chunks : List Bytes) → 0 < size → AreFull size chunks → AreChunks size chunks
AreFull-AreChunks size [] p h = tt
AreFull-AreChunks size (chunk ∷ []) p (h, hs) = (omega (arith, h, p), omega (arith, h))
AreFull-AreChunks size (chunk ∷ next ∷ chunks) p (h, hs) =
    (h, AreFull-AreChunks size (next ∷ chunks) p hs)

pub AreFull-last :
    (size : ℕ) (chunks : List Bytes) (part : Bytes)
    → AreFull size chunks
    → 0 < length part
    → length part ≤ size
    → AreChunks size (chunks ++ part ∷ [])
AreFull-last size [] part h p q = (p, q)
AreFull-last size (chunk ∷ []) part (h, hs) p q = (h, (p, q))
AreFull-last size (chunk ∷ next ∷ chunks) part (h, hs) p q =
    (h, AreFull-last size (next ∷ chunks) part hs p q)

pub append_last : (a b c d : Bytes) → (a ++ (b ++ c)) ++ d ≡ a ++ (b ++ (c ++ d))
append_last a b c d = append_assoc a (b ++ c) d ∙ ap (λ t. a ++ t) (append_assoc b c d)

pub length-uint32_bytes : (v : ℕ) → length (uint32_bytes v) ≡ 4
unfolding uint32_bytes
length-uint32_bytes v = refl

abbrev pub with_output : VolumeSerializer → Bytes → List ℕ → VolumeSerializer
with_output s buf rest = record s {
  output = record { written = s.output.written ++ buf; offers = rest };
  bytes_out = s.bytes_out + length buf;
}

pub write_internal_lem :
    (buf : Bytes) (s : VolumeSerializer)
    → length buf ≤ sum s.output.offers
    → (rest : List ℕ) × (write_internal buf s ≡ ok (with_output s buf rest))
      × (sum rest + length buf ≡ sum s.output.offers)
unfolding write_internal
write_internal_lem buf s h =
    let (rest, k, l) = write_buffers_lem s.output.offers s.output.written buf h in
    (rest, rw k refl, l)

module _ (checksum : Bytes → ℕ) where
  pub framed-append :
      (seen : Bytes) (chunks : List Bytes) (chunk : Bytes)
      → framed checksum seen (chunks ++ chunk ∷ [])
        ≡ framed checksum seen chunks
          ++ (chunk ++ uint32_bytes (checksum (seen ++ (flat chunks ++ chunk))))
  unfolding framed flat
  framed-append seen [] chunk =
      ap (λ t. chunk ++ t) (append-nil (uint32_bytes (checksum (seen ++ chunk))))
  framed-append seen (first ∷ chunks) chunk =
      ap (λ t. first ++ (uint32_bytes (checksum (seen ++ first)) ++ t))
        (framed-append (seen ++ first) chunks chunk)
      ∙ simp append_assoc

  -- What was written when the chunks are complete and `part` is the chunk begun.
  pub record IsWriting (s : VolumeSerializer) (chunks : List Bytes) (part : Bytes) : Type 0 where
    pub written_so :
        s.output.written
        ≡ uint32_bytes s.chunk_size ++ (framed checksum (uint32_bytes s.chunk_size) chunks ++ part)
    pub processed_so : s.processed ≡ uint32_bytes s.chunk_size ++ (flat chunks ++ part)
    pub full_chunks : AreFull s.chunk_size chunks
    pub begun : s.chunk_offset ≡ length part
    pub room_left : length part ≤ s.chunk_size
    pub header_written : s.header_completed ≡ true

  -- A step of the serializer that has kept `left` of its room.
  abbrev pub IsStep :
      (VolumeSerializer → Result VolumeSerializer)
      → VolumeSerializer
      → List Bytes
      → Bytes
      → ℕ
      → Type 0
  IsStep step s chunks part left =
      (t : VolumeSerializer) × (step s ≡ ok t)
      × IsWriting t chunks part
      × (t.chunk_size ≡ s.chunk_size)
      × (left ≤ sum t.output.offers)

  pub end_chunk-IsStep :
      (s : VolumeSerializer) (chunks : List Bytes) (part : Bytes) (left : ℕ)
      → IsWriting s chunks part
      → s.chunk_offset ≡ s.chunk_size
      → 4 + left ≤ sum s.output.offers
      → IsStep (end_chunk checksum) s (chunks ++ part ∷ []) [] left
  unfolding end_chunk write_big_endian flat
  end_chunk-IsStep s chunks part left w e h =
      let crc = uint32_bytes (checksum s.processed) in
      let size = uint32_bytes s.chunk_size in
      let (rest, k, l) =
        write_internal_lem crc s (omega (arith, h, length-uint32_bytes (checksum s.processed))) in
      (
        record (with_output s crc rest) {
          bytes_out = s.bytes_out + length crc + 4;
          chunk_offset = 0;
        },
        rw k refl,
        record {
          written_so =
              ap (λ t. t ++ crc) w.written_so
              ∙ append_last size (framed checksum size chunks) part crc
              ∙ ap
                  (λ t.
                    size ++ (framed checksum size chunks ++ (part ++ uint32_bytes (checksum t))))
                  w.processed_so
              ∙ ap (λ t. size ++ t) (sym (framed-append size chunks part) ∙ sym (append-nil _));
          processed_so =
              w.processed_so
              ∙ ap (λ t. size ++ t)
                  (ap (λ t. flat chunks ++ t) (sym (append-nil part))
                    ∙ sym (flat-append chunks (part ∷ []))
                    ∙ sym (append-nil _));
          full_chunks = AreFull-append s.chunk_size chunks part w.full_chunks (sym w.begun ∙ e);
          begun = refl;
          room_left = omega arith;
          header_written = w.header_written;
        },
        refl,
        omega (arith, l, h, length-uint32_bytes (checksum s.processed)),
      )

  pub write_part-IsStep :
      (s : VolumeSerializer) (chunks : List Bytes) (part buf : Bytes) (len left : ℕ)
      → IsWriting s chunks part
      → s.chunk_size < 2_147_483_648
      → len ≤ length buf
      → len + left ≤ sum s.output.offers
      → s.chunk_offset + len ≤ s.chunk_size
      → IsStep (write_part len buf) s chunks (part ++ take len buf) left
  unfolding write_part chunk_left
  write_part-IsStep s chunks part buf len left w h k l m =
      let small : leb 2_147_483_648
            ((s.chunk_size + 4_294_967_296 - s.chunk_offset) % 4_294_967_296)
          ≡ false =
        ground (arith, h, m) in
      let (rest, e, u) =
        write_internal_lem (take len buf) (record s { processed = s.processed ++ take len buf })
          (omega (arith, l, length-take len buf k)) in
      (
        record (with_output (record s { processed = s.processed ++ take len buf }) (take len buf)
            rest) { chunk_offset = s.chunk_offset + len },
        rw (small, e) refl,
        record {
          written_so =
              ap (λ t. t ++ take len buf) w.written_so ∙ append_last _ _ part (take len buf);
          processed_so =
              ap (λ t. t ++ take len buf) w.processed_so ∙ append_last _ _ part (take len buf);
          full_chunks = w.full_chunks;
          begun = omega (arith, w.begun, length-append part (take len buf), length-take len buf k);
          room_left =
              omega (arith, w.begun, m, length-append part (take len buf), length-take len buf k);
          header_written = w.header_written;
        },
        refl,
        omega (arith, u, l, length-take len buf k),
      )
