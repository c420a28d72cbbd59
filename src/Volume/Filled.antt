-- ===== src/Volume/Filled.antt =====
-- How VolumeDeserializer (tunnel/volume_serialize.cpp) fills its buffer from a stream of chunks.
use aliyun_odps_sdk_cpp.Prelude.{
  ℕ, ◌+◌, ◌-◌, ◌≡◌, ◌≤◌, ◌<◌, refl, sym, ap, ◌∙◌, true, false, Bytes, List, [], ◌∷◌, ◌++◌,
  append_assoc, append-nil, length, length-append, take, drop, ltb, leb, ◌==◌, ==_refl, arith,
}
use aliyun_odps_sdk_cpp.Result.{Result, ok}
use aliyun_odps_sdk_cpp.Volume.{
  VolumeDeserializer, uint32_bytes, get_int, read_pieces, check_chunk, take_chunk, fill_buffer,
}
use aliyun_odps_sdk_cpp.Volume.Moved.{
  take-all, drop-all, take-append, drop-append, flat, read_pieces-IsRead, take-nil, drop-nil,
  get_int-uint32_bytes,
}
use aliyun_odps_sdk_cpp.Volume.Chunks.{framed, AreChunks, length-uint32_bytes}

module _ (checksum : Bytes → ℕ) where
  -- The bytes that the reader has still to hand out, between two calls of Read.
  pub record IsReading (r : VolumeDeserializer) (chunks : List Bytes) (part : Bytes) : Type 0 where
    pub header_read : r.header_completed ≡ true
    pub some_size : 0 < r.chunk_size
    pub to_come : flat r.input ≡ framed checksum r.processed chunks
    pub next_chunks : AreChunks r.chunk_size chunks
    pub buffer_fits : r.buffer_size ≡ r.chunk_size + 4
    pub in_buffer : (tail : Bytes) × (drop r.position r.buffer ≡ part ++ tail)
    pub part_size : length part ≡ r.data_size - r.position
    pub at_end : r.eof ≡ true → chunks ≡ []

  abbrev pub HasRead : ℕ → Result (Bytes × VolumeDeserializer) → Bytes → Type 0
  HasRead size result left =
      (got : Bytes) × (r : VolumeDeserializer) × (chunks : List Bytes) × (part : Bytes) × (result
        ≡ ok (got, r))
      × IsReading r chunks part
      × (left ≡ got ++ (part ++ flat chunks))
      × (length got ≤ size)
      × ((got ≡ []) → left ≡ [])

module _ (checksum : Bytes → ℕ) (small : (buf : Bytes) → checksum buf < 4_294_967_296) where
  -- The first chunk of a stream, with its checksum, is what the buffer takes.
  first_chunk :
      (size : ℕ) (seen chunk : Bytes) (chunks : List Bytes)
      → 0 < size
      → AreChunks size (chunk ∷ chunks)
      → (0 < length chunk)
        × (take (size + 4) (framed checksum seen (chunk ∷ chunks))
            ≡ chunk ++ uint32_bytes (checksum (seen ++ chunk)))
        × (drop (size + 4) (framed checksum seen (chunk ∷ chunks))
            ≡ framed checksum (seen ++ chunk) chunks)
        × AreChunks size chunks
  unfolding framed
  first_chunk size seen chunk [] z (p, q) =
      let crc = uint32_bytes (checksum (seen ++ chunk)) in
      let short : length (chunk ++ crc) ≤ size + 4 =
        omega (arith, q, length-append chunk crc, length-uint32_bytes (checksum (seen ++ chunk))) in
      let whole = ap (λ t. chunk ++ t) (append-nil crc) in
      (
        p,
        ap (take (size + 4)) whole ∙ take-all (size + 4) _ short,
        ap (drop (size + 4)) whole ∙ drop-all (size + 4) _ short,
        tt,
      )
  first_chunk size seen chunk (next ∷ chunks) z (p, q) =
      let crc = uint32_bytes (checksum (seen ++ chunk)) in
      let later = framed checksum (seen ++ chunk) (next ∷ chunks) in
      let exact : size + 4 ≡ length (chunk ++ crc) =
        omega (arith, p, length-append chunk crc, length-uint32_bytes (checksum (seen ++ chunk))) in
      let whole = sym (append_assoc chunk crc later) in
      (
        omega (arith, p, z),
        ap (take (size + 4)) whole
            ∙ ap (λ n. take n ((chunk ++ crc) ++ later)) exact
            ∙ take-append (chunk ++ crc) later,
        ap (drop (size + 4)) whole
            ∙ ap (λ n. drop n ((chunk ++ crc) ++ later)) exact
            ∙ drop-append (chunk ++ crc) later,
        q,
      )

  -- What the buffer has taken, and the state before.
  filled : VolumeDeserializer → Bytes → Bytes → ℕ → VolumeDeserializer
  filled r buf chunk nread = record r {
    buffer = buf;
    data_size = length buf - 4;
    position = 0;
    processed = r.processed ++ chunk;
    bytes_in = r.bytes_in + nread;
  }

  take_chunk_lem :
      (r : VolumeDeserializer) (chunk : Bytes)
      → (nread : ℕ) × (take_chunk checksum
            (chunk ++ uint32_bytes (checksum (r.processed ++ chunk)))
            r
          ≡ ok (filled r (chunk ++ uint32_bytes (checksum (r.processed ++ chunk))) chunk nread))
  unfolding take_chunk check_chunk filled
  take_chunk_lem r chunk =
      let sum = checksum (r.processed ++ chunk) in
      let crc = uint32_bytes sum in
      let long : length (chunk ++ crc) ≡ length chunk + 4 =
        omega (arith, length-append chunk crc, length-uint32_bytes sum) in
      let data_length : length (chunk ++ crc) - 4 ≡ length chunk = omega (arith, long) in
      let not_end : (length (chunk ++ crc) == 0) ≡ false = ground (arith, long) in
      let enough : leb 4 (length (chunk ++ crc)) ≡ true = ground (arith, long) in
      let front : take (length (chunk ++ crc) - 4) (chunk ++ crc) ≡ chunk =
        ap (λ n. take n (chunk ++ crc)) data_length ∙ take-append chunk crc in
      let back : get_int (drop (length (chunk ++ crc) - 4) (chunk ++ crc)) ≡ sum =
        ap (λ n. get_int (drop n (chunk ++ crc))) data_length
        ∙ ap get_int (drop-append chunk crc ∙ sym (append-nil crc))
        ∙ get_int-uint32_bytes sum [] (small (r.processed ++ chunk)) in
      (length (chunk ++ crc), rw (not_end, enough, front, back, ==_refl sum) refl)

  fill_buffer_lem :
      (r : VolumeDeserializer)
      → ltb r.position r.data_size ≡ false
      → (rest : List Bytes) × (nread : ℕ) × (fill_buffer checksum r
          ≡ take_chunk checksum
              (take r.buffer_size (flat r.input))
              (record r { input = rest; bytes_in = nread }))
        × (flat rest ≡ drop r.buffer_size (flat r.input))
  unfolding fill_buffer
  fill_buffer_lem r e =
      let (h, k) = read_pieces-IsRead r.input r.buffer_size in
      (
        (read_pieces r.input r.buffer_size).1,
        r.bytes_in + length (take r.buffer_size (flat r.input)),
        rw (e, h) refl,
        k,
      )

  pub fill_end :
      (r : VolumeDeserializer) (part : Bytes)
      → IsReading checksum r [] part
      → ltb r.position r.data_size ≡ false
      → (s : VolumeDeserializer) × (fill_buffer checksum r ≡ ok s)
        × IsReading checksum s [] []
        × (leb s.data_size s.position ≡ true)
  unfolding take_chunk framed
  fill_end r part w e =
      let (rest, nread, h, k) = fill_buffer_lem r e in
      let none_left : take r.buffer_size (flat r.input) ≡ [] =
        ap (take r.buffer_size) w.to_come ∙ take-nil r.buffer_size in
      (
        record r { input = rest; bytes_in = nread; eof = true },
        h ∙ rw none_left refl,
        record {
          header_read = w.header_read;
          some_size = w.some_size;
          to_come = k ∙ ap (drop r.buffer_size) w.to_come ∙ drop-nil r.buffer_size;
          next_chunks = tt;
          buffer_fits = w.buffer_fits;
          in_buffer = (drop r.position r.buffer, refl);
          part_size = ground (arith, e);
          at_end = λ h. refl;
        },
        ground (arith, e),
      )

  pub fill_next :
      (r : VolumeDeserializer) (chunk : Bytes) (chunks : List Bytes) (part : Bytes)
      → IsReading checksum r (chunk ∷ chunks) part
      → ltb r.position r.data_size ≡ false
      → (s : VolumeDeserializer) × (fill_buffer checksum r ≡ ok s)
        × IsReading checksum s chunks chunk
        × (0 < length chunk)
  unfolding filled
  fill_next r chunk chunks part w e =
      let (rest, nread, h, k) = fill_buffer_lem r e in
      let (some, front, behind, later) =
        first_chunk r.chunk_size r.processed chunk chunks w.some_size w.next_chunks in
      let crc = uint32_bytes (checksum (r.processed ++ chunk)) in
      let all : take r.buffer_size (flat r.input) ≡ chunk ++ crc =
        ap (take r.buffer_size) w.to_come
        ∙ ap (λ n. take n (framed checksum r.processed (chunk ∷ chunks))) w.buffer_fits
        ∙ front in
      let left : drop r.buffer_size (flat r.input) ≡ framed checksum (r.processed ++ chunk) chunks =
        ap (drop r.buffer_size) w.to_come
        ∙ ap (λ n. drop n (framed checksum r.processed (chunk ∷ chunks))) w.buffer_fits
        ∙ behind in
      let r' : VolumeDeserializer = record r { input = rest; bytes_in = nread } in
      let (m, taken) = take_chunk_lem r' chunk in
      (
        filled r' (chunk ++ crc) chunk m,
        h ∙ rw all taken,
        record {
          header_read = w.header_read;
          some_size = w.some_size;
          to_come = k ∙ left;
          next_chunks = later;
          buffer_fits = w.buffer_fits;
          in_buffer = (crc, refl);
          part_size = omega (
            arith,
            length-append chunk crc,
            length-uint32_bytes (checksum (r.processed ++ chunk)),
          );
          at_end = λ over. absurd (cc (w.at_end over));
        },
        some,
      )
