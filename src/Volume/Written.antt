-- ===== src/Volume/Written.antt =====
-- What the calls of VolumeSerializer (tunnel/volume_serialize.cpp) write, one after the other.
use aliyun_odps_sdk_cpp.Prelude.{
  ℕ, zero, suc, ◌+◌, ◌-◌, ◌*◌, ◌≡◌, ◌≤◌, ◌<◌, refl, sym, ap, subst, ◌∙◌, true, false, Bytes, List,
  [], ◌∷◌, ◌++◌, append_assoc, append-nil, length, length-append, take, drop, ◌==◌, ==_iff,
  if◌then◌else◌, arith, Bool-cases, inl, inr,
}
use aliyun_odps_sdk_cpp.Result.{Result, ok, ◌>>=◌}
use aliyun_odps_sdk_cpp.Volume.{
  VolumeSerializer, new_volume_serializer, write_big_endian, uint32_bytes, write_header, chunk_left,
  part_length, write_chunks, write, close,
}
use aliyun_odps_sdk_cpp.Volume.Moved.{take-drop, length-drop, flat, flat-append, sum}
use aliyun_odps_sdk_cpp.Volume.Chunks.{
  write_all, framed, AreChunks, AreFull-AreChunks, AreFull-last, framed-append, IsWriting,
  end_chunk-IsStep, write_part-IsStep, write_internal_lem, append_last, with_output,
  length-uint32_bytes,
}

write_header_done : (s : VolumeSerializer) → s.header_completed ≡ true → write_header s ≡ ok s
unfolding write_header
write_header_done s h =
    ap
      (λ b.
        if b
        then ok s
        else (write_big_endian s.chunk_size (record s { header_completed = true }) >>= λ t.
            ok record t { processed = t.processed ++ uint32_bytes s.chunk_size; chunk_offset = 0 }))
      h

module _ (checksum : Bytes → ℕ) where
  -- A step has written the bytes up to `buf`, and `left` of the room is there.
  abbrev pub HasWritten :
      (VolumeSerializer → Result VolumeSerializer) → VolumeSerializer → Bytes → ℕ → Type 0
  HasWritten step s buf left =
      (t : VolumeSerializer) × (chunks : List Bytes) × (part : Bytes) × (step s ≡ ok t)
      × IsWriting checksum t chunks part
      × (flat chunks ++ part ≡ buf)
      × (t.chunk_size ≡ s.chunk_size)
      × (left ≤ sum t.output.offers)

  abbrev CanGoOn : ℕ → Bytes → ℕ → ℕ → Type 0
  CanGoOn fuel buf size left =
      (t : VolumeSerializer) (chunks : List Bytes) (part : Bytes)
      → IsWriting checksum t chunks part
      → t.chunk_size ≡ size
      → 5 * length buf + left ≤ sum t.output.offers
      → HasWritten (write_chunks checksum fuel buf) t (flat chunks ++ (part ++ buf)) left

  part_length_lem :
      (s : VolumeSerializer) (b : ℕ) (bs : Bytes)
      → s.chunk_offset < s.chunk_size
      → s.chunk_size < 2_147_483_648
      → (0 < part_length s (b ∷ bs))
        × (part_length s (b ∷ bs) ≤ length (b ∷ bs))
        × (s.chunk_offset + part_length s (b ∷ bs) ≤ s.chunk_size)
  unfolding part_length chunk_left
  part_length_lem s b bs h k = ground (arith, h, k)

  go_on :
      (fuel : ℕ) (s : VolumeSerializer) (chunks : List Bytes) (part : Bytes) (b : ℕ) (bs : Bytes)
      (left : ℕ)
      → IsWriting checksum s chunks part
      → s.chunk_offset < s.chunk_size
      → s.chunk_size < 2_147_483_648
      → 5 * length (b ∷ bs) + left ≤ 4 + sum s.output.offers
      → CanGoOn fuel (drop (part_length s (b ∷ bs)) (b ∷ bs)) s.chunk_size left
      → HasWritten
          (write_chunks checksum (suc fuel) (b ∷ bs))
          s
          (flat chunks ++ (part ++ b ∷ bs))
          left
  unfolding write_chunks
  go_on fuel s chunks part b bs left w h k l later =
      let len = part_length s (b ∷ bs) in
      let (more, fits, below) = part_length_lem s b bs h k in
      let other : (s.chunk_offset == s.chunk_size) ≡ false = ground (arith, h) in
      let (t, e, v, same, room) =
        write_part-IsStep checksum s chunks part (b ∷ bs) len
          (5 * length (drop len (b ∷ bs)) + left) w k fits
          (omega (arith, l, more, fits, length-drop len (b ∷ bs))) below in
      let (u, chunks', part', e', v', all, same', room') =
        later t chunks (part ++ take len (b ∷ bs)) v same room in
      (
        u,
        chunks',
        part',
        rw (other, e) e',
        v',
        all
            ∙ ap (λ x. flat chunks ++ x)
                (append_assoc part _ _ ∙ ap (λ x. part ++ x) (take-drop len (b ∷ bs))),
        same' ∙ same,
        room',
      )

  write_chunks-HasWritten :
      (fuel : ℕ) (s : VolumeSerializer) (chunks : List Bytes) (part buf : Bytes) (left : ℕ)
      → IsWriting checksum s chunks part
      → 0 < s.chunk_size
      → s.chunk_size < 2_147_483_648
      → 2 * length buf ≤ fuel
      → 5 * length buf + left ≤ sum s.output.offers
      → HasWritten (write_chunks checksum fuel buf) s (flat chunks ++ (part ++ buf)) left
  unfolding write_chunks flat
  write_chunks-HasWritten fuel s chunks part [] left w p k f h = (
    s,
    chunks,
    part,
    refl,
    w,
    ap (λ x. flat chunks ++ x) (sym (append-nil part)),
    refl,
    omega (arith, h),
  )
  write_chunks-HasWritten zero s chunks part (b ∷ bs) left w p k f h = absurd (omega (arith, f))
  write_chunks-HasWritten (suc zero) s chunks part (b ∷ bs) left w p k f h =
      absurd (omega (arith, f))
  write_chunks-HasWritten (suc (suc fuel)) s chunks part (b ∷ bs) left w p k f h =
      elim (Bool-cases (s.chunk_offset == s.chunk_size)) [
        | inl e ↦
            let (t, ended, v, same, room) =
              end_chunk-IsStep checksum s chunks part (5 * length (b ∷ bs) + left - 4) w
                ((==_iff s.chunk_offset s.chunk_size).0 e) (omega (arith, h)) in
            let (u, chunks', part', done, v', all, same', room') =
              go_on fuel t (chunks ++ part ∷ []) [] b bs left v (omega (arith, v.begun, same, p))
                (omega (arith, same, k)) (omega (arith, room))
                (λ t' c' p' w' e' r'.
                  write_chunks-HasWritten fuel t' c' p' (drop (part_length t (b ∷ bs)) (b ∷ bs))
                    left w' (omega (arith, e', same, p)) (omega (arith, e', same, k))
                    (omega (
                      arith,
                      f,
                      length-drop (part_length t (b ∷ bs)) (b ∷ bs),
                      (part_length_lem t b bs (omega (arith, v.begun, same, p))
                          (omega (arith, same, k))).0,
                    ))
                    r') in
            (
              u,
              chunks',
              part',
              rw (e, ended) done,
              v',
              all
                  ∙ ap (λ x. x ++ b ∷ bs)
                      (flat-append chunks (part ∷ [])
                        ∙ ap (λ x. flat chunks ++ x) (append-nil part))
                  ∙ append_assoc (flat chunks) part (b ∷ bs),
              same' ∙ same,
              room',
            )
        | inr e ↦
            let below : s.chunk_offset < s.chunk_size = ground (arith, e, w.begun, w.room_left) in
            go_on (suc fuel) s chunks part b bs left w below k (omega (arith, h))
              (λ t' c' p' w' e' r'.
                write_chunks-HasWritten (suc fuel) t' c' p' (drop (part_length s (b ∷ bs)) (b ∷ bs))
                  left w' (omega (arith, e', p)) (omega (arith, e', k))
                  (omega (
                    arith,
                    f,
                    length-drop (part_length s (b ∷ bs)) (b ∷ bs),
                    (part_length_lem s b bs below k).0,
                  ))
                  r')
      ]

  write-HasWritten :
      (s : VolumeSerializer) (chunks : List Bytes) (part buf : Bytes) (left : ℕ)
      → IsWriting checksum s chunks part
      → 0 < s.chunk_size
      → s.chunk_size < 2_147_483_648
      → 5 * length buf + left ≤ sum s.output.offers
      → HasWritten (write checksum buf) s (flat chunks ++ (part ++ buf)) left
  unfolding write
  write-HasWritten s chunks part buf left w p k h =
      let (u, chunks', part', done, v, all, same, room) =
        write_chunks-HasWritten (2 * length buf) s chunks part buf left w p k (omega arith) h in
      (u, chunks', part', rw (write_header_done s w.header_written) done, v, all, same, room)

  first_write-HasWritten :
      (offers : List ℕ) (size : ℕ) (buf : Bytes) (left : ℕ)
      → 0 < size
      → size < 2_147_483_648
      → 4 + 5 * length buf + left ≤ sum offers
      → HasWritten (write checksum buf) (new_volume_serializer offers size) buf left
  unfolding write write_header write_big_endian new_volume_serializer flat framed
  first_write-HasWritten offers size buf left p k h =
      let size_bytes = uint32_bytes size in
      let (rest, e, room) =
        write_internal_lem size_bytes
          (record (new_volume_serializer offers size) { header_completed = true })
          (omega (arith, h, length-uint32_bytes size)) in
      let t : VolumeSerializer = record {
        output = record { written = size_bytes; offers = rest };
        bytes_out = 0 + length size_bytes + 4;
        processed = size_bytes;
        chunk_size = size;
        chunk_offset = 0;
        header_completed = true;
      } in
      let w : IsWriting checksum t [] [] = record {
        written_so = sym (append-nil size_bytes);
        processed_so = sym (append-nil size_bytes);
        full_chunks = tt;
        begun = refl;
        room_left = omega arith;
        header_written = refl;
      } in
      let (u, chunks, part, done, v, all, same, left_over) =
        write_chunks-HasWritten (2 * length buf) t [] [] buf left w p k (omega arith)
          (omega (arith, h, room, length-uint32_bytes size)) in
      (u, chunks, part, rw e done, v, all, same, left_over)

  later_writes-HasWritten :
      (bufs : List Bytes) (s : VolumeSerializer) (chunks : List Bytes) (part : Bytes) (left : ℕ)
      → IsWriting checksum s chunks part
      → 0 < s.chunk_size
      → s.chunk_size < 2_147_483_648
      → 5 * length (flat bufs) + left ≤ sum s.output.offers
      → HasWritten (write_all checksum bufs) s (flat chunks ++ (part ++ flat bufs)) left
  unfolding write_all flat
  later_writes-HasWritten [] s chunks part left w p k h = (
    s,
    chunks,
    part,
    refl,
    w,
    ap (λ x. flat chunks ++ x) (sym (append-nil part)),
    refl,
    omega (arith, h),
  )
  later_writes-HasWritten (buf ∷ bufs) s chunks part left w p k h =
      let (t, chunks', part', e, v, all, same, room) =
        write-HasWritten s chunks part buf (5 * length (flat bufs) + left) w p k
          (omega (arith, h, length-append buf (flat bufs))) in
      let (u, chunks'', part'', e', v', all', same', room') =
        later_writes-HasWritten bufs t chunks' part' left v (omega (arith, same, p))
          (omega (arith, same, k)) room in
      (
        u,
        chunks'',
        part'',
        rw e e',
        v',
        all'
            ∙ sym (append_assoc (flat chunks') part' (flat bufs))
            ∙ ap (λ x. x ++ flat bufs) all
            ∙ append_last (flat chunks) part buf (flat bufs),
        same' ∙ same,
        room',
      )

  -- What a closed stream is made of.
  unfoldable pub IsStream : ℕ → Bytes → Bytes → Type 0
  IsStream size buf written =
      (chunks : List Bytes) × AreChunks size chunks
      × (flat chunks ≡ buf)
      × (written ≡ uint32_bytes size ++ framed checksum (uint32_bytes size) chunks)

  close-IsStream :
      (s : VolumeSerializer) (chunks : List Bytes) (part : Bytes)
      → IsWriting checksum s chunks part
      → 0 < s.chunk_size
      → 4 ≤ sum s.output.offers
      → (t : VolumeSerializer) × (close checksum s ≡ ok t)
        × IsStream s.chunk_size (flat chunks ++ part) t.output.written
  unfolding close write_big_endian IsStream flat
  close-IsStream s chunks [] w p h = (
    s,
    rw w.begun refl,
    (
      chunks,
      AreFull-AreChunks s.chunk_size chunks p w.full_chunks,
      sym (append-nil (flat chunks)),
      w.written_so ∙ ap (λ x. uint32_bytes s.chunk_size ++ x) (append-nil _),
    ),
  )
  close-IsStream s chunks (b ∷ bs) w p h =
      let crc = uint32_bytes (checksum s.processed) in
      let size = uint32_bytes s.chunk_size in
      let (rest, e, room) =
        write_internal_lem crc s (omega (arith, h, length-uint32_bytes (checksum s.processed))) in
      let open_chunk : (s.chunk_offset == 0) ≡ false = ground (arith, w.begun) in
      (
        record (with_output s crc rest) { bytes_out = s.bytes_out + length crc + 4 },
        rw (open_chunk, e) refl,
        (
          chunks ++ (b ∷ bs) ∷ [],
          AreFull-last s.chunk_size chunks (b ∷ bs) w.full_chunks (omega arith) w.room_left,
          flat-append chunks ((b ∷ bs) ∷ []) ∙ ap (λ x. flat chunks ++ x) (append-nil (b ∷ bs)),
          ap (λ t. t ++ crc) w.written_so
              ∙ append_last size (framed checksum size chunks) (b ∷ bs) crc
              ∙ ap
                  (λ t.
                    size ++ (framed checksum size chunks ++ (b ∷ bs ++ uint32_bytes (checksum t))))
                  w.processed_so
              ∙ ap (λ t. size ++ t) (sym (framed-append checksum size chunks (b ∷ bs))),
        ),
      )

  unfoldable pub write_stream : List Bytes → VolumeSerializer → Result VolumeSerializer
  write_stream bufs s = write_all checksum bufs s >>= λ t. close checksum t

  -- With chunks of 1 to 2^31 - 1 bytes and room enough in the output, one call of Write or more and
  -- then Close return. They have written the size of the chunks and the data in chunks of that size,
  -- of which the last alone may be shorter and none is empty, each followed by the checksum of all
  -- bytes before it but the checksums.
  pub write_stream-IsStream :
      (offers : List ℕ) (size : ℕ) (buf : Bytes) (bufs : List Bytes)
      → 0 < size
      → size < 2_147_483_648
      → 8 + 5 * length (flat (buf ∷ bufs)) ≤ sum offers
      → (t : VolumeSerializer) × (write_stream (buf ∷ bufs) (new_volume_serializer offers size)
          ≡ ok t)
        × IsStream size (flat (buf ∷ bufs)) t.output.written
  unfolding write_stream write_all flat new_volume_serializer
  write_stream-IsStream offers size buf bufs p k h =
      let (t, chunks, part, e, w, all, same, room) =
        first_write-HasWritten offers size buf (4 + 5 * length (flat bufs)) p k
          (omega (arith, h, length-append buf (flat bufs))) in
      let (u, chunks', part', e', w', all', same', room') =
        later_writes-HasWritten bufs t chunks part 4 w (omega (arith, same, p))
          (omega (arith, same, k)) (omega (arith, room)) in
      let (v, closed, stream) =
        close-IsStream u chunks' part' w' (omega (arith, same, same', p)) room' in
      (
        v,
        rw (e, e') closed,
        subst (λ n. IsStream n (flat (buf ∷ bufs)) v.output.written) (same' ∙ same)
            (subst (λ x. IsStream u.chunk_size x v.output.written)
              (all'
                ∙ sym (append_assoc (flat chunks) part (flat bufs))
                ∙ ap (λ x. x ++ flat bufs) all)
              stream),
      )
