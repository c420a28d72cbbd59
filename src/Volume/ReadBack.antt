-- ===== src/Volume/ReadBack.antt =====
-- What VolumeDeserializer (tunnel/volume_serialize.cpp) reads of a stream of chunks.
use aliyun_odps_sdk_cpp.Prelude.{
  ℕ, ◌+◌, ◌-◌, ◌≡◌, ◌≤◌, ◌<◌, refl, sym, ap, subst, ◌∙◌, true, false, Bytes, List, [], ◌∷◌, ◌++◌,
  append_assoc, append-nil, length, length-append, take, drop, ltb, leb, if◌then◌else◌, arith,
  Bool-cases, inl, inr,
}
use aliyun_odps_sdk_cpp.Result.{ok, ◌>>=◌}
use aliyun_odps_sdk_cpp.Volume.{
  VolumeDeserializer, read_pieces, read_buffer, fill_buffer, read_again, read_header, read,
}
use aliyun_odps_sdk_cpp.Volume.Moved.{
  take-drop, length-drop, length-take, flat, drop-drop, take-append_less, drop-append_less,
}
use aliyun_odps_sdk_cpp.Volume.Filled.{IsReading, HasRead, fill_end, fill_next}

module _ (checksum : Bytes → ℕ) (small : (buf : Bytes) → checksum buf < 4_294_967_296) where
  -- What ReadBuffer hands out is the front of what the buffer holds.
  read_buffer_lem :
      (size : ℕ) (r : VolumeDeserializer) (chunks : List Bytes) (part : Bytes)
      → IsReading checksum r chunks part
      → (got : Bytes) × (s : VolumeDeserializer) × (later : Bytes) × (read_buffer size r ≡ (got, s))
        × IsReading checksum s chunks later
        × (part ≡ got ++ later)
        × (length got ≤ size)
        × (0 < size → got ≡ [] → ltb s.position s.data_size ≡ false)
        × (s.eof ≡ r.eof)
  unfolding read_buffer
  read_buffer_lem size r chunks part w = elim (Bool-cases (leb r.data_size r.position)) [
    | inl e ↦ ([], r, part, rw e refl, w, refl, omega arith, λ z n. ground (arith, e), refl)
    | inr e ↦
        let free = r.data_size - r.position in
        let len = if ltb free size then free else size in
        let (tail, held) = w.in_buffer in
        let fits : len ≤ length part = ground (arith, w.part_size) in
        let within : len ≤ size = ground arith in
        let got = take len (drop r.position r.buffer) in
        let front : got ≡ take len part =
          ap (take len) held ∙ take-append_less len part tail fits in
        let got_length : length got ≡ len = ap length front ∙ length-take len part fits in
        let some : 0 < size → 0 < len = λ z. ground (arith, e, z) in
        (
          got,
          record r { position = r.position + len },
          drop len part,
          rw e refl,
          record {
            header_read = w.header_read;
            some_size = w.some_size;
            to_come = w.to_come;
            next_chunks = w.next_chunks;
            buffer_fits = w.buffer_fits;
            in_buffer = (
              tail,
              sym (drop-drop r.position len r.buffer)
                  ∙ ap (drop len) held
                  ∙ drop-append_less len part tail fits,
            );
            part_size = omega (arith, length-drop len part, w.part_size);
            at_end = w.at_end;
          },
          sym (take-drop len part) ∙ ap (λ t. t ++ drop len part) (sym front),
          omega (arith, got_length, within),
          λ z n. absurd (omega (arith, some z, got_length, ap length n)),
          refl,
        )
  ]

  length-zero : (buf : Bytes) → length buf ≡ 0 → buf ≡ []
  length-zero [] h = refl
  length-zero (b ∷ bs) h = absurd (omega (arith, h))

  at_eof :
      (size : ℕ) (s : VolumeDeserializer)
      → s.eof ≡ true
      → read_again checksum size ([], s) ≡ ok ([], s)
  unfolding read_again
  at_eof size s e =
      ap (λ b. if b then ok ([], s) else (fill_buffer checksum s >>= λ t. ok (read_buffer size t)))
        e

  not_at_eof :
      (size : ℕ) (s t : VolumeDeserializer)
      → s.eof ≡ false
      → fill_buffer checksum s ≡ ok t
      → read_again checksum size ([], s) ≡ ok (read_buffer size t)
  unfolding read_again
  not_at_eof size s t e h =
      ap (λ b. if b then ok ([], s) else (fill_buffer checksum s >>= λ t. ok (read_buffer size t)))
        e
      ∙ ap (λ m. m >>= λ t. ok (read_buffer size t)) h

  empty_buffer :
      (size : ℕ) (t : VolumeDeserializer)
      → leb t.data_size t.position ≡ true
      → read_buffer size t ≡ ([], t)
  unfolding read_buffer
  empty_buffer size t e = rw e refl

  refilled-HasRead :
      (size : ℕ) (s : VolumeDeserializer) (chunks : List Bytes) (part : Bytes)
      → 0 < size
      → IsReading checksum s chunks part
      → ltb s.position s.data_size ≡ false
      → s.eof ≡ false
      → HasRead checksum size (read_again checksum size ([], s)) (flat chunks)
  unfolding flat
  refilled-HasRead size s [] part z w e o =
      let (t, filled, v, empty) = fill_end checksum small s part w e in
      (
        [],
        t,
        [],
        [],
        not_at_eof size s t o filled ∙ ap ok (empty_buffer size t empty),
        v,
        refl,
        omega arith,
        λ n. refl,
      )
  refilled-HasRead size s (chunk ∷ chunks) part z w e o =
      let (t, filled, v, some) = fill_next checksum small s chunk chunks part w e in
      let (got, u, later, got_so, x, parts, within, used, eof) =
        read_buffer_lem size t chunks chunk v in
      (
        got,
        u,
        chunks,
        later,
        not_at_eof size s t o filled ∙ ap ok got_so,
        x,
        ap (λ t. t ++ flat chunks) parts ∙ append_assoc got later (flat chunks),
        within,
        λ n. absurd (
            ground (
              arith,
              used z n,
              x.part_size,
              some,
              ap length parts,
              ap length n,
              length-append got later,
            )),
      )

  pub after_buffer-HasRead :
      (size : ℕ) (got : Bytes) (s : VolumeDeserializer) (chunks : List Bytes) (part : Bytes)
      → 0 < size
      → IsReading checksum s chunks part
      → length got ≤ size
      → (got ≡ [] → ltb s.position s.data_size ≡ false)
      → HasRead checksum size (read_again checksum size (got, s)) (got ++ (part ++ flat chunks))
  unfolding read_again flat
  after_buffer-HasRead size (b ∷ bs) s chunks part z w within used =
      (b ∷ bs, s, chunks, part, refl, w, refl, within, λ n. absurd (cc n))
  after_buffer-HasRead size [] s chunks part z w within used =
      let e = used refl in
      let nothing : part ≡ [] = length-zero part (ground (arith, e, w.part_size)) in
      elim (Bool-cases s.eof) [
        | inl o ↦ (
          [],
          s,
          chunks,
          part,
          at_eof size s o,
          w,
          refl,
          within,
          λ n. ap (λ t. part ++ flat t) (w.at_end o) ∙ append-nil part ∙ nothing,
        )
        | inr o ↦
            subst (λ t. HasRead checksum size (read_again checksum size ([], s)) (t ++ flat chunks))
              (sym nothing) (refilled-HasRead size s chunks part z w e o)
      ]

  read_on :
      (size : ℕ) (r : VolumeDeserializer)
      → r.header_completed ≡ true
      → read checksum size r ≡ read_again checksum size (read_buffer size r)
  unfolding read
  read_on size r h =
      let (buf, rest) = read_pieces r.input 4 in
      ap
        (λ b.
          if b
          then read_again checksum size (read_buffer size r)
          else read_header checksum size buf record r {
            input = rest;
            bytes_in = r.bytes_in + length buf;
            header_completed = true;
          })
        h

  -- A call of Read between others hands out the next of the bytes, and none only at their end.
  pub read-HasRead :
      (size : ℕ) (r : VolumeDeserializer) (chunks : List Bytes) (part : Bytes)
      → 0 < size
      → IsReading checksum r chunks part
      → HasRead checksum size (read checksum size r) (part ++ flat chunks)
  read-HasRead size r chunks part z w =
      let (got, s, later, got_so, v, parts, within, used, eof) =
        read_buffer_lem size r chunks part w in
      let (more, t, chunks', part', e, x, all, fits, end) =
        after_buffer-HasRead size got s chunks later z v within (used z) in
      let whole = ap (λ t. t ++ flat chunks) parts ∙ append_assoc got later (flat chunks) in
      (
        more,
        t,
        chunks',
        part',
        read_on size r w.header_read ∙ ap (read_again checksum size) got_so ∙ e,
        x,
        whole ∙ all,
        fits,
        λ n. whole ∙ end n,
      )
