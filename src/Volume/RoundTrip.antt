-- ===== src/Volume/RoundTrip.antt =====
-- A volume's stream from the calls of Write to those of Read (tunnel/volume_serialize.cpp).
use aliyun_odps_sdk_cpp.Prelude.{
  ℕ, zero, suc, ◌+◌, ◌*◌, ◌≡◌, ◌≤◌, ◌<◌, refl, sym, ap, subst, ◌∙◌, true, false, ◌||◌, Bytes, List,
  [], ◌∷◌, ◌++◌, append-nil, length, length-append, take, drop, ltb, arith,
}
use aliyun_odps_sdk_cpp.Result.{Result, ok, err, out_of_fuel, ◌>>=◌}
use aliyun_odps_sdk_cpp.Volume.{
  VolumeDeserializer, new_volume_serializer, new_volume_deserializer, uint32_bytes, get_int,
  read_pieces, read_buffer, take_header, read_header, read, close, max_chunk_size,
}
use aliyun_odps_sdk_cpp.Volume.Moved.{
  take-append, drop-append, take-drop, flat, sum, read_pieces-IsRead, get_int-uint32_bytes,
}
use aliyun_odps_sdk_cpp.Volume.Chunks.{framed, length-uint32_bytes, write_all}
use aliyun_odps_sdk_cpp.Volume.Written.{IsStream, write_stream, write_stream-IsStream}
use aliyun_odps_sdk_cpp.Volume.Filled.{IsReading, HasRead}
use aliyun_odps_sdk_cpp.Volume.ReadBack.{read-HasRead, after_buffer-HasRead}

-- The pieces that an input stream hands out, of any lengths.
unfoldable pub cut : List ℕ → Bytes → List Bytes
cut [] buf = buf ∷ []
cut (n ∷ ns) buf = take n buf ∷ cut ns (drop n buf)

flat-cut : (ns : List ℕ) (buf : Bytes) → flat (cut ns buf) ≡ buf
unfolding flat cut
flat-cut [] buf = append-nil buf
flat-cut (n ∷ ns) buf = ap (λ t. take n buf ++ t) (flat-cut ns (drop n buf)) ∙ take-drop n buf

unfoldable pub then_read :
    Bytes × VolumeDeserializer → (VolumeDeserializer → Result Bytes) → Result Bytes
then_read ([], r) rest = ok []
then_read (b ∷ bs, r) rest = rest r >>= λ more. ok (b ∷ bs ++ more)

module _ (checksum : Bytes → ℕ) where
  -- A client reads until nothing comes, and asks for `sizes` and one more bytes.
  unfoldable pub read_all : (ℕ → ℕ) → ℕ → VolumeDeserializer → Result Bytes
  read_all sizes zero r = err out_of_fuel
  read_all sizes (suc fuel) r =
      read checksum (suc (sizes fuel)) r >>= λ got. then_read got (read_all sizes fuel)

  -- What one client wrote, another reads.
  unfoldable pub transfer : List ℕ → ℕ → List Bytes → List ℕ → ℕ → (ℕ → ℕ) → ℕ → Result Bytes
  transfer offers size bufs cuts block sizes fuel =
      write_stream checksum bufs (new_volume_serializer offers size) >>= λ t.
      read_all sizes fuel (new_volume_deserializer (cut cuts t.output.written) block)

then_read-rest :
    (got : Bytes) (s : VolumeDeserializer) (left : Bytes) (rest : VolumeDeserializer → Result Bytes)
    → (0 < length got → rest s ≡ ok left)
    → (got ≡ [] → left ≡ [])
    → then_read (got, s) rest ≡ ok (got ++ left)
unfolding then_read
then_read-rest [] s left rest h k = ap ok (sym (k refl))
then_read-rest (b ∷ bs) s left rest h k = rw (h (omega arith)) refl

take-append_of : (n : ℕ) (xs ys : Bytes) → length xs ≡ n → take n (xs ++ ys) ≡ xs
take-append_of n xs ys h = ap (λ k. take k (xs ++ ys)) (sym h) ∙ take-append xs ys

drop-append_of : (n : ℕ) (xs ys : Bytes) → length xs ≡ n → drop n (xs ++ ys) ≡ ys
drop-append_of n xs ys h = ap (λ k. drop k (xs ++ ys)) (sym h) ∙ drop-append xs ys

module _ (checksum : Bytes → ℕ) (small : (buf : Bytes) → checksum buf < 4_294_967_296) where
  begun-HasRead :
      (size n block : ℕ) (buf : Bytes) (input : List Bytes)
      → 0 < n
      → 0 < size
      → size ≤ max_chunk_size
      → IsStream checksum size buf (flat input)
      → HasRead checksum n (read checksum n (new_volume_deserializer input block)) buf
  unfolding read read_header take_header new_volume_deserializer IsStream read_buffer
  begun-HasRead size n block buf input z p k (chunks, are, all, stream) =
      let header = uint32_bytes size in
      let later = framed checksum header chunks in
      let (h, rest) = read_pieces-IsRead input 4 in
      let front : take 4 (flat input) ≡ header =
        ap (take 4) stream ∙ take-append_of 4 header later (length-uint32_bytes size) in
      let behind : drop 4 (flat input) ≡ later =
        ap (drop 4) stream ∙ drop-append_of 4 header later (length-uint32_bytes size) in
      let is_size : get_int header ≡ size =
        ap get_int (sym (append-nil header)) ∙ get_int-uint32_bytes size [] (omega (arith, k)) in
      let in_range : (ltb max_chunk_size size || ltb size 1) ≡ false = ground (arith, k, p) in
      let r : VolumeDeserializer = record {
        input = (read_pieces input 4).1;
        bytes_in = 0 + 4;
        buffer_size = size + 4;
        data_size = 0;
        buffer = [];
        position = 0;
        eof = false;
        processed = header;
        chunk_size = size;
        header_completed = true;
      } in
      let w : IsReading checksum r chunks [] = record {
        header_read = refl;
        some_size = p;
        to_come = rest ∙ behind;
        next_chunks = are;
        buffer_fits = refl;
        in_buffer = ([], refl);
        part_size = refl;
        at_end = λ h. absurd (cc h);
      } in
      let (got, s, chunks', part, e, v, whole, within, end) =
        after_buffer-HasRead checksum small n [] r chunks [] z w (omega arith) (λ n. refl) in
      (
        got,
        s,
        chunks',
        part,
        rw (h, front, length-uint32_bytes size, is_size, in_range) e,
        v,
        sym all ∙ whole,
        within,
        λ n. sym all ∙ end n,
      )

  -- Without a call of Write, nothing was written.
  nothing_to_read :
      (size block : ℕ) (input : List Bytes)
      → flat input ≡ []
      → (s : VolumeDeserializer) × (read checksum size (new_volume_deserializer input block)
          ≡ ok ([], s))
  unfolding read read_header new_volume_deserializer
  nothing_to_read size block input h =
      let (e, rest) = read_pieces-IsRead input 4 in
      (
        record {
          input = (read_pieces input 4).1;
          bytes_in = 0 + 0;
          buffer_size = block;
          data_size = 0;
          buffer = [];
          position = 0;
          eof = true;
          processed = [];
          chunk_size = 0;
          header_completed = true;
        },
        rw (e, h) refl,
      )

  read_all-rest :
      (sizes : ℕ → ℕ) (fuel : ℕ) (r : VolumeDeserializer) (chunks : List Bytes) (part : Bytes)
      → IsReading checksum r chunks part
      → length (part ++ flat chunks) < fuel
      → read_all checksum sizes fuel r ≡ ok (part ++ flat chunks)
  unfolding read_all
  read_all-rest sizes zero r chunks part w h = absurd (omega (arith, h))
  read_all-rest sizes (suc fuel) r chunks part w h =
      let (got, s, chunks', part', e, v, whole, within, end) =
        read-HasRead checksum small (suc (sizes fuel)) r chunks part (omega arith) w in
      ap (λ m. m >>= λ got. then_read got (read_all checksum sizes fuel)) e
      ∙ then_read-rest got s (part' ++ flat chunks') (read_all checksum sizes fuel)
          (λ some.
            read_all-rest sizes fuel s chunks' part' v
              (omega (arith, h, ap length whole, length-append got (part' ++ flat chunks'), some)))
          (λ n. sym (ap (λ g. g ++ (part' ++ flat chunks')) n) ∙ sym whole ∙ end n)
      ∙ ap ok (sym whole)

  -- The stream of chunks is read back.
  stream-read_all :
      (sizes : ℕ → ℕ) (fuel size block : ℕ) (buf : Bytes) (input : List Bytes)
      → 0 < size
      → size ≤ max_chunk_size
      → IsStream checksum size buf (flat input)
      → length buf < fuel
      → read_all checksum sizes fuel (new_volume_deserializer input block) ≡ ok buf
  unfolding read_all
  stream-read_all sizes zero size block buf input p k stream h = absurd (omega (arith, h))
  stream-read_all sizes (suc fuel) size block buf input p k stream h =
      let (got, s, chunks', part', e, v, whole, within, end) =
        begun-HasRead size (suc (sizes fuel)) block buf input (omega arith) p k stream in
      ap (λ m. m >>= λ got. then_read got (read_all checksum sizes fuel)) e
      ∙ then_read-rest got s (part' ++ flat chunks') (read_all checksum sizes fuel)
          (λ some.
            read_all-rest sizes fuel s chunks' part' v
              (omega (arith, h, ap length whole, length-append got (part' ++ flat chunks'), some)))
          (λ n. sym (ap (λ g. g ++ (part' ++ flat chunks')) n) ∙ sym whole ∙ end n)
      ∙ ap ok (sym whole)

  -- With chunks of 1 to 268,435,456 bytes and room enough in the output, the calls of Write and then
  -- Close return, whatever they write; and whatever pieces the input stream hands the bytes out in,
  -- and whatever numbers of bytes but 0 the calls of Read ask for, no call of Read throws, and
  -- together they return the bytes that were written, until one returns none.
  pub transfer_round_trip :
      (offers : List ℕ) (size : ℕ) (bufs : List Bytes) (cuts : List ℕ) (block : ℕ) (sizes : ℕ → ℕ)
      (fuel : ℕ)
      → 0 < size
      → size ≤ max_chunk_size
      → 8 + 5 * length (flat bufs) ≤ sum offers
      → length (flat bufs) < fuel
      → transfer checksum offers size bufs cuts block sizes fuel ≡ ok (flat bufs)
  unfolding transfer write_stream write_all close new_volume_serializer read_all flat then_read
  transfer_round_trip offers size [] cuts block sizes zero p k h f = absurd (omega (arith, f))
  transfer_round_trip offers size [] cuts block sizes (suc fuel) p k h f =
      let (t, e) = nothing_to_read (suc (sizes fuel)) block (cut cuts []) (flat-cut cuts []) in
      ap (λ m. m >>= λ got. then_read got (read_all checksum sizes fuel)) e
  transfer_round_trip offers size (buf ∷ bufs) cuts block sizes fuel p k h f =
      let (t, e, stream) =
        write_stream-IsStream checksum offers size buf bufs p (omega (arith, k)) h in
      rw e (
        stream-read_all sizes fuel size block (flat (buf ∷ bufs)) (cut cuts t.output.written) p k
          (subst (λ x. IsStream checksum size (flat (buf ∷ bufs)) x)
            (sym (flat-cut cuts t.output.written)) stream)
          f)
