-- ===== src/Volume.antt =====
-- The chunks of a volume's stream: tunnel/volume_serialize.cpp. The streams of protobuf
-- (ZeroCopyOutputStream, ZeroCopyInputStream) are parameters: an output stream is the list of the
-- sizes of the buffers that its `Next` will offer, an input stream the list of the pieces that its
-- `Next` will hand out. `checksum` is what boost's CRC gives for all bytes processed so far.
mod Moved
mod Chunks
mod Written
mod Filled
mod ReadBack
mod RoundTrip
mod Tests
use aliyun_odps_sdk_cpp.Prelude.{
  ℕ, zero, suc, ◌+◌, ◌-◌, ◌*◌, ◌/◌, ◌%◌, ◌^◌, Bool, true, false, ◌||◌, Bytes, List, [], ◌∷◌, ◌++◌,
  length, take, drop, ltb, leb, ◌==◌, if◌then◌else◌,
}
use aliyun_odps_sdk_cpp.Result.{Result, ok, err, plain_error, undefined, out_of_fuel, ◌>>=◌}

-- An output stream: what was written, and the sizes of the buffers to come.
pub record Sink : Type 0 where
  pub written : Bytes
  pub offers : List ℕ

-- The loop of WriteInternal: what does not fill the buffer is backed up.
unfoldable pub write_buffers : List ℕ → Bytes → Bytes → Result Sink
write_buffers [] written [] = ok record { written = written; offers = [] }
write_buffers [] written (b ∷ bs) = err plain_error
write_buffers (n ∷ offers) written [] = ok record { written = written; offers = n ∷ offers }
write_buffers (n ∷ offers) written (b ∷ bs) =
    let rest = write_buffers offers (written ++ take n (b ∷ bs)) (drop n (b ∷ bs)) in
    if ltb (length (b ∷ bs)) n
    then ok record { written = written ++ b ∷ bs; offers = (n - length (b ∷ bs)) ∷ offers }
    else rest

-- `processed` is what the checksum has seen.
pub record VolumeSerializer : Type 0 where
  pub output : Sink
  pub bytes_out : ℕ
  pub processed : Bytes
  pub chunk_size : ℕ
  pub chunk_offset : ℕ
  pub header_completed : Bool

unfoldable pub new_volume_serializer : List ℕ → ℕ → VolumeSerializer
new_volume_serializer offers chunk_size = record {
  output = record { written = []; offers = offers };
  bytes_out = 0;
  processed = [];
  chunk_size = chunk_size;
  chunk_offset = 0;
  header_completed = false;
}

unfoldable pub write_internal : Bytes → VolumeSerializer → Result VolumeSerializer
write_internal buf s = write_buffers s.output.offers s.output.written buf >>= λ sink.
    ok record s { output = sink; bytes_out = s.bytes_out + length buf }

-- The four bytes of a uint32_t, the highest first.
unfoldable pub uint32_bytes : ℕ → Bytes
uint32_bytes v = (v / 16_777_216 % 256) ∷ (v / 65_536 % 256) ∷ (v / 256 % 256) ∷ (v % 256) ∷ []

-- The four bytes are counted twice.
unfoldable pub write_big_endian : ℕ → VolumeSerializer → Result VolumeSerializer
write_big_endian v s =
    write_internal (uint32_bytes v) s >>= λ t. ok record t { bytes_out = t.bytes_out + 4 }

-- The first call writes the size of the chunks.
unfoldable pub write_header : VolumeSerializer → Result VolumeSerializer
write_header s =
    if s.header_completed
    then ok s
    else write_big_endian s.chunk_size (record s { header_completed = true }) >>= λ t.
        ok record t { processed = t.processed ++ uint32_bytes s.chunk_size; chunk_offset = 0 }

-- What is left of the chunk, as a uint32_t.
unfoldable pub chunk_left : VolumeSerializer → ℕ
chunk_left s = (s.chunk_size + 4_294_967_296 - s.chunk_offset) % 4_294_967_296

unfoldable pub part_length : VolumeSerializer → Bytes → ℕ
part_length s buf = if ltb (chunk_left s) (length buf) then chunk_left s else length buf

-- The branch of Write's loop that writes a part of the data. What is left of the chunk is read as an
-- int: from 2^31 on it is negative.
unfoldable pub write_part : ℕ → Bytes → VolumeSerializer → Result VolumeSerializer
write_part len buf s =
    if leb 2_147_483_648 (chunk_left s)
    then err undefined
    else write_internal (take len buf) (record s { processed = s.processed ++ take len buf })
      >>= λ t. ok record t { chunk_offset = t.chunk_offset + len }

module _ (checksum : Bytes → ℕ) where
  unfoldable pub end_chunk : VolumeSerializer → Result VolumeSerializer
  end_chunk s = write_big_endian (checksum s.processed) s >>= λ t. ok record t { chunk_offset = 0 }

  -- Each turn ends a chunk or writes a part of the data.
  unfoldable pub write_chunks : ℕ → Bytes → VolumeSerializer → Result VolumeSerializer
  write_chunks fuel [] s = ok s
  write_chunks zero (b ∷ bs) s = err out_of_fuel
  write_chunks (suc fuel) (b ∷ bs) s =
      if s.chunk_offset == s.chunk_size
      then (end_chunk s >>= λ t. write_chunks fuel (b ∷ bs) t)
      else write_part (part_length s (b ∷ bs)) (b ∷ bs) s >>= λ t.
          write_chunks fuel (drop (part_length s (b ∷ bs)) (b ∷ bs)) t

  unfoldable pub write : Bytes → VolumeSerializer → Result VolumeSerializer
  write buf s = write_header s >>= λ t. write_chunks (2 * length buf) buf t

  unfoldable pub close : VolumeSerializer → Result VolumeSerializer
  close s = if s.chunk_offset == 0 then ok s else write_big_endian (checksum s.processed) s

-- `buffer` is what the last call of ReadInternal put into the buffer.
pub record VolumeDeserializer : Type 0 where
  pub input : List Bytes
  pub bytes_in : ℕ
  pub buffer_size : ℕ
  pub data_size : ℕ
  pub buffer : Bytes
  pub position : ℕ
  pub eof : Bool
  pub processed : Bytes
  pub chunk_size : ℕ
  pub header_completed : Bool

unfoldable pub new_volume_deserializer : List Bytes → ℕ → VolumeDeserializer
new_volume_deserializer input block_size = record {
  input = input;
  bytes_in = 0;
  buffer_size = block_size;
  data_size = 0;
  buffer = [];
  position = 0;
  eof = false;
  processed = [];
  chunk_size = 0;
  header_completed = false;
}

-- The loop of ReadInternal: what is read, and what the stream still has.
unfoldable pub read_pieces : List Bytes → ℕ → Bytes × List Bytes
read_pieces [] size = ([], [])
read_pieces (p ∷ pieces) zero = ([], p ∷ pieces)
read_pieces (p ∷ pieces) (suc size) =
    let (behind, rest) = read_pieces pieces (suc size - length p) in
    if ltb (suc size) (length p)
    then (take (suc size) p, drop (suc size) p ∷ pieces)
    else (p ++ behind, rest)

abbrev pub byte_of : Bytes → ℕ
byte_of [] = 0
byte_of (b ∷ bs) = b % 256

-- GetInt, on a buffer of at least four bytes.
unfoldable pub get_int : Bytes → ℕ
get_int buf =
    ((byte_of buf * 256 + byte_of (drop 1 buf)) * 256 + byte_of (drop 2 buf)) * 256
    + byte_of (drop 3 buf)

unfoldable pub read_buffer : ℕ → VolumeDeserializer → Bytes × VolumeDeserializer
read_buffer size r =
    let free = r.data_size - r.position in
    let len = if ltb free size then free else size in
    if leb r.data_size r.position
    then ([], r)
    else (take len (drop r.position r.buffer), record r { position = r.position + len })

abbrev pub max_chunk_size : ℕ
max_chunk_size = 268_435_456

abbrev pub min_chunk_size : ℕ
min_chunk_size = 1

-- What the first call of Read finds where the header stands.
unfoldable pub take_header : Bytes → VolumeDeserializer → Result VolumeDeserializer
take_header buf r =
    if ltb max_chunk_size (get_int buf) || ltb (get_int buf) min_chunk_size
    then err plain_error
    else ok record r {
      processed = r.processed ++ buf;
      chunk_size = get_int buf;
      buffer_size = get_int buf + 4;
    }

module _ (checksum : Bytes → ℕ) where
  unfoldable pub check_chunk : VolumeDeserializer → ℕ → Result VolumeDeserializer
  check_chunk r nread =
      if get_int (drop r.data_size r.buffer) == checksum r.processed
      then ok record r { bytes_in = r.bytes_in + nread }
      else err plain_error

  -- What ReadInternal put into the buffer is a chunk and its checksum.
  unfoldable pub take_chunk : Bytes → VolumeDeserializer → Result VolumeDeserializer
  take_chunk buf r =
      if length buf == 0
      then ok record r { eof = true }
      else if leb 4 (length buf)
      then check_chunk
          record r {
            buffer = buf;
            data_size = length buf - 4;
            position = 0;
            processed = r.processed ++ take (length buf - 4) buf;
          }
          (length buf)
      else err plain_error

  unfoldable pub fill_buffer : VolumeDeserializer → Result VolumeDeserializer
  fill_buffer r =
      let (buf, rest) = read_pieces r.input r.buffer_size in
      if ltb r.position r.data_size
      then ok r
      else take_chunk buf (record r { input = rest; bytes_in = r.bytes_in + length buf })

  unfoldable pub read_again : ℕ → Bytes × VolumeDeserializer → Result (Bytes × VolumeDeserializer)
  read_again size (b ∷ bs, r) = ok (b ∷ bs, r)
  read_again size ([], r) =
      if r.eof then ok ([], r) else (fill_buffer r >>= λ s. ok (read_buffer size s))

  unfoldable pub read_header : ℕ → Bytes → VolumeDeserializer → Result (Bytes × VolumeDeserializer)
  read_header size buf r =
      if length buf == 0
      then ok ([], record r { eof = true })
      else if length buf == 4
      then (take_header buf r >>= λ s. read_again size (read_buffer size s))
      else err plain_error

  unfoldable pub read : ℕ → VolumeDeserializer → Result (Bytes × VolumeDeserializer)
  read size r =
      let (buf, rest) = read_pieces r.input 4 in
      if r.header_completed
      then read_again size (read_buffer size r)
      else read_header size buf
          record r { input = rest; bytes_in = r.bytes_in + length buf; header_completed = true }
