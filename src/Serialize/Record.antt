-- ===== src/Serialize/Record.antt =====
-- tunnel/serialize.cpp: the stream of records. ProtoSerializer::Serialize and Complete,
-- ProtoDeserializer::Deserialize. The coded streams that are opened anew past the byte limit change
-- no byte and are left out, and so are compression and logging.
pub mod Fields
pub mod RoundTrip
pub mod Faults
pub mod Stream
use aliyun_odps_sdk_cpp.Prelude.{
  ℕ, zero, suc, ◌+◌, ◌-◌, Bool, true, false, not, ◌&&◌, ◌||◌, Bytes, List, [], ◌∷◌, ◌++◌, Option,
  none, some, length, ltb, ◌==◌, if◌then◌else◌, get_elem?, set, replicate,
}
use aliyun_odps_sdk_cpp.Prelude.Int.{ℤ, pos, negsuc}
use aliyun_odps_sdk_cpp.Result.{
  Result, ok, err, internal_error, plain_error, undefined, out_of_fuel, ◌>>=◌, ◌>>◌, guard,
}
use aliyun_odps_sdk_cpp.Types.{TypeInfo, type_of}
use aliyun_odps_sdk_cpp.Serialize.External.{External, wiretype_length_delimited}
use aliyun_odps_sdk_cpp.Serialize.Words.{le_bytes}
use aliyun_odps_sdk_cpp.Serialize.Value.{Value}
use aliyun_odps_sdk_cpp.Serialize.Cell.{
  Sums, CellWritten, or_internal, put_all, sum_either, sum_record, put_text, write_cell, read_value,
}

abbrev pub meta_total_records_tag : ℕ
meta_total_records_tag = 33554430

abbrev pub meta_checksum_tag : ℕ
meta_checksum_tag = 33554431

abbrev pub record_end_tag : ℕ
record_end_tag = 33553408

abbrev pub metrics_end_tag : ℕ
metrics_end_tag = 33554176

-- A record: a value or null for each column.
abbrev pub Record : Type 0
Record = List (Option Value)

-- The schema's columns and field size, and mDoStreamChecksum.
pub record Config : Type 0 where
  pub columns : List TypeInfo
  pub max_field_size : ℕ
  pub stream : Bool

-- `output` is all that has been written.
pub record Serializer : Type 0 where
  pub output : Bytes
  pub sums : Sums
  pub crc_crc : ℕ
  pub total_records : ℕ

-- `received_checksum` starts as the uint32_t of -1.
pub record Deserializer : Type 0 where
  pub input : Bytes
  pub sums : Sums
  pub crc_crc : ℕ
  pub total_records : ℕ
  pub got_total_records : Bool
  pub got_metrics : Bool
  pub received_total_records : ℤ
  pub received_checksum : ℕ
  pub server_metrics : Bytes

module _ (x : External) where
  abbrev pub start_sums : Sums
  start_sums = record { record_crc = x.crc_start; coded = x.crc_start }

  unfoldable pub new_serializer : Serializer
  new_serializer = record {
    output = [];
    sums = start_sums;
    crc_crc = x.crc_start;
    total_records = 0;
  }

  unfoldable pub new_deserializer : Bytes → Deserializer
  new_deserializer input = record {
    input = input;
    sums = start_sums;
    crc_crc = x.crc_start;
    total_records = 0;
    got_total_records = false;
    got_metrics = false;
    received_total_records = negsuc 0;
    received_checksum = 4294967295;
    server_metrics = [];
  }

module _ (x : External) (stream : Bool) where
  -- The checksum of the mode.
  abbrev pub mode_checksum : Sums → ℕ
  mode_checksum s = if stream then x.checksum s.coded else x.checksum s.record_crc

  -- A put into mCodedChecksum, in the mode that keeps one.
  abbrev pub put_coded : Bytes → Sums → Sums
  put_coded b s = if stream then record s { coded = x.process_bytes s.coded b } else s

  -- mCrcCrc takes the checksum of a record in the other mode.
  abbrev pub next_crc_crc : ℕ → ℕ → ℕ
  next_crc_crc c crc = if stream then c else x.process_bytes c (le_bytes 4 crc)

-- What one turn of the loop in Deserialize leads to.
pub data Turn : Type 0 where
  go_on : Deserializer → Record → List Bool → Turn
  got_record : Deserializer → Record → Turn
  reached_end : Deserializer → Record → Turn

-- mNullMap[i] == 0: the column becomes null.
unfoldable pub fill_null : List Bool → Record → Record
fill_null [] r = r
fill_null (b ∷ m) [] = []
fill_null (b ∷ m) (v ∷ r) = (if b then v else none) ∷ fill_null m r

int_is : ℤ → ℕ → Bool
int_is (pos n) m = n == m
int_is (negsuc n) m = false

module _ (x : External) (config : Config) where
  open config use {columns, max_field_size, stream}

  -- The loop over the columns from a field number on.
  unfoldable pub write_cells : ℕ → List TypeInfo → Record → Sums → CellWritten
  write_cells index [] r s = ok ([], s)
  write_cells index (t ∷ ts) [] s = err undefined
  write_cells index (t ∷ ts) (v ∷ r) s = write_cell x stream index t v s >>= λ (b, s').
      write_cells (suc index) ts r s' >>= λ (b', s''). ok (b ++ b', s'')

  -- Serialize; `had_error` is mCodedOutput->HadError().
  unfoldable pub serialize : Bool → Record → Serializer → Result (Bool × Serializer)
  unfolding write_cells
  serialize had_error r w =
      if had_error
      then ok (false, w)
      else (write_cells 1 columns r (record w.sums { record_crc = x.crc_start }) >>= λ (b, s).
          let crc = mode_checksum x stream s in
          let end_tag = x.write_uint32 record_end_tag crc in
          ok (
            true,
            record {
              output = w.output ++ (b ++ end_tag);
              sums = put_coded x stream end_tag s;
              crc_crc = next_crc_crc x stream w.crc_crc crc;
              total_records = w.total_records + 1;
            },
          ))

  -- Complete: the count of records and the checksum of the whole stream.
  unfoldable pub complete : Serializer → Serializer
  complete w =
      let total = x.write_sint64 meta_total_records_tag (pos w.total_records) in
      let s = put_coded x stream total w.sums in
      let crc = if stream then x.checksum s.coded else x.checksum w.crc_crc in
      record w { output = w.output ++ (total ++ x.write_uint32 meta_checksum_tag crc); sums = s }

  -- RECORD_END_TAG.
  unfoldable pub end_record : Deserializer → Bytes → Record → List Bool → Result Turn
  unfolding fill_null
  end_record d rest r null_map = or_internal (x.read_uint32 rest) >>= λ (crc, rest').
      let checksum = mode_checksum x stream d.sums in
      let s = put_coded x stream (x.write_uint32 record_end_tag checksum) d.sums in
      guard (checksum == crc) internal_error
      >> ok (
          got_record
            (record d {
              input = rest';
              sums = if stream then s else record s { record_crc = x.crc_start };
              crc_crc = next_crc_crc x stream d.crc_crc checksum;
              total_records = d.total_records + 1;
            })
            (fill_null null_map r))

  -- META_TOTAL_RECORDS_TAG.
  unfoldable pub total_records_field : Deserializer → Bytes → Record → List Bool → Result Turn
  unfolding int_is
  total_records_field d rest r null_map = or_internal (x.read_sint64 rest) >>= λ (total, rest').
      guard (int_is total d.total_records) internal_error
      >> ok (
          go_on
            (record d {
              input = rest';
              sums =
                  put_coded x stream (x.write_sint64 meta_total_records_tag (pos d.total_records))
                    d.sums;
              got_total_records = true;
              received_total_records = total;
            })
            r null_map)

  -- The metrics of the server: field 1 behind the count of records.
  unfoldable pub metrics_field : Deserializer → Bytes → Record → List Bool → Result Turn
  metrics_field d rest r null_map = or_internal (x.read_bytes rest) >>= λ (metrics, rest').
      guard (length metrics == 0 || x.json_accepts metrics) plain_error
      >> ok (
          go_on
            (record d {
              input = rest';
              sums =
                  sum_either x stream (put_text x stream 1 metrics) metrics
                    (sum_record x stream (le_bytes 4 1) d.sums);
              got_metrics = true;
              server_metrics = if length metrics == 0 then d.server_metrics else metrics;
            })
            r null_map)

  unfoldable pub metrics_end : Deserializer → Bytes → Record → List Bool → Result Turn
  metrics_end d rest r null_map =
      guard d.got_metrics internal_error
      >> (or_internal (x.read_uint32 rest) >>= λ (crc, rest').
          let checksum = mode_checksum x stream d.sums in
          guard (checksum == crc) internal_error
          >> ok (
              go_on
                (record d {
                  input = rest';
                  sums = put_coded x stream (x.write_uint32 metrics_end_tag checksum) d.sums;
                })
                r null_map))

  -- META_CHECKSUM_TAG.
  unfoldable pub total_checksum : Deserializer → Bytes → Record → Result Turn
  total_checksum d rest r = or_internal (x.read_uint32 rest) >>= λ (crc, rest').
      let checksum = if stream then x.checksum d.sums.coded else x.checksum d.crc_crc in
      guard (checksum == crc) internal_error
      >> ok (reached_end (record d { input = rest'; received_checksum = crc }) r)

  unfoldable pub meta_field : ℕ → Deserializer → Bytes → Record → List Bool → Result Turn
  unfolding metrics_field metrics_end total_checksum
  meta_field field d rest r null_map =
      if field == 1 && not d.got_metrics
      then metrics_field d rest r null_map
      else if field == metrics_end_tag
      then metrics_end d rest r null_map
      else if field == meta_checksum_tag
      then total_checksum d rest r
      else err internal_error

  -- A normal column of the type found in the schema, with the column's setter.
  unfoldable pub column_at :
      ℕ → ℕ → Option TypeInfo → Deserializer → Bytes → Record → List Bool → Result Turn
  column_at field idx none d rest r null_map = err internal_error
  column_at field idx (some t) d rest r null_map =
      read_value x stream max_field_size field t (type_of t) rest
        (if stream then d.sums else sum_record x stream (le_bytes 4 field) d.sums)
      >>= λ (v, rest', s). ok (
          go_on (record d { input = rest'; sums = s }) (set r idx (some v)) (set null_map idx true))

  unfoldable pub column_field : ℕ → Deserializer → Bytes → Record → List Bool → Result Turn
  unfolding column_at
  column_field field d rest r null_map =
      column_at field (field - 1) (get_elem? columns (field - 1)) d rest r null_map

  -- One turn of the loop.
  unfoldable pub turn : Deserializer → Record → List Bool → Result Turn
  turn d r null_map =
      let tag = (x.read_tag d.input).0 in
      let rest = (x.read_tag d.input).1 in
      let field = x.get_tag_field_number tag in
      if tag == 0
      then err internal_error
      else if d.got_total_records
      then meta_field field d rest r null_map
      else if field == record_end_tag
      then end_record d rest r null_map
      else if field == meta_total_records_tag
      then total_records_field d rest r null_map
      else if ltb field 1 || ltb (length columns) field
      then err internal_error
      else column_field field d rest r null_map

  -- The loop: `true` with a record, `false` at the end of the stream.
  unfoldable pub read_fields :
      ℕ → Deserializer → Record → List Bool → Result (Bool × Record × Deserializer)
  unfolding turn
  read_fields zero d r null_map = err out_of_fuel
  read_fields (suc fuel) d r null_map = turn d r null_map >>= elim [
    | go_on d' r' m ↦ read_fields fuel d' r' m
    | got_record d' r' ↦ ok (true, r', d')
    | reached_end d' r' ↦ ok (false, r', d')
  ]

  -- Deserialize into a record `r`. A tag takes at least a byte, so the input's length is fuel enough.
  unfoldable pub deserialize : Record → Deserializer → Result (Bool × Record × Deserializer)
  deserialize r d = read_fields (suc (length d.input)) d r (replicate (length columns) false)
