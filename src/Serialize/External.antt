-- ===== src/Serialize/External.antt =====
-- What tunnel/serialize.cpp takes from elsewhere: google::protobuf::internal::WireFormatLite, the
-- checksum of boost/crc.hpp (tunnel/crc_32c.h), float arithmetic and the JSON library.
use aliyun_odps_sdk_cpp.Prelude.{ℕ, ◌^◌, ◌<◌, ◌≡◌, Bool, Bytes, ◌++◌, Option, some, length}
use aliyun_odps_sdk_cpp.Prelude.Int.{ℤ}
use aliyun_odps_sdk_cpp.Serialize.Words.{IsIntOf}

pub data WireType : Type 0 where
  wiretype_varint wiretype_length_delimited : WireType

-- A stream is the list of its bytes. A `float` or `double` is its bit pattern. A write returns the
-- bytes that it appends; a read returns its value and what is left, `none` where protobuf returns
-- false. `read_tag` returns 0 at the end of the input.
pub record External : Type 0 where
  pub write_tag : ℕ → WireType → Bytes
  pub write_varint32 : ℕ → Bytes
  pub write_sint64 : ℕ → ℤ → Bytes
  pub write_uint32 : ℕ → ℕ → Bytes
  pub write_float : ℕ → ℕ → Bytes
  pub write_double : ℕ → ℕ → Bytes
  pub write_bool : ℕ → Bool → Bytes
  pub write_sint64_no_tag : ℤ → Bytes
  pub write_sint32_no_tag : ℤ → Bytes
  pub write_uint32_no_tag : ℕ → Bytes
  pub write_float_no_tag : ℕ → Bytes
  pub write_double_no_tag : ℕ → Bytes
  pub write_bool_no_tag : Bool → Bytes
  pub read_tag : Bytes → ℕ × Bytes
  pub get_tag_field_number : ℕ → ℕ
  pub read_sint64 : Bytes → Option (ℤ × Bytes)
  pub read_sint32 : Bytes → Option (ℤ × Bytes)
  pub read_uint32 : Bytes → Option (ℕ × Bytes)
  pub read_float : Bytes → Option (ℕ × Bytes)
  pub read_double : Bytes → Option (ℕ × Bytes)
  pub read_bool : Bytes → Option (Bool × Bytes)
  pub read_bytes : Bytes → Option (Bytes × Bytes)
  pub float_to_double : ℕ → ℕ
  pub float_less : ℕ → ℕ → Bool
  pub double_less : ℕ → ℕ → Bool
  -- The register of a fresh checksum object, the register after some more bytes, and the checksum
  -- that a register stands for.
  pub crc_start : ℕ
  pub process_bytes : ℕ → Bytes → ℕ
  pub checksum : ℕ → ℕ
  -- Whether the JSON library accepts a metrics text.
  pub json_accepts : Bytes → Bool

-- What `read_tag` finds at the front of `input`: a tag of the field `f`, before `rest`.
abbrev pub TagAt : External → ℕ → Bytes → Bytes → Type 0
TagAt x f input rest =
    (0 < (x.read_tag input).0)
    × (x.get_tag_field_number (x.read_tag input).0 ≡ f)
    × ((x.read_tag input).1 ≡ rest)

abbrev pub IsField : ℕ → Type 0
IsField f = (0 < f) × (f < 2 ^ 29)

-- The documented behaviour of WireFormatLite: a write with a field number is a tag and then the
-- write without one; a read gives back what the matching write wrote, and leaves the rest. A field
-- number is positive and below 2 ^ 29. A tag takes a byte at least.
pub record Laws (x : External) : Type 0 where
  pub tag_shrinks :
      (input : Bytes) → 0 < (x.read_tag input).0 → length (x.read_tag input).1 < length input
  pub tag_lem :
      (f : ℕ) (t : WireType) (rest : Bytes) → IsField f → TagAt x f (x.write_tag f t ++ rest) rest
  pub tag_sint64 :
      (f : ℕ) (v : ℤ) (rest : Bytes)
      → IsField f
      → TagAt x f (x.write_sint64 f v ++ rest) (x.write_sint64_no_tag v ++ rest)
  pub tag_uint32 :
      (f v : ℕ) (rest : Bytes)
      → IsField f
      → TagAt x f (x.write_uint32 f v ++ rest) (x.write_uint32_no_tag v ++ rest)
  pub tag_float :
      (f v : ℕ) (rest : Bytes)
      → IsField f
      → TagAt x f (x.write_float f v ++ rest) (x.write_float_no_tag v ++ rest)
  pub tag_double :
      (f v : ℕ) (rest : Bytes)
      → IsField f
      → TagAt x f (x.write_double f v ++ rest) (x.write_double_no_tag v ++ rest)
  pub tag_bool :
      (f : ℕ) (v : Bool) (rest : Bytes)
      → IsField f
      → TagAt x f (x.write_bool f v ++ rest) (x.write_bool_no_tag v ++ rest)
  pub sint64_lem :
      (v : ℤ) (rest : Bytes)
      → IsIntOf 64 v
      → x.read_sint64 (x.write_sint64_no_tag v ++ rest) ≡ some (v, rest)
  pub sint32_lem :
      (v : ℤ) (rest : Bytes)
      → IsIntOf 32 v
      → x.read_sint32 (x.write_sint32_no_tag v ++ rest) ≡ some (v, rest)
  pub uint32_lem :
      (v : ℕ) (rest : Bytes)
      → v < 2 ^ 32
      → x.read_uint32 (x.write_uint32_no_tag v ++ rest) ≡ some (v, rest)
  pub float_lem :
      (v : ℕ) (rest : Bytes)
      → v < 2 ^ 32
      → x.read_float (x.write_float_no_tag v ++ rest) ≡ some (v, rest)
  pub double_lem :
      (v : ℕ) (rest : Bytes)
      → v < 2 ^ 64
      → x.read_double (x.write_double_no_tag v ++ rest) ≡ some (v, rest)
  pub bool_lem :
      (v : Bool) (rest : Bytes) → x.read_bool (x.write_bool_no_tag v ++ rest) ≡ some (v, rest)
  pub bytes_lem :
      (s rest : Bytes)
      → length s < 2 ^ 31
      → x.read_bytes (x.write_varint32 (length s) ++ (s ++ rest)) ≡ some (s, rest)
  pub checksum-lt : (c : ℕ) → x.checksum c < 2 ^ 32
