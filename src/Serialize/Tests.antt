-- ===== src/Serialize/Tests.antt =====
-- A plain coding that keeps the laws of the protobuf library, and runs of the theorems on it.
mod Runs
use aliyun_odps_sdk_cpp.Prelude.{
  ℕ, zero, suc, ◌+◌, ◌*◌, ◌%◌, ◌^◌, ◌<◌, ◌≤◌, ◌≡◌, refl, ap, Bool, true, false, Bytes, List, [],
  ◌∷◌, ◌++◌, Option, none, some, length, ltb, ◌==◌, arith, if◌then◌else◌, take, drop, length-append,
}
use aliyun_odps_sdk_cpp.Prelude.Int.{ℤ, pos, negsuc}
use aliyun_odps_sdk_cpp.Serialize.External.{External, Laws, WireType}

-- Each number is one element of the stream; a tag is the field number.
abbrev int_coding : ℤ → Bytes
int_coding (pos n) = 0 ∷ n ∷ []
int_coding (negsuc n) = 1 ∷ n ∷ []

abbrev read_int_coding : Bytes → Option (ℤ × Bytes)
read_int_coding (zero ∷ n ∷ rest) = some (pos n, rest)
read_int_coding (suc _ ∷ n ∷ rest) = some (negsuc n, rest)
read_int_coding _ = none

abbrev read_number : Bytes → Option (ℕ × Bytes)
read_number [] = none
read_number (n ∷ rest) = some (n, rest)

abbrev bool_coding : Bool → ℕ
bool_coding true = 1
bool_coding false = 0

abbrev read_bool_coding : Bytes → Option (Bool × Bytes)
read_bool_coding [] = none
read_bool_coding (n ∷ rest) = some (ltb 0 n, rest)

abbrev read_text_coding : Bytes → Option (Bytes × Bytes)
read_text_coding [] = none
read_text_coding (n ∷ rest) = if ltb (length rest) n then none else some (take n rest, drop n rest)

abbrev read_tag_coding : Bytes → ℕ × Bytes
read_tag_coding [] = (0, [])
read_tag_coding (f ∷ rest) = (f, rest)

abbrev add_bytes : ℕ → Bytes → ℕ
add_bytes c [] = c
add_bytes c (b ∷ bs) = add_bytes ((c * 31 + b + 1) % 2 ^ 32) bs

abbrev pub plain_coding : External
plain_coding = record {
  write_tag = λ f t. f ∷ [];
  write_varint32 = λ n. n ∷ [];
  write_sint64 = λ f v. f ∷ int_coding v;
  write_uint32 = λ f v. f ∷ v ∷ [];
  write_float = λ f v. f ∷ v ∷ [];
  write_double = λ f v. f ∷ v ∷ [];
  write_bool = λ f v. f ∷ bool_coding v ∷ [];
  write_sint64_no_tag = int_coding;
  write_sint32_no_tag = int_coding;
  write_uint32_no_tag = λ v. v ∷ [];
  write_float_no_tag = λ v. v ∷ [];
  write_double_no_tag = λ v. v ∷ [];
  write_bool_no_tag = λ v. bool_coding v ∷ [];
  read_tag = read_tag_coding;
  get_tag_field_number = λ tag. tag;
  read_sint64 = read_int_coding;
  read_sint32 = read_int_coding;
  read_uint32 = read_number;
  read_float = read_number;
  read_double = read_number;
  read_bool = read_bool_coding;
  read_bytes = read_text_coding;
  float_to_double = λ v. v;
  float_less = λ a b. ltb a b;
  double_less = λ a b. ltb a b;
  crc_start = 7;
  process_bytes = add_bytes;
  checksum = λ c. c % 2 ^ 32;
  json_accepts = λ s. true;
}

int_coding_lem : (v : ℤ) (rest : Bytes) → read_int_coding (int_coding v ++ rest) ≡ some (v, rest)
int_coding_lem (pos n) rest = refl
int_coding_lem (negsuc n) rest = refl

bool_coding_lem :
    (v : Bool) (rest : Bytes) → read_bool_coding (bool_coding v ∷ rest) ≡ some (v, rest)
bool_coding_lem true rest = refl
bool_coding_lem false rest = refl

take_front : (s rest : Bytes) → take (length s) (s ++ rest) ≡ s
take_front [] rest = refl
take_front (b ∷ s) rest = ap (◌∷◌ b) (take_front s rest)

drop_front : (s rest : Bytes) → drop (length s) (s ++ rest) ≡ rest
drop_front [] rest = refl
drop_front (b ∷ s) rest = drop_front s rest

text_coding_lem : (s rest : Bytes) → read_text_coding (length s ∷ (s ++ rest)) ≡ some (s, rest)
text_coding_lem s rest =
    let fits : ltb (length (s ++ rest)) (length s) ≡ false =
      rw (length-append s rest) (ground arith) in
    rw fits (rw (take_front s rest) (rw (drop_front s rest)))

tag_shorter :
    (input : Bytes)
    → 0 < (read_tag_coding input).0
    → length (read_tag_coding input).1 < length input
tag_shorter [] h = absurd (omega arith)
tag_shorter (f ∷ rest) h = omega arith

pub plain_coding-Laws : Laws plain_coding
plain_coding-Laws = record {
  tag_shrinks = tag_shorter;
  tag_lem = λ f t rest h. (h.0, refl, refl);
  tag_sint64 = λ f v rest h. (h.0, refl, refl);
  tag_uint32 = λ f v rest h. (h.0, refl, refl);
  tag_float = λ f v rest h. (h.0, refl, refl);
  tag_double = λ f v rest h. (h.0, refl, refl);
  tag_bool = λ f v rest h. (h.0, refl, refl);
  sint64_lem = λ v rest h. int_coding_lem v rest;
  sint32_lem = λ v rest h. int_coding_lem v rest;
  uint32_lem = λ v rest h. refl;
  float_lem = λ v rest h. refl;
  double_lem = λ v rest h. refl;
  bool_lem = bool_coding_lem;
  bytes_lem = λ s rest h. text_coding_lem s rest;
  checksum-lt = λ c. omega arith;
}
