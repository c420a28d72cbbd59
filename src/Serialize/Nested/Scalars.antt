-- ===== src/Serialize/Nested/Scalars.antt =====
-- Values that are no array, map or struct, written and read back (tunnel/serialize.cpp).
use aliyun_odps_sdk_cpp.Prelude.{ℕ, ◌^◌, ◌<◌, ◌≡◌, refl, Bytes, ◌++◌, append_assoc, length, arith}
use aliyun_odps_sdk_cpp.Prelude.Int.{ℤ, pos, negsuc}
use aliyun_odps_sdk_cpp.Result.{ok, ◌>>=◌}
use aliyun_odps_sdk_cpp.Types.{ColumnType, binary, char, json, string, varchar}
use aliyun_odps_sdk_cpp.Utf8.{trim_or_padding}
use aliyun_odps_sdk_cpp.Serialize.External.{External, Laws}
use aliyun_odps_sdk_cpp.Serialize.Words.{IsIntOf, narrow_8, narrow_16, narrow_32}
use aliyun_odps_sdk_cpp.Serialize.Value.{Value, int, text, time}
use aliyun_odps_sdk_cpp.Serialize.Nested.Write.{
  Written, write_scalar, write_int, write_text, write_time, decode_date,
}
use aliyun_odps_sdk_cpp.Serialize.Nested.Read.{
  Reader, encode_date, read_scalar, read_int, read_text, read_time,
}
use aliyun_odps_sdk_cpp.Serialize.Nested.Fits.{
  FitsScalar, IsText, IsTime, is_tinyint, is_smallint, is_integer, is_bigint, is_datetime,
  is_months, is_date, is_float, is_double, is_boolean, is_char, is_varchar, is_string, is_binary,
  is_decimal, is_json, is_timestamp, is_timestamp_ntz, is_day_time,
}

-- The write succeeds, and the read gives `a` back in front of any rest: both sides pass the
-- checksum on alike.
abbrev pub Copies : {A : Type 0} → (ℕ → Written) → Reader A → A → Type 0
Copies write read a =
    (b : Bytes) × (g : ℕ → ℕ) × ((c : ℕ) → write c ≡ ok (b, g c))
    × ((rest : Bytes) (c : ℕ) → read (b ++ rest) c ≡ ok (a, rest, g c))

decode_date-IsIntOf : (v : ℤ) → IsIntOf 64 v → IsIntOf 64 (decode_date v)
unfolding decode_date
decode_date-IsIntOf (pos n) h = ground (arith, h)
decode_date-IsIntOf (negsuc n) h = ground (arith, h)

module _ (x : External) (laws : Laws x) where
  int_Copies :
      (v v' : ℤ) (convert : ℤ → ℤ)
      → IsIntOf 64 v
      → convert v ≡ v'
      → Copies (write_int x v) (read_int x convert) (int v')
  unfolding write_int read_int
  int_Copies v v' convert h e = (_, _, (λ c. refl), λ rest c. rw (laws.sint64_lem v rest h, e))

  text_Copies :
      (s : Bytes) (convert : Bytes → _)
      → length s < 2 ^ 31
      → convert s ≡ ok s
      → Copies (write_text x s) (read_text x convert) (text s)
  unfolding write_text read_text
  text_Copies s convert h e =
      (_, _, (λ c. refl), λ rest c. rw (append_assoc, laws.bytes_lem s rest h, e))

  time_Copies : (s n : ℤ) → IsTime s n → Copies (write_time x s n) (read_time x) (time s n)
  unfolding write_time read_time
  time_Copies s n (e, hs, hn) = (
    _,
    _,
    (λ c. refl),
    λ rest c. rw (append_assoc, laws.sint64_lem s _ hs) (rw (laws.sint32_lem n rest hn) (rw e)),
  )

  trimmed_Copies :
      (t : ColumnType) (n : ℤ) (s s' : Bytes)
      → trim_or_padding s t n ≡ ok s'
      → IsText t n s'
      → Copies
          (λ c. trim_or_padding s t n >>= λ s''. write_text x s'' c)
          (read_text x (λ s''. trim_or_padding s'' t n))
          (text s')
  trimmed_Copies t n s s' k (e, h) =
      let (b, g, w, r) = text_Copies s' (λ s''. trim_or_padding s'' t n) h e in
      (b, g, (λ c. rw k (w c)), r)

  pub scalar_Copies :
      {t : ColumnType} {n : ℤ} {v v' : Value}
      → FitsScalar t n v v'
      → Copies (write_scalar x t n v) (read_scalar x t n) v'
  unfolding write_scalar read_scalar decode_date encode_date
  scalar_Copies (is_tinyint {v = v} h h') = int_Copies v v _ h' (narrow_8 v h)
  scalar_Copies (is_smallint {v = v} h h') = int_Copies v v _ h' (narrow_16 v h)
  scalar_Copies (is_integer {v = v} h h') = int_Copies v v _ h' (narrow_32 v h)
  scalar_Copies (is_bigint {v = v} h) = int_Copies v v _ h refl
  scalar_Copies (is_datetime {v = v} h) = int_Copies v v _ h refl
  scalar_Copies (is_months {v = v} h) = int_Copies v v _ h refl
  scalar_Copies (is_date {v = v} h) =
      int_Copies (decode_date v) (encode_date (decode_date v)) encode_date (decode_date-IsIntOf v h)
        refl
  scalar_Copies (is_float {v = v} h) = (_, _, (λ c. refl), λ rest c. rw (laws.float_lem v rest h))
  scalar_Copies (is_double {v = v} h) = (_, _, (λ c. refl), λ rest c. rw (laws.double_lem v rest h))
  scalar_Copies (is_boolean {v = v}) = (_, _, (λ c. refl), λ rest c. rw (laws.bool_lem v rest))
  scalar_Copies (is_char {n = n} {s = s} {s' = s'} k h) = trimmed_Copies char n s s' k h
  scalar_Copies (is_varchar {n = n} {s = s} {s' = s'} k h) = trimmed_Copies varchar n s s' k h
  scalar_Copies (is_string {n = n} {s = s} h) =
      trimmed_Copies string n s s (unfold trim_or_padding in refl)
        (unfold trim_or_padding in refl, h)
  scalar_Copies (is_binary {n = n} {s = s} h) =
      trimmed_Copies binary n s s (unfold trim_or_padding in refl)
        (unfold trim_or_padding in refl, h)
  scalar_Copies (is_decimal {n = n} {s = s} h) = text_Copies s ok h refl
  scalar_Copies (is_json {n = n} {s = s} h) =
      trimmed_Copies json n s s (unfold trim_or_padding in refl) (unfold trim_or_padding in refl, h)
  scalar_Copies (is_timestamp h) = time_Copies _ _ h
  scalar_Copies (is_timestamp_ntz h) = time_Copies _ _ h
  scalar_Copies (is_day_time h) = time_Copies _ _ h
