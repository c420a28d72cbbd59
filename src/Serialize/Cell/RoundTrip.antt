-- ===== src/Serialize/Cell/RoundTrip.antt =====
-- One column, written and read back (tunnel/serialize.cpp).
use aliyun_odps_sdk_cpp.Prelude.{
  ℕ, ◌≤◌, ◌≡◌, refl, ap, ◌∙◌, Bool, true, false, Bytes, List, ◌++◌, append_assoc, length, ltb,
  arith, if◌then◌else◌,
}
use aliyun_odps_sdk_cpp.Prelude.Int.{ℤ}
use aliyun_odps_sdk_cpp.Result.{ok}
use aliyun_odps_sdk_cpp.Types.{ColumnType, TypeInfo, type_of, boolean, float, double}
use aliyun_odps_sdk_cpp.Serialize.External.{
  External, Laws, TagAt, IsField, wiretype_length_delimited,
}
use aliyun_odps_sdk_cpp.Serialize.Words.{IsIntOf, bytes_of_int64, bytes_of_int32}
use aliyun_odps_sdk_cpp.Serialize.Value.{Value, int, text, time}
use aliyun_odps_sdk_cpp.Serialize.Nested.Write.{Written, is_complex}
use aliyun_odps_sdk_cpp.Serialize.Nested.Read.{Reader, read_complex, make_time}
use aliyun_odps_sdk_cpp.Serialize.Nested.Fits.{IsTime}
use aliyun_odps_sdk_cpp.Serialize.Nested.Scalars.{Copies}
use aliyun_odps_sdk_cpp.Serialize.Nested.RoundTrip.{complex_round_trip}
use aliyun_odps_sdk_cpp.Serialize.Cell.{
  Sums, CellWritten, CellRead, put_all, sum_either, cell_text, cell_int, cell_time, cell_complex,
  write_value, column_int, column_text, column_time, column_complex, read_value,
}
use aliyun_odps_sdk_cpp.Serialize.Cell.Fits.{
  IsFieldText, FitsCell, cell_bigint, cell_tinyint, cell_smallint, cell_integer, cell_datetime,
  cell_date, cell_months, cell_json, cell_string, cell_char, cell_varchar, cell_binary,
  cell_decimal, cell_boolean, cell_float, cell_double, cell_timestamp, cell_timestamp_ntz,
  cell_day_time, cell_array, cell_map, cell_struct,
}

-- Each register changed by a function of its own.
abbrev pub after : (ℕ → ℕ) → (ℕ → ℕ) → Sums → Sums
after hr hc s = record { record_crc = hr s.record_crc; coded = hc s.coded }

-- The write succeeds; a tag of the column stands at the front of its bytes; behind the tag the read
-- gives the value back. Both change the registers alike.
abbrev pub CellCopies :
    External → ℕ → (Sums → CellWritten) → (Bytes → Sums → CellRead) → Value → Type 0
CellCopies x index write read v =
    (b : Bytes) × (b' : Bytes) × (hr : ℕ → ℕ) × (hc : ℕ → ℕ) × ((s : Sums)
      → write s ≡ ok (b, after hr hc s))
    × ((rest : Bytes) → TagAt x index (b ++ rest) (b' ++ rest))
    × ((rest : Bytes) (s : Sums) → read (b' ++ rest) s ≡ ok (v, rest, after hr hc s))

ltb-of-le : {m n : ℕ} → m ≤ n → ltb n m ≡ false
ltb-of-le h = ground arith

module _ (x : External) (stream : Bool) where
  abbrev raw_part : Bytes → ℕ → ℕ
  raw_part raw c = if stream then c else x.process_bytes c raw

  abbrev put_part : List Bytes → ℕ → ℕ
  put_part puts c = if stream then put_all x puts c else c

sum_either-after :
    (x : External) (stream : Bool) (puts : List Bytes) (raw : Bytes) (s : Sums)
    → sum_either x stream puts raw s ≡ after (raw_part x stream raw) (put_part x stream puts) s
sum_either-after x true puts raw s = refl
sum_either-after x false puts raw s = refl

module _ (x : External) (laws : Laws x) (stream : Bool) (limit index : ℕ)
    (field : IsField index) where
  either_CellCopies :
      (b b' raw : Bytes) (puts : List Bytes) (read : Bytes → Sums → CellRead) (v : Value)
      → ((rest : Bytes) → TagAt x index (b ++ rest) (b' ++ rest))
      → ((rest : Bytes) (s : Sums)
          → read (b' ++ rest) s ≡ ok (v, rest, sum_either x stream puts raw s))
      → CellCopies x index (λ s. ok (b, sum_either x stream puts raw s)) read v
  either_CellCopies b b' raw puts read v tag got = (
    b,
    b',
    _,
    _,
    (λ s. ap (λ t. ok (b, t)) (sum_either-after x stream puts raw s)),
    tag,
    λ rest s. got rest s ∙ ap (λ t. ok (v, rest, t)) (sum_either-after x stream puts raw s),
  )

  int_CellCopies :
      (v : ℤ)
      → IsIntOf 64 v
      → CellCopies x index (cell_int x stream index v) (column_int x stream index) (int v)
  unfolding cell_int column_int
  int_CellCopies v h =
      either_CellCopies _ (x.write_sint64_no_tag v) _ _ (column_int x stream index) _
        (λ rest. laws.tag_sint64 index v rest field) (λ rest s. rw (laws.sint64_lem v rest h))

  text_CellCopies :
      (v : Bytes)
      → IsFieldText limit v
      → CellCopies x index (cell_text x stream index v) (column_text x stream limit index) (text v)
  unfolding cell_text column_text
  text_CellCopies v (h, h') =
      either_CellCopies _ (x.write_varint32 (length v) ++ v) _ _ (column_text x stream limit index)
        _ (λ rest. rw append_assoc (laws.tag_lem index _ _ field))
        (λ rest s. rw append_assoc (rw (laws.bytes_lem v rest h') (rw (ltb-of-le h))))

  time_CellCopies :
      (sec nano : ℤ)
      → IsTime sec nano
      → CellCopies x index
          (cell_time x stream index sec nano)
          (column_time x stream)
          (time sec nano)
  unfolding cell_time column_time make_time
  time_CellCopies sec nano (e, hs, hn) = (
    _,
    x.write_sint64_no_tag sec ++ x.write_sint32_no_tag nano,
    (λ c. x.process_bytes (x.process_bytes c (bytes_of_int64 sec)) (bytes_of_int32 nano)),
    (λ c. c),
    (λ s. refl),
    (λ rest. rw append_assoc (laws.tag_lem index _ _ field)),
    λ rest s.
        rw append_assoc (rw (laws.sint64_lem sec _ hs) (rw (laws.sint32_lem nano rest hn) (rw e))),
  )

  complex_CellCopies :
      (w : ℕ → Written) (r : Reader Value) (v : Value)
      → Copies w r v
      → CellCopies x index
          (cell_complex x stream index w)
          (λ input. column_complex x stream (r input))
          v
  unfolding cell_complex column_complex
  complex_CellCopies w r v (b, g, hw, hr) = (
    x.write_tag index wiretype_length_delimited ++ b,
    b,
    g,
    (λ c. c),
    (λ s. rw (hw s.record_crc)),
    (λ rest. rw append_assoc (laws.tag_lem index _ _ field)),
    λ rest s. rw (hr rest s.record_crc),
  )

  pub value_CellCopies :
      {t : TypeInfo} {ty : ColumnType} {v v' : Value}
      → FitsCell x limit t ty v v'
      → type_of t ≡ ty
      → CellCopies x index
          (write_value x stream index ty v)
          (read_value x stream limit index t ty)
          v'
  unfolding write_value read_value is_complex
  value_CellCopies (cell_bigint h) _ = int_CellCopies _ h
  value_CellCopies (cell_tinyint h) _ = int_CellCopies _ h
  value_CellCopies (cell_smallint h) _ = int_CellCopies _ h
  value_CellCopies (cell_integer h) _ = int_CellCopies _ h
  value_CellCopies (cell_datetime h) _ = int_CellCopies _ h
  value_CellCopies (cell_date h) _ = int_CellCopies _ h
  value_CellCopies (cell_months h) _ = int_CellCopies _ h
  value_CellCopies (cell_json h) _ = text_CellCopies _ h
  value_CellCopies (cell_string h) _ = text_CellCopies _ h
  value_CellCopies (cell_char h) _ = text_CellCopies _ h
  value_CellCopies (cell_varchar h) _ = text_CellCopies _ h
  value_CellCopies (cell_binary h) _ = text_CellCopies _ h
  value_CellCopies (cell_decimal h) _ = text_CellCopies _ h
  value_CellCopies {t} (cell_boolean {v = v}) _ =
      either_CellCopies _ (x.write_bool_no_tag v) _ _ (read_value x stream limit index t boolean) _
        (λ rest. laws.tag_bool index v rest field) (λ rest s. rw (laws.bool_lem v rest))
  value_CellCopies {t} (cell_float {v = v} h) _ =
      either_CellCopies _ (x.write_float_no_tag v) _ _ (read_value x stream limit index t float) _
        (λ rest. laws.tag_float index v rest field) (λ rest s. rw (laws.float_lem v rest h))
  value_CellCopies {t} (cell_double {v = v} h) _ =
      either_CellCopies _ (x.write_double_no_tag v) _ _ (read_value x stream limit index t double) _
        (λ rest. laws.tag_double index v rest field) (λ rest s. rw (laws.double_lem v rest h))
  value_CellCopies (cell_timestamp h) _ = time_CellCopies _ _ h
  value_CellCopies (cell_timestamp_ntz h) _ = time_CellCopies _ _ h
  value_CellCopies (cell_day_time h) _ = time_CellCopies _ _ h
  value_CellCopies {t} (cell_array f) e =
      complex_CellCopies _ (read_complex x t) _ (complex_round_trip x laws f (rw e))
  value_CellCopies {t} (cell_map f) e =
      complex_CellCopies _ (read_complex x t) _ (complex_round_trip x laws f (rw e))
  value_CellCopies {t} (cell_struct f) e =
      complex_CellCopies _ (read_complex x t) _ (complex_round_trip x laws f (rw e))
