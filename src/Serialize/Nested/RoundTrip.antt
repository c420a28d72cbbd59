-- ===== src/Serialize/Nested/RoundTrip.antt =====
-- Values inside arrays, maps and structs, written and read back (tunnel/serialize.cpp).
use mathlib.Core.Path.{fun_ext}
use aliyun_odps_sdk_cpp.Prelude.{
  ℕ, ◌^◌, ◌<◌, ◌≡◌, refl, subst, List, [], Bool, true, false, Bool-cases, inl, inr, ◌++◌,
  append_assoc, Option, some, none, arith,
}
use aliyun_odps_sdk_cpp.Prelude.Int.{ℤ}
use aliyun_odps_sdk_cpp.Result.{ok, err, plain_error, guard, ◌>>◌}
use aliyun_odps_sdk_cpp.Types.{
  ColumnType, TypeInfo, TypeInfos, type_of, length_of, plain, none_more, more, info, map,
}
use aliyun_odps_sdk_cpp.Serialize.External.{External, Laws}
use aliyun_odps_sdk_cpp.Serialize.Value.{
  Value, Elems, map_of, no_elems, size, map_key_type_supported, recover_keys,
}
use aliyun_odps_sdk_cpp.Serialize.Nested.Write.{
  Written, is_complex, element_supported, nested, then_write, array_body, write_complex,
  write_elems, write_members, write_nested,
}
use aliyun_odps_sdk_cpp.Serialize.Nested.Read.{
  Reader, nested_reader, cons_elem, then_read, read_elems, read_array, read_map, read_complex,
  read_members, read_nested,
}
use aliyun_odps_sdk_cpp.Serialize.Nested.Fits.{
  FitsScalar, Fits, FitsElems, FitsMembers, fits_scalar, fits_array, fits_map, fits_struct,
  fits_none, fits_null, fits_elem, members_none, members_null, members_elem,
}
use aliyun_odps_sdk_cpp.Serialize.Nested.Scalars.{Copies, scalar_Copies}

scalar-is_complex :
    {t : ColumnType} {n : ℤ} {v v' : Value} → FitsScalar t n v v' → is_complex t ≡ false
unfolding is_complex
scalar-is_complex (FitsScalar.is_tinyint _ _) = refl
scalar-is_complex _ = refl

key-is_complex : (k : ColumnType) → map_key_type_supported k ≡ true → is_complex k ≡ false
unfolding is_complex map_key_type_supported
key-is_complex k h = ground arith

key-element_supported :
    (k : ColumnType) → map_key_type_supported k ≡ true → element_supported k ≡ true
unfolding element_supported map_key_type_supported
key-element_supported k h = ground arith

module _ (x : External) where
  reader_of_key :
      (t : TypeInfo) (r r' : Reader Value)
      → is_complex (type_of t) ≡ false
      → nested_reader x t r ≡ nested_reader x t r'
  unfolding nested_reader
  reader_of_key t r r' h = fun_ext λ input. fun_ext λ c. rw h

module _ (x : External) (laws : Laws x) where
  scalar_nested :
      (t : TypeInfo) (v v' : Value) (w : ℕ → Written) (r : Reader Value)
      → FitsScalar (type_of t) (length_of t) v v'
      → Copies (nested x t v w) (nested_reader x t r) (some v')
  unfolding nested nested_reader
  scalar_nested t v v' w r f =
      let (b, g, hw, hr) = scalar_Copies x laws f in
      let e = scalar-is_complex f in
      (
        x.write_bool_no_tag false ++ b,
        g,
        (λ c. rw e (rw (hw c))),
        λ rest c. rw append_assoc (rw (laws.bool_lem false (b ++ rest)) (rw e (rw (hr rest c)))),
      )

  complex_nested :
      (t : TypeInfo) (v v' : Value) (w : ℕ → Written) (r : Reader Value)
      → is_complex (type_of t) ≡ true
      → Copies w r v'
      → Copies (nested x t v w) (nested_reader x t r) (some v')
  unfolding nested nested_reader
  complex_nested t v v' w r e (b, g, hw, hr) = (
    x.write_bool_no_tag false ++ b,
    g,
    (λ c. rw e (rw (hw c))),
    λ rest c. rw append_assoc (rw (laws.bool_lem false (b ++ rest)) (rw e (rw (hr rest c)))),
  )

  null_nested :
      (t : TypeInfo) (r : Reader Value)
      → Copies (λ c. ok (x.write_bool_no_tag true, c)) (nested_reader x t r) none
  unfolding nested_reader
  null_nested t r = (_, (λ c. c), (λ c. refl), λ rest c. rw (laws.bool_lem true rest))

  then_Copies :
      (w w' : ℕ → Written) (r : Reader (Option Value)) (r' : Reader Elems) (v : Option Value)
      (es : Elems)
      → Copies w r v
      → Copies w' r' es
      → Copies
          (λ c. then_write x (w c) w')
          (λ input c. then_read x (r input c) r')
          (cons_elem x v es)
  then_Copies w w' r r' v es (b, g, hw, hr) (b', g', hw', hr') = (
    b ++ b',
    (λ c. g' (g c)),
    (λ c. rw (hw c) (rw (hw' (g c)))),
    λ rest c. rw append_assoc (rw (hr (b' ++ rest) c) (rw (hr' rest (g c)))),
  )

  array_Copies :
      (t : TypeInfo) (es es' : Elems) (w : ℕ → Written) (one : Reader (Option Value))
      → element_supported (type_of t) ≡ true
      → size es < 2 ^ 32
      → Copies w (read_elems x one (size es)) es'
      → Copies (array_body x t (size es) w) (read_array x t one) es'
  unfolding array_body read_array
  array_Copies t es es' w one e h (b, g, hw, hr) = (
    x.write_uint32_no_tag (size es) ++ b,
    g,
    (λ c. rw e (rw (hw c))),
    λ rest c. rw append_assoc (rw (laws.uint32_lem (size es) (b ++ rest) h) (rw e (hr rest c))),
  )

  -- The reader of an array's elements, with the calls that a type makes.
  abbrev elem_reader : TypeInfo → Reader (Option Value)
  elem_reader t = nested_reader x t (read_complex x t)

  map_Copies :
      (t : TypeInfo) (indices : List ℕ) (ks vs : Elems) (w w' : ℕ → Written) (r r' : Reader Elems)
      → recover_keys x 0 ks [] no_elems ≡ ok (indices, ks)
      → Copies w r ks
      → Copies w' r' vs
      → Copies (λ c. then_write x (w c) w') (read_map x t r r') (map_of t indices ks vs)
  unfolding read_map
  map_Copies t indices ks vs w w' r r' e (b, g, hw, hr) (b', g', hw', hr') = (
    b ++ b',
    (λ c. g' (g c)),
    (λ c. rw (hw c) (rw (hw' (g c)))),
    λ rest c. rw append_assoc (rw (hr (b' ++ rest) c) (rw (hr' rest (g c)) (rw e))),
  )

  guarded_Copies :
      (b : Bool) (w : ℕ → Written) {A : Type 0} (r : Reader A) (a : A)
      → b ≡ true
      → Copies w r a
      → Copies (λ c. guard b plain_error >> w c) (λ input c. guard b plain_error >> r input c) a
  guarded_Copies b w r a e (bs, g, hw, hr) = (bs, g, (λ c. rw e (hw c)), λ rest c. rw e (hr rest c))

  key_Copies :
      (k : TypeInfo) (w : ℕ → Written) (n : ℕ) (ks : Elems) (other : Reader Value)
      → is_complex (type_of k) ≡ false
      → Copies w (read_elems x (elem_reader k) n) ks
      → Copies w (read_elems x (nested_reader x k other) n) ks
  key_Copies k w n ks other e =
      subst (λ r. Copies w (read_elems x r n) ks) (reader_of_key x k _ _ e)

  scalar_of :
      {t : TypeInfo} {v v' : Value}
      → Fits x t v v'
      → is_complex (type_of t) ≡ false
      → FitsScalar (type_of t) (length_of t) v v'
  unfolding is_complex
  scalar_of (fits_scalar f) e = f
  scalar_of (fits_array _ _ _) e = cc
  scalar_of (fits_map _ _ _ _ _ _ _) e = cc
  scalar_of (fits_struct _) e = cc

  -- Behind the null indicator a value is written by its kind.
  nested_of :
      (t : TypeInfo) (v v' : Value)
      → Fits x t v v'
      → (is_complex (type_of t) ≡ true → Copies (write_complex x v) (read_complex x t) v')
      → Copies (nested x t v (write_complex x v)) (elem_reader t) (some v')
  nested_of t v v' f k = elim (Bool-cases (is_complex (type_of t))) [
    | inl e ↦ complex_nested t v v' _ (read_complex x t) e (k e)
    | inr e ↦ scalar_nested t v v' _ _ (scalar_of f e)
  ]

  mutual
    unfolding write_complex read_complex read_elems is_complex cons_elem

    complex_Copies :
        {t : TypeInfo} {v v' : Value}
        → Fits x t v v'
        → is_complex (type_of t) ≡ true
        → Copies (write_complex x v) (read_complex x t) v'
    complex_Copies (fits_scalar f) e = cc (scalar-is_complex f)
    complex_Copies (fits_array {t = t} {es = es} {es' = es'} e h f) _ =
        let (b, g, hw, hr) = array_Copies t es es' _ _ e h (elems_Copies f) in
        (b, g, hw, λ rest c. rw (hr rest c))
    complex_Copies
          (fits_map {p = p} {s = s} {n = n} {m = m} {k = k} {t = t} {indices = indices} {ks = ks}
            {vs = vs} {vs' = vs'} e e' h h' r f f')
          _ =
        let key_type = plain (type_of k) in
        let key_reader = nested_reader x key_type (λ _ _. err plain_error) in
        let keys =
          array_Copies key_type ks ks _ key_reader (key-element_supported (type_of k) e) h (
            key_Copies key_type _ (size ks) ks _ (key-is_complex (type_of k) e) (elems_Copies f)) in
        let values = array_Copies t vs vs' _ (elem_reader t) e' h' (elems_Copies f') in
        let type = info map p s n m (more k (more t none_more)) in
        guarded_Copies _ _
          (read_map x type (read_array x key_type key_reader) (read_array x t (elem_reader t))) _ e
          (map_Copies _ indices ks vs' _ _ (read_array x key_type key_reader)
            (read_array x t (elem_reader t)) r keys values)
    complex_Copies (fits_struct f) _ =
        let (b, g, hw, hr) = members_Copies f in (b, g, hw, λ rest c. rw (hr rest c))

    elems_Copies :
        {t : TypeInfo} {es es' : Elems}
        → FitsElems x t es es'
        → Copies (write_elems x es t) (read_elems x (elem_reader t) (size es)) es'
    elems_Copies fits_none = ([], (λ c. c), (λ c. refl), λ rest c. refl)
    elems_Copies (fits_null {t = t} {es = es} {es' = es'} f) =
        then_Copies _ _ (elem_reader t) (read_elems x (elem_reader t) (size es)) none es'
          (null_nested t (read_complex x t)) (elems_Copies f)
    elems_Copies (fits_elem {t = t} {v = v} {v' = v'} {es = es} {es' = es'} f fs) =
        then_Copies _ _ (elem_reader t) (read_elems x (elem_reader t) (size es)) (some v') es'
          (nested_of t v v' f (complex_Copies f)) (elems_Copies fs)

    members_Copies :
        {ts : TypeInfos} {es es' : Elems}
        → FitsMembers x ts es es'
        → Copies (write_members x es ts) (read_members x ts) es'
    members_Copies members_none = ([], (λ c. c), (λ c. refl), λ rest c. refl)
    members_Copies (members_null {t = t} {ts = ts} {es = es} {es' = es'} e fs) =
        let (b, g, hw, hr) =
          then_Copies _ _ (elem_reader t) (read_members x ts) none es'
            (null_nested t (read_complex x t)) (members_Copies fs) in
        (b, g, hw, λ rest c. rw e (hr rest c))
    members_Copies (members_elem {t = t} {ts = ts} {v = v} {v' = v'} {es = es} {es' = es'} e f fs) =
        guarded_Copies _ _ (λ input c. then_read x (elem_reader t input c) (read_members x ts)) _ e
          (then_Copies _ _ (elem_reader t) (read_members x ts) (some v') es'
            (nested_of t v v' f (complex_Copies f)) (members_Copies fs))

  -- An array, map or struct that fits its type is read back as Fits says.
  pub complex_round_trip :
      {t : TypeInfo} {v v' : Value}
      → Fits x t v v'
      → is_complex (type_of t) ≡ true
      → Copies (write_complex x v) (read_complex x t) v'
  complex_round_trip f = complex_Copies f

  -- A value that fits its type is written into an array, map or struct without an exception, however
  -- deep, and read back from in front of any further input; reader and writer take the same bytes
  -- into the checksum. It is read back as it was, but for each CHAR and VARCHAR, which is cut or padded
  -- to the length of its type, and for each DATE, a number of days, of which the multiple of 86400
  -- towards 0 is read: every date from 1734 to 2205 is read as 1970-01-01. A value fits if each number
  -- is in the range of its type, each time is normalised, each text is shorter than 2^31 and each CHAR
  -- and VARCHAR can be cut or padded, and if a map has the indices 0, 1, 2 and so on and no two keys
  -- that are the same: a map that was read with a key twice has gaps in its indices and does not fit.
  pub nested_round_trip :
      (t : TypeInfo) (v v' : Value)
      → Fits x t v v'
      → Copies (write_nested x t v) (read_nested x t) (some v')
  unfolding write_nested read_nested
  nested_round_trip t v v' f = nested_of t v v' f (complex_Copies f)
