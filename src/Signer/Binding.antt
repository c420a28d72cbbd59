-- ===== src/Signer/Binding.antt =====
-- What a signature binds, for the string to sign of common/signer.cpp.
use aliyun_odps_sdk_cpp.Prelude.{
  ◌≡◌, refl, sym, ap, ◌∙◌, subst, inl, inr, Bool, true, Bytes, List, [], ◌∷◌, ◌++◌, Option, none,
  some, bytes_eq, Bool-cases, Option-cases, map, All,
}
use aliyun_odps_sdk_cpp.Signer.{
  Request, content_type, content_md5, odps_prefix, to_lower_case_string, start_with, put_signed,
  is_signed, or_empty, headers_to_sign, signed_lines, canonicalized_resource, canonical_string,
}
use aliyun_odps_sdk_cpp.Signer.Entries.{Entry, find_entry, put_entry, bytes_less}
use aliyun_odps_sdk_cpp.Signer.Ordered.{IsSorted, IsAbove}
use aliyun_odps_sdk_cpp.Signer.Headers.{
  headers_to_sign-IsSorted, find_entry-headers_to_sign, signed_value, or_else,
}
use aliyun_odps_sdk_cpp.Signer.Unique.{IsWithout, part_unique, lines_unique, signed_line}
use aliyun_odps_sdk_cpp.Signer.Shape.{IsKind, signed-IsKind, IsFrom, from_md5, from_type, All-with}
use aliyun_odps_sdk_cpp.Signer.Distinct.{IsNamed, IsRest, HaveDates, peel, rest_unique}

put_entry-All :
    (key value : Bytes) (m : List Entry)
    → IsKind key
    → All IsNamed m
    → All IsNamed (put_entry key value m)
unfolding put_entry
put_entry-All key value [] p h = (p, tt)
put_entry-All key value ((k, v) ∷ m) p (q, h) = elim (Bool-cases (bytes_less key k)) [
  | inl e ↦ rw e (p, (q, h))
  | inr e ↦ elim (Bool-cases (bytes_less k key)) [
    | inl f ↦ rw (e, f) (q, put_entry-All key value m p h)
    | inr f ↦ rw (e, f) (p, h)
  ]
]

put_signed-All :
    (name : Bytes → Bytes) (signs : Bytes → Bool) (entries m : List Entry)
    → ((k : Bytes) → signs k ≡ true → IsKind k)
    → All IsNamed m
    → All IsNamed (put_signed name signs entries m)
unfolding put_signed
put_signed-All name signs [] m f h = h
put_signed-All name signs ((k, v) ∷ entries) m f h = elim (Bool-cases (signs (name k))) [
  | inl e ↦ rw e (
      put_signed-All name signs entries (put_entry (name k) v m) f
        (put_entry-All (name k) v m (f (name k) e) h))
  | inr e ↦ rw e (put_signed-All name signs entries m f h)
]

or_empty-All :
    (name : Bytes) (m : List Entry) → IsKind name → All IsNamed m → All IsNamed (or_empty name m)
unfolding or_empty
or_empty-All name m k h = elim (Option-cases (find_entry name m)) [
  | inl e ↦ rw (or_empty, e) (put_entry-All name [] m k h)
  | inr (v, e) ↦ rw (or_empty, e) h
]

headers_to_sign-All : (r : Request) → All IsNamed (headers_to_sign odps_prefix r)
unfolding headers_to_sign
headers_to_sign-All r =
    let signed = put_signed to_lower_case_string (is_signed odps_prefix) r.headers [] in
    put_signed-All (λ k. k) (λ k. start_with k odps_prefix) r.parameters
      (or_empty content_md5 (or_empty content_type signed)) (λ k h. inr (inr (inr h)))
      (or_empty-All content_md5 (or_empty content_type signed) (inr (inl refl)) (
        or_empty-All content_type signed (inl refl) (
          put_signed-All to_lower_case_string (is_signed odps_prefix) r.headers []
            (λ k. signed-IsKind k) tt)))

or_else-some : (o : Option Bytes) (d : Bytes) → (v : Bytes) × (or_else o (some d) ≡ some v)
or_else-some none d = (d, refl)
or_else-some (some v) d = (v, refl)

or_else-or_else :
    (o p : Option Bytes) (d : Bytes) → (v : Bytes) × (or_else o (or_else p (some d)) ≡ some v)
or_else-or_else none p d = or_else-some p d
or_else-or_else (some v) p d = (v, refl)

has_md5 :
    (r : Request) → (v : Bytes) × (find_entry content_md5 (headers_to_sign odps_prefix r) ≡ some v)
unfolding signed_value bytes_eq
has_md5 r =
    let found = find_entry-headers_to_sign odps_prefix content_md5 r in
    let (v, e) = or_else-or_else _ _ _ in (v, found ∙ e)

has_type :
    (r : Request) → (v : Bytes) × (find_entry content_type (headers_to_sign odps_prefix r) ≡ some v)
unfolding signed_value bytes_eq
has_type r =
    let found = find_entry-headers_to_sign odps_prefix content_type r in
    let (v, e) = or_else-or_else _ _ _ in (v, found ∙ e)

over_md5 : (m : List Entry) → All IsNamed m → IsAbove content_md5 m → All (IsFrom content_type) m
over_md5 m h above = All-with m (λ e k over. from_type e.0 k over) h above

to_rest :
    (m : List Entry) → All IsNamed m → IsAbove content_md5 m → IsAbove content_type m → All IsRest m
to_rest m h above over =
    All-with m (λ e k both. (k, both)) h (All-with m (λ e p q. (p, q)) above over)

abbrev NoColons : List Entry → Type 0
NoColons m = All (λ e. IsWithout 58 e.0) m

typed_unique :
    (m n : List Entry) (a b : Bytes)
    → IsSorted m × All IsNamed m × IsAbove content_md5 m × NoColons m
    → IsSorted n × All IsNamed n × IsAbove content_md5 n × NoColons n
    → find_entry content_type m ≡ some a
    → find_entry content_type n ≡ some b
    → HaveDates m n
    → map (signed_line odps_prefix) m ≡ map (signed_line odps_prefix) n
    → m ≡ n
unfolding start_with find_entry bytes_eq
typed_unique m n a b (s, h, over_m, p) (t, g, over_n, q) has_m has_n dates e =
    let (m', n', is_m, is_n, lines) =
      peel content_type m n a b refl s t has_m has_n (over_md5 m h over_m) (over_md5 n g over_n)
        e in
    let (above_m, s') = subst (λ l. IsSorted l) is_m s in
    let (above_n, t') = subst (λ l. IsSorted l) is_n t in
    let rest_m =
      to_rest m' (subst (λ l. All IsNamed l) is_m h).1
        (subst (λ l. IsAbove content_md5 l) is_m over_m).1 above_m in
    let rest_n =
      to_rest n' (subst (λ l. All IsNamed l) is_n g).1
        (subst (λ l. IsAbove content_md5 l) is_n over_n).1 above_n in
    let dates' : HaveDates m' n' =
      subst (λ l. HaveDates m' l) is_n (subst (λ l. HaveDates l n) is_m dates) in
    let tails =
      rest_unique m' n' s' t' rest_m rest_n (subst (λ l. NoColons l) is_m p).1
        (subst (λ l. NoColons l) is_n q).1 dates' lines in
    is_m ∙ ap (λ l. (content_type, a) ∷ l) tails ∙ sym is_n

entries_unique :
    (m n : List Entry) (a b c d : Bytes)
    → IsSorted m × All IsNamed m × NoColons m
    → IsSorted n × All IsNamed n × NoColons n
    → find_entry content_md5 m ≡ some a
    → find_entry content_md5 n ≡ some b
    → find_entry content_type m ≡ some c
    → find_entry content_type n ≡ some d
    → HaveDates m n
    → map (signed_line odps_prefix) m ≡ map (signed_line odps_prefix) n
    → m ≡ n
unfolding start_with find_entry bytes_eq
entries_unique m n a b c d (s, h, p) (t, g, q) am bn cm dn dates e =
    let (m', n', is_m, is_n, lines) =
      peel content_md5 m n a b refl s t am bn (All-with m (λ x k u. from_md5 x.0 k) h h)
        (All-with n (λ x k u. from_md5 x.0 k) g g) e in
    let (above_m, s') = subst (λ l. IsSorted l) is_m s in
    let (above_n, t') = subst (λ l. IsSorted l) is_n t in
    let cm' : find_entry content_type m' ≡ some c =
      subst (λ l. find_entry content_type l ≡ some c) is_m cm in
    let dn' : find_entry content_type n' ≡ some d =
      subst (λ l. find_entry content_type l ≡ some d) is_n dn in
    let dates' : HaveDates m' n' =
      subst (λ l. HaveDates m' l) is_n (subst (λ l. HaveDates l n) is_m dates) in
    let tails =
      typed_unique m' n' c d
        (s', (subst (λ l. All IsNamed l) is_m h).1, above_m, (subst (λ l. NoColons l) is_m p).1)
        (t', (subst (λ l. All IsNamed l) is_n g).1, above_n, (subst (λ l. NoColons l) is_n q).1) cm'
        dn' dates' lines in
    is_m ∙ ap (λ l. (content_md5, a) ∷ l) tails ∙ sym is_n

-- No line ends in the resource nor in what is signed, and no colons in the signed names.
abbrev pub IsPlain : Bytes → Request → Type 0
IsPlain path r =
    IsWithout 10 (canonicalized_resource path r.parameters)
    × NoColons (headers_to_sign odps_prefix r)
    × All (λ e. IsWithout 10 (signed_line odps_prefix e)) (headers_to_sign odps_prefix r)

-- Two requests with the same string to sign, both with a date or both without, and with no line ends in
-- their methods, resources, signed names and values and no colons in the signed names, have the same
-- method, the same signed names and values, and the same canonical resource.
pub canonical_string-injective :
    (method method' path path' : Bytes) (r s : Request)
    → IsWithout 10 method
    → IsWithout 10 method'
    → IsPlain path r
    → IsPlain path' s
    → HaveDates (headers_to_sign odps_prefix r) (headers_to_sign odps_prefix s)
    → canonical_string method path r odps_prefix ≡ canonical_string method' path' s odps_prefix
    → (method ≡ method')
      × (headers_to_sign odps_prefix r ≡ headers_to_sign odps_prefix s)
      × (canonicalized_resource path r.parameters ≡ canonicalized_resource path' s.parameters)
unfolding canonical_string
canonical_string-injective method method' path path' r s h g (end_r, names_r, plain_r)
      (end_s, names_s, plain_s) dates e =
    let m = headers_to_sign odps_prefix r in
    let n = headers_to_sign odps_prefix s in
    let a = canonicalized_resource path r.parameters in
    let b = canonicalized_resource path' s.parameters in
    let (methods, rest) =
      part_unique 10 method method' (signed_lines odps_prefix m ++ a)
        (signed_lines odps_prefix n ++ b) h g e in
    let (lines, resources) = lines_unique odps_prefix m n a b plain_r plain_s end_r end_s rest in
    let entries =
      entries_unique m n (has_md5 r).0 (has_md5 s).0 (has_type r).0 (has_type s).0
        (headers_to_sign-IsSorted odps_prefix r, headers_to_sign-All r, names_r)
        (headers_to_sign-IsSorted odps_prefix s, headers_to_sign-All s, names_s) (has_md5 r).1
        (has_md5 s).1 (has_type r).1 (has_type s).1 dates lines in
    (methods, entries, resources)
