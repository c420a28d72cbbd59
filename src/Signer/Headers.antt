-- ===== src/Signer/Headers.antt =====
-- Which headers and parameters of a request are signed, and with which values (common/signer.cpp).
use aliyun_odps_sdk_cpp.Prelude.{
  ◌≡◌, refl, sym, ap, ◌∙◌, subst, inl, inr, Bool, true, false, Bytes, List, [], ◌∷◌, Option, none,
  some, if◌then◌else◌, bytes_eq, bytes_eq→eq, bytes_eq_refl, Bool-cases, Option-cases,
}
use aliyun_odps_sdk_cpp.Signer.{
  Request, content_type, content_md5, to_lower_case_string, start_with, put_signed, is_signed,
  or_empty, headers_to_sign, canonical_string,
}
use aliyun_odps_sdk_cpp.Signer.Entries.{Entry, put_entry, find_entry}
use aliyun_odps_sdk_cpp.Signer.Ordered.{
  IsSorted, put-IsSorted, find_entry-put_entry, find_entry-extensional,
}

abbrev pub or_else : Option Bytes → Option Bytes → Option Bytes
or_else none other = other
or_else (some v) other = some v

pub or_else-none : (o : Option Bytes) → or_else o none ≡ o
or_else-none none = refl
or_else-none (some v) = refl

or_else_assoc : (a b c : Option Bytes) → or_else (or_else a b) c ≡ or_else a (or_else b c)
or_else_assoc none b c = refl
or_else_assoc (some v) b c = refl

-- The value of the last entry with a name.
unfoldable pub last_value : (Bytes → Bytes) → Bytes → List Entry → Option Bytes
last_value name key [] = none
last_value name key ((k, v) ∷ entries) =
    or_else (last_value name key entries) (if bytes_eq (name k) key then some v else none)

abbrev pub if_signed : Bool → Option Bytes → Option Bytes
if_signed b o = if b then o else none

-- The value that is signed under a name: that of the parameter with this name if the name has the
-- prefix, or else that of the header; a content type or content MD5 that is missing is empty.
unfoldable pub signed_value : Bytes → Bytes → Request → Option Bytes
signed_value prefix key r =
    or_else (if_signed (start_with key prefix) (last_value (λ k. k) key r.parameters)) (
      or_else (if_signed (is_signed prefix key) (last_value to_lower_case_string key r.headers)) (
        or_else (if bytes_eq content_type key then some [] else none)
          (if bytes_eq content_md5 key then some [] else none)))

put_one :
    (signs : Bytes → Bool) (name v key : Bytes) (m : List Entry)
    → find_entry key (if signs name then put_entry name v m else m)
      ≡ or_else
          (if_signed (signs key) (if bytes_eq name key then some v else none))
          (find_entry key m)
put_one signs name v key m = elim (Bool-cases (bytes_eq name key)) [
  | inr e ↦ elim (Bool-cases (signs name)) [
    | inl s ↦ rw (s, find_entry-put_entry key name v m, e) (unsigned (signs key))
    | inr s ↦ rw (s, e) (unsigned (signs key))
  ]
  | inl e ↦ elim (Bool-cases (signs name)) [
    | inl s ↦
        rw (s, find_entry-put_entry key name v m, e, sym (ap signs (bytes_eq→eq name key e)) ∙ s)
          refl
    | inr s ↦ rw (s, sym (ap signs (bytes_eq→eq name key e)) ∙ s) refl
  ]
]
  where
    unsigned : (b : Bool) → find_entry key m ≡ or_else (if_signed b none) (find_entry key m)
    unsigned true = refl
    unsigned false = refl

if_signed-or_else :
    (b : Bool) (o p q : Option Bytes)
    → or_else (if_signed b o) (or_else (if_signed b p) q) ≡ or_else (if_signed b (or_else o p)) q
if_signed-or_else true o p q = sym (or_else_assoc o p q)
if_signed-or_else false o p q = refl

find_entry-put_signed :
    (name : Bytes → Bytes) (signs : Bytes → Bool) (key : Bytes) (entries m : List Entry)
    → find_entry key (put_signed name signs entries m)
      ≡ or_else (if_signed (signs key) (last_value name key entries)) (find_entry key m)
unfolding put_signed last_value
find_entry-put_signed name signs key [] m = elim (Bool-cases (signs key)) [
  | inl e ↦ rw e refl
  | inr e ↦ rw e refl
]
find_entry-put_signed name signs key ((k, v) ∷ entries) m =
    find_entry-put_signed name signs key entries
      (if signs (name k) then put_entry (name k) v m else m)
    ∙ ap (λ o. or_else (if_signed (signs key) (last_value name key entries)) o)
        (put_one signs (name k) v key m)
    ∙ if_signed-or_else (signs key) (last_value name key entries)
        (if bytes_eq (name k) key then some v else none) (find_entry key m)

found_or_empty :
    (name : Bytes) (m : List Entry)
    → find_entry name (or_empty name m)
      ≡ or_else (find_entry name m) (if bytes_eq name name then some [] else none)
unfolding or_empty
found_or_empty name m = elim (Option-cases (find_entry name m)) [
  | inl f ↦ rw (or_empty, f, find_entry-put_entry name name [] m, bytes_eq_refl name) refl
  | inr (v, f) ↦ rw (or_empty, f, f) refl
]

find_entry-or_empty :
    (key name : Bytes) (m : List Entry)
    → find_entry key (or_empty name m)
      ≡ or_else (find_entry key m) (if bytes_eq name key then some [] else none)
unfolding or_empty
find_entry-or_empty key name m = elim (Bool-cases (bytes_eq name key)) [
  | inr e ↦ elim (Option-cases (find_entry name m)) [
    | inl f ↦
        rw (or_empty, f, find_entry-put_entry key name [] m, e)
          (sym (or_else-none (find_entry key m)))
    | inr (v, f) ↦ rw (or_empty, f, e) (sym (or_else-none (find_entry key m)))
  ]
  | inl e ↦
      subst
        (λ j.
          find_entry j (or_empty name m)
          ≡ or_else (find_entry j m) (if bytes_eq name j then some [] else none))
        (bytes_eq→eq name key e) (found_or_empty name m)
]

-- For any headers and parameters, the value that is signed under a name is that of the last parameter with
-- this name if the name has the prefix; if there is none, that of the last header whose name in small
-- letters is this name, if such a name is signed; if there is none, the empty value for the content type and
-- the content MD5; and no other name is signed.
pub find_entry-headers_to_sign :
    (prefix key : Bytes) (r : Request)
    → find_entry key (headers_to_sign prefix r) ≡ signed_value prefix key r
unfolding headers_to_sign signed_value find_entry
find_entry-headers_to_sign prefix key r =
    let parameters = if_signed (start_with key prefix) (last_value (λ k. k) key r.parameters) in
    let headers =
      if_signed (is_signed prefix key) (last_value to_lower_case_string key r.headers) in
    let signed = put_signed to_lower_case_string (is_signed prefix) r.headers [] in
    let found : find_entry key signed ≡ headers =
      find_entry-put_signed to_lower_case_string (is_signed prefix) key r.headers []
      ∙ or_else-none headers in
    let type : Option Bytes = if bytes_eq content_type key then some [] else none in
    let md5 : Option Bytes = if bytes_eq content_md5 key then some [] else none in
    find_entry-put_signed (λ k. k) (λ k. start_with k prefix) key r.parameters
      (or_empty content_md5 (or_empty content_type signed))
    ∙ ap (λ o. or_else parameters o)
        (find_entry-or_empty key content_md5 (or_empty content_type signed)
          ∙ ap (λ o. or_else o md5)
              (find_entry-or_empty key content_type signed ∙ ap (λ o. or_else o type) found)
          ∙ or_else_assoc headers type md5)

put_signed-IsSorted :
    (name : Bytes → Bytes) (signs : Bytes → Bool) (entries m : List Entry)
    → IsSorted m
    → IsSorted (put_signed name signs entries m)
unfolding put_signed
put_signed-IsSorted name signs [] m s = s
put_signed-IsSorted name signs ((k, v) ∷ entries) m s = elim (Bool-cases (signs (name k))) [
  | inl e ↦ rw e (
      put_signed-IsSorted name signs entries (put_entry (name k) v m) (put-IsSorted (name k) v m s))
  | inr e ↦ rw e (put_signed-IsSorted name signs entries m s)
]

or_empty-IsSorted : (name : Bytes) (m : List Entry) → IsSorted m → IsSorted (or_empty name m)
unfolding or_empty
or_empty-IsSorted name m s = elim (Option-cases (find_entry name m)) [
  | inl e ↦ rw (or_empty, e) (put-IsSorted name [] m s)
  | inr (v, e) ↦ rw (or_empty, e) s
]

pub headers_to_sign-IsSorted : (prefix : Bytes) (r : Request) → IsSorted (headers_to_sign prefix r)
unfolding headers_to_sign
headers_to_sign-IsSorted prefix r =
    put_signed-IsSorted (λ k. k) (λ k. start_with k prefix) r.parameters
      (or_empty content_md5
        (or_empty content_type (put_signed to_lower_case_string (is_signed prefix) r.headers [])))
      (or_empty-IsSorted content_md5
        (or_empty content_type (put_signed to_lower_case_string (is_signed prefix) r.headers []))
        (or_empty-IsSorted content_type
          (put_signed to_lower_case_string (is_signed prefix) r.headers [])
          (put_signed-IsSorted to_lower_case_string (is_signed prefix) r.headers [] tt)))

signed_value-same :
    (prefix key : Bytes) (r s : Request)
    → r.parameters ≡ s.parameters
    → (is_signed prefix key ≡ true
        → last_value to_lower_case_string key r.headers
          ≡ last_value to_lower_case_string key s.headers)
    → signed_value prefix key r ≡ signed_value prefix key s
unfolding signed_value
signed_value-same prefix key r s same h = elim (Bool-cases (is_signed prefix key)) [
  | inl e ↦ rw (e, same, h e) refl
  | inr e ↦ rw (e, same) refl
]

-- Requests with the same parameters that have the same values under the names that are signed, in any
-- order, in any mix of capitals and among any other headers, have the same string to sign.
pub canonical_string-same :
    (method path prefix : Bytes) (r s : Request)
    → r.parameters ≡ s.parameters
    → ((key : Bytes)
        → is_signed prefix key ≡ true
        → last_value to_lower_case_string key r.headers
          ≡ last_value to_lower_case_string key s.headers)
    → canonical_string method path r prefix ≡ canonical_string method path s prefix
unfolding canonical_string
canonical_string-same method path prefix r s same values =
    let maps : headers_to_sign prefix r ≡ headers_to_sign prefix s =
      find_entry-extensional (headers_to_sign prefix r) (headers_to_sign prefix s)
        (headers_to_sign-IsSorted prefix r) (headers_to_sign-IsSorted prefix s)
        (λ key.
          find_entry-headers_to_sign prefix key r
          ∙ signed_value-same prefix key r s same (values key)
          ∙ sym (find_entry-headers_to_sign prefix key s)) in
    rw (maps, same) refl
