-- ===== src/Signer/Again.antt =====
-- Signing a request that is signed already (common/signer.cpp).
use aliyun_odps_sdk_cpp.Prelude.{
  ◌≡◌, ◌≢◌, refl, sym, ap, ◌∙◌, subst, inl, inr, false, Bytes, List, [], ◌∷◌, Option, none, some,
  if◌then◌else◌, bytes_eq, Bool-cases, Option-cases,
}
use aliyun_odps_sdk_cpp.Signer.{
  Request, authorization, odps_prefix, to_lower_case_string, start_with, is_signed,
  canonical_string, set_header, AliyunRequestSigner, authorization_value, set_authorization, sign,
}
use aliyun_odps_sdk_cpp.Signer.Entries.{Entry, bytes_less, put_entry}
use aliyun_odps_sdk_cpp.Signer.Ordered.{bytes_less_irrefl, bytes_less_total, bytes_eq-differs}
use aliyun_odps_sdk_cpp.Signer.Headers.{or_else, or_else-none, last_value, canonical_string-same}

put_entry-put_entry :
    (key value : Bytes) (m : List Entry)
    → put_entry key value (put_entry key value m) ≡ put_entry key value m
unfolding put_entry
put_entry-put_entry key value [] = rw (bytes_less_irrefl key) refl
put_entry-put_entry key value ((k, v) ∷ m) = elim (Bool-cases (bytes_less key k)) [
  | inl e ↦ rw (e, bytes_less_irrefl key) refl
  | inr e ↦ elim (Bool-cases (bytes_less k key)) [
    | inl f ↦ rw (e, f, e, f) (ap (λ rest. (k, v) ∷ rest) (put_entry-put_entry key value m))
    | inr f ↦ rw (e, f, bytes_less_irrefl key) refl
  ]
]

other_value :
    (name : Bytes → Bytes) (key k v : Bytes) (entries : List Entry)
    → name k ≢ key
    → or_else (last_value name key entries) (if bytes_eq (name k) key then some v else none)
      ≡ last_value name key entries
other_value name key k v entries h =
    rw (bytes_eq-differs (name k) key h) (or_else-none (last_value name key entries))

last_value-put_entry :
    (name : Bytes → Bytes) (key k v : Bytes) (entries : List Entry)
    → name k ≢ key
    → last_value name key (put_entry k v entries) ≡ last_value name key entries
unfolding put_entry last_value
last_value-put_entry name key k v [] h = rw (bytes_eq-differs (name k) key h) refl
last_value-put_entry name key k v ((l, w) ∷ entries) h = elim (Bool-cases (bytes_less k l)) [
  | inl e ↦ rw e (other_value name key k v ((l, w) ∷ entries) h)
  | inr e ↦ elim (Bool-cases (bytes_less l k)) [
    | inl f ↦
        rw (e, f)
          (ap (λ o. or_else o (if bytes_eq (name l) key then some w else none))
            (last_value-put_entry name key k v entries h))
    | inr f ↦
        let same : l ≡ k = bytes_less_total l k f e in
        rw (e, f)
          (other_value name key k v entries h
            ∙ sym (other_value name key l w entries (subst (λ j. name j ≢ key) (sym same) h)))
  ]
]

authorization_unsigned : is_signed odps_prefix (to_lower_case_string authorization) ≡ false
unfolding is_signed to_lower_case_string start_with bytes_eq
authorization_unsigned = refl

set_authorization_lem :
    (method path value : Bytes) (r : Request)
    → canonical_string method path (set_header authorization value r) odps_prefix
      ≡ canonical_string method path r odps_prefix
unfolding set_header
set_authorization_lem method path value r =
    canonical_string-same method path odps_prefix
      (record r { headers = put_entry authorization value r.headers }) r refl
      (λ key h.
        last_value-put_entry to_lower_case_string key authorization value r.headers
          (λ same. cc (sym authorization_unsigned ∙ ap (is_signed odps_prefix) same ∙ h)))

set_again :
    (method path : Bytes) (r : Request) (value : Bytes → Option Bytes)
    → let signed = set_authorization (value (canonical_string method path r odps_prefix)) r in
      set_authorization (value (canonical_string method path signed odps_prefix)) signed ≡ signed
unfolding set_header
set_again method path r value =
    elim (Option-cases (value (canonical_string method path r odps_prefix))) [
      | inl e ↦ rw (e, e) refl
      | inr (v, e) ↦
          rw (e, set_authorization_lem method path v r, e)
            (ap (λ h. record r { headers = h }) (put_entry-put_entry authorization v r.headers))
    ]

-- To sign a request again with nothing else changed, and with the same date in the credential, leaves it
-- as it is: the new string to sign and the new signature are the old ones.
pub sign-sign :
    (hmac_sha1 hmac_sha256 : Bytes → Bytes → Bytes) (date : Bytes) (s : AliyunRequestSigner)
    (r : Request)
    → sign hmac_sha1 hmac_sha256 date s (sign hmac_sha1 hmac_sha256 date s r)
      ≡ sign hmac_sha1 hmac_sha256 date s r
unfolding sign
sign-sign hmac_sha1 hmac_sha256 date s r =
    set_again s.method s.resource_path r (authorization_value hmac_sha1 hmac_sha256 date s)
