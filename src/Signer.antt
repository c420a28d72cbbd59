-- ===== src/Signer.antt =====
-- The signing of requests: common/signer.cpp over the headers and parameters of common/http_message.h.
-- A std::map is the list of its entries in the order of their keys. OpenSSL's HMAC is a parameter, and
-- so is the date of today; isupper and tolower are those of the C locale.
pub mod Entries
pub mod Accounts
mod Ordered
mod Headers
mod Again
mod Unique
mod Shape
mod Distinct
mod Binding
mod Tests
use aliyun_odps_sdk_cpp.Prelude.{
  ℕ, Bool, true, false, ◌&&◌, ◌||◌, Bytes, codes, List, [], ◌∷◌, ◌++◌, Option, none, some, leb,
  ◌==◌, if◌then◌else◌, bytes_eq, map, ◌+◌,
}
use aliyun_odps_sdk_cpp.Result.{Result, ok, err, internal_error, invalid_argument, guard, ◌>>◌}
use aliyun_odps_sdk_cpp.Base64.{base64_encoding, default_alphabet}
use aliyun_odps_sdk_cpp.Signer.Entries.{Entry, put_entry, find_entry}

abbrev pub content_type : Bytes
content_type = codes "content-type"

abbrev pub content_md5 : Bytes
content_md5 = codes "content-md5"

abbrev pub date_name : Bytes
date_name = codes "date"

abbrev pub authorization : Bytes
authorization = codes "Authorization"

abbrev pub odps_prefix : Bytes
odps_prefix = codes "x-odps-"

abbrev pub ali_data_prefix : Bytes
ali_data_prefix = codes "x-ali-data-"

pub record Request : Type 0 where
  pub headers : List Entry
  pub parameters : List Entry

abbrev pub lower_case : ℕ → ℕ
lower_case c = if leb 65 c && leb c 90 then c + 32 else c

unfoldable pub to_lower_case_string : Bytes → Bytes
to_lower_case_string s = map lower_case s

unfoldable pub start_with : Bytes → Bytes → Bool
start_with input [] = true
start_with [] (p ∷ pattern) = false
start_with (c ∷ input) (p ∷ pattern) = (c == p) && start_with input pattern

-- The loops that copy what is to be signed, under a name made from the key.
unfoldable pub put_signed : (Bytes → Bytes) → (Bytes → Bool) → List Entry → List Entry → List Entry
put_signed name signs [] m = m
put_signed name signs ((k, v) ∷ entries) m =
    put_signed name signs entries (if signs (name k) then put_entry (name k) v m else m)

unfoldable pub is_signed : Bytes → Bytes → Bool
is_signed prefix key =
    bytes_eq key content_type
    || (bytes_eq key content_md5 || (bytes_eq key date_name || start_with key prefix))

unfoldable pub or_empty : Bytes → List Entry → List Entry
or_empty key m = elim (find_entry key m) [ none ↦ put_entry key [] m | some v ↦ m ]

unfoldable pub headers_to_sign : Bytes → Request → List Entry
headers_to_sign prefix r =
    put_signed (λ k. k) (λ k. start_with k prefix) r.parameters
      (or_empty content_md5
        (or_empty content_type (put_signed to_lower_case_string (is_signed prefix) r.headers [])))

unfoldable pub signed_lines : Bytes → List Entry → Bytes
signed_lines prefix [] = []
signed_lines prefix ((k, v) ∷ m) =
    (if start_with k prefix then k ++ (codes ":" ++ v) else v) ++ (10 ∷ [] ++ signed_lines prefix m)

abbrev pub parameter_value : Bytes → Bytes
parameter_value [] = []
parameter_value (c ∷ v) = codes "=" ++ c ∷ v

unfoldable pub canonicalized_parameters : ℕ → List Entry → Bytes
canonicalized_parameters separator [] = []
canonicalized_parameters separator ((k, v) ∷ parameters) =
    separator ∷ (k ++ (parameter_value v ++ canonicalized_parameters 38 parameters))

unfoldable pub canonicalized_resource : Bytes → List Entry → Bytes
canonicalized_resource path parameters = path ++ canonicalized_parameters 63 parameters

unfoldable pub canonical_string : Bytes → Bytes → Request → Bytes → Bytes
canonical_string method path r prefix =
    method
    ++ (10 ∷ []
        ++ (signed_lines prefix (headers_to_sign prefix r)
            ++ canonicalized_resource path r.parameters))

unfoldable pub set_header : Bytes → Bytes → Request → Request
set_header key value r = record r { headers = put_entry key value r.headers }

unfoldable pub get_header : Bytes → Request → Bytes
get_header key r = elim (find_entry key r.headers) [ none ↦ [] | some v ↦ v ]

abbrev pub set_authorization : Option Bytes → Request → Request
set_authorization none r = r
set_authorization (some value) r = set_header authorization value r

pub record AliyunRequestSigner : Type 0 where
  pub method : Bytes
  pub resource_path : Bytes
  pub access_key : Bytes
  pub access_id : Bytes
  pub region : Bytes

-- From HMAC with SHA-1, which takes the key and then the data.
abbrev pub signature : (Bytes → Bytes → Bytes) → Bytes → Bytes → Bytes
signature hmac_sha1 key text = base64_encoding default_alphabet (hmac_sha1 key text)

-- HMAC with SHA-1 and with SHA-256: the key, then the data.
module _ (hmac_sha1 hmac_sha256 : Bytes → Bytes → Bytes) where
  unfoldable pub signature_key : Bytes → Bytes → Bytes → Bytes
  signature_key key date region =
      hmac_sha256
        (hmac_sha256 (hmac_sha256 (hmac_sha256 (codes "aliyun_v4" ++ key) date) region)
          (codes "odps"))
        (codes "aliyun_v4_request")

  unfoldable pub authorization_of : Bytes → AliyunRequestSigner → Bytes → Bytes
  authorization_of date s text = elim s.region [
    | [] ↦ codes "ODPS " ++ (s.access_id ++ (codes ":" ++ signature hmac_sha1 s.access_key text))
    | c ∷ cs ↦
        codes "ODPS "
        ++ (s.access_id
            ++ (codes "/"
                ++ (date
                    ++ (codes "/"
                        ++ (s.region
                            ++ (codes "/odps/aliyun_v4_request"
                                ++ (codes ":"
                                    ++ signature hmac_sha1
                                        (signature_key s.access_key date s.region) text)))))))
  ]

  -- The header that is set, if any.
  unfoldable pub authorization_value : Bytes → AliyunRequestSigner → Bytes → Option Bytes
  authorization_value date s text = elim s.access_id [
    | [] ↦ none
    | i ∷ is ↦ elim s.access_key [
      | [] ↦ some s.access_id
      | k ∷ ks ↦ some (authorization_of date s text)
    ]
  ]

  unfoldable pub sign : Bytes → AliyunRequestSigner → Request → Request
  sign date s r =
      set_authorization
        (authorization_value date s (canonical_string s.method s.resource_path r odps_prefix)) r
