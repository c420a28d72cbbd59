-- ===== src/Signer/Tests.antt =====
-- A request with a header that is signed, one that is not, and a parameter.
use aliyun_odps_sdk_cpp.Prelude.{
  not, All, subst, ℕ, Bool, List, ◌&&◌, ◌==◌, ◌≡◌, refl, sym, ap, ◌∙◌, true, false, Bytes, codes,
  [], ◌∷◌, ◌++◌, none, some, bytes_eq, if◌then◌else◌, inl, inr, Bool-cases, bytes_eq→eq,
}
use aliyun_odps_sdk_cpp.Signer.{
  Request, odps_prefix, canonical_string, headers_to_sign, AliyunRequestSigner, sign, is_signed,
  start_with, to_lower_case_string, signed_lines, canonicalized_resource, canonicalized_parameters,
  put_signed, or_empty, set_header, get_header,
}
use aliyun_odps_sdk_cpp.Result.{ok, err, internal_error}
use aliyun_odps_sdk_cpp.Signer.Accounts.{sign_ali, sign_app}
use aliyun_odps_sdk_cpp.Signer.Entries.{find_entry, put_entry, bytes_less}
use aliyun_odps_sdk_cpp.Signer.Headers.{
  last_value, or_else, or_else-none, signed_value, canonical_string-same,
  find_entry-headers_to_sign,
}
use aliyun_odps_sdk_cpp.Signer.Unique.{IsWithout, signed_line}
use aliyun_odps_sdk_cpp.Signer.Distinct.{HaveDates}
use aliyun_odps_sdk_cpp.Signer.Binding.{IsPlain, canonical_string-injective}
use aliyun_odps_sdk_cpp.Signer.Again.{sign-sign}

abbrev request : Request
request = record {
  headers =
      (codes "Date", codes "today")
      ∷ (codes "User-Agent", codes "sdk")
      ∷ (codes "X-Odps-Tz", codes "UTC")
      ∷ [];
  parameters = (codes "partition", codes "ds=1") ∷ [];
}

abbrev in_small_letters : Request
in_small_letters = record {
  headers = (codes "date", codes "today") ∷ (codes "x-odps-tz", codes "UTC") ∷ [];
  parameters = (codes "partition", codes "ds=1") ∷ [];
}

request_string :
    canonical_string (codes "GET") (codes "/a") request odps_prefix
    ≡ codes "GET"
      ++ 10 ∷ 10 ∷ 10 ∷ codes "today"
      ++ 10 ∷ codes "x-odps-tz:UTC"
      ++ 10 ∷ codes "/a?partition=ds=1"
unfolding canonical_string headers_to_sign is_signed start_with to_lower_case_string signed_lines
    canonicalized_resource canonicalized_parameters put_signed or_empty find_entry put_entry
    bytes_less bytes_eq
request_string = refl

agent_unsigned : is_signed odps_prefix (codes "user-agent") ≡ false
unfolding is_signed start_with bytes_eq
agent_unsigned = refl

same_values :
    (key : Bytes)
    → is_signed odps_prefix key ≡ true
    → last_value to_lower_case_string key request.headers
      ≡ last_value to_lower_case_string key in_small_letters.headers
unfolding last_value to_lower_case_string
same_values key h = elim (Bool-cases (bytes_eq (codes "user-agent") key)) [
  | inl e ↦ absurd (
      cc (
        sym agent_unsigned
        ∙ ap (is_signed odps_prefix) (bytes_eq→eq (codes "user-agent") key e)
        ∙ h))
  | inr e ↦ rw e (
      ap (λ o. or_else o (if bytes_eq (codes "date") key then some (codes "today") else none))
        (or_else-none (if bytes_eq (codes "x-odps-tz") key then some (codes "UTC") else none)))
]

same_string :
    canonical_string (codes "GET") (codes "/a") request odps_prefix
    ≡ canonical_string (codes "GET") (codes "/a") in_small_letters odps_prefix
same_string =
    canonical_string-same (codes "GET") (codes "/a") odps_prefix request in_small_letters refl
      same_values

canonical_string-same_example :
    canonical_string (codes "GET") (codes "/a") request odps_prefix
    ≡ canonical_string (codes "GET") (codes "/a") in_small_letters odps_prefix
canonical_string-same_example =
    canonical_string-same (codes "GET") (codes "/a") odps_prefix request in_small_letters refl
      same_values

find_entry-headers_to_sign_example :
    find_entry (codes "x-odps-tz") (headers_to_sign odps_prefix request)
    ≡ signed_value odps_prefix (codes "x-odps-tz") request
find_entry-headers_to_sign_example =
    find_entry-headers_to_sign odps_prefix (codes "x-odps-tz") request

-- To decide that a separator is missing.
lacks : ℕ → Bytes → Bool
lacks c [] = true
lacks c (b ∷ s) = not (b == c) && lacks c s

lacks-IsWithout : (c : ℕ) (s : Bytes) → lacks c s ≡ true → IsWithout c s
unfolding lacks
lacks-IsWithout c [] h = tt
lacks-IsWithout c (b ∷ s) h = elim (Bool-cases (b == c)) [
  | inl e ↦ absurd (cc (rw e at h))
  | inr e ↦ (e, lacks-IsWithout c s (rw e at h))
]

get-IsWithout : IsWithout 10 (codes "GET")
unfolding lacks
get-IsWithout = lacks-IsWithout 10 (codes "GET") refl

abbrev entries : List (Bytes × Bytes)
entries =
    (codes "content-md5", [])
    ∷ (codes "content-type", [])
    ∷ (codes "date", codes "today")
    ∷ (codes "x-odps-tz", codes "UTC")
    ∷ []

headers_to_sign-request : headers_to_sign odps_prefix request ≡ entries
unfolding headers_to_sign is_signed start_with to_lower_case_string put_signed or_empty find_entry
    put_entry bytes_less bytes_eq
headers_to_sign-request = refl

headers_to_sign-small : headers_to_sign odps_prefix in_small_letters ≡ entries
unfolding headers_to_sign is_signed start_with to_lower_case_string put_signed or_empty find_entry
    put_entry bytes_less bytes_eq
headers_to_sign-small = refl

entries-IsWithout :
    All (λ e. IsWithout 58 e.0) entries
    × All (λ e. IsWithout 10 (signed_line odps_prefix e)) entries
unfolding signed_line start_with lacks
entries-IsWithout = (
  (
    lacks-IsWithout 58 (codes "content-md5") refl,
    (
      lacks-IsWithout 58 (codes "content-type") refl,
      (lacks-IsWithout 58 (codes "date") refl, (lacks-IsWithout 58 (codes "x-odps-tz") refl, tt)),
    ),
  ),
  (
    tt,
    (
      tt,
      (
        lacks-IsWithout 10 (codes "today") refl,
        (lacks-IsWithout 10 (codes "x-odps-tz:UTC") refl, tt),
      ),
    ),
  ),
)

resource-IsWithout : IsWithout 10 (canonicalized_resource (codes "/a") request.parameters)
unfolding canonicalized_resource canonicalized_parameters lacks
resource-IsWithout = lacks-IsWithout 10 (codes "/a?partition=ds=1") refl

request-IsPlain : IsPlain (codes "/a") request
request-IsPlain = (
  resource-IsWithout,
  subst (λ m. All (λ e. IsWithout 58 e.0) m) (sym headers_to_sign-request) entries-IsWithout.0,
  subst (λ m. All (λ e. IsWithout 10 (signed_line odps_prefix e)) m) (sym headers_to_sign-request)
      entries-IsWithout.1,
)

small-IsPlain : IsPlain (codes "/a") in_small_letters
small-IsPlain = (
  resource-IsWithout,
  subst (λ m. All (λ e. IsWithout 58 e.0) m) (sym headers_to_sign-small) entries-IsWithout.0,
  subst (λ m. All (λ e. IsWithout 10 (signed_line odps_prefix e)) m) (sym headers_to_sign-small)
      entries-IsWithout.1,
)

entries_dated : find_entry (codes "date") entries ≡ some (codes "today")
unfolding find_entry bytes_eq
entries_dated = refl

both-HaveDates :
    HaveDates (headers_to_sign odps_prefix request) (headers_to_sign odps_prefix in_small_letters)
both-HaveDates = inr (
  codes "today",
  codes "today",
  rw headers_to_sign-request entries_dated,
  rw headers_to_sign-small entries_dated,
)

canonical_string-injective_example :
    (codes "GET" ≡ codes "GET")
    × (headers_to_sign odps_prefix request ≡ headers_to_sign odps_prefix in_small_letters)
    × (canonicalized_resource (codes "/a") request.parameters
        ≡ canonicalized_resource (codes "/a") in_small_letters.parameters)
canonical_string-injective_example =
    canonical_string-injective (codes "GET") (codes "GET") (codes "/a") (codes "/a") request
      in_small_letters get-IsWithout get-IsWithout request-IsPlain small-IsPlain both-HaveDates
      same_string

abbrev signer : AliyunRequestSigner
signer = record {
  method = codes "GET";
  resource_path = codes "/a";
  access_key = codes "k";
  access_id = codes "id";
  region = [];
}

sign-sign_example :
    sign
      (λ k d. k ++ d)
      (λ k d. d ++ k)
      (codes "20260101")
      signer
      (sign (λ k d. k ++ d) (λ k d. d ++ k) (codes "20260101") signer request)
    ≡ sign (λ k d. k ++ d) (λ k d. d ++ k) (codes "20260101") signer request
sign-sign_example = sign-sign (λ k d. k ++ d) (λ k d. d ++ k) (codes "20260101") signer request

no_string_to_sign :
    sign_app (λ k d. k ++ d) (codes "app") (codes "id") (codes "key") request ≡ err internal_error
unfolding sign_app get_header find_entry bytes_eq
no_string_to_sign = refl

bearer :
    sign_ali
      (λ k d. k ++ d)
      (codes "GET")
      (codes "/a")
      (record { id = []; key = []; token = codes "t"; algorithm = [] })
      (record { headers = []; parameters = [] })
    ≡ ok record {
      headers =
          (codes "Authorization", codes "Bearer t")
          ∷ (codes "x-ali-data-service", codes "ODPS")
          ∷ [];
      parameters = [];
    }
unfolding sign_ali set_header put_entry bytes_less
bearer = refl
