-- ===== src/Base64/Tests.antt =====
-- Runs of the Base64 routines of util/base64.cpp.
use aliyun_odps_sdk_cpp.Prelude.{◌≡◌, refl, codes, arith}
use aliyun_odps_sdk_cpp.Result.{ok}
use aliyun_odps_sdk_cpp.Base64.{
  default_alphabet, default_plus, default_slash, base64_encoding, base64_decoding,
}
use aliyun_odps_sdk_cpp.Base64.RoundTrip.{base64_round_trip}
use aliyun_odps_sdk_cpp.Base64.Refusal.{IsVerdict, base64_decoding-IsVerdict}

hello : base64_encoding default_alphabet (codes "hello") ≡ codes "aGVsbG8="
unfolding base64_encoding
hello = refl

base64_round_trip_example :
    base64_decoding default_plus default_slash (base64_encoding default_alphabet (codes "hello"))
    ≡ ok (codes "hello")
base64_round_trip_example =
    base64_round_trip (codes "hello")
      (omega arith, (omega arith, (omega arith, (omega arith, (omega arith, tt)))))

base64_decoding-IsVerdict_example :
    IsVerdict 7 (base64_decoding default_plus default_slash (codes "aGVsbG8"))
base64_decoding-IsVerdict_example =
    base64_decoding-IsVerdict default_plus default_slash (codes "aGVsbG8")
