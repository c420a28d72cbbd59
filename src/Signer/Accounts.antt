-- ===== src/Signer/Accounts.antt =====
-- The signers for other accounts than Aliyun's (common/signer.cpp).
use aliyun_odps_sdk_cpp.Prelude.{
  Bool, true, false, ◌&&◌, Bytes, codes, [], ◌∷◌, ◌++◌, not, if◌then◌else◌, bytes_eq,
}
use aliyun_odps_sdk_cpp.Result.{Result, ok, internal_error, invalid_argument, guard, ◌>>◌}
use aliyun_odps_sdk_cpp.Signer.{
  Request, authorization, ali_data_prefix, to_lower_case_string, canonical_string, set_header,
  get_header, signature,
}

abbrev pub account_domain : Bytes
account_domain = codes "domain"

abbrev pub application_authentication : Bytes
application_authentication = codes "application-authentication"

pub record Account : Type 0 where
  pub id : Bytes
  pub key : Bytes
  pub token : Bytes
  pub algorithm : Bytes

abbrev is_empty : Bytes → Bool
is_empty [] = true
is_empty (c ∷ cs) = false

-- DomainRequestSigner
unfoldable pub sign_domain : Bytes → Bytes → Request → Request
sign_domain account_type account_token r =
    if bytes_eq account_type account_domain && not (is_empty account_token)
    then set_header authorization
        (codes "account_provider:" ++ (account_type ++ (codes ",access_token:" ++ account_token))) r
    else r

-- StsTokenSigner
unfoldable pub sign_sts : Bytes → Request → Request
sign_sts token r =
    if is_empty token then r else set_header (codes "authorization-sts-token") token r

module _ (hmac_sha1 : Bytes → Bytes → Bytes) where
  -- AliRequestSigner
  unfoldable pub sign_ali : Bytes → Bytes → Account → Request → Result Request
  sign_ali method path account r =
      if is_empty account.token
      then guard (bytes_eq account.algorithm (codes "hmac-sha1")) internal_error
        >> ok (
            set_header authorization
              (account.id
                ++ (codes ":"
                    ++ signature hmac_sha1 account.key
                        (canonical_string method path r ali_data_prefix)))
              r)
      else ok (
          set_header authorization (codes "Bearer " ++ account.token)
            (set_header (codes "x-ali-data-service") (codes "ODPS") r))

  -- AppRequestSigner
  unfoldable pub sign_app : Bytes → Bytes → Bytes → Request → Result Request
  sign_app type access_id access_key r =
      guard (not (is_empty access_id) && not (is_empty access_key)) invalid_argument
      >> (guard (not (is_empty (get_header authorization r))) internal_error
          >> ok (
              set_header application_authentication
                (codes "account_provider:"
                  ++ (to_lower_case_string type
                      ++ (codes ",signature_method:"
                          ++ (codes "hmac-sha1"
                              ++ (codes ",access_id:"
                                  ++ (access_id
                                      ++ (codes ",signature:"
                                          ++ signature hmac_sha1 access_key
                                              (get_header authorization r))))))))
                r))
