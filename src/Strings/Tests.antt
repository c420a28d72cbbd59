-- ===== src/Strings/Tests.antt =====
-- Runs of SplitString.
use aliyun_odps_sdk_cpp.Prelude.{◌≡◌, refl, true, Bytes, codes, List, [], ◌∷◌, All}
use aliyun_odps_sdk_cpp.Result.{ok}
use aliyun_odps_sdk_cpp.Strings.{split_string, split_parts, next_part, is_one_of}
use aliyun_odps_sdk_cpp.Strings.Split.{join_parts, has_none_of, split_join}

split_join_example :
    (parts : List Bytes) × (split_string (codes "10.0.0.1:8080") (codes ":") ≡ ok parts)
    × (join_parts 58 parts ≡ codes "10.0.0.1:8080")
    × All (λ part. has_none_of (58 ∷ []) part ≡ true) parts
split_join_example = split_join 58 49 (codes "0.0.0.1:8080")

-- A delimiter at the end leaves an empty part.
split_end : split_string (codes "a:") (codes ":") ≡ ok (codes "a" ∷ [] ∷ [])
unfolding split_string split_parts next_part is_one_of
split_end = refl
