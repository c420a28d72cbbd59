-- ===== src/Upload/Tests.antt =====
-- Runs of a commit and of the retries.
use aliyun_odps_sdk_cpp.Prelude.{
  ℕ, zero, suc, ◌≤◌, ◌<◌, ◌≡◌, refl, Bool, true, false, List, [], ◌∷◌, ltb, if◌then◌else◌, ◌⊎◌,
}
use aliyun_odps_sdk_cpp.Prelude.Int.{ℤ, pos}
use aliyun_odps_sdk_cpp.Result.{Result, ok, err, Error, internal_error, plain_error}
use aliyun_odps_sdk_cpp.Upload.{
  reload_request, commit_request, commit, commit_checked, check_blocks, all_exist, server_keys,
  client_keys, put_key, has_key, to_uint32, Reply, success_with_retry, retry_loop, read_with_retry,
  attempt_loop, after_attempt,
}
use aliyun_odps_sdk_cpp.Upload.Commit.{SameBlocks, commit-blocks}
use aliyun_odps_sdk_cpp.Upload.Retry.{
  IsRetried, success_with_retry-IsRetried, IsCaught, IsFinal, read_with_retry_lem,
}

abbrev two_blocks : List ℕ
two_blocks = 3 ∷ 1 ∷ 3 ∷ []

abbrev two_ids : List ℤ
two_ids = pos 1 ∷ pos 3 ∷ []

-- Blocks in another order, one of them twice.
commit_two : commit two_blocks (ok two_ids) (ok tt) ≡ (reload_request ∷ commit_request ∷ [], ok tt)
unfolding commit commit_checked check_blocks all_exist server_keys client_keys put_key has_key
    to_uint32
commit_two = refl

commit-blocks_example :
    (SameBlocks two_blocks two_ids
      × (commit two_blocks (ok two_ids) (ok tt) ≡ (reload_request ∷ commit_request ∷ [], ok tt)))
    ⊎ ((SameBlocks two_blocks two_ids → ⊥)
        × (commit two_blocks (ok two_ids) (ok tt) ≡ (reload_request ∷ [], err internal_error)))
commit-blocks_example = commit-blocks two_blocks two_ids (ok tt)

-- Busy twice, and then a success.
abbrev busy_twice : ℕ → Reply
busy_twice k = record { successful = ltb 1 k; status = if ltb 1 k then 200 else 429 }

busy_run : success_with_retry busy_twice ≡ (1 ∷ 2 ∷ [], true)
unfolding success_with_retry retry_loop
busy_run = refl

success_with_retry-IsRetried_example : IsRetried busy_twice (success_with_retry busy_twice)
success_with_retry-IsRetried_example = success_with_retry-IsRetried busy_twice

abbrev is_plain_error : Error → Bool
is_plain_error plain_error = true
is_plain_error _ = false

abbrev fails_once : ℕ → Result ℕ
fails_once zero = err plain_error
fails_once (suc k) = ok k

read_run : read_with_retry is_plain_error 3 fails_once ≡ (1, ok 0)
unfolding read_with_retry attempt_loop after_attempt
read_run = refl

read_with_retry_lem_example :
    ((read_with_retry is_plain_error 3 fails_once).0 ≤ 3)
    × ((read_with_retry is_plain_error 3 fails_once).1
        ≡ fails_once (read_with_retry is_plain_error 3 fails_once).0)
    × ((j : ℕ)
        → j < (read_with_retry is_plain_error 3 fails_once).0
        → IsCaught is_plain_error (fails_once j))
    × (((read_with_retry is_plain_error 3 fails_once).0 ≡ 3)
        ⊎ IsFinal is_plain_error (read_with_retry is_plain_error 3 fails_once).1)
read_with_retry_lem_example = read_with_retry_lem is_plain_error 3 fails_once
