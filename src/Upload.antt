-- ===== src/Upload.antt =====
-- The commit of an upload session (tunnel/upload.cpp) and the retries of the requests
-- (tunnel/util.cpp, tunnel/util.h). What the server answers is a parameter.
pub mod Sets
mod Commit
mod Retry
mod Tests
use aliyun_odps_sdk_cpp.Prelude.{
  ℕ, zero, suc, ◌+◌, ◌-◌, ◌*◌, ◌%◌, ◌^◌, Bool, true, false, ◌||◌, List, [], ◌∷◌, length, ltb, leb,
  ◌==◌, if◌then◌else◌,
}
use aliyun_odps_sdk_cpp.Prelude.Int.{ℤ, pos, negsuc}
use aliyun_odps_sdk_cpp.Result.{Result, ok, err, Error, internal_error, plain_error}

-- The conversion of an int64_t to a uint32_t.
unfoldable pub to_uint32 : ℤ → ℕ
to_uint32 (pos n) = n % 2 ^ 32
to_uint32 (negsuc n) = 2 ^ 32 - 1 - n % 2 ^ 32

unfoldable pub has_key : ℕ → List ℕ → Bool
has_key k [] = false
has_key k (j ∷ keys) = (k == j) || has_key k keys

-- `m[k] = true`, for a map given by its keys.
unfoldable pub put_key : ℕ → List ℕ → List ℕ
put_key k keys = if has_key k keys then keys else k ∷ keys

unfoldable pub client_keys : List ℕ → List ℕ → List ℕ
client_keys [] keys = keys
client_keys (block ∷ blocks) keys = client_keys blocks (put_key block keys)

unfoldable pub server_keys : List ℤ → List ℕ → List ℕ
server_keys [] keys = keys
server_keys (id ∷ ids) keys = server_keys ids (put_key (to_uint32 id) keys)

-- The loop that looks for each block among the server's.
unfoldable pub all_exist : List ℕ → List ℕ → Result (Unit {0})
all_exist [] keys = ok tt
all_exist (block ∷ blocks) keys =
    let rest = all_exist blocks keys in if has_key block keys then rest else err internal_error

unfoldable pub check_blocks : List ℕ → List ℤ → Result (Unit {0})
check_blocks blocks ids =
    let server = server_keys ids [] in
    if length server == length (client_keys blocks [])
    then all_exist blocks server
    else err internal_error

-- The requests that a commit sends.
pub data Request : Type 0 where
  reload_request commit_request : Request

unfoldable pub commit_checked :
    Result (Unit {0}) → Result (Unit {0}) → List Request × Result (Unit {0})
commit_checked (err e) reply = (reload_request ∷ [], err e)
commit_checked (ok _) reply = (reload_request ∷ commit_request ∷ [], reply)

-- Commit with a list of blocks: `listed` is what the reload gives, the ids of the server's blocks or an
-- exception, and `reply` what the request that closes the session gives.
unfoldable pub commit :
    List ℕ → Result (List ℤ) → Result (Unit {0}) → List Request × Result (Unit {0})
commit blocks (err e) reply = (reload_request ∷ [], err e)
commit blocks (ok ids) reply = commit_checked (check_blocks blocks ids) reply

-- A response: whether isSuccessful() holds, and its status code.
pub record Reply : Type 0 where
  pub successful : Bool
  pub status : ℕ

abbrev pub waited : ℕ → List ℕ × Bool → List ℕ × Bool
waited seconds (waits, success) = (seconds ∷ waits, success)

-- The loop of SuccessWithRetry with `left` retries left: the seconds it has slept, and what it returns.
-- `replies k` is the response to the request sent for the k-th time, counted from 0.
unfoldable pub retry_loop : ℕ → ℕ → ℕ → (ℕ → Reply) → List ℕ × Bool
retry_loop zero k interval replies = ([], false)
retry_loop (suc left) k interval replies =
    let again = retry_loop left (suc k) (interval * 2) replies in
    if (replies k).successful then (interval ∷ [], true) else waited interval again

abbrev pub max_retry : ℕ
max_retry = 6

unfoldable pub success_with_retry : (ℕ → Reply) → List ℕ × Bool
success_with_retry replies =
    if (replies 0).successful
    then ([], true)
    else if (replies 0).status == 429
    then retry_loop max_retry 1 1 replies
    else ([], false)

-- `return func()`, or the handler of an exception, which goes on with another attempt.
unfoldable pub after_attempt {ℓ} :
    {A : Type ℓ} → (Error → Bool) → ℕ → Result A → ℕ × Result A → ℕ × Result A
after_attempt caught attempt (ok a) again = (attempt, ok a)
after_attempt caught attempt (err e) again = if caught e then again else (attempt, err e)

-- The loop of ReadWithRetry from an attempt on, with `left` attempts behind it: the attempt that it
-- ended with, and its result. `caught` tells the exceptions that are an OdpsException.
unfoldable pub attempt_loop {ℓ} :
    {A : Type ℓ} → (Error → Bool) → ℕ → ℕ → (ℕ → Result A) → ℕ × Result A
attempt_loop caught zero attempt func = (attempt, func attempt)
attempt_loop caught (suc left) attempt func =
    let again = attempt_loop caught left (suc attempt) func in
    after_attempt caught attempt (func attempt) again

unfoldable pub read_with_retry {ℓ} :
    {A : Type ℓ} → (Error → Bool) → ℕ → (ℕ → Result A) → ℕ × Result A
read_with_retry caught zero func = (0, func 0)
read_with_retry caught (suc times) func = attempt_loop caught (suc times) 0 func
