-- ===== src/Result.antt =====
-- Outcomes of the calls that may throw (include/odps_exception.h, include/error_code.h).
use aliyun_odps_sdk_cpp.Prelude.{◌≡◌, Bool, true, false}

-- `plain_error` is an exception made from a message alone. `undefined` is a read that C++ leaves
-- undefined, and `out_of_fuel` a loop whose fuel ran out: neither is thrown by the code.
pub data Error : Type 0 where
  internal_error not_implemented invalid_argument local_error : Error
  connection_pool_limit_reached plain_error : Error
  empty_slot_map slot_not_found out_of_range server_error : Error
  invalid_bucket_value pack_not_flushed upsert_stream_closed upsert_stream_error : Error
  undefined out_of_fuel : Error

-- A returned value, or what was thrown in its place.
pub data Result {ℓ} (A : Type ℓ) : Type ℓ where
  err : Error → Result A
  ok : A → Result A

-- `if (!b) throw thrown;`
abbrev pub guard : Bool → Error → Result (Unit {0})
guard false thrown = err thrown
guard true thrown = ok tt

infixl 5 ◌>>=◌ ◌>>◌
-- What follows a call runs only if the call returned.
abbrev pub ◌>>=◌ {ℓ κ} : {A : Type ℓ} {B : Type κ} → Result A → (A → Result B) → Result B
err thrown >>= rest = err thrown
ok v >>= rest = rest v

abbrev pub ◌>>◌ {ℓ} : {B : Type ℓ} → Result (Unit {0}) → Result B → Result B
check >> rest = check >>= λ _. rest

pub ok-injective {ℓ} : {A : Type ℓ} {a b : A} → ok a ≡ ok b → a ≡ b
ok-injective h = cc
