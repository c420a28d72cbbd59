-- ===== src/TableRecord/Tests.antt =====
-- A record of a number, a string and a time, and some calls of its setters.
use aliyun_odps_sdk_cpp.Prelude.{ℕ, ◌≡◌, refl, codes, List, [], ◌∷◌, some}
use aliyun_odps_sdk_cpp.Prelude.Int.{pos}
use aliyun_odps_sdk_cpp.Result.{ok, err, undefined}
use aliyun_odps_sdk_cpp.Types.{ColumnType, bigint, string, timestamp}
use aliyun_odps_sdk_cpp.TableRecord.{
  TableRecord, string_at, raw_int, new_record, type_code, or_thrown, check_type, is_null_value,
  put_raw, put_buf, set_int_value, set_string_value, get_string_value, unless_null, raw_at,
  as_string, set_null_value,
}
use aliyun_odps_sdk_cpp.TableRecord.Interface.{
  Call, call_string, run, set_string, string_type, item_at,
}
use aliyun_odps_sdk_cpp.TableRecord.Setters.{Outcome}
use aliyun_odps_sdk_cpp.TableRecord.Calls.{call_idx, call_value, run-Outcome}
use aliyun_odps_sdk_cpp.TableRecord.Reach.{at_start, by_call, IsRead, reachable-IsRead, new-IsSound}

abbrev columns : List ColumnType
columns = bigint ∷ string ∷ timestamp ∷ []

abbrev empty_row : TableRecord ℕ
empty_row = new_record columns 100

abbrev named : Call ℕ
named = call_string set_string 1 (some (codes "abc")) 3

abbrev named_row : TableRecord ℕ
named_row = put_raw (record empty_row { str_bufs = put_buf 1 (codes "abc") [] }) 1 (string_at 1)

named_returns : run named empty_row ≡ ok named_row
unfolding run set_string_value check_type or_thrown string_type type_code put_raw put_buf new_record
named_returns = refl

run-Outcome_example : Outcome empty_row named_row (call_idx named) (call_value named)
run-Outcome_example = run-Outcome named empty_row named_row (new-IsSound columns 100) named_returns

reachable-IsRead_example : IsRead (item_at named_row 1)
reachable-IsRead_example = reachable-IsRead (by_call named named_returns (at_start columns 100)) 1

-- The overload with a type is public too: it writes a number where the column has a pointer.
wild_pointer :
    (set_int_value empty_row 1 (pos 8) string ≡ ok (put_raw empty_row 1 (raw_int (pos 8))))
    × (get_string_value (put_raw empty_row 1 (raw_int (pos 8))) 1 string ≡ err undefined)
unfolding set_int_value check_type or_thrown type_code put_raw new_record get_string_value
    unless_null is_null_value raw_at as_string
wild_pointer = (refl, refl)

-- A record without columns: the bound of SetNullValue wraps around.
no_columns : set_null_value (new_record {C = ℕ} [] 100) 5 ≡ err undefined
unfolding set_null_value is_null_value or_thrown new_record
no_columns = refl
