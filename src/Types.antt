-- ===== src/Types.antt =====
-- Column types (include/odps_types.h): the enumeration ODPSColumnType, the type description
-- ODPSColumnTypeInfo, the constructor of TimeStamp and its operator <.
mod Order
mod Tests
use aliyun_odps_sdk_cpp.Prelude.{
  ℕ, Bool, false, ◌&&◌, ◌||◌, Bytes, codes, if◌then◌else◌, Option, some, none,
}
use aliyun_odps_sdk_cpp.Prelude.Int.{ℤ, pos, ◌+ℤ◌, ◌-ℤ◌, quot_ℤ, rem_ℤ, ltb_ℤ}

pub data ColumnType : Type 0 where
  unknown bigint double boolean datetime string decimal tinyint smallint integer : ColumnType
  char varchar binary date timestamp float interval_year_month interval_day_time : ColumnType
  array map struct json timestamp_ntz : ColumnType

-- GetTypeName; `none` is the exception for an unknown type.
unfoldable pub get_type_name : ColumnType → Option Bytes
get_type_name unknown = none
get_type_name bigint = some (codes "BIGINT")
get_type_name double = some (codes "DOUBLE")
get_type_name boolean = some (codes "BOOLEAN")
get_type_name datetime = some (codes "DATETIME")
get_type_name string = some (codes "STRING")
get_type_name decimal = some (codes "DECIMAL")
get_type_name tinyint = some (codes "TINYINT")
get_type_name smallint = some (codes "SMALLINT")
get_type_name integer = some (codes "INT")
get_type_name char = some (codes "CHAR")
get_type_name varchar = some (codes "VARCHAR")
get_type_name binary = some (codes "BINARY")
get_type_name date = some (codes "DATE")
get_type_name timestamp = some (codes "TIMESTAMP")
get_type_name float = some (codes "FLOAT")
get_type_name interval_year_month = some (codes "INTERVAL_YEAR_MONTH")
get_type_name interval_day_time = some (codes "INTERVAL_DAY_TIME")
get_type_name array = some (codes "ARRAY")
get_type_name map = some (codes "MAP")
get_type_name struct = some (codes "STRUCT")
get_type_name json = some (codes "JSON")
get_type_name timestamp_ntz = some (codes "TIMESTAMP_NTZ")

-- `info type precision scale specified_length member_name sub_types`. The members for nullability,
-- column id and default value are not read by the code modelled here.
mutual
  pub data TypeInfo : Type 0 where
    info : ColumnType → ℤ → ℤ → ℤ → Bytes → TypeInfos → TypeInfo

  pub data TypeInfos : Type 0 where
    none_more : TypeInfos
    more : TypeInfo → TypeInfos → TypeInfos

abbrev pub type_of : TypeInfo → ColumnType
type_of (info t p s n m subs) = t

abbrev pub length_of : TypeInfo → ℤ
length_of (info t p s n m subs) = n

-- ODPSColumnTypeInfo(type): every other member has its default.
abbrev pub plain : ColumnType → TypeInfo
plain t = info t (pos 0) (pos 0) (pos 0) (codes "") none_more

abbrev pub nanos_per_second : ℕ
nanos_per_second = 1_000_000_000

abbrev pub seconds_per_day : ℕ
seconds_per_day = 86_400

-- TimeStamp(sec, ns): the carried seconds and the remainder, then the two brought to one sign.
unfoldable pub time_carry : ℤ → ℤ → ℤ × ℤ
unfolding ◌+ℤ◌ ◌-ℤ◌
time_carry sec ns =
    if ltb_ℤ (pos 0) sec && ltb_ℤ ns (pos 0)
    then (sec -ℤ pos 1, ns +ℤ pos nanos_per_second)
    else if ltb_ℤ sec (pos 0) && ltb_ℤ (pos 0) ns
    then (sec +ℤ pos 1, ns -ℤ pos nanos_per_second)
    else (sec, ns)

unfoldable pub time_stamp : ℤ → ℤ → ℤ × ℤ
unfolding time_carry ◌+ℤ◌
time_stamp sec (pos ℕ.zero) = (sec, pos 0)
time_stamp sec ns = time_carry (sec +ℤ quot_ℤ ns nanos_per_second) (rem_ℤ ns nanos_per_second)

-- The operator < of TimeStamp.
unfoldable pub time_less : ℤ × ℤ → ℤ × ℤ → Bool
time_less (s, n) (s2, n2) = if ltb_ℤ s2 s then false else (ltb_ℤ s s2 || ltb_ℤ n n2)
