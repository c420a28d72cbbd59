-- ===== src/Utf8/Tests.antt =====
-- A run of FindNextCharUtf8 (util/string_util.cpp) on a character of three bytes.
use aliyun_odps_sdk_cpp.Prelude.{[], ◌∷◌, Bytes}

abbrev str : Bytes
str = 97 ∷ 228 ∷ 189 ∷ 160 ∷ 98 ∷ []
