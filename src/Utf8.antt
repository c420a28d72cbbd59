-- ===== src/Utf8.antt =====
-- util/string_util.cpp: FindNextCharUtf8, and tunnel/serialize.cpp: TrimOrPadding.
pub mod Next
mod Tests
use Prim.Native.Nat.{bit_and}
use aliyun_odps_sdk_cpp.Prelude.{
  ℕ, zero, suc, ◌+◌, ◌-◌, Bool, true, ◌||◌, Bytes, [], ◌∷◌, ◌++◌, ltb, leb, ◌==◌, if◌then◌else◌,
  length, take, drop, replicate,
}
use aliyun_odps_sdk_cpp.Prelude.Int.{ℤ, pos, negsuc}
use aliyun_odps_sdk_cpp.Result.{Result, ok, err, local_error, plain_error, ◌>>=◌}
use aliyun_odps_sdk_cpp.Types.{ColumnType, char, varchar}

-- The byte that starts a character of one to six bytes.
unfoldable pub starts_char : ℕ → Bool
starts_char b =
    bit_and b 0x80 == 0x00
    || (bit_and b 0xE0 == 0xC0
        || (bit_and b 0xF0 == 0xE0
            || (bit_and b 0xF8 == 0xF0 || (bit_and b 0xFC == 0xF8 || bit_and b 0xFE == 0xFC))))

-- The loop from `curr_pos`, with the bytes from there on.
unfoldable pub scan_char : Bytes → ℕ → Result ℕ
scan_char [] curr_pos = ok curr_pos
scan_char (b ∷ rest) curr_pos =
    let go_on = scan_char rest (curr_pos + 1) in
    if starts_char b then ok curr_pos else if bit_and b 0xC0 == 0x80 then go_on else err local_error

unfoldable pub find_next_char_utf8 : Bytes → ℕ → Result ℕ
find_next_char_utf8 str at =
    if ltb (length str) (at + 1) then err local_error else scan_char (drop (at + 1) str) (at + 1)

-- The loop of TrimOrPadding: `rounds` is what is left of the specified length.
unfoldable pub walk_chars : ℕ → Bytes → ℕ → ℕ → Result (ℕ × ℕ)
walk_chars zero str at len = ok (at, len)
walk_chars (suc rounds) str at len =
    let next = find_next_char_utf8 str at >>= λ at'. walk_chars rounds str at' (len + 1) in
    if ltb at (length str) then next else ok (at, len)

-- `specified_length < 1 || specified_length > limit`.
abbrev pub length_invalid : ℤ → ℕ → Bool
length_invalid (pos n) limit = ltb n 1 || ltb limit n
length_invalid (negsuc n) limit = true

abbrev pub specified : ℤ → ℕ
specified (pos n) = n
specified (negsuc n) = 0

-- What follows the walk: CHAR is padded, a longer text is cut.
unfoldable pub fit_char : Bytes → ℕ → ℕ × ℕ → Bytes
fit_char str n (at, len) = if ltb len n then str ++ replicate (n - len) 0x20 else take at str

unfoldable pub fit_varchar : Bytes → ℕ → ℕ × ℕ → Bytes
fit_varchar str n (at, len) = if leb n len then take at str else str

unfoldable pub trim_or_padding : Bytes → ColumnType → ℤ → Result Bytes
unfolding walk_chars fit_char fit_varchar
trim_or_padding str char n =
    if length_invalid n 255
    then err plain_error
    else (walk_chars (specified n) str 0 0 >>= λ w. ok (fit_char str (specified n) w))
trim_or_padding str varchar n =
    if length_invalid n 65535
    then err plain_error
    else (walk_chars (specified n) str 0 0 >>= λ w. ok (fit_varchar str (specified n) w))
trim_or_padding str _ n = ok str
