-- ===== src/Strings.antt =====
-- SplitString of util/string_util.cpp.
pub mod Split
mod Tests
use aliyun_odps_sdk_cpp.Prelude.{
  ℕ, zero, suc, Bool, true, false, ◌||◌, Bytes, List, [], ◌∷◌, Option, none, some, length, ◌==◌,
  if◌then◌else◌,
}
use aliyun_odps_sdk_cpp.Result.{Result, ok, err, local_error}

unfoldable pub is_one_of : Bytes → ℕ → Bool
is_one_of [] c = false
is_one_of (d ∷ ds) c = (d == c) || is_one_of ds c

abbrev pub longer_part : ℕ → Bytes × Option Bytes → Bytes × Option Bytes
longer_part c (part, rest) = (c ∷ part, rest)

-- What `find_first_of` and `substr` give: the part before the first delimiter, and what stands behind
-- it, none when the string has no delimiter.
unfoldable pub next_part : Bytes → Bytes → Bytes × Option Bytes
next_part delim [] = ([], none)
next_part delim (c ∷ cs) =
    let rest = longer_part c (next_part delim cs) in
    if is_one_of delim c then ([], some cs) else rest

-- The loop over the positions, where `s` is what stands behind the position.
unfoldable pub split_parts : ℕ → Bytes → Bytes → List Bytes
split_parts zero delim s = []
split_parts (suc fuel) delim s =
    (next_part delim s).0
    ∷ (elim (next_part delim s).1 [ none ↦ [] | some rest ↦ split_parts fuel delim rest ])

unfoldable pub split_string : Bytes → Bytes → Result (List Bytes)
split_string s [] = err local_error
split_string [] (d ∷ ds) = ok []
split_string (c ∷ cs) (d ∷ ds) = ok (split_parts (suc (length (c ∷ cs))) (d ∷ ds) (c ∷ cs))
