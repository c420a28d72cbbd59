-- ===== src/Signer/Entries.antt =====
-- A std::map from strings to strings: the entries in the order of std::less, the lexicographic order of
-- the bytes.
use aliyun_odps_sdk_cpp.Prelude.{
  Bool, true, false, ◌&&◌, ◌||◌, Bytes, List, [], ◌∷◌, Option, none, some, ltb, ◌==◌, if◌then◌else◌,
  bytes_eq,
}

abbrev pub Entry : Type 0
Entry = Bytes × Bytes

unfoldable pub bytes_less : Bytes → Bytes → Bool
bytes_less xs [] = false
bytes_less [] (y ∷ ys) = true
bytes_less (x ∷ xs) (y ∷ ys) = ltb x y || ((x == y) && bytes_less xs ys)

-- m[key] = value
unfoldable pub put_entry : Bytes → Bytes → List Entry → List Entry
put_entry key value [] = (key, value) ∷ []
put_entry key value ((k, v) ∷ m) =
    let rest = put_entry key value m in
    if bytes_less key k
    then (key, value) ∷ (k, v) ∷ m
    else if bytes_less k key
    then (k, v) ∷ rest
    else (key, value) ∷ m

unfoldable pub find_entry : Bytes → List Entry → Option Bytes
find_entry key [] = none
find_entry key ((k, v) ∷ m) = if bytes_eq k key then some v else find_entry key m
