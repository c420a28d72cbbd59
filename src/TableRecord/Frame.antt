-- ===== src/TableRecord/Frame.antt =====
-- What the operations of a table's record (tunnel/odps_table_record.cpp) leave as it is.
use aliyun_odps_sdk_cpp.Prelude.{
  ℕ, ◌≡◌, ◌≢◌, ◌⊎◌, refl, sym, ap, ◌∙◌, Bool, true, false, List, [], ◌∷◌, Option, none, some,
  get_elem?, ◌==◌, ==_iff, ==_refl, if◌then◌else◌, arith, Bool-cases, Option-cases, inl, inr,
}
use aliyun_odps_sdk_cpp.Result.{Result, ok, err, undefined, out_of_range, ◌>>=◌}
use aliyun_odps_sdk_cpp.Types.{
  ColumnType, unknown, bigint, double, boolean, datetime, string, decimal, tinyint, smallint,
  integer, char, varchar, binary, date, timestamp, float, interval_year_month, interval_day_time,
  array, map, struct, json, timestamp_ntz,
}
use aliyun_odps_sdk_cpp.TableRecord.{
  TableRecord, Raw, string_at, time_at, type_code, or_thrown, find_buf, put_buf, is_null_value,
  raw_at, unless_null, as_string, as_time,
}
use aliyun_odps_sdk_cpp.TableRecord.Interface.{
  string_item, time_item, complex_item, read_as, item_at,
}
use aliyun_odps_sdk_cpp.TableRecord.Own.{as_item, item_at-own}

-- Every type, at the place of its code.
abbrev all_types : List ColumnType
all_types =
    unknown ∷ bigint ∷ double ∷ boolean ∷ datetime ∷ string ∷ decimal ∷ tinyint ∷ smallint ∷ integer
    ∷ char ∷ varchar ∷ binary ∷ date ∷ timestamp ∷ float ∷ interval_year_month ∷ interval_day_time
    ∷ array ∷ map ∷ struct ∷ json ∷ timestamp_ntz ∷ []

type_code-found : (t : ColumnType) → get_elem? all_types (type_code t) ≡ some t
unfolding type_code
type_code-found unknown = refl
type_code-found bigint = refl
type_code-found double = refl
type_code-found boolean = refl
type_code-found datetime = refl
type_code-found string = refl
type_code-found decimal = refl
type_code-found tinyint = refl
type_code-found smallint = refl
type_code-found integer = refl
type_code-found char = refl
type_code-found varchar = refl
type_code-found binary = refl
type_code-found date = refl
type_code-found timestamp = refl
type_code-found float = refl
type_code-found interval_year_month = refl
type_code-found interval_day_time = refl
type_code-found array = refl
type_code-found map = refl
type_code-found struct = refl
type_code-found json = refl
type_code-found timestamp_ntz = refl

pub type_code-injective : (t u : ColumnType) → type_code t ≡ type_code u → t ≡ u
type_code-injective t u e =
    let same = sym (type_code-found t) ∙ ap (get_elem? all_types) e ∙ type_code-found u in cc

pub unknown-cases : (t : ColumnType) → (t ≡ unknown) ⊎ (t ≢ unknown)
unfolding type_code
unknown-cases t = elim (Bool-cases (type_code t == 0)) [
  | inl e ↦ inl (type_code-injective t unknown ((==_iff (type_code t) 0).0 e))
  | inr e ↦ inr (λ same. absurd (ground (arith, e, ap type_code same)))
]

pub find_buf-here :
    {A : Type 0} (k : ℕ) (a : A) (bufs : List (ℕ × A)) → find_buf k (put_buf k a bufs) ≡ some a
unfolding find_buf put_buf
find_buf-here k a [] = rw (==_refl k) refl
find_buf-here k a ((j, b) ∷ bufs) = elim (Bool-cases (j == k)) [
  | inl e ↦ rw e (rw (==_refl k) refl)
  | inr e ↦ rw e (rw e (find_buf-here k a bufs))
]

pub find_buf-other :
    {A : Type 0} (i k : ℕ) (a : A) (bufs : List (ℕ × A))
    → (k == i) ≡ false
    → find_buf i (put_buf k a bufs) ≡ find_buf i bufs
unfolding find_buf put_buf
find_buf-other i k a [] h = rw h refl
find_buf-other i k a ((j, b) ∷ bufs) h = elim (Bool-cases (j == k)) [
  | inl e ↦ let other : (j == i) ≡ false = ground (arith, e, h) in rw e (rw (h, other) refl)
  | inr e ↦ rw e (elim (Bool-cases (j == i)) [
    | inl f ↦ rw f refl
    | inr f ↦ rw f (find_buf-other i k a bufs h)
  ])
]

-- A pointer in the bytes of a column points to the buffer of that column.
abbrev pub OwnCell : ℕ → Raw → Type 0
OwnCell j (string_at k) = k ≡ j
OwnCell j (time_at k) = k ≡ j
OwnCell j _ = Unit

-- What is read from a column, by its null flag and its bytes.
abbrev masked : {A : Type 0} → Option Bool → Option Raw → (Raw → Result A) → Result (Option A)
masked nulls raws reading = or_thrown (err undefined) nulls >>= λ b.
    if b then ok none else (or_thrown (err undefined) raws >>= λ c. reading c >>= λ a. ok (some a))

masked-same :
    {A : Type 0} (nulls : Option Bool) (raws : Option Raw) (f g : Raw → Result A)
    → ((c : Raw) → raws ≡ some c → g c ≡ f c)
    → masked nulls raws g ≡ masked nulls raws f
unfolding or_thrown
masked-same none raws f g same = refl
masked-same (some true) raws f g same = refl
masked-same (some false) none f g same = refl
masked-same (some false) (some c) f g same = ap (λ v. v >>= λ a. ok (some a)) (same c refl)

pub item_at-none :
    {C : Type 0} (r : TableRecord C) (j : ℕ)
    → get_elem? r.types j ≡ none
    → item_at r j ≡ err out_of_range
unfolding item_at or_thrown
item_at-none r j e = ap (λ o. or_thrown (err out_of_range) o >>= λ t. read_as t r j) e

pub item_at-unknown :
    {C : Type 0} (r : TableRecord C) (j : ℕ)
    → get_elem? r.types j ≡ some unknown
    → item_at r j ≡ ok none
unfolding item_at or_thrown read_as
item_at-unknown r j e = ap (λ o. or_thrown (err out_of_range) o >>= λ t. read_as t r j) e

module _ {C : Type 0} (r s : TableRecord C) (j : ℕ) where
  unless-same :
      {A : Type 0} (f g : Raw → Result A)
      → get_elem? s.is_null j ≡ get_elem? r.is_null j
      → get_elem? s.raw_data j ≡ get_elem? r.raw_data j
      → ((c : Raw) → get_elem? r.raw_data j ≡ some c → g c ≡ f c)
      → unless_null s j g ≡ unless_null r j f
  unfolding unless_null is_null_value raw_at or_thrown
  unless-same f g nulls raws same =
      ap (λ o. masked o (get_elem? s.raw_data j) g) nulls
      ∙ ap (λ o. masked (get_elem? r.is_null j) o g) raws
      ∙ masked-same (get_elem? r.is_null j) (get_elem? r.raw_data j) f g same

  -- The buffers of the column are the same.
  abbrev SameBuffers : Type 0
  SameBuffers =
      (find_buf j s.str_bufs ≡ find_buf j r.str_bufs)
      × (find_buf j s.ts_bufs ≡ find_buf j r.ts_bufs)
      × (find_buf j s.complex_bufs ≡ find_buf j r.complex_bufs)

  as_string-same :
      (c : Raw)
      → OwnCell j c
      → find_buf j s.str_bufs ≡ find_buf j r.str_bufs
      → as_string s c ≡ as_string r c
  unfolding as_string
  as_string-same (string_at k) own e =
      ap (or_thrown (err undefined))
        (ap (λ i. find_buf i s.str_bufs) own ∙ e ∙ ap (λ i. find_buf i r.str_bufs) (sym own))
  as_string-same _ own e = refl

  as_time-same :
      (c : Raw)
      → OwnCell j c
      → find_buf j s.ts_bufs ≡ find_buf j r.ts_bufs
      → as_time s c ≡ as_time r c
  unfolding as_time
  as_time-same (time_at k) own e =
      ap (or_thrown (err undefined))
        (ap (λ i. find_buf i s.ts_bufs) own ∙ e ∙ ap (λ i. find_buf i r.ts_bufs) (sym own))
  as_time-same _ own e = refl

  as_item-same :
      (t : ColumnType) (c : Raw) → OwnCell j c → SameBuffers → as_item t s j c ≡ as_item t r j c
  unfolding as_item
  as_item-same unknown c own e = refl
  as_item-same bigint c own e = refl
  as_item-same double c own e = refl
  as_item-same boolean c own e = refl
  as_item-same datetime c own e = refl
  as_item-same string c own (e, f, g) =
      ap (λ o. o >>= λ a. ok (string_item a)) (as_string-same c own e)
  as_item-same decimal c own (e, f, g) =
      ap (λ o. o >>= λ a. ok (string_item a)) (as_string-same c own e)
  as_item-same tinyint c own e = refl
  as_item-same smallint c own e = refl
  as_item-same integer c own e = refl
  as_item-same char c own (e, f, g) =
      ap (λ o. o >>= λ a. ok (string_item a)) (as_string-same c own e)
  as_item-same varchar c own (e, f, g) =
      ap (λ o. o >>= λ a. ok (string_item a)) (as_string-same c own e)
  as_item-same binary c own (e, f, g) =
      ap (λ o. o >>= λ a. ok (string_item a)) (as_string-same c own e)
  as_item-same date c own e = refl
  as_item-same timestamp c own (e, f, g) =
      ap (λ o. o >>= λ a. ok (time_item a)) (as_time-same c own f)
  as_item-same float c own e = refl
  as_item-same interval_year_month c own e = refl
  as_item-same interval_day_time c own (e, f, g) =
      ap (λ o. o >>= λ a. ok (time_item a)) (as_time-same c own f)
  as_item-same array c own (e, f, g) =
      ap (λ o. or_thrown (err out_of_range) o >>= λ a. ok (complex_item a)) g
  as_item-same map c own (e, f, g) =
      ap (λ o. or_thrown (err out_of_range) o >>= λ a. ok (complex_item a)) g
  as_item-same struct c own (e, f, g) =
      ap (λ o. or_thrown (err out_of_range) o >>= λ a. ok (complex_item a)) g
  as_item-same json c own (e, f, g) =
      ap (λ o. o >>= λ a. ok (string_item a)) (as_string-same c own e)
  as_item-same timestamp_ntz c own (e, f, g) =
      ap (λ o. o >>= λ a. ok (time_item a)) (as_time-same c own f)

  pub item_at-same :
      s.types ≡ r.types
      → get_elem? s.is_null j ≡ get_elem? r.is_null j
      → get_elem? s.raw_data j ≡ get_elem? r.raw_data j
      → ((c : Raw) → get_elem? r.raw_data j ≡ some c → OwnCell j c)
      → SameBuffers
      → item_at s j ≡ item_at r j
  item_at-same types nulls raws own bufs = elim (Option-cases (get_elem? r.types j)) [
    | inl e ↦ item_at-none s j (ap (λ ts. get_elem? ts j) types ∙ e) ∙ sym (item_at-none r j e)
    | inr (t, e) ↦ elim (unknown-cases t) [
      | inl u ↦
          let found = e ∙ ap some u in
          item_at-unknown s j (ap (λ ts. get_elem? ts j) types ∙ found)
          ∙ sym (item_at-unknown r j found)
      | inr k ↦
          item_at-own s j t k (ap (λ ts. get_elem? ts j) types ∙ e)
          ∙ unless-same (as_item t r j) (as_item t s j) nulls raws
              (λ c found. as_item-same t c (own c found) bufs)
          ∙ sym (item_at-own r j t k e)
    ]
  ]
