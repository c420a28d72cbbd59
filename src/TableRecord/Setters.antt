-- ===== src/TableRecord/Setters.antt =====
-- What each setter of a table's record (tunnel/odps_table_record.cpp) does to the values of all columns.
use aliyun_odps_sdk_cpp.Prelude.{
  ℕ, ◌<◌, ◌≡◌, ◌≢◌, refl, sym, subst, ap, ◌∙◌, Bool, true, false, Bytes, List, Option, none, some,
  length, get_elem?, get_elem?-bound, length-set, get_elem?-set_here, get_elem?-set_other, set,
  ◌==◌, ==_iff, if◌then◌else◌, arith, Bool-cases, inl, inr,
}
use aliyun_odps_sdk_cpp.Prelude.Int.{ℤ}
use aliyun_odps_sdk_cpp.Result.{
  Result, ok, err, Error, undefined, out_of_range, invalid_argument, guard, ◌>>=◌, ◌>>◌,
}
use aliyun_odps_sdk_cpp.Types.{ColumnType, unknown}
use aliyun_odps_sdk_cpp.TableRecord.{
  TableRecord, Raw, type_code, or_thrown, find_buf, check_type, is_null_value, raw_at, unless_null,
  put_raw,
}
use aliyun_odps_sdk_cpp.TableRecord.Interface.{Item, item_at}
use aliyun_odps_sdk_cpp.TableRecord.Own.{as_item, item_at-own}
use aliyun_odps_sdk_cpp.TableRecord.Frame.{OwnCell, type_code-injective, item_at-same}

-- A record whose three vectors have one length, and whose pointers stay in their column.
pub data IsSound {C : Type 0} (r : TableRecord C) : Type 0 where
  sound :
      length r.is_null ≡ length r.types
      → length r.raw_data ≡ length r.types
      → ((j : ℕ) (c : Raw) → get_elem? r.raw_data j ≡ some c → OwnCell j c)
      → IsSound r

pub ok-then :
    {B : Type 0} (a : Result (Unit {0})) (b : Result B) {v : B}
    → (a >> b) ≡ ok v
    → (a ≡ ok tt) × (b ≡ ok v)
ok-then (err e) b h = absurd (cc h)
ok-then (ok _) b h = (refl, h)

guard-true : (b : Bool) (e : Error) → guard b e ≡ ok tt → b ≡ true
guard-true true e h = refl
guard-true false e h = absurd (cc h)

pub check-types :
    {C : Type 0} (r : TableRecord C) (idx : ℕ) (t : ColumnType)
    → check_type r idx t ≡ ok tt
    → get_elem? r.types idx ≡ some t
unfolding check_type or_thrown
check-types r idx t h = from_option (get_elem? r.types idx) h
  where
    from_option :
        (o : Option ColumnType)
        → (or_thrown (err out_of_range) o >>= λ u.
            guard (type_code u == type_code t) invalid_argument)
          ≡ ok tt
        → o ≡ some t
    from_option none h = absurd (cc h)
    from_option (some u) h = ap some (
        type_code-injective u t
          ((==_iff _ _).0 (guard-true (type_code u == type_code t) invalid_argument h)))

pub some-injective : {A : Type 0} {a b : A} → some a ≡ some b → a ≡ b
some-injective h = cc

set-OwnCell :
    (raws : List Raw) (idx : ℕ) (c : Raw)
    → idx < length raws
    → OwnCell idx c
    → ((j : ℕ) (d : Raw) → get_elem? raws j ≡ some d → OwnCell j d)
    → (j : ℕ) (d : Raw) → get_elem? (set raws idx c) j ≡ some d
    → OwnCell j d
set-OwnCell raws idx c bound mine own j d found = elim (Bool-cases (idx == j)) [
  | inl e ↦
      let same : idx ≡ j = (==_iff idx j).0 e in
      let here =
        sym (get_elem?-set_here raws idx c bound) ∙ ap (get_elem? (set raws idx c)) same ∙ found in
      subst (OwnCell j) (some-injective here) (subst (λ i. OwnCell i c) same mine)
  | inr e ↦ own j d (sym (get_elem?-set_other raws idx j c e) ∙ found)
]

module _ {C : Type 0} where
  -- The value of one column is replaced, and those of all others are as before.
  abbrev pub Outcome : TableRecord C → TableRecord C → ℕ → Option (Item C) → Type 0
  Outcome r s idx v = IsSound s × ((j : ℕ) → item_at s j ≡ (if idx == j then ok v else item_at r j))

  pub by_column :
      (r s : TableRecord C) (idx : ℕ) (v : Option (Item C))
      → item_at s idx ≡ ok v
      → ((j : ℕ) → (idx == j) ≡ false → item_at s j ≡ item_at r j)
      → (j : ℕ) → item_at s j ≡ (if idx == j then ok v else item_at r j)
  by_column r s idx v here other j = elim (Bool-cases (idx == j)) [
    | inl e ↦ rw e (ap (item_at s) (sym ((==_iff idx j).0 e)) ∙ here)
    | inr e ↦ rw e (other j e)
  ]

  unless-here :
      {A : Type 0} (s : TableRecord C) (idx : ℕ) (c : Raw) (reading : Raw → Result A)
      → get_elem? s.is_null idx ≡ some false
      → get_elem? s.raw_data idx ≡ some c
      → unless_null s idx reading ≡ (reading c >>= λ a. ok (some a))
  unfolding unless_null is_null_value raw_at or_thrown
  unless-here s idx c reading nulls raws =
      ap
        (λ o. or_thrown (err undefined) o >>= λ b.
          if b then ok none else (raw_at s idx >>= λ c. reading c >>= λ a. ok (some a)))
        nulls
      ∙ ap (λ o. or_thrown (err undefined) o >>= λ c. reading c >>= λ a. ok (some a)) raws

  -- The record with other buffers.
  abbrev pub with_bufs :
      TableRecord C → List (ℕ × Bytes) → List (ℕ × (ℤ × ℤ)) → List (ℕ × C) → TableRecord C
  with_bufs r strs times complexes = record r {
    str_bufs = strs;
    ts_bufs = times;
    complex_bufs = complexes;
  }

  abbrev pub OtherBuffers : TableRecord C → TableRecord C → ℕ → Type 0
  OtherBuffers r s idx =
      (j : ℕ)
      → (idx == j) ≡ false
      → (find_buf j s.str_bufs ≡ find_buf j r.str_bufs)
        × (find_buf j s.ts_bufs ≡ find_buf j r.ts_bufs)
        × (find_buf j s.complex_bufs ≡ find_buf j r.complex_bufs)

  pub put-Outcome :
      (r : TableRecord C) (strs : List (ℕ × Bytes)) (times : List (ℕ × (ℤ × ℤ)))
      (complexes : List (ℕ × C)) (idx : ℕ) (t : ColumnType) (c : Raw) (v : Item C)
      → IsSound r
      → get_elem? r.types idx ≡ some t
      → t ≢ unknown
      → OwnCell idx c
      → OtherBuffers r (with_bufs r strs times complexes) idx
      → as_item t (put_raw (with_bufs r strs times complexes) idx c) idx c ≡ ok v
      → Outcome r (put_raw (with_bufs r strs times complexes) idx c) idx (some v)
  unfolding put_raw
  put-Outcome r strs times complexes idx t c v (sound nulls raws own) typed known mine bufs reads =
      let s = put_raw (with_bufs r strs times complexes) idx c in
      let bound = get_elem?-bound r.types idx t typed in
      let null_here = get_elem?-set_here r.is_null idx false (omega (arith, bound, nulls)) in
      let raw_here = get_elem?-set_here r.raw_data idx c (omega (arith, bound, raws)) in
      (
        sound (length-set r.is_null idx false ∙ nulls) (length-set r.raw_data idx c ∙ raws)
            (set-OwnCell r.raw_data idx c (omega (arith, bound, raws)) mine own),
        by_column r s idx (some v)
            (item_at-own s idx t known typed
              ∙ unless-here s idx c (as_item t s idx) null_here raw_here
              ∙ ap (λ o. o >>= λ a. ok (some a)) reads)
            (λ j e.
              item_at-same r s j refl (get_elem?-set_other r.is_null idx j false e)
                (get_elem?-set_other r.raw_data idx j c e) (λ d found. own j d found) (bufs j e)),
      )
