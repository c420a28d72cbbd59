-- ===== src/Serialize/Record/Fields.antt =====
-- The columns of one record through the loops of Serialize and Deserialize (tunnel/serialize.cpp).
use aliyun_odps_sdk_cpp.Prelude.{
  ℕ, zero, suc, ◌+◌, ◌-◌, ◌<◌, ◌≤◌, ◌≡◌, refl, ap, sym, ◌∙◌, Bool, true, false, Bytes, List, [],
  ◌∷◌, ◌++◌, append_assoc, append-nil, none, some, length, length-append, arith, if◌then◌else◌,
  get_elem?, set, drop, replicate,
}
use aliyun_odps_sdk_cpp.Result.{ok}
use aliyun_odps_sdk_cpp.Types.{TypeInfo, type_of}
use aliyun_odps_sdk_cpp.Serialize.External.{External, Laws, TagAt}
use aliyun_odps_sdk_cpp.Serialize.Words.{le_bytes}
use aliyun_odps_sdk_cpp.Serialize.Value.{Value}
use aliyun_odps_sdk_cpp.Serialize.Cell.{Sums, sum_record, write_cell, write_value, read_value}
use aliyun_odps_sdk_cpp.Serialize.Cell.Fits.{FitsCell}
use aliyun_odps_sdk_cpp.Serialize.Cell.RoundTrip.{after, CellCopies, value_CellCopies}
use aliyun_odps_sdk_cpp.Serialize.Record.{
  Record, Config, Deserializer, write_cells, fill_null, turn, column_field, column_at, read_fields,
  go_on,
}

-- The registers that the mode uses are the same on both sides.
abbrev pub Agree : Bool → Sums → Sums → Type 0
Agree true s s' = s.coded ≡ s'.coded
Agree false s s' = s.record_crc ≡ s'.record_crc

-- A value or null of the right type in each column; and the record that is read back, which differs
-- in what is inside arrays, maps and structs alone.
pub data FitsRecord (x : External) (limit : ℕ) : List TypeInfo → Record → Record → Type 0 where
  no_columns : FitsRecord x limit [] [] []
  null_column :
      {t : TypeInfo} {ts : List TypeInfo} {r r' : Record}
      → FitsRecord x limit ts r r'
      → FitsRecord x limit (t ∷ ts) (none ∷ r) (none ∷ r')
  column :
      {t : TypeInfo} {ts : List TypeInfo} {v v' : Value} {r r' : Record}
      → FitsCell x limit t (type_of t) v v'
      → FitsRecord x limit ts r r'
      → FitsRecord x limit (t ∷ ts) (some v ∷ r) (some v' ∷ r')

Agree-after :
    (x : External) (stream : Bool) (hr hc : ℕ → ℕ) (raw : Bytes) (s s' : Sums)
    → Agree stream s s'
    → Agree stream
        (after hr hc (sum_record x stream raw s))
        (after hr hc (if stream then s' else sum_record x stream raw s'))
Agree-after x true hr hc raw s s' h = ap hc h
Agree-after x false hr hc raw s s' h = ap (λ c. hr (x.process_bytes c raw)) h

-- Setting a column and marking it.
fill_null-set :
    (k : ℕ) (m : List Bool) (r : Record) (v : Value)
    → fill_null (set m k true) (set r k (some v)) ≡ set (fill_null m r) k (some v)
unfolding fill_null
fill_null-set k [] r v = refl
fill_null-set zero (b ∷ m) [] v = refl
fill_null-set (suc k) (b ∷ m) [] v = refl
fill_null-set zero (b ∷ m) (w ∷ r) v = refl
fill_null-set (suc k) (b ∷ m) (w ∷ r) v = ap (◌∷◌ (if b then w else none)) (fill_null-set k m r v)

set-append {ℓ} :
    {A : Type ℓ} (xs : List A) (k : ℕ) (a b : A) (ys : List A)
    → length xs ≡ k
    → set (xs ++ a ∷ ys) k b ≡ (xs ++ b ∷ []) ++ ys
set-append [] zero a b ys e = refl
set-append [] (suc k) a b ys e = absurd (omega arith)
set-append (x ∷ xs) zero a b ys e = absurd (omega arith)
set-append (x ∷ xs) (suc k) a b ys e = ap (◌∷◌ x) (set-append xs k a b ys (omega arith))

drop-cons {ℓ} :
    {A : Type ℓ} (k : ℕ) (cs : List A) (t : A) (ts : List A)
    → drop k cs ≡ t ∷ ts
    → (get_elem? cs k ≡ some t) × (drop (suc k) cs ≡ ts) × (k < length cs)
drop-cons zero [] t ts e = cc
drop-cons zero (c ∷ cs) t ts e = (cc, cc, omega arith)
drop-cons (suc k) [] t ts e = cc
drop-cons (suc k) (c ∷ cs) t ts e = let (g, d, h) = drop-cons k cs t ts e in (g, d, omega arith)

abbrev pub at : Deserializer → Bytes → Sums → Deserializer
at d input s = record d { input = input; sums = s }

module _ (x : External) (laws : Laws x) (config : Config) where
  open config use {columns, max_field_size, stream}

  turn-column :
      (d : Deserializer) (mid : Bytes) (r : Record) (m : List Bool) (k : ℕ)
      → TagAt x (suc k) d.input mid
      → d.got_total_records ≡ false
      → k < 10000
      → k < length columns
      → turn x config d r m ≡ column_field x config (suc k) d mid r m
  unfolding turn
  turn-column d mid r m k (p, e, q) g h h' = rw e (rw q (rw g (ground arith)))

  column-step :
      (d : Deserializer) (input mid rest : Bytes) (s s₁ : Sums) (r : Record) (m : List Bool) (k : ℕ)
      (t : TypeInfo) (v : Value)
      → TagAt x (suc k) input mid
      → d.got_total_records ≡ false
      → k < 10000
      → k < length columns
      → get_elem? columns k ≡ some t
      → read_value x stream max_field_size
          (suc k)
          t
          (type_of t)
          mid
          (if stream then s else sum_record x stream (le_bytes 4 (suc k)) s)
        ≡ ok (v, rest, s₁)
      → turn x config (at d input s) r m
        ≡ ok (go_on (at d rest s₁) (set r k (some v)) (set m k true))
  unfolding column_field column_at
  column-step d input mid rest s s₁ r m k t v tag g h h' e got =
      let back : suc k - 1 ≡ k = omega arith in
      turn-column (at d input s) mid r m k tag g h h'
      ∙ rw (back, column_field) (rw (e, column_at) (rw got))

  -- What remains to be read of a record, after `k` columns.
  abbrev ReadsOn : ℕ → Record → Bytes → Sums → Sums → Type 0
  ReadsOn k r b s' s₁ =
      (d : Deserializer) (rest : Bytes) (fuel : ℕ) (rec : Record) (m : List Bool) (done : Record)
      → d.got_total_records ≡ false
      → length (b ++ rest) < fuel
      → fill_null m rec ≡ done ++ replicate (length r) none
      → length done ≡ k
      → (fuel' : ℕ) × (s₁' : Sums) × (rec' : Record) × (m' : List Bool) × (read_fields x config fuel
            (at d (b ++ rest) s') rec m
          ≡ read_fields x config fuel' (at d rest s₁') rec' m')
        × (length rest < fuel')
        × Agree stream s₁ s₁'
        × (fill_null m' rec' ≡ done ++ r)

  abbrev Fields : ℕ → List TypeInfo → Record → Record → Sums → Sums → Type 0
  Fields k ts r r' s s' =
      (b : Bytes) × (s₁ : Sums) × (write_cells x config (suc k) ts r s ≡ ok (b, s₁))
      × ReadsOn k r' b s' s₁

  null-field :
      (k : ℕ) (t : TypeInfo) (ts : List TypeInfo) (r r' : Record) (s s' : Sums)
      → Fields (suc k) ts r r' s s'
      → Fields k (t ∷ ts) (none ∷ r) (none ∷ r') s s'
  unfolding write_cells write_cell
  null-field k t ts r r' s s' (b, s₁, hw, hr) = (
    b,
    s₁,
    rw hw,
    λ d rest fuel rec m done g h e l.
        let (f, s₂, rec', m', run, h', a, e') =
          hr d rest fuel rec m (done ++ none ∷ []) g h
            (e ∙ sym (append_assoc done (none ∷ []) (replicate (length r') none)))
            (omega (arith, length-append done (none ∷ []))) in
        (f, s₂, rec', m', run, h', a, e' ∙ append_assoc done (none ∷ []) r'),
  )

  tag-nonempty :
      (f : ℕ) (b b' : Bytes) → ((rest : Bytes) → TagAt x f (b ++ rest) (b' ++ rest)) → 0 < length b
  tag-nonempty f b b' tag =
      let (p, _, _) = tag [] in
      let shrinks = laws.tag_shrinks (b ++ []) p in omega (arith, ap length (append-nil b))

  value-field :
      (k : ℕ) (t : TypeInfo) (ts : List TypeInfo) (v v' : Value) (r r' : Record) (s s' : Sums)
      → drop k columns ≡ t ∷ ts
      → k < 10000
      → (copies : CellCopies x
          (suc k)
          (write_value x stream (suc k) (type_of t) v)
          (read_value x stream max_field_size (suc k) t (type_of t))
          v')
      → Fields
          (suc k)
          ts
          r
          r'
          (after copies.2 copies.3 (sum_record x stream (le_bytes 4 (suc k)) s))
          (after copies.2 copies.3
            (if stream then s' else sum_record x stream (le_bytes 4 (suc k)) s'))
      → Fields k (t ∷ ts) (some v ∷ r) (some v' ∷ r') s s'
  unfolding write_cells write_cell read_fields
  value-field k t ts v v' r r' s s' e small (b, b', hr, hc, hw, tag, got) (bs, s₁, hws, hrs) = (
    b ++ bs,
    s₁,
    rw (hw _) (rw hws),
    λ d rest fuel rec m done g h filled l. reads d rest fuel rec m done g h filled l,
  )
    where
      reads : ReadsOn k (some v' ∷ r') (b ++ bs) s' s₁
      reads d rest zero rec m done g h filled l = absurd (omega arith)
      reads d rest (suc f) rec m done g h filled l =
          let (got_at, left, below) = drop-cons k columns t ts e in
          let grown = tag-nonempty (suc k) b b' tag in
          let s₂ =
            after hr hc (if stream then s' else sum_record x stream (le_bytes 4 (suc k)) s') in
          let step =
            column-step d (b ++ (bs ++ rest)) (b' ++ (bs ++ rest)) (bs ++ rest) s' s₂ rec m k t v'
              (tag (bs ++ rest)) g small below got_at (got (bs ++ rest) _) in
          let (f', s₃, rec', m', run, h', a, e') =
            hrs d rest f (set rec k (some v')) (set m k true) (done ++ some v' ∷ []) g
              (omega
                (arith, length-append (b ++ bs) rest, length-append b bs, length-append bs rest))
              (fill_null-set k m rec v'
                ∙ (rw filled (set-append done k none (some v') (replicate (length r') none) l)))
              (omega (arith, length-append done (some v' ∷ []))) in
          (
            f',
            s₃,
            rec',
            m',
            rw append_assoc (rw step run),
            h',
            a,
            e' ∙ append_assoc done (some v' ∷ []) r',
          )

  -- The columns from `k` on are written without an exception, and read back from the same state of
  -- the checksums.
  pub columns_round_trip :
      (k : ℕ) {ts : List TypeInfo} {r r' : Record} (s s' : Sums)
      → drop k columns ≡ ts
      → k + length ts ≤ 10000
      → FitsRecord x max_field_size ts r r'
      → Agree stream s s'
      → Fields k ts r r' s s'
  columns_round_trip k s s' e small no_columns a = (
    [],
    s,
    unfold write_cells in refl,
    λ d rest fuel rec m done g h filled l. (fuel, s', rec, m, refl, h, a, filled),
  )
  columns_round_trip k s s' e small (null_column {t = t} {ts = ts} {r = r} {r' = r'} f) a =
      null-field k t ts r r' s s'
        (columns_round_trip (suc k) s s' (drop-cons k columns t ts e).1 (omega arith) f a)
  columns_round_trip k s s' e small
        (column {t = t} {ts = ts} {v = v} {v' = v'} {r = r} {r' = r'} f fs) a =
      let copies =
        value_CellCopies x laws stream max_field_size (suc k) (omega arith, omega arith) f refl in
      value-field k t ts v v' r r' s s' e (omega arith) copies (
        columns_round_trip (suc k) _ _ (drop-cons k columns t ts e).1 (omega arith) fs
          (Agree-after x stream copies.2 copies.3 (le_bytes 4 (suc k)) s s' a))
