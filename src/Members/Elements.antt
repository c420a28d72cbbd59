-- ===== src/Members/Elements.antt =====
-- What the methods of ODPSArray (include/odps_array.h, common/odps_array.cpp) do with its elements.
use aliyun_odps_sdk_cpp.Prelude.{
  ℕ, ◌≡◌, ◌≢◌, ◌⊎◌, ◌<◌, refl, sym, ap, ◌∙◌, Bool, true, false, not, [], ◌∷◌, ◌++◌, Option, none,
  some, length, get_elem?, set, ==_refl, arith, Bool-cases, inl, inr, subst, get_elem?-bound,
  bound-get_elem?, length-set, get_elem?-set_other, length-append,
}
use aliyun_odps_sdk_cpp.Result.{ok, err, plain_error, guard, ◌>>=◌}
use aliyun_odps_sdk_cpp.Types.{ColumnType}
use aliyun_odps_sdk_cpp.Members.{
  Stored, cpp_type, cpp_code, Getter, getter_type, Value, value_type, stored, stores_pointer,
  type_check,
}
use aliyun_odps_sdk_cpp.Members.Array.{OdpsArray, null_check, get, overwrite, new_cell, put}
use aliyun_odps_sdk_cpp.Members.Typed.{
  type_kept, is_pointer, IsKeptAs, stored-IsKeptAs, type_check_lem, dereference-kept, at_index_lem,
  stores_pointer-is_pointer, get_elem?-last, set_here_or_other,
}

module _ {C : Type 0} where
  pub record IsTyped (a : OdpsArray C) : Type 0 where
    pub same_length : length a.nulls ≡ length a.cells
    pub kept :
        (i : ℕ) (c : Option (Stored C))
        → get_elem? a.nulls i ≡ some false
        → get_elem? a.cells i ≡ some c
        → IsKeptAs a.element_type c
    pub old_kept :
        (i : ℕ) (v : Stored C)
        → get_elem? a.cells i ≡ some (some v)
        → cpp_type v ≡ type_kept a.element_type

  -- What Get returns: the element, or an exception for another type or a null.
  abbrev pub IsGot : Getter → ℕ → OdpsArray C → Type 0
  IsGot g idx a =
      ((c : Option (Stored C)) × (get g idx a ≡ ok c)
        × (get_elem? a.cells idx ≡ some c)
        × (get_elem? a.nulls idx ≡ some false)
        × (getter_type g ≡ a.element_type))
      ⊎ ((get g idx a ≡ err plain_error)
          × ((get_elem? a.nulls idx ≡ some true) ⊎ (getter_type g ≢ a.element_type)))

  null_check_lem :
      (idx : ℕ) (b : Bool) (a : OdpsArray C)
      → get_elem? a.nulls idx ≡ some b
      → null_check idx a ≡ guard (not b) plain_error
  unfolding null_check
  null_check_lem idx b a h =
      ap (λ r. r >>= λ is_null. guard (not is_null) plain_error) (at_index_lem idx a.nulls b h)

  flag-IsGot :
      (g : Getter) (idx : ℕ) (a : OdpsArray C) (b : Bool) (c : Option (Stored C))
      → get_elem? a.nulls idx ≡ some b
      → get_elem? a.cells idx ≡ some c
      → (b ≡ false → IsKeptAs a.element_type c)
      → getter_type g ≡ a.element_type
      → type_check a.element_type (getter_type g) ≡ ok tt
      → IsGot g idx a
  unfolding get
  flag-IsGot g idx a true c h k kept same e = inr (rw (e, null_check_lem idx true a h) refl, inl h)
  flag-IsGot g idx a false c h k kept same e = inl (
    c,
    rw (e, null_check_lem idx false a h, at_index_lem idx a.cells c k)
        (dereference-kept g c (subst (λ t. IsKeptAs t c) (sym same) (kept refl))),
    k,
    h,
    same,
  )

  pub get-IsGot :
      (g : Getter) (idx : ℕ) (a : OdpsArray C) → IsTyped a → idx < length a.cells → IsGot g idx a
  unfolding get
  get-IsGot g idx a t h = elim (type_check_lem a.element_type (getter_type g)) [
    | inr (e, other) ↦ inr (rw e refl, inr other)
    | inl (e, same) ↦
        let (b, flag) = bound-get_elem? a.nulls idx (omega (arith, h, t.same_length)) in
        let (c, cell) = bound-get_elem? a.cells idx h in
        flag-IsGot g idx a b c flag cell (λ f. t.kept idx c (flag ∙ ap some f) cell) same e
  ]

  overwrite_lem :
      (new old : Option (Stored C)) (t : ColumnType)
      → is_pointer t ≡ false
      → IsKeptAs t new
      → ((v : Stored C) → old ≡ some v → cpp_type v ≡ type_kept t)
      → overwrite new old ≡ ok new
  unfolding overwrite
  overwrite_lem new none t p h k = refl
  overwrite_lem none (some o) t p h k = absurd (cc h)
  overwrite_lem (some n) (some o) t p h k =
      rw (ap cpp_code (h ∙ sym (k o refl)), ==_refl (cpp_code (cpp_type o))) refl

  new_cell_lem :
      (v : Value C) (old : Option (Stored C))
      → ((o : Stored C) → old ≡ some o → cpp_type o ≡ type_kept (value_type v))
      → new_cell v old ≡ ok (stored v)
  unfolding new_cell
  new_cell_lem v old k = elim (Bool-cases (stores_pointer v)) [
    | inl e ↦ rw e refl
    | inr e ↦ rw e (
        overwrite_lem (stored v) old (value_type v) (sym (stores_pointer-is_pointer v) ∙ e)
          (stored-IsKeptAs v) k)
  ]

  -- The array behind a Set.
  unfoldable pub with_element : ℕ → Value C → OdpsArray C → OdpsArray C
  with_element idx v a = record a {
    nulls = set a.nulls idx false;
    cells = set a.cells idx (stored v);
  }

  pub put_lem :
      (v : Value C) (idx : ℕ) (a : OdpsArray C)
      → IsTyped a
      → idx < length a.cells
      → ((put v idx a ≡ ok (with_element idx v a)) × (value_type v ≡ a.element_type))
        ⊎ ((put v idx a ≡ err plain_error) × (value_type v ≢ a.element_type))
  unfolding put with_element
  put_lem v idx a t h = elim (type_check_lem a.element_type (value_type v)) [
    | inr (e, other) ↦ inr (rw e refl, other)
    | inl (e, same) ↦
        let (b, flag) = bound-get_elem? a.nulls idx (omega (arith, h, t.same_length)) in
        let (c, cell) = bound-get_elem? a.cells idx h in
        let written =
          new_cell_lem v c (λ o f. t.old_kept idx o (cell ∙ ap some f) ∙ ap type_kept (sym same)) in
        inl (
          rw (e, at_index_lem idx a.nulls b flag, at_index_lem idx a.cells c cell, written) refl,
          same,
        )
  ]

  pub with_element-IsTyped :
      (v : Value C) (idx : ℕ) (a : OdpsArray C)
      → IsTyped a
      → idx < length a.cells
      → value_type v ≡ a.element_type
      → IsTyped (with_element idx v a)
  unfolding with_element
  with_element-IsTyped v idx a t h same =
      let fits : IsKeptAs a.element_type (stored v) =
        subst (λ u. IsKeptAs u (stored v)) same (stored-IsKeptAs v) in
      record {
        same_length =
            length-set a.nulls idx false ∙ t.same_length ∙ sym (length-set a.cells idx (stored v));
        kept = λ i c flag cell. elim (set_here_or_other a.cells idx i (stored v) c h cell) [
          | inl (at, e) ↦ subst (λ u. IsKeptAs a.element_type u) e fits
          | inr (other, e) ↦
              t.kept i c (sym (get_elem?-set_other a.nulls idx i false other) ∙ flag) e
        ];
        old_kept = λ i o cell. elim (set_here_or_other a.cells idx i (stored v) (some o) h cell) [
          | inl (at, e) ↦ subst (λ u. IsKeptAs a.element_type u) e fits
          | inr (other, e) ↦ t.old_kept i o e
        ];
      }

  pub append-IsTyped :
      (flag : Bool) (cell : Option (Stored C)) (a : OdpsArray C)
      → IsTyped a
      → (flag ≡ false → IsKeptAs a.element_type cell)
      → ((o : Stored C) → cell ≡ some o → cpp_type o ≡ type_kept a.element_type)
      → IsTyped (record a { nulls = a.nulls ++ flag ∷ []; cells = a.cells ++ cell ∷ [] })
  append-IsTyped flag cell a t h k = record {
    same_length = omega (
      arith,
      t.same_length,
      length-append a.nulls (flag ∷ []),
      length-append a.cells (cell ∷ []),
    );
    kept = λ i c f e.
        last_kept i c (get_elem?-last a.nulls flag false i f) (get_elem?-last a.cells cell c i e);
    old_kept = λ i o e. elim (get_elem?-last a.cells cell (some o) i e) [
      | inl there ↦ t.old_kept i o there
      | inr (at, same) ↦ k o same
    ];
  }
    where
      last_kept :
          (i : ℕ) (c : Option (Stored C))
          → (get_elem? a.nulls i ≡ some false) ⊎ ((i ≡ length a.nulls) × (flag ≡ false))
          → (get_elem? a.cells i ≡ some c) ⊎ ((i ≡ length a.cells) × (cell ≡ c))
          → IsKeptAs a.element_type c
      last_kept i c (inl f) (inl e) = t.kept i c f e
      last_kept i c (inr (f, off)) (inr (e, same)) =
          subst (λ u. IsKeptAs a.element_type u) same (h off)
      last_kept i c (inl f) (inr (e, same)) =
          absurd (omega (arith, e, t.same_length, get_elem?-bound a.nulls i false f))
      last_kept i c (inr (f, off)) (inl e) =
          absurd (omega (arith, f, t.same_length, get_elem?-bound a.cells i c e))
