-- ===== src/Members/Arrays.antt =====
-- The arrays that a client can make with the methods of ODPSArray (include/odps_array.h,
-- common/odps_array.cpp).
use aliyun_odps_sdk_cpp.Prelude.{
  ℕ, ◌≡◌, ◌<◌, refl, sym, ap, ◌∙◌, true, false, List, [], ◌∷◌, none, length, ◌==◌, arith,
  Bool-cases, inl, inr, subst, bound-get_elem?, length-set, get_elem?-set_here, get_elem?-set_other,
}
use aliyun_odps_sdk_cpp.Result.{ok, ok-injective}
use aliyun_odps_sdk_cpp.Types.{ColumnType, array}
use aliyun_odps_sdk_cpp.TableRecord.{type_code}
use aliyun_odps_sdk_cpp.Members.{Getter, getter_type, Value, value_type, stored, at_index}
use aliyun_odps_sdk_cpp.Members.Array.{
  OdpsArray, new_array, null_check, get, put, append, append_null, set_null,
}
use aliyun_odps_sdk_cpp.Members.Typed.{
  stored-IsKeptAs, IsKeptAs, type_check_lem, at_index_lem, set_here_or_other,
}
use aliyun_odps_sdk_cpp.Members.Elements.{
  IsTyped, IsGot, get-IsGot, with_element, put_lem, with_element-IsTyped, append-IsTyped,
}

module _ {C : Type 0} where
  -- The methods that change an array, called with an index that the array has.
  pub data Reachable : OdpsArray C → Type 0 where
    made :
        {a : OdpsArray C} (type : ColumnType) (sub_types : List ColumnType)
        → new_array type sub_types ≡ ok a
        → Reachable a
    was_put :
        {a b : OdpsArray C} (v : Value C) (idx : ℕ)
        → Reachable a
        → idx < length a.cells
        → put v idx a ≡ ok b
        → Reachable b
    appended : {a b : OdpsArray C} (v : Value C) → Reachable a → append v a ≡ ok b → Reachable b
    null_appended : {a : OdpsArray C} → Reachable a → Reachable (append_null a)
    null_set :
        {a b : OdpsArray C} (idx : ℕ)
        → Reachable a
        → idx < length a.cells
        → set_null idx a ≡ ok b
        → Reachable b

  no_elements-IsTyped :
      (element : ColumnType)
      → IsTyped {C = C} (record { element_type = element; nulls = []; cells = [] })
  no_elements-IsTyped element = record {
    same_length = refl;
    kept = λ i c f e. absurd (cc e);
    old_kept = λ i v e. absurd (cc e);
  }

  new_array-IsTyped :
      {a : OdpsArray C} (type : ColumnType) (sub_types : List ColumnType)
      → new_array type sub_types ≡ ok a
      → IsTyped a
  unfolding new_array
  new_array-IsTyped type [] e = absurd (cc e)
  new_array-IsTyped type (element ∷ next ∷ more) e = absurd (cc e)
  new_array-IsTyped type (element ∷ []) e = elim (Bool-cases (type_code type == type_code array)) [
    | inr f ↦ absurd (cc (rw f at e))
    | inl f ↦ subst (λ a. IsTyped a) (ok-injective (rw f at e)) (no_elements-IsTyped element)
  ]

  was_put-IsTyped :
      {a b : OdpsArray C} (v : Value C) (idx : ℕ)
      → IsTyped a
      → idx < length a.cells
      → put v idx a ≡ ok b
      → (b ≡ with_element idx v a) × IsTyped b
  was_put-IsTyped {a} {b} v idx t h e = elim (put_lem v idx a t h) [
    | inr (f, other) ↦ absurd (cc (sym f ∙ e))
    | inl (f, same) ↦
        let now : with_element idx v a ≡ b = ok-injective (sym f ∙ e) in
        (sym now, subst (λ x. IsTyped x) now (with_element-IsTyped v idx a t h same))
  ]

  appended-IsTyped : {a b : OdpsArray C} (v : Value C) → IsTyped a → append v a ≡ ok b → IsTyped b
  unfolding append
  appended-IsTyped {a} {b} v t e = elim (type_check_lem a.element_type (value_type v)) [
    | inr (f, other) ↦ absurd (cc (rw f at e))
    | inl (f, same) ↦
        let fits : IsKeptAs a.element_type (stored v) =
          subst (λ u. IsKeptAs u (stored v)) same (stored-IsKeptAs v) in
        subst (λ x. IsTyped x) (ok-injective (rw f at e))
          (append-IsTyped false (stored v) a t (λ off. fits)
            (λ o at. subst (λ u. IsKeptAs a.element_type u) at fits))
  ]

  null_set-IsTyped :
      {a b : OdpsArray C} (idx : ℕ)
      → IsTyped a
      → idx < length a.cells
      → set_null idx a ≡ ok b
      → IsTyped b
  unfolding set_null
  null_set-IsTyped {a} {b} idx t h e =
      let (flag, found) = bound-get_elem? a.nulls idx (omega (arith, h, t.same_length)) in
      subst (λ x. IsTyped x) (ok-injective (rw (at_index_lem idx a.nulls flag found) at e))
        record {
          same_length = length-set a.nulls idx true ∙ t.same_length;
          kept = λ i c f cell.
              elim (set_here_or_other a.nulls idx i true false (omega (arith, h, t.same_length))
                f) [ inl (at, off) ↦ absurd (cc off) | inr (other, was) ↦ t.kept i c was cell ];
          old_kept = t.old_kept;
        }

  pub Reachable-IsTyped : {a : OdpsArray C} → Reachable a → IsTyped a
  unfolding append_null
  Reachable-IsTyped (made type sub_types e) = new_array-IsTyped type sub_types e
  Reachable-IsTyped (was_put v idx r h e) = (was_put-IsTyped v idx (Reachable-IsTyped r) h e).1
  Reachable-IsTyped (appended v r e) = appended-IsTyped v (Reachable-IsTyped r) e
  Reachable-IsTyped (null_appended {a} r) =
      append-IsTyped true none a (Reachable-IsTyped r) (λ f. absurd (cc f)) (λ o f. absurd (cc f))
  Reachable-IsTyped (null_set idx r h e) = null_set-IsTyped idx (Reachable-IsTyped r) h e

  -- In an array that was made and changed by its methods, with indices that it has, a Get of an element
  -- that the array has never follows a null pointer and never reads a value as another type than it
  -- was made with. It returns what the element's pointer points to, or throws, and it throws exactly
  -- when the element is null or has another type than the getter's.
  pub Reachable-IsGot :
      {a : OdpsArray C} (g : Getter) (idx : ℕ) → Reachable a → idx < length a.cells → IsGot g idx a
  Reachable-IsGot {a} g idx r h = get-IsGot g idx a (Reachable-IsTyped r) h

  put_other :
      (g : Getter) (idx j : ℕ) (v : Value C) (a : OdpsArray C)
      → (idx == j) ≡ false
      → get g j (with_element idx v a) ≡ get g j a
  unfolding get null_check at_index with_element
  put_other g idx j v a other =
      rw
        (
          get_elem?-set_other a.nulls idx j false other,
          get_elem?-set_other a.cells idx j (stored v) other,
        )
        refl

  put_here :
      (g : Getter) (idx : ℕ) (v : Value C) (a : OdpsArray C)
      → idx < length a.cells
      → IsTyped a
      → getter_type g ≡ value_type v
      → value_type v ≡ a.element_type
      → get g idx (with_element idx v a) ≡ ok (stored v)
  unfolding with_element
  put_here g idx v a h t same fits =
      let here = get_elem?-set_here a.cells idx (stored v) h in
      elim (get-IsGot g idx (with_element idx v a) (with_element-IsTyped v idx a t h fits)
        (omega (arith, h, length-set a.cells idx (stored v)))) [
          | inl (c, got, cell, flag, type) ↦ got ∙ ap ok (cc (sym cell ∙ here))
          | inr (thrown, inl null) ↦ absurd (
              cc
                (sym null ∙ get_elem?-set_here a.nulls idx false (omega (arith, h, t.same_length))))
          | inr (thrown, inr other) ↦ absurd (other (same ∙ fits))
        ]

  -- After a Set that returns, the getter of its type returns what was set, and every getter returns or
  -- throws for every other element what it did before.
  pub put-get :
      {a b : OdpsArray C} (v : Value C) (idx j : ℕ) (g other : Getter)
      → Reachable a
      → idx < length a.cells
      → put v idx a ≡ ok b
      → getter_type g ≡ value_type v
      → (idx == j) ≡ false
      → (get g idx b ≡ ok (stored v)) × (get other j b ≡ get other j a)
  put-get {a} {b} v idx j g other r h e same apart =
      let t = Reachable-IsTyped r in
      elim (put_lem v idx a t h) [
        | inr (f, differs) ↦ absurd (cc (sym f ∙ e))
        | inl (f, fits) ↦
            subst (λ x. (get g idx x ≡ ok (stored v)) × (get other j x ≡ get other j a))
              (ok-injective (sym f ∙ e))
              (put_here g idx v a h t same fits, put_other other idx j v a apart)
      ]
