-- ===== src/Members/Structs.antt =====
-- The structs that a client can make with the methods of ODPSStruct (include/odps_struct.h,
-- common/odps_struct.cpp).
use aliyun_odps_sdk_cpp.Prelude.{
  ℕ, zero, suc, ◌≡◌, ◌≢◌, ◌⊎◌, ◌<◌, refl, sym, ap, ◌∙◌, List, [], ◌∷◌, Option, none, some, length,
  get_elem?, set, ◌==◌, arith, Bool-cases, inl, inr, subst, get_elem?-bound, bound-get_elem?,
  length-set,
}
use aliyun_odps_sdk_cpp.Result.{ok, err, plain_error, ok-injective}
use aliyun_odps_sdk_cpp.Types.{ColumnType, struct}
use aliyun_odps_sdk_cpp.TableRecord.{type_code}
use aliyun_odps_sdk_cpp.Members.{
  Stored, cpp_type, Getter, getter_type, Value, value_type, stored, type_check,
}
use aliyun_odps_sdk_cpp.Members.Struct.{
  OdpsStruct, null_members, new_struct, member_null_check, member_check, get_member, put_member,
  set_null_member,
}
use aliyun_odps_sdk_cpp.Members.Typed.{
  stored-IsKeptAs, IsKeptAs, type_kept, type_check_lem, at_index_lem, set_here_or_other,
  dereference-kept,
}

length-null_members :
    (C : Type 0) (types : List ColumnType) → length (null_members {C = C} types) ≡ length types
unfolding null_members
length-null_members C [] = refl
length-null_members C (t ∷ types) = ap suc (length-null_members C types)

module _ {C : Type 0} where
  -- Every pointer that is not null points to a value of its member's type.
  pub record AreTyped (types : List ColumnType) (cells : List (Option (Stored C))) : Type 0 where
    pub same_length : length cells ≡ length types
    pub kept :
        (i : ℕ) (v : Stored C) (t : ColumnType)
        → get_elem? cells i ≡ some (some v)
        → get_elem? types i ≡ some t
        → cpp_type v ≡ type_kept t

  -- The methods that change a struct, called with an index that the struct has.
  pub data ReachableStruct : OdpsStruct C → Type 0 where
    made :
        {s : OdpsStruct C} (type : ColumnType) (types : List ColumnType)
        → new_struct type types ≡ ok s
        → ReachableStruct s
    was_put :
        {s s' : OdpsStruct C} (v : Value C) (idx : ℕ)
        → ReachableStruct s
        → idx < length s.member_types
        → put_member v idx s ≡ ok s'
        → ReachableStruct s'
    null_set :
        {s s' : OdpsStruct C} (idx : ℕ)
        → ReachableStruct s
        → idx < length s.member_types
        → set_null_member idx s ≡ ok s'
        → ReachableStruct s'

  null_members_lem :
      (types : List ColumnType) (i : ℕ) (v : Stored C)
      → get_elem? (null_members types) i ≢ some (some v)
  unfolding null_members
  null_members_lem [] i v e = absurd (cc e)
  null_members_lem (t ∷ types) zero v e = absurd (cc e)
  null_members_lem (t ∷ types) (suc i) v e = null_members_lem types i v e

  set-AreTyped :
      (types : List ColumnType) (cells : List (Option (Stored C))) (idx : ℕ) (t : ColumnType)
      (cell : Option (Stored C))
      → AreTyped types cells
      → get_elem? types idx ≡ some t
      → ((v : Stored C) → cell ≡ some v → cpp_type v ≡ type_kept t)
      → AreTyped types (set cells idx cell)
  set-AreTyped types cells idx t cell h at k = record {
    same_length = length-set cells idx cell ∙ h.same_length;
    kept = λ i v u found type.
        let here : idx < length cells =
          omega (arith, h.same_length, get_elem?-bound types idx t at) in
        elim (set_here_or_other cells idx i cell (some v) here found) [
          | inl (same, e) ↦ k v e ∙ ap type_kept (cc (sym at ∙ ap (get_elem? types) same ∙ type))
          | inr (other, e) ↦ h.kept i v u e type
        ];
  }

  -- The struct behind a Set.
  unfoldable pub with_member : ℕ → Option (Stored C) → OdpsStruct C → OdpsStruct C
  with_member idx cell s = record s { members = set s.members idx cell }

  pub put_member_lem :
      (v : Value C) (idx : ℕ) (s : OdpsStruct C) (t : ColumnType)
      → AreTyped s.member_types s.members
      → get_elem? s.member_types idx ≡ some t
      → ((put_member v idx s ≡ ok (with_member idx (stored v) s)) × (value_type v ≡ t))
        ⊎ ((put_member v idx s ≡ err plain_error) × (value_type v ≢ t))
  unfolding put_member member_check with_member
  put_member_lem v idx s t h at =
      let (old, cell) =
        bound-get_elem? s.members idx
          (omega (arith, h.same_length, get_elem?-bound s.member_types idx t at)) in
      elim (type_check_lem t (value_type v)) [
        | inr (e, other) ↦ inr (rw (at_index_lem idx s.member_types t at, e) refl, other)
        | inl (e, same) ↦ inl (
          rw (at_index_lem idx s.member_types t at, e, at_index_lem idx s.members old cell) refl,
          same,
        )
      ]

  stored-kept :
      (v : Value C) (t : ColumnType)
      → value_type v ≡ t
      → (o : Stored C) → stored v ≡ some o
      → cpp_type o ≡ type_kept t
  stored-kept v t same o e =
      subst (λ u. IsKeptAs u (some o)) same
        (subst (λ c. IsKeptAs (value_type v) c) e (stored-IsKeptAs v))

  set_null_member_lem :
      (idx : ℕ) (s : OdpsStruct C)
      → AreTyped s.member_types s.members
      → idx < length s.member_types
      → set_null_member idx s ≡ ok (with_member idx none s)
  unfolding set_null_member with_member
  set_null_member_lem idx s h i =
      let (old, cell) = bound-get_elem? s.members idx (omega (arith, i, h.same_length)) in
      rw (at_index_lem idx s.members old cell) refl

  new_struct-AreTyped :
      {s : OdpsStruct C} (type : ColumnType) (types : List ColumnType)
      → new_struct type types ≡ ok s
      → AreTyped s.member_types s.members
  unfolding new_struct
  new_struct-AreTyped type [] e = absurd (cc e)
  new_struct-AreTyped type (t ∷ types) e = elim (Bool-cases (type_code type == type_code struct)) [
    | inr f ↦ absurd (cc (rw f at e))
    | inl f ↦
        subst (λ x. AreTyped x.member_types x.members) (ok-injective (rw f at e))
          record {
            same_length = length-null_members C (t ∷ types);
            kept = λ i v u found type. absurd (null_members_lem (t ∷ types) i v found);
          }
  ]

  pub Reachable-AreTyped :
      {s : OdpsStruct C} → ReachableStruct s → AreTyped s.member_types s.members
  unfolding with_member
  Reachable-AreTyped (made type types e) = new_struct-AreTyped type types e
  Reachable-AreTyped (was_put {s} v idx r i e) =
      let h = Reachable-AreTyped r in
      let (t, at) = bound-get_elem? s.member_types idx i in
      elim (put_member_lem v idx s t h at) [
        | inr (f, other) ↦ absurd (cc (sym f ∙ e))
        | inl (f, same) ↦
            subst (λ x. AreTyped x.member_types x.members) (ok-injective (sym f ∙ e))
              (set-AreTyped s.member_types s.members idx t (stored v) h at (stored-kept v t same))
      ]
  Reachable-AreTyped (null_set {s} idx r i e) =
      let h = Reachable-AreTyped r in
      let (t, at) = bound-get_elem? s.member_types idx i in
      subst (λ x. AreTyped x.member_types x.members)
        (ok-injective (sym (set_null_member_lem idx s h i) ∙ e))
        (set-AreTyped s.member_types s.members idx t none h at (λ v f. absurd (cc f)))

  -- What Get returns: the member, or an exception for another type or a null.
  abbrev pub IsMember : Getter → ℕ → OdpsStruct C → Type 0
  IsMember g idx s =
      ((v : Stored C) × (get_member g idx s ≡ ok (some v))
        × (get_elem? s.members idx ≡ some (some v))
        × (get_elem? s.member_types idx ≡ some (getter_type g)))
      ⊎ ((get_member g idx s ≡ err plain_error)
          × ((get_elem? s.members idx ≡ some none)
              ⊎ (get_elem? s.member_types idx ≢ some (getter_type g))))

  cell-IsMember :
      (g : Getter) (idx : ℕ) (s : OdpsStruct C) (t : ColumnType) (cell : Option (Stored C))
      → AreTyped s.member_types s.members
      → get_elem? s.member_types idx ≡ some t
      → get_elem? s.members idx ≡ some cell
      → type_check t (getter_type g) ≡ ok tt
      → getter_type g ≡ t
      → IsMember g idx s
  unfolding get_member member_check member_null_check
  cell-IsMember g idx s t none h at found e same = inr (
    rw (at_index_lem idx s.member_types t at, e, at_index_lem idx s.members none found) refl,
    inl found,
  )
  cell-IsMember g idx s t (some v) h at found e same =
      let kept : cpp_type v ≡ type_kept (getter_type g) =
        h.kept idx v t found at ∙ ap type_kept (sym same) in
      inl (
        v,
        rw (at_index_lem idx s.member_types t at, e, at_index_lem idx s.members (some v) found)
            (dereference-kept g (some v) kept),
        found,
        at ∙ ap some (sym same),
      )

  -- In a struct that was made and changed by its methods, with indices that it has, a Get of a member
  -- that the struct has never follows a null pointer and never reads a value as another type than it
  -- was made with. It returns the member, or throws, and it throws exactly when the member is null or
  -- has another type than the getter's.
  pub Reachable-IsMember :
      {s : OdpsStruct C} (g : Getter) (idx : ℕ)
      → ReachableStruct s
      → idx < length s.member_types
      → IsMember g idx s
  unfolding get_member member_check
  Reachable-IsMember {s} g idx r i =
      let h = Reachable-AreTyped r in
      let (t, at) = bound-get_elem? s.member_types idx i in
      let (cell, found) = bound-get_elem? s.members idx (omega (arith, i, h.same_length)) in
      elim (type_check_lem t (getter_type g)) [
        | inl (e, same) ↦ cell-IsMember g idx s t cell h at found e same
        | inr (e, other) ↦
            inr (
              rw (at_index_lem idx s.member_types t at, e) refl,
              inr (λ f. other (cc (sym f ∙ at))),
            )
      ]
