-- ===== src/Signer/Ordered.antt =====
-- The order of byte strings, and maps as sorted lists of entries (Signer/Entries).
use aliyun_odps_sdk_cpp.Prelude.{
  ◌≡◌, ◌≢◌, refl, sym, ◌∙◌, subst, inl, inr, true, false, Bytes, List, [], ◌∷◌, none, some,
  if◌then◌else◌, bytes_eq, bytes_eq_refl, bytes_eq→eq, arith, Bool-cases, All,
}
use aliyun_odps_sdk_cpp.Signer.Entries.{Entry, bytes_less, put_entry, find_entry}

pub bytes_less_irrefl : (xs : Bytes) → bytes_less xs xs ≡ false
unfolding bytes_less
bytes_less_irrefl [] = refl
bytes_less_irrefl (x ∷ xs) = ground (arith, bytes_less_irrefl xs)

bytes_less_trans :
    (xs ys zs : Bytes) → bytes_less xs ys ≡ true → bytes_less ys zs ≡ true → bytes_less xs zs ≡ true
unfolding bytes_less
bytes_less_trans xs [] zs h k = absurd (cc h)
bytes_less_trans xs (y ∷ ys) [] h k = absurd (cc k)
bytes_less_trans [] (y ∷ ys) (z ∷ zs) h k = refl
bytes_less_trans (x ∷ xs) (y ∷ ys) (z ∷ zs) h k = ground (arith, h, k, bytes_less_trans xs ys zs)

pub bytes_less_total :
    (xs ys : Bytes) → bytes_less xs ys ≡ false → bytes_less ys xs ≡ false → xs ≡ ys
unfolding bytes_less
bytes_less_total [] [] h k = refl
bytes_less_total [] (y ∷ ys) h k = absurd (cc h)
bytes_less_total (x ∷ xs) [] h k = absurd (cc k)
bytes_less_total (x ∷ xs) (y ∷ ys) h k = ground (arith, h, k, bytes_less_total xs ys)

pub bytes_eq-differs : (xs ys : Bytes) → xs ≢ ys → bytes_eq xs ys ≡ false
bytes_eq-differs xs ys h = elim (Bool-cases (bytes_eq xs ys)) [
  | inl e ↦ absurd (h (bytes_eq→eq xs ys e))
  | inr e ↦ e
]

less-differs : (xs ys : Bytes) → bytes_less xs ys ≡ true → xs ≢ ys
less-differs xs ys h e = cc (sym (bytes_less_irrefl ys) ∙ subst (λ z. bytes_less z ys ≡ true) e h)

abbrev pub IsAbove : Bytes → List Entry → Type 0
IsAbove key m = All (λ e. bytes_less key e.0 ≡ true) m

-- The keys stand in their order, each of them once.
abbrev pub IsSorted : List Entry → Type 0
IsSorted [] = Unit {0}
IsSorted ((k, v) ∷ m) = IsAbove k m × IsSorted m

pub below-IsAbove :
    (j k : Bytes) (m : List Entry) → bytes_less j k ≡ true → IsAbove k m → IsAbove j m
below-IsAbove j k [] h a = tt
below-IsAbove j k ((l, v) ∷ m) h (a, as_above) =
    (bytes_less_trans j k l h a, below-IsAbove j k m h as_above)

put-IsAbove :
    (j key value : Bytes) (m : List Entry)
    → bytes_less j key ≡ true
    → IsAbove j m
    → IsAbove j (put_entry key value m)
unfolding put_entry
put-IsAbove j key value [] h a = (h, tt)
put-IsAbove j key value ((k, v) ∷ m) h (a, above) = elim (Bool-cases (bytes_less key k)) [
  | inl e ↦ rw e (h, (a, above))
  | inr e ↦ elim (Bool-cases (bytes_less k key)) [
    | inl f ↦ rw (e, f) (a, put-IsAbove j key value m h above)
    | inr f ↦ rw (e, f) (h, above)
  ]
]

pub put-IsSorted :
    (key value : Bytes) (m : List Entry) → IsSorted m → IsSorted (put_entry key value m)
unfolding put_entry
put-IsSorted key value [] s = (tt, tt)
put-IsSorted key value ((k, v) ∷ m) (above, s) = elim (Bool-cases (bytes_less key k)) [
  | inl e ↦ rw e ((e, below-IsAbove key k m e above), (above, s))
  | inr e ↦ elim (Bool-cases (bytes_less k key)) [
    | inl f ↦ rw (e, f) (put-IsAbove k key value m f above, put-IsSorted key value m s)
    | inr f ↦ rw (e, f) (subst (λ l. IsAbove l m) (bytes_less_total k key f e) above, s)
  ]
]

pub find_entry-put_entry :
    (j key value : Bytes) (m : List Entry)
    → find_entry j (put_entry key value m) ≡ (if bytes_eq key j then some value else find_entry j m)
unfolding put_entry find_entry
find_entry-put_entry j key value [] = refl
find_entry-put_entry j key value ((k, v) ∷ m) = elim (Bool-cases (bytes_less key k)) [
  | inl e ↦ rw e refl
  | inr e ↦ elim (Bool-cases (bytes_less k key)) [
    | inr f ↦ rw (e, f, bytes_less_total k key f e) (ground arith)
    | inl f ↦ rw (e, f) (later f (find_entry-put_entry j key value m))
  ]
]
  where
    later :
        bytes_less k key ≡ true
        → find_entry j (put_entry key value m)
          ≡ (if bytes_eq key j then some value else find_entry j m)
        → (if bytes_eq k j then some v else find_entry j (put_entry key value m))
          ≡ (if bytes_eq key j then some value else if bytes_eq k j then some v else find_entry j m)
    later f found = elim (Bool-cases (bytes_eq k j)) [
      | inr e ↦ rw e found
      | inl e ↦
          rw
            (
              e,
              bytes_eq-differs key j (λ same. less-differs k key f (bytes_eq→eq k j e ∙ sym same)),
            )
            refl
    ]

pub above-find_entry : (key : Bytes) (m : List Entry) → IsAbove key m → find_entry key m ≡ none
unfolding find_entry
above-find_entry key [] a = refl
above-find_entry key ((k, v) ∷ m) (a, above) =
    rw (bytes_eq-differs k key (λ e. less-differs key k a (sym e))) (above-find_entry key m above)

pub found_first : (k v : Bytes) (m : List Entry) → find_entry k ((k, v) ∷ m) ≡ some v
unfolding find_entry
found_first k v m = rw (bytes_eq_refl k) refl

tail-extensional :
    (k v w : Bytes) (m n : List Entry)
    → IsAbove k m
    → IsAbove k n
    → ((j : Bytes) → find_entry j ((k, v) ∷ m) ≡ find_entry j ((k, w) ∷ n))
    → (j : Bytes) → find_entry j m ≡ find_entry j n
unfolding find_entry
tail-extensional k v w m n a b h j = elim (Bool-cases (bytes_eq k j)) [
  | inr e ↦ let at_j = h j in rw e at at_j
  | inl e ↦
      subst (λ i. find_entry i m ≡ find_entry i n) (bytes_eq→eq k j e)
        (above-find_entry k m a ∙ sym (above-find_entry k n b))
]

-- Sorted maps with the same values are the same.
pub find_entry-extensional :
    (m n : List Entry)
    → IsSorted m
    → IsSorted n
    → ((k : Bytes) → find_entry k m ≡ find_entry k n)
    → m ≡ n
unfolding find_entry
find_entry-extensional [] [] s t h = refl
find_entry-extensional [] ((k, v) ∷ n) s t h = absurd (cc (h k ∙ found_first k v n))
find_entry-extensional ((k, v) ∷ m) [] s t h = absurd (cc (sym (h k) ∙ found_first k v m))
find_entry-extensional ((k, v) ∷ m) ((l, w) ∷ n) (above, s) (over, t) h =
    let ih = find_entry-extensional m n s t in
    elim (Bool-cases (bytes_less k l)) [
      | inl e ↦ absurd (
          cc (
            sym (above-find_entry k ((l, w) ∷ n) (e, below-IsAbove k l n e over))
            ∙ sym (h k)
            ∙ found_first k v m))
      | inr e ↦ elim (Bool-cases (bytes_less l k)) [
        | inl f ↦ absurd (
            cc (
              sym (above-find_entry l ((k, v) ∷ m) (f, below-IsAbove l k m f above))
              ∙ h l
              ∙ found_first l w n))
        | inr f ↦
            let same : l ≡ k = bytes_less_total l k f e in
            let both : (j : Bytes) → find_entry j ((k, v) ∷ m) ≡ find_entry j ((k, w) ∷ n) =
              subst (λ i. (j : Bytes) → find_entry j ((k, v) ∷ m) ≡ find_entry j ((i, w) ∷ n)) same
                h in
            let values : v ≡ w = cc (sym (found_first k v m) ∙ both k ∙ found_first k w n) in
            cc (
              same,
              values,
              ih (tail-extensional k v w m n above (subst (λ i. IsAbove i n) same over) both),
            )
      ]
    ]
