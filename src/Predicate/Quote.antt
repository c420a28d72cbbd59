-- ===== src/Predicate/Quote.antt =====
-- The quoting of an attribute's name in max_storage_api/predicate.cpp, against a description of the
-- escaped name without positions, and a reader of quoted names.
use aliyun_odps_sdk_cpp.Prelude.{
  ℕ, zero, suc, ◌+◌, ◌<◌, ◌≡◌, refl, sym, ap, ◌∙◌, false, Bytes, [], ◌∷◌, ◌++◌, Option, none, some,
  length, ◌==◌, if◌then◌else◌, ==_iff, arith, Bool-cases, inl, inr, append_assoc, length-append,
}
use aliyun_odps_sdk_cpp.Predicate.{
  back_tick, find_from, double_at, escape_loop, is_quoted, attribute_text,
}

-- Every back-tick twice.
unfoldable pub doubled : Bytes → Bytes
doubled [] = []
doubled (c ∷ cs) =
    let rest = doubled cs in if c == back_tick then back_tick ∷ back_tick ∷ rest else c ∷ rest

find-here :
    (before cs : Bytes)
    → find_from back_tick (before ++ back_tick ∷ cs) (length before) ≡ some (length before)
unfolding find_from
find-here [] cs = refl
find-here (x ∷ before) cs = rw (find-here before cs) refl

find-skip :
    (before : Bytes) (c : ℕ) (cs : Bytes)
    → (c == back_tick) ≡ false
    → find_from back_tick (before ++ c ∷ cs) (length before)
      ≡ find_from back_tick (before ++ c ∷ cs) (suc (length before))
unfolding find_from
find-skip [] c cs e = rw e refl
find-skip (x ∷ before) c cs e = rw (find-skip before c cs e) refl

double_at-here :
    (before cs : Bytes)
    → double_at (length before) (before ++ back_tick ∷ cs) ≡ before ++ back_tick ∷ back_tick ∷ cs
unfolding double_at
double_at-here [] cs = refl
double_at-here (x ∷ before) cs = ap (◌∷◌ x) (double_at-here before cs)

end-none : (before : Bytes) → find_from back_tick (before ++ []) (length before) ≡ none
unfolding find_from
end-none [] = refl
end-none (x ∷ before) = rw (end-none before) refl

escape_loop-skip :
    (fuel : ℕ) (s : Bytes) (from : ℕ)
    → find_from back_tick s from ≡ find_from back_tick s (suc from)
    → escape_loop fuel s from ≡ escape_loop fuel s (suc from)
unfolding escape_loop
escape_loop-skip zero s from e = refl
escape_loop-skip (suc fuel) s from e = rw (e, escape_loop) refl

-- Reading on behind `mid`.
continue_at :
    (fuel n : ℕ) (before mid rest : Bytes)
    → n ≡ length before + length mid
    → escape_loop fuel ((before ++ mid) ++ rest) (length (before ++ mid))
      ≡ (before ++ mid) ++ doubled rest
    → escape_loop fuel (before ++ (mid ++ rest)) n ≡ before ++ (mid ++ doubled rest)
continue_at fuel n before mid rest e h =
    ap (λ s. escape_loop fuel s n) (sym (append_assoc before mid rest))
    ∙ ap (escape_loop fuel ((before ++ mid) ++ rest)) (e ∙ sym (length-append before mid))
    ∙ h
    ∙ append_assoc before mid (doubled rest)

-- The loop at the position behind `before` doubles the back-ticks of the rest.
escape_loop-doubled :
    (rest : Bytes) (fuel : ℕ) (before : Bytes)
    → length rest < fuel
    → escape_loop fuel (before ++ rest) (length before) ≡ before ++ doubled rest
unfolding escape_loop doubled
escape_loop-doubled rest zero before h = absurd (omega (arith, h))
escape_loop-doubled [] (suc fuel) before h = rw (end-none before, escape_loop) refl
escape_loop-doubled (c ∷ cs) (suc fuel) before h = elim (Bool-cases (c == back_tick)) [
  | inl e ↦
      rw (e, (==_iff c back_tick).0 e)
        (rw (find-here before cs, escape_loop)
          (ap (λ s. escape_loop fuel s (length before + 2)) (double_at-here before cs)
            ∙ continue_at fuel _ before (back_tick ∷ back_tick ∷ []) cs refl
                (escape_loop-doubled cs fuel _ (omega (arith, h)))))
  | inr e ↦ rw e (
      escape_loop-skip (suc fuel) _ _ (find-skip before c cs e)
      ∙ continue_at (suc fuel) _ before (c ∷ []) cs (omega arith)
          (escape_loop-doubled cs (suc fuel) _ (omega (arith, h))))
]

abbrev keep : ℕ → Option Bytes → Option Bytes
keep c none = none
keep c (some s) = some (c ∷ s)

-- The reader of a quoted name: it takes off the quotes, and reads two back-ticks as one.
unfoldable pub read_name : Bytes → Option Bytes
read_name [] = none
read_name (c ∷ []) = if c == back_tick then some [] else none
read_name (c ∷ d ∷ cs) =
    let plain = keep c (read_name (d ∷ cs)) in
    let pair = keep back_tick (read_name cs) in
    if c == back_tick then if d == back_tick then pair else none else plain

unfoldable pub unquote : Bytes → Option Bytes
unquote [] = none
unquote (c ∷ cs) = if c == back_tick then read_name cs else none

read_name-plain :
    (c : ℕ) (s : Bytes) → (c == back_tick) ≡ false → read_name (c ∷ s) ≡ keep c (read_name s)
unfolding read_name
read_name-plain c [] e = rw e refl
read_name-plain c (d ∷ s) e = rw e refl

read_name-doubled : (s : Bytes) → read_name (doubled s ++ back_tick ∷ []) ≡ some s
unfolding read_name doubled
read_name-doubled [] = refl
read_name-doubled (c ∷ cs) = elim (Bool-cases (c == back_tick)) [
  | inl e ↦ rw (e, (==_iff c back_tick).0 e) (ap (keep back_tick) (read_name-doubled cs))
  | inr e ↦ rw e (read_name-plain c _ e ∙ ap (keep c) (read_name-doubled cs))
]

-- A name that the code does not take as quoted already is read back from its text: the loop of
-- `find` and `replace` doubles each of its back-ticks, and the text has one more at either end.
pub attribute_round_trip :
    (value : Bytes) → is_quoted value ≡ false → unquote (attribute_text value) ≡ some value
unfolding attribute_text unquote
attribute_round_trip value h =
    let loop = escape_loop-doubled value (suc (length value)) [] (omega arith) in
    rw (h, loop) (read_name-doubled value)
