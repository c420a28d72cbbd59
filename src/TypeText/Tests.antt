-- ===== src/TypeText/Tests.antt =====
-- A plain `trim` and `lexical_cast` that keep boost's laws, and a run of the round trip.
use aliyun_odps_sdk_cpp.Prelude.{
  ℕ, zero, suc, ◌+◌, ◌-◌, ◌*◌, ◌/◌, ◌%◌, ◌<◌, ◌≡◌, refl, ap, ◌∙◌, false, ◌&&◌, Bytes, codes, [],
  ◌∷◌, ◌++◌, some, ltb, ◌==◌, if◌then◌else◌, arith, All, Bool-cases, inl, inr, length,
}
use aliyun_odps_sdk_cpp.Prelude.Int.{pos}
use aliyun_odps_sdk_cpp.Result.{ok, err, internal_error}
use aliyun_odps_sdk_cpp.Types.{
  TypeInfo, info, more, none_more, bigint, array, map, decimal, varchar, get_type_name,
}
use aliyun_odps_sdk_cpp.TypeText.Print.{digits, to_string, to_type_string, decimal_text}
use aliyun_odps_sdk_cpp.TypeText.Parse.{Boost, BoostLaws, is_space, parse_type_info_string}
use aliyun_odps_sdk_cpp.TypeText.RoundTrip.{
  IsPrintable, printed_decimal, printed_varchar, printed_array, printed_map, type_string_round_trip,
}
use aliyun_odps_sdk_cpp.TypeText.Struct.{struct_of_one, struct_unreadable}

abbrev cut_left : Bytes → Bytes
cut_left [] = []
cut_left (c ∷ cs) = let rest = cut_left cs in if is_space c then rest else c ∷ cs

abbrev cut_right : Bytes → Bytes
cut_right [] = []
cut_right (c ∷ cs) =
    let rest = cut_right cs in if is_space c && length rest == 0 then [] else c ∷ rest

abbrev number : ℕ → Bytes → ℕ
number acc [] = acc
number acc (c ∷ cs) = number (acc * 10 + (c - 48)) cs

abbrev plain_boost : Boost
plain_boost = record {
  trim = λ s. cut_right (cut_left s);
  lexical_cast = λ s. some (pos (number 0 s));
}

cut_left-same : (s : Bytes) → All (λ c. is_space c ≡ false) s → cut_left s ≡ s
cut_left-same [] h = refl
cut_left-same (c ∷ cs) h = rw h.0

cut_right-same : (s : Bytes) → All (λ c. is_space c ≡ false) s → cut_right s ≡ s
cut_right-same [] h = refl
cut_right-same (c ∷ cs) h = rw h.0 (ap (◌∷◌ c) (cut_right-same cs h.1))

number-last :
    (acc : ℕ) (s : Bytes) (d : ℕ) → number acc (s ++ d ∷ []) ≡ number acc s * 10 + (d - 48)
number-last acc [] d = refl
number-last acc (c ∷ cs) d = number-last (acc * 10 + (c - 48)) cs d

abbrev ten_to : ℕ → ℕ
ten_to zero = 1
ten_to (suc f) = 10 * ten_to f

number-digits : (f n : ℕ) → n < ten_to f → number 0 (digits f n) ≡ n
unfolding digits
number-digits zero n h = omega arith
number-digits (suc f) n h = elim (Bool-cases (ltb n 10)) [
  | inl e ↦ rw e (omega arith)
  | inr e ↦
      let before = number-digits f (n / 10) (omega arith) in
      rw e (number-last 0 (digits f (n / 10)) (48 + n % 10) ∙ omega (arith, before))
]

plain_boost-BoostLaws : BoostLaws plain_boost
unfolding to_string
plain_boost-BoostLaws = record {
  trim_lem = λ s h. ap cut_right (cut_left-same s h) ∙ cut_right-same s h;
  lexical_cast_lem = λ n h. ap (λ k. some (pos k)) (number-digits 10 n (omega arith));
}

abbrev prices : TypeInfo
prices = info map (pos 0) (pos 0) (pos 0) [] (
    more (info varchar (pos 0) (pos 0) (pos 20) [] none_more) (
      more
        (info array (pos 0) (pos 0) (pos 0) []
          (more (info decimal (pos 38) (pos 18) (pos 0) [] none_more) none_more))
        none_more))

prices-IsPrintable : IsPrintable prices
prices-IsPrintable =
    printed_map (printed_varchar (omega arith))
      (printed_array (printed_decimal (omega arith) (omega arith) (omega arith)))

type_string_round_trip_example :
    (s : Bytes) × (to_type_string prices ≡ ok s)
    × (parse_type_info_string plain_boost s ≡ ok prices)
type_string_round_trip_example =
    type_string_round_trip plain_boost plain_boost-BoostLaws prices-IsPrintable

prices_text : to_type_string prices ≡ ok (codes "MAP<VARCHAR(20),ARRAY<DECIMAL(38,18)>>")
unfolding to_type_string to_string get_type_name decimal_text
prices_text = refl

struct_unreadable_example :
    (s : Bytes) × (to_type_string (struct_of_one (codes "id") bigint) ≡ ok s)
    × (parse_type_info_string plain_boost s ≡ err internal_error)
struct_unreadable_example =
    struct_unreadable plain_boost plain_boost-BoostLaws (codes "id") bigint refl
