-- ===== src/Address/Parts.antt =====
-- How the parts of an address make up its text (util/address.cpp, util/address.h).
use aliyun_odps_sdk_cpp.Prelude.{
  ℕ, ◌≡◌, ◌≢◌, refl, ap, sym, ◌∙◌, ◌⊎◌, inl, inr, Bool, true, false, Bytes, bytes_eq, bytes_eq→eq,
  codes, [], ◌∷◌, ◌++◌, append-nil, subst, Option, none, some, take, ◌==◌, arith, Bool-cases,
  ==_iff,
}
use aliyun_odps_sdk_cpp.Result.{Result, ok, err, local_error}
use aliyun_odps_sdk_cpp.Strings.{is_one_of}
use aliyun_odps_sdk_cpp.Strings.Split.{has_none_of, IsCut, next_part-IsCut}
use aliyun_odps_sdk_cpp.Address.{
  Address, skip_slashes, cut_path, with_rest, cut_port, with_port, with_host, with_protocol,
  new_address,
}

-- No text, or one that begins with a slash.
unfoldable pub is_path : Bytes → Bool
is_path [] = true
is_path (c ∷ cs) = c == 47

unfoldable pub print_port : Bool → Bytes → Bytes
print_port false port = []
print_port true port = 58 ∷ port

abbrev laid_out : Bytes → Bytes → Bytes → Bytes
laid_out slashes protocol rest = protocol ++ (58 ∷ (slashes ++ rest))

-- The text of the host, the port and the path.
unfoldable pub text_behind : Address → Bytes
text_behind a = (a.host ++ print_port a.port_present a.port) ++ a.path

abbrev has_slashes : Bytes → Bool
has_slashes s = bytes_eq (take 2 s) (codes "//")

-- Two slashes stand before the rest, or none do.
abbrev IsLaidOut : Bytes → Bytes → Bytes → Type 0
IsLaidOut s protocol rest =
    (s ≡ laid_out (codes "//") protocol rest)
    ⊎ ((s ≡ laid_out [] protocol rest) × (has_slashes rest ≡ false))

slashes-cases :
    (s : Bytes)
    → (s ≡ codes "//" ++ skip_slashes s)
      ⊎ ((s ≡ skip_slashes s) × (has_slashes (skip_slashes s) ≡ false))
unfolding skip_slashes bytes_eq
slashes-cases [] = inr (refl, refl)
slashes-cases (c ∷ []) = elim (Bool-cases (bytes_eq (c ∷ []) (codes "//"))) [
  | inl e ↦ absurd (cc (bytes_eq→eq (c ∷ []) (codes "//") e))
  | inr e ↦ inr (rw e (refl, e))
]
slashes-cases (c ∷ d ∷ s) = elim (Bool-cases (bytes_eq (c ∷ d ∷ []) (codes "//"))) [
  | inl e ↦ inl (rw e (ap (λ t. t ++ s) (bytes_eq→eq (c ∷ d ∷ []) (codes "//") e)))
  | inr e ↦ inr (rw e (refl, e))
]

has_none_of-append :
    (delim a b : Bytes) → has_none_of delim (a ++ b) ≡ true → has_none_of delim a ≡ true
unfolding has_none_of
has_none_of-append delim [] b h = refl
has_none_of-append delim (c ∷ a) b h = elim (Bool-cases (is_one_of delim c)) [
  | inl e ↦ absurd (ground (arith, e, h))
  | inr e ↦ rw e (has_none_of-append delim a b (ground (arith, e, h)))
]

IsHost : Bytes → Bytes × Bytes → Type 0
IsHost s (before, behind) =
    (s ≡ before ++ behind) × (has_none_of (codes "/") before ≡ true) × (is_path behind ≡ true)

longer-IsHost :
    (c : ℕ) (s : Bytes) (cut : Bytes × Bytes)
    → (c == 47) ≡ false
    → IsHost s cut
    → IsHost (c ∷ s) (c ∷ cut.0, cut.1)
unfolding IsHost has_none_of is_one_of
longer-IsHost c s (before, behind) e (h, k, l) = (ap (◌∷◌ c) h, ground (arith, e, k), l)

cut_path-IsHost : (s : Bytes) → IsHost s (cut_path s)
unfolding cut_path IsHost has_none_of is_path
cut_path-IsHost [] = (refl, refl, refl)
cut_path-IsHost (c ∷ cs) = elim (Bool-cases (c == 47)) [
  | inl e ↦ rw e (refl, refl, e)
  | inr e ↦ rw e (longer-IsHost c cs (cut_path cs) e (cut_path-IsHost cs))
]

IsPort : Bytes → Option (Bytes × Bytes) → Type 0
IsPort s none = has_none_of (codes ":") s ≡ true
IsPort s (some (before, behind)) =
    (s ≡ before ++ 58 ∷ behind) × (has_none_of (codes ":") behind ≡ true)

longer-IsPort :
    (c : ℕ) (s : Bytes) (cut : Option (Bytes × Bytes))
    → IsPort s cut
    → IsPort (c ∷ s) (with_rest c s cut)
unfolding IsPort has_none_of is_one_of
longer-IsPort c s none h = elim (Bool-cases (c == 58)) [
  | inl e ↦ rw e (ap (λ d. d ∷ s) ((==_iff c 58).0 e), h)
  | inr e ↦ rw e (ground (arith, e, h))
]
longer-IsPort c s (some (before, behind)) (h, k) = (ap (◌∷◌ c) h, k)

cut_port-IsPort : (s : Bytes) → IsPort s (cut_port s)
unfolding cut_port IsPort has_none_of
cut_port-IsPort [] = refl
cut_port-IsPort (c ∷ cs) = longer-IsPort c cs (cut_port cs) (cut_port-IsPort cs)

-- What the parts of the text `s` are, where the host may follow two slashes.
abbrev pub IsAddress : Bytes → Address → Type 0
IsAddress s a =
    (a.whole_path ≡ s)
    × IsLaidOut s a.protocol (text_behind a)
    × (a.protocol ≢ [])
    × (has_none_of (codes ":") a.protocol ≡ true)
    × (has_none_of (codes "/") a.host ≡ true)
    × (has_none_of (codes ":") a.port ≡ true)
    × ((a.port_present ≡ true) ⊎ (has_none_of (codes ":") a.host ≡ true))
    × (is_path a.path ≡ true)

abbrev IsBehind : Bytes → Bytes → Bytes → Bytes → Type 0
IsBehind s protocol host path =
    (protocol ≢ [])
    × (has_none_of (codes ":") protocol ≡ true)
    × (has_none_of (codes "/") host ≡ true)
    × (is_path path ≡ true)
    × IsLaidOut s protocol (host ++ path)

IsLaidOut-rest :
    (s protocol : Bytes) {a b : Bytes} → a ≡ b → IsLaidOut s protocol a → IsLaidOut s protocol b
IsLaidOut-rest s protocol e h = subst (λ r. IsLaidOut s protocol r) e h

with_port-IsAddress :
    (s protocol path host : Bytes) (cut : Option (Bytes × Bytes))
    → IsBehind s protocol host path
    → IsPort host cut
    → IsAddress s (with_port s protocol path host cut)
unfolding with_port text_behind print_port IsPort has_none_of
with_port-IsAddress s protocol path host none (named, clean, no_slash, slash, laid) h = (
  refl,
  IsLaidOut-rest s protocol (ap (λ x. x ++ path) (sym (append-nil host))) laid,
  named,
  clean,
  no_slash,
  refl,
  inr h,
  slash,
)
with_port-IsAddress s protocol path host (some (before, behind))
      (named, clean, no_slash, slash, laid) (h, k) =
    (
      refl,
      IsLaidOut-rest s protocol (ap (λ x. x ++ path) h) laid,
      named,
      clean,
      has_none_of-append (codes "/") before (58 ∷ behind)
          (subst (λ x. has_none_of (codes "/") x ≡ true) h no_slash),
      k,
      inl refl,
      slash,
    )

with_host-IsAddress :
    (s protocol rest : Bytes) (cut : Bytes × Bytes)
    → protocol ≢ []
    → has_none_of (codes ":") protocol ≡ true
    → IsLaidOut s protocol rest
    → IsHost rest cut
    → IsAddress s (with_host s protocol cut)
unfolding with_host IsHost
with_host-IsAddress s protocol rest (host, path) named clean laid (h, no_slash, slash) =
    with_port-IsAddress s protocol path host (cut_port host)
      (named, clean, no_slash, slash, IsLaidOut-rest s protocol h laid) (cut_port-IsPort host)

skip_slashes-IsLaidOut :
    (s protocol rest : Bytes) → s ≡ protocol ++ 58 ∷ rest → IsLaidOut s protocol (skip_slashes rest)
skip_slashes-IsLaidOut s protocol rest h = elim (slashes-cases rest) [
  | inl e ↦ inl (h ∙ ap (λ r. protocol ++ 58 ∷ r) e)
  | inr (e, k) ↦ inr (h ∙ ap (λ r. protocol ++ 58 ∷ r) e, k)
]

-- What the constructor makes of the text: the error where the text has no colon or begins with one.
abbrev pub IsOutcome : Bytes → Result Address → Type 0
IsOutcome s (ok a) = IsAddress s a
IsOutcome s (err thrown) =
    (thrown ≡ local_error)
    × ((has_none_of (codes ":") s ≡ true) ⊎ ((rest : Bytes) × (s ≡ 58 ∷ rest)))

with_protocol-IsOutcome :
    (s : Bytes) (cut : Bytes × Option Bytes) → IsCut 58 s cut → IsOutcome s (with_protocol s cut)
unfolding with_protocol
with_protocol-IsOutcome s (part, none) (h, k) =
    (refl, inl (subst (λ x. has_none_of (codes ":") x ≡ true) (sym h) k))
with_protocol-IsOutcome s ([], some rest) (h, k, l) = (refl, inr (rest, h))
with_protocol-IsOutcome s (c ∷ cs, some rest) (h, k, l) =
    with_host-IsAddress s (c ∷ cs) (skip_slashes rest) _ (λ e. cc e) k
      (skip_slashes-IsLaidOut s (c ∷ cs) rest h) (cut_path-IsHost _)

-- A text without a colon, or with a colon at its front, throws. Any other text is the protocol, a
-- colon, two slashes if they stand there, the host, a colon and the port if there is one, and the
-- path, as they are read: the protocol is not empty and has no colon, the host has no slash, the port
-- has no colon, the host has none either where there is no port, and the path is empty or begins with
-- a slash.
pub new_address-IsOutcome : (s : Bytes) → IsOutcome s (new_address s)
unfolding new_address
new_address-IsOutcome s = with_protocol-IsOutcome s _ (next_part-IsCut 58 s)
