-- ===== src/Upload/Commit.antt =====
-- When a commit with a list of blocks (tunnel/upload.cpp) closes the session.
use aliyun_odps_sdk_cpp.Prelude.{
  ℕ, ◌≡◌, refl, sym, ap, ◌∙◌, Bool, true, false, ◌||◌, List, [], ◌∷◌, map, length, ◌==◌, ==_iff,
  ==_refl, arith, Bool-cases, inl, inr, ◌⊎◌,
}
use aliyun_odps_sdk_cpp.Prelude.Int.{ℤ}
use aliyun_odps_sdk_cpp.Result.{Result, ok, err, internal_error}
use aliyun_odps_sdk_cpp.Upload.{
  to_uint32, has_key, put_key, client_keys, server_keys, all_exist, check_blocks, reload_request,
  commit_request, commit_checked, commit,
}
use aliyun_odps_sdk_cpp.Upload.Sets.{
  IsMap, no_keys, Contains, put_key-IsMap, has_key-put, length-Contains, same_size-Contains,
  with_one, still, key-here,
}

-- The client and the server list the same blocks, in any order and any number of times.
abbrev pub SameBlocks : List ℕ → List ℤ → Type 0
SameBlocks blocks ids = (k : ℕ) → has_key k blocks ≡ has_key k (map to_uint32 ids)

client_keys-IsMap : (blocks keys : List ℕ) → IsMap keys → IsMap (client_keys blocks keys)
unfolding client_keys
client_keys-IsMap [] keys m = m
client_keys-IsMap (b ∷ blocks) keys m =
    client_keys-IsMap blocks (put_key b keys) (put_key-IsMap b m)

server_keys-IsMap : (ids : List ℤ) (keys : List ℕ) → IsMap keys → IsMap (server_keys ids keys)
unfolding server_keys
server_keys-IsMap [] keys m = m
server_keys-IsMap (i ∷ ids) keys m =
    server_keys-IsMap ids (put_key (to_uint32 i) keys) (put_key-IsMap (to_uint32 i) m)

or_no : (b : Bool) → (b || false) ≡ b
or_no true = refl
or_no false = refl

or-move : (a b c : Bool) → (a || (b || c)) ≡ ((b || a) || c)
or-move true true c = refl
or-move true false c = refl
or-move false b c = ap (λ o. o || c) (sym (or_no b))

has_key-client :
    (k : ℕ) (blocks keys : List ℕ)
    → has_key k (client_keys blocks keys) ≡ (has_key k blocks || has_key k keys)
unfolding client_keys has_key
has_key-client k [] keys = refl
has_key-client k (b ∷ blocks) keys =
    has_key-client k blocks (put_key b keys)
    ∙ ap (λ o. has_key k blocks || o) (has_key-put k b keys)
    ∙ or-move (has_key k blocks) (k == b) (has_key k keys)

has_key-server :
    (k : ℕ) (ids : List ℤ) (keys : List ℕ)
    → has_key k (server_keys ids keys) ≡ (has_key k (map to_uint32 ids) || has_key k keys)
unfolding server_keys has_key
has_key-server k [] keys = refl
has_key-server k (i ∷ ids) keys =
    has_key-server k ids (put_key (to_uint32 i) keys)
    ∙ ap (λ o. has_key k (map to_uint32 ids) || o) (has_key-put k (to_uint32 i) keys)
    ∙ or-move (has_key k (map to_uint32 ids)) (k == to_uint32 i) (has_key k keys)

client-key : (k : ℕ) (blocks : List ℕ) → has_key k (client_keys blocks []) ≡ has_key k blocks
unfolding has_key
client-key k blocks = has_key-client k blocks [] ∙ or_no (has_key k blocks)

server-key : (k : ℕ) (ids : List ℤ) → has_key k (server_keys ids []) ≡ has_key k (map to_uint32 ids)
unfolding has_key
server-key k ids = has_key-server k ids [] ∙ or_no (has_key k (map to_uint32 ids))

opposite : {b : Bool} → b ≡ true → b ≡ false → ⊥
opposite e f = absurd (ground (arith, sym e ∙ f))

both_ways : (a b : Bool) → (a ≡ true → b ≡ true) → (b ≡ true → a ≡ true) → a ≡ b
both_ways true b f g = sym (f refl)
both_ways false true f g = g refl
both_ways false false f g = refl

all_exist-cases :
    (blocks keys : List ℕ)
    → ((all_exist blocks keys ≡ ok tt) × Contains blocks keys)
      ⊎ ((all_exist blocks keys ≡ err internal_error) × (Contains blocks keys → ⊥))
unfolding all_exist has_key
all_exist-cases [] keys = inl (refl, (λ k h. absurd (ground (arith, h))))
all_exist-cases (b ∷ blocks) keys = elim (Bool-cases (has_key b keys)) [
  | inl t ↦ elim (all_exist-cases blocks keys) [
    | inl (e, all) ↦ inl (rw t e, with_one keys b blocks t all)
    | inr (e, other) ↦ inr (rw t e, (λ all. other (λ k h. all k (still k b blocks h))))
  ]
  | inr f ↦ inr (rw f refl, (λ all. opposite (all b (key-here b b blocks (==_refl b))) f))
]

module _ (blocks : List ℕ) (ids : List ℤ) where
  client-Contains :
      Contains blocks (server_keys ids []) → Contains (client_keys blocks []) (server_keys ids [])
  client-Contains h k found = h k (sym (client-key k blocks) ∙ found)

  same-size : SameBlocks blocks ids → length (server_keys ids []) ≡ length (client_keys blocks [])
  same-size same =
      let up =
        length-Contains (server_keys ids []) (client_keys-IsMap blocks [] no_keys)
          (λ k found. server-key k ids ∙ sym (same k) ∙ sym (client-key k blocks) ∙ found) in
      let down =
        length-Contains (client_keys blocks []) (server_keys-IsMap ids [] no_keys)
          (λ k found. client-key k blocks ∙ same k ∙ sym (server-key k ids) ∙ found) in
      omega (arith, up, down)

  same-found : SameBlocks blocks ids → Contains blocks (server_keys ids [])
  same-found same k found = server-key k ids ∙ sym (same k) ∙ found

  found-SameBlocks :
      length (server_keys ids []) ≡ length (client_keys blocks [])
      → Contains blocks (server_keys ids [])
      → SameBlocks blocks ids
  found-SameBlocks size h k =
      both_ways (has_key k blocks) _ (λ e. sym (server-key k ids) ∙ h k e)
        (λ e.
          sym (client-key k blocks)
          ∙ same_size-Contains (server_keys ids []) (client_keys-IsMap blocks [] no_keys) (sym size)
              (client-Contains h) k (server-key k ids ∙ e))

check_blocks-cases :
    (blocks : List ℕ) (ids : List ℤ)
    → ((check_blocks blocks ids ≡ ok tt) × SameBlocks blocks ids)
      ⊎ ((check_blocks blocks ids ≡ err internal_error) × (SameBlocks blocks ids → ⊥))
unfolding check_blocks
check_blocks-cases blocks ids =
    elim (Bool-cases (length (server_keys ids []) == length (client_keys blocks []))) [
      | inl t ↦ elim (all_exist-cases blocks (server_keys ids [])) [
        | inl (e, all) ↦ inl (rw t e, found-SameBlocks blocks ids ((==_iff _ _).0 t) all)
        | inr (e, other) ↦ inr (rw t e, (λ same. other (same-found blocks ids same)))
      ]
      | inr f ↦ inr (rw f refl, (λ same. opposite ((==_iff _ _).1 (same-size blocks ids same)) f))
    ]

-- A commit with a list of blocks asks for the server's blocks. If client and server list the same
-- blocks, as numbers modulo 2^32, it sends the request that closes the session and ends as that does;
-- otherwise it throws INTERNAL_ERROR and sends no further request.
pub commit-blocks :
    (blocks : List ℕ) (ids : List ℤ) (reply : Result (Unit {0}))
    → (SameBlocks blocks ids
        × (commit blocks (ok ids) reply ≡ (reload_request ∷ commit_request ∷ [], reply)))
      ⊎ ((SameBlocks blocks ids → ⊥)
          × (commit blocks (ok ids) reply ≡ (reload_request ∷ [], err internal_error)))
unfolding commit commit_checked
commit-blocks blocks ids reply = elim (check_blocks-cases blocks ids) [
  | inl (e, same) ↦ inl (same, rw e refl)
  | inr (e, other) ↦ inr (other, rw e refl)
]
