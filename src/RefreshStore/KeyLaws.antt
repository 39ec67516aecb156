-- ===== src/RefreshStore/KeyLaws.antt =====
-- When two tokens share a key.
use world_infra.Prelude.{
  ℕ, ◌/◌, ◌%◌, ◌<◌, ◌≡◌, refl, sym, ◌∙◌, Option, none, some, List, [], ◌∷◌, ◌++◌, arith, ok, All,
  append_assoc,
}
use world_infra.Text.{Text, codes}
use world_infra.RefreshStore.Schema.{RefreshStoreConfig, RefreshNamespace, validate_token}
use world_infra.RefreshStore.{hex_digit, hex_lower, hash_refresh_token, store_key}

hex_digit_injective : (m n : ℕ) → m < 16 → n < 16 → hex_digit m ≡ hex_digit n → m ≡ n
unfolding hex_digit
hex_digit_injective m n h k e = ground arith

-- Bytes can be read back from their hexadecimal form.
hex_lower_injective :
    (s t : List ℕ) → All (λ b. b < 256) s → All (λ b. b < 256) t → hex_lower s ≡ hex_lower t → s ≡ t
unfolding hex_lower
hex_lower_injective [] [] h k e = refl
hex_lower_injective [] (c ∷ t) h k e = cc
hex_lower_injective (b ∷ s) [] h k e = cc
hex_lower_injective (b ∷ s) (c ∷ t) h k e =
    let high = hex_digit_injective (b / 16) (c / 16) (omega arith) (omega arith) (cc) in
    let low = hex_digit_injective (b % 16) (c % 16) (omega arith) (omega arith) (cc) in
    let rest = hex_lower_injective s t h.1 k.1 (cc) in
    let same : b ≡ c = omega arith in cc (same, rest)

append_cancel : (s u v : Text) → s ++ u ≡ s ++ v → u ≡ v
append_cancel [] u v e = e
append_cancel (c ∷ s) u v e = append_cancel s u v (cc)

-- A key is a prefix that the store fixes, and the hash.
key_prefix : RefreshStoreConfig → Option RefreshNamespace → Text
key_prefix c none = c.key_prefix ++ (codes ":" ++ (c.key_version ++ codes ":"))
key_prefix c (some n) =
    n.value ++ (codes ":" ++ (c.key_prefix ++ (codes ":" ++ (c.key_version ++ codes ":"))))

store_key-eq-ok :
    (sha256 : List ℕ → List ℕ) (c : RefreshStoreConfig) (n : Option RefreshNamespace)
    (token key : Text)
    → store_key sha256 c n token ≡ ok key
    → key ≡ key_prefix c n ++ hex_lower (sha256 token)
unfolding store_key hash_refresh_token validate_token key_prefix
store_key-eq-ok sha256 c none token key h = simp append_assoc (ground arith)
store_key-eq-ok sha256 c (some n) token key h = simp append_assoc (ground arith)

-- Two tokens with one key in a store are the same token, where the digests of the two are bytes
-- and do not collide.
pub store_key-injective :
    (sha256 : List ℕ → List ℕ) (c : RefreshStoreConfig) (n : Option RefreshNamespace)
    (s t key : Text)
    → All (λ b. b < 256) (sha256 s)
    → All (λ b. b < 256) (sha256 t)
    → (sha256 s ≡ sha256 t → s ≡ t)
    → store_key sha256 c n s ≡ ok key
    → store_key sha256 c n t ≡ ok key
    → s ≡ t
store_key-injective sha256 c n s t key hs ht no_collision es et = no_collision (
    hex_lower_injective (sha256 s) (sha256 t) hs ht (
      append_cancel (key_prefix c n) _ _
        (sym (store_key-eq-ok sha256 c n s key es) ∙ store_key-eq-ok sha256 c n t key et)))
