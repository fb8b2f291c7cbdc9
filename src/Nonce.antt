-- ===== src/Nonce.antt =====
-- The replay protection of dtnex.c: `nonceCache`, `isNonceDuplicate` and `addNonceToCache`.
-- The array with its count is the list of its used entries, oldest first.
pub mod History
use dtnex_redesign.Base.{
  ℕ, Bool, true, false, ◌&&◌, List, [], ◌∷◌, ◌++◌, Bytes, length, ltb, ◌==◌, beq, if◌then◌else◌,
}

pub record NonceCache : Type 0 where
  pub nonce : Bytes
  pub origin : ℕ
  pub timestamp : ℕ

abbrev pub max_hash_cache : ℕ
max_hash_cache = 5000

-- The test of the loop's body on one entry.
unfoldable pub same_nonce : Bytes → ℕ → NonceCache → Bool
same_nonce nonce origin e = e.origin == origin && beq e.nonce nonce

unfoldable pub is_nonce_duplicate : Bytes → ℕ → List NonceCache → Bool
is_nonce_duplicate nonce origin [] = false
is_nonce_duplicate nonce origin (e ∷ cache) =
    if same_nonce nonce origin e then true else is_nonce_duplicate nonce origin cache

-- The loop `nonceCache[i] = nonceCache[i + 1]` for i below the count - 1 and the store over the
-- last entry that follows it.
unfoldable pub shift_in : NonceCache → List NonceCache → List NonceCache
shift_in e [] = []
shift_in e (x ∷ []) = e ∷ []
shift_in e (x ∷ y ∷ cache) = y ∷ shift_in e (y ∷ cache)

-- `limit` is `MAX_HASH_CACHE`.
unfoldable pub add_nonce : ℕ → NonceCache → List NonceCache → List NonceCache
add_nonce limit e cache = if ltb (length cache) limit then cache ++ (e ∷ []) else shift_in e cache

unfoldable pub add_nonce_to_cache : Bytes → ℕ → ℕ → List NonceCache → List NonceCache
add_nonce_to_cache nonce origin now =
    add_nonce max_hash_cache (record { nonce = nonce; origin = origin; timestamp = now })
