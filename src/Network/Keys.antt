-- ===== src/Network/Keys.antt =====
-- The nonces that a node has yet to see: how a node's cache of `addNonceToCache` of dtnex.c uses them
-- up.
use dtnex_redesign.Base.{
  ℕ, suc, ◌+◌, ◌≡◌, ◌≤◌, ◌<◌, true, false, List, [], ◌∷◌, ◌++◌, Bytes, length, length-append,
  if◌then◌else◌, beq→eq, arith, Bool-cases, inl, inr, ltb,
}
use dtnex_redesign.Nonce.{
  NonceCache, max_hash_cache, same_nonce, is_nonce_duplicate, add_nonce, add_nonce_to_cache,
}
use dtnex_redesign.Nonce.History.{duplicate-append, duplicate_self}

-- How many of the keys are not in the cache.
unfoldable pub unseen : List NonceCache → List NonceCache → ℕ
unseen cache [] = 0
unseen cache (k ∷ keys) =
    let rest = unseen cache keys in
    if is_nonce_duplicate k.nonce k.origin cache then rest else suc rest

duplicate-added :
    (k e : NonceCache) (cache : List NonceCache)
    → is_nonce_duplicate k.nonce k.origin cache ≡ true
    → is_nonce_duplicate k.nonce k.origin (cache ++ (e ∷ [])) ≡ true
duplicate-added k e cache h = ground (arith, duplicate-append k.nonce k.origin cache (e ∷ []))

unseen-added-le :
    (e : NonceCache) (cache keys : List NonceCache)
    → unseen (cache ++ (e ∷ [])) keys ≤ unseen cache keys
unfolding unseen
unseen-added-le e cache [] = omega arith
unseen-added-le e cache (k ∷ keys) =
    ground (arith, unseen-added-le e cache keys, duplicate-added k e cache)

same_key :
    (k : NonceCache) (nonce : Bytes) (origin : ℕ)
    → same_nonce nonce origin k ≡ true
    → (k.nonce ≡ nonce) × (k.origin ≡ origin)
unfolding same_nonce
same_key k nonce origin h = (beq→eq k.nonce nonce (ground arith), ground arith)

-- A key that was not in the cache is used up.
unseen-added :
    (e : NonceCache) (cache keys : List NonceCache)
    → is_nonce_duplicate e.nonce e.origin keys ≡ true
    → is_nonce_duplicate e.nonce e.origin cache ≡ false
    → unseen (cache ++ (e ∷ [])) keys < unseen cache keys
unfolding unseen is_nonce_duplicate
unseen-added e cache [] known fresh = cc
unseen-added e cache (k ∷ keys) known fresh = elim (Bool-cases (same_nonce e.nonce e.origin k)) [
  | inl same ↦
      let (nonce, origin) = same_key k e.nonce e.origin same in
      let now : is_nonce_duplicate k.nonce k.origin (cache ++ (e ∷ [])) ≡ true =
        rw (nonce, origin, duplicate-append, duplicate_self e []) (ground arith) in
      let before : is_nonce_duplicate k.nonce k.origin cache ≡ false = rw (nonce, origin) fresh in
      ground (arith, now, before, unseen-added-le e cache keys)
  | inr other ↦ ground (arith, other, unseen-added e cache keys, duplicate-added k e cache)
]

-- While the cache has room for all the keys that are unseen, an addition uses one up and leaves
-- room for the rest.
pub unseen-add_nonce_to_cache :
    (nonce : Bytes) (origin now : ℕ) (cache keys : List NonceCache)
    → is_nonce_duplicate nonce origin keys ≡ true
    → is_nonce_duplicate nonce origin cache ≡ false
    → length cache + unseen cache keys ≤ max_hash_cache
    → (unseen (add_nonce_to_cache nonce origin now cache) keys < unseen cache keys)
      × (length (add_nonce_to_cache nonce origin now cache) ≤ suc (length cache))
unfolding add_nonce_to_cache add_nonce
unseen-add_nonce_to_cache nonce origin now cache keys known fresh room =
    let e : NonceCache = record { nonce = nonce; origin = origin; timestamp = now } in
    let used = unseen-added e cache keys known fresh in
    let small : ltb (length cache) max_hash_cache ≡ true = ground arith in
    rw (add_nonce_to_cache, add_nonce, small) (used, omega (arith, length-append cache (e ∷ [])))
