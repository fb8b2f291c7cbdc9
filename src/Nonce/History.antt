-- ===== src/Nonce/History.antt =====
-- The nonce cache against the history of everything that was added to it.
use dtnex_redesign.Base.{
  ℕ, zero, suc, ◌-◌, ◌≤◌, ◌<◌, ◌≡◌, refl, sym, ap, ◌∙◌, inl, inr, true, false, List, [], ◌∷◌, ◌++◌,
  Bytes, length, drop, length-append, length-drop, arith, beq_refl, Bool-cases, ltb, ◌||◌,
}
use mathlib.Core.List.{append-nil, append_assoc}
use dtnex_redesign.Nonce.{NonceCache, same_nonce, is_nonce_duplicate, shift_in, add_nonce}

-- The last `n` elements.
unfoldable pub last_n {ℓ} : {A : Type ℓ} → ℕ → List A → List A
last_n n xs = drop (length xs - n) xs

-- Everything that was added, in order.
unfoldable pub remember : ℕ → List NonceCache → List NonceCache → List NonceCache
remember limit cache [] = cache
remember limit cache (e ∷ es) = remember limit (add_nonce limit e cache) es

shift_in-drop :
    (e : NonceCache) (xs : List NonceCache) → 0 < length xs → shift_in e xs ≡ drop 1 xs ++ (e ∷ [])
unfolding shift_in
shift_in-drop e [] h = absurd (omega arith)
shift_in-drop e (x ∷ []) h = refl
shift_in-drop e (x ∷ y ∷ xs) h = ap (◌∷◌ y) (shift_in-drop e (y ∷ xs) (omega arith))

drop-append {ℓ} :
    {A : Type ℓ} (n : ℕ) (xs ys : List A) → n ≤ length xs → drop n (xs ++ ys) ≡ drop n xs ++ ys
drop-append zero xs ys h = refl
drop-append (suc n) [] ys h = absurd (omega arith)
drop-append (suc n) (x ∷ xs) ys h = drop-append n xs ys (omega arith)

drop-drop_one {ℓ} : {A : Type ℓ} (n : ℕ) (xs : List A) → drop 1 (drop n xs) ≡ drop (suc n) xs
drop-drop_one zero xs = refl
drop-drop_one (suc n) [] = refl
drop-drop_one (suc n) (x ∷ xs) = drop-drop_one n xs

length-last_n {ℓ} : {A : Type ℓ} (n : ℕ) (xs : List A) → length (last_n n xs) ≤ n
unfolding last_n
length-last_n n xs = omega (arith, length-drop (length xs - n) xs)

add_room :
    (limit : ℕ) (e : NonceCache) (h : List NonceCache)
    → length h < limit
    → add_nonce limit e (last_n limit h) ≡ last_n limit (h ++ (e ∷ []))
unfolding add_nonce last_n
add_room limit e h room =
    let all_kept : length h - limit ≡ 0 = omega arith in
    let still : length (h ++ (e ∷ [])) - limit ≡ 0 = omega (arith, length-append h (e ∷ [])) in
    rw (all_kept, still) (ground arith)

add_full :
    (limit : ℕ) (e : NonceCache) (h : List NonceCache)
    → 0 < limit
    → limit ≤ length h
    → add_nonce limit e (last_n limit h) ≡ last_n limit (h ++ (e ∷ []))
unfolding add_nonce last_n
add_full limit e h pos full =
    let k = length h - limit in
    let more : length (h ++ (e ∷ [])) - limit ≡ suc k = omega (arith, length-append h (e ∷ [])) in
    let size : length (drop k h) ≡ limit = omega (arith, length-drop k h) in
    rw more (
      ground (
        arith,
        size,
        shift_in-drop e (drop k h),
        drop-drop_one k h,
        drop-append (suc k) h (e ∷ []),
      ))

-- One addition to the last entries of a history gives the last entries of the longer one.
add_nonce-last_n :
    (limit : ℕ) (e : NonceCache) (h : List NonceCache)
    → 0 < limit
    → add_nonce limit e (last_n limit h) ≡ last_n limit (h ++ (e ∷ []))
unfolding add_nonce last_n
add_nonce-last_n limit e h pos = elim (Bool-cases (ltb (length h) limit)) [
  | inl room ↦ add_room limit e h (ground arith)
  | inr full ↦ add_full limit e h pos (ground arith)
]

-- A cache that is the end of a history stays so: after any additions it holds exactly the last
-- entries, and the oldest are the ones that left.
pub remember-last_n :
    (limit : ℕ) (h es : List NonceCache)
    → 0 < limit
    → remember limit (last_n limit h) es ≡ last_n limit (h ++ es)
unfolding remember
remember-last_n limit h [] pos = ap (last_n limit) (sym (append-nil h))
remember-last_n limit h (e ∷ es) pos =
    ap (λ c. remember limit c es) (add_nonce-last_n limit e h pos)
    ∙ remember-last_n limit (h ++ (e ∷ [])) es pos
    ∙ ap (last_n limit) (append_assoc h (e ∷ []) es)

pub duplicate-append :
    (nonce : Bytes) (origin : ℕ) (xs ys : List NonceCache)
    → is_nonce_duplicate nonce origin (xs ++ ys)
      ≡ (is_nonce_duplicate nonce origin xs || is_nonce_duplicate nonce origin ys)
unfolding is_nonce_duplicate
duplicate-append nonce origin [] ys = refl
duplicate-append nonce origin (x ∷ xs) ys = ground (arith, duplicate-append nonce origin xs ys)

pub duplicate_self :
    (e : NonceCache) (xs : List NonceCache) → is_nonce_duplicate e.nonce e.origin (e ∷ xs) ≡ true
unfolding is_nonce_duplicate same_nonce
duplicate_self e xs = ground (arith, beq_refl e.nonce)

-- What is dropped from a list was in it.
duplicate-drop :
    (nonce : Bytes) (origin n : ℕ) (xs : List NonceCache)
    → is_nonce_duplicate nonce origin (drop n xs) ≡ true
    → is_nonce_duplicate nonce origin xs ≡ true
unfolding is_nonce_duplicate
duplicate-drop nonce origin zero xs h = h
duplicate-drop nonce origin (suc n) [] h = h
duplicate-drop nonce origin (suc n) (x ∷ xs) h = ground (arith, duplicate-drop nonce origin n xs)

drop-append_past {ℓ} :
    {A : Type ℓ} (n : ℕ) (x : A) (xs ys : List A)
    → n ≤ length xs
    → (zs : List A) × (drop n (xs ++ (x ∷ ys)) ≡ zs ++ (x ∷ ys))
drop-append_past n x xs ys h = (drop n xs, drop-append n xs (x ∷ ys) h)

-- A nonce that was added and is not yet pushed out by a full cache of later additions is
-- recognised as a duplicate.
pub remember-duplicate :
    (limit : ℕ) (h : List NonceCache) (e : NonceCache) (es : List NonceCache)
    → length es < limit
    → is_nonce_duplicate e.nonce e.origin (remember limit (last_n limit h) (e ∷ es)) ≡ true
unfolding last_n
remember-duplicate limit h e es room =
    let (zs, kept) =
      drop-append_past (length (h ++ (e ∷ es)) - limit) e h es
        (omega (arith, length-append h (e ∷ es))) in
    rw (remember-last_n limit h (e ∷ es) (omega arith), kept, duplicate-append, duplicate_self e es)
      (ground arith)

drop-nil : (n : ℕ) → drop {A = NonceCache} n [] ≡ []
drop-nil zero = refl
drop-nil (suc n) = refl

-- A nonce that was never added is never taken for a duplicate.
remember-fresh :
    (limit : ℕ) (es : List NonceCache) (nonce : Bytes) (origin : ℕ)
    → 0 < limit
    → is_nonce_duplicate nonce origin es ≡ false
    → is_nonce_duplicate nonce origin (remember limit [] es) ≡ false
unfolding last_n
remember-fresh limit es nonce origin pos h =
    let none_yet : drop (0 - limit) [] ≡ [] = drop-nil (0 - limit) in
    ground (
      arith,
      none_yet,
      remember-last_n limit [] es pos,
      duplicate-drop nonce origin (length es - limit) es,
    )
