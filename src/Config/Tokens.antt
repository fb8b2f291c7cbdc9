-- ===== src/Config/Tokens.antt =====
-- The parts of `parse_line` on texts whose delimiters are known.
use dtnex_redesign.Base.{
  ℕ, ◌≡◌, refl, ap, ◌≢◌, ◌==◌, true, false, some, [], ◌∷◌, ◌++◌, Bytes, All, arith, ==_ne,
}
use dtnex_redesign.Config.Lines.{
  isspace, before, from_first, skip_byte, strtok, trim_tail, ends_with,
}

before-append : (d : ℕ) (xs ys : Bytes) → All (λ b. b ≢ d) xs → before d (xs ++ d ∷ ys) ≡ xs
unfolding before
before-append d [] ys h = ground arith
before-append d (x ∷ xs) ys h = rw (==_ne x d h.0) (ap (◌∷◌ x) (before-append d xs ys h.1))

from_first-append :
    (d : ℕ) (xs ys : Bytes) → All (λ b. b ≢ d) xs → from_first d (xs ++ d ∷ ys) ≡ d ∷ ys
unfolding from_first
from_first-append d [] ys h = ground arith
from_first-append d (x ∷ xs) ys h = rw (==_ne x d h.0) (from_first-append d xs ys h.1)

pub before-absent : (d : ℕ) (xs : Bytes) → All (λ b. b ≢ d) xs → before d xs ≡ xs
unfolding before
before-absent d [] h = refl
before-absent d (x ∷ xs) h = rw (==_ne x d h.0) (ap (◌∷◌ x) (before-absent d xs h.1))

-- The token before a delimiter, which is not the first byte.
pub strtok-append :
    (d x : ℕ) (xs ys : Bytes)
    → All (λ b. b ≢ d) (x ∷ xs)
    → strtok d (x ∷ (xs ++ d ∷ ys)) ≡ some (x ∷ xs, ys)
unfolding strtok skip_byte before from_first
strtok-append d x xs ys h =
    let e : (x == d) ≡ false = ==_ne x d h.0 in
    rw (strtok, e, e, before-append d xs ys h.1, from_first-append d xs ys h.1) refl

pub trim_tail-word : (xs : Bytes) → All (λ b. isspace b ≡ false) xs → trim_tail xs ≡ xs
unfolding trim_tail
trim_tail-word [] h = refl
trim_tail-word (x ∷ []) h = rw (h.0) refl
trim_tail-word (x ∷ y ∷ xs) h = rw (trim_tail-word (y ∷ xs) h.1) refl

pub trim_tail-append : (xs : Bytes) → trim_tail (xs ++ b'"' ∷ []) ≡ xs ++ b'"' ∷ []
unfolding trim_tail isspace
trim_tail-append [] = refl
trim_tail-append (x ∷ []) = refl
trim_tail-append (x ∷ y ∷ xs) = rw (trim_tail-append (y ∷ xs)) refl

pub ends_with-append : (x : ℕ) (xs : Bytes) → ends_with b'"' (x ∷ (xs ++ b'"' ∷ [])) ≡ true
unfolding ends_with
ends_with-append x [] = refl
ends_with-append x (y ∷ xs) = ends_with-append y xs
