-- ===== src/Cbor/Consumed.antt =====
-- What the readers leave of the buffer: the cursor only moves on, so what is left is an end of what was
-- there. For the functions of ION's cbor.h this is their documented contract.
use dtnex_redesign.Base.{
  ℕ, zero, suc, ◌*◌, ◌+◌, ◌%◌, ◌^◌, ◌/◌, ◌≡◌, sym, ap, ◌∙◌, Bool, true, false, ◌||◌, Option, none,
  some, [], ◌∷◌, ◌++◌, Bytes, length, ◌>>=◌, ◌>>◌, guard, leb, ◌==◌, arith, Bool-cases,
  Option-cases, inl, inr,
}
use mathlib.Core.List.{append_assoc}
use dtnex_redesign.Cbor.{
  take_exact, read_int32, skip_bytes, bytes_to_skip, skip_cbor_element, skip_elements,
}
use dtnex_redesign.Cbor.Library.{CborLib}

-- The second is an end of the first.
abbrev pub EndsIn : Bytes → Bytes → Type 0
EndsIn bytes rest = (used : Bytes) × (bytes ≡ used ++ rest)

pub EndsIn-trans : (a b c : Bytes) → EndsIn a b → EndsIn b c → EndsIn a c
EndsIn-trans a b c (used, e) (more, f) =
    (used ++ more, e ∙ ap (λ x. used ++ x) f ∙ sym (append_assoc used more c))

EndsIn-cons : (x : ℕ) (a b : Bytes) → EndsIn a b → EndsIn (x ∷ a) b
EndsIn-cons x a b (used, e) = (x ∷ used, ap (◌∷◌ x) e)

-- What a reader leaves, if it reads.
abbrev pub Leaves : {A : Type 0} → Bytes → Option (A × Bytes) → Type 0
Leaves bytes none = Unit
Leaves bytes (some (a, rest)) = EndsIn bytes rest

pub bind-Leaves :
    {A B : Type 0} (bytes from : Bytes) (m : Option (A × Bytes))
    (k : A × Bytes → Option (B × Bytes))
    → EndsIn bytes from
    → Leaves from m
    → ((a : A) (rest : Bytes) → EndsIn bytes rest → Leaves bytes (k (a, rest)))
    → Leaves bytes (m >>= k)
bind-Leaves bytes from none k e h f = tt
bind-Leaves bytes from (some (a, rest)) k e h f = f a rest (EndsIn-trans bytes from rest e h)

pub guard-Leaves :
    {A : Type 0} (bytes : Bytes) (b : Bool) (m : Option (A × Bytes))
    → Leaves bytes m
    → Leaves bytes (guard b >> m)
guard-Leaves bytes true m h = h
guard-Leaves bytes false m h = tt

-- The contract of the decoders of cbor.h.
pub record IsCborCursor (lib : CborLib) : Type 0 where
  pub decode_integer_rest : (bytes : Bytes) → Leaves bytes (lib.decode_integer bytes)
  pub decode_byte_string_rest :
      (max : ℕ) (bytes : Bytes) → Leaves bytes (lib.decode_byte_string max bytes)
  pub decode_text_string_rest :
      (max : ℕ) (bytes : Bytes) → Leaves bytes (lib.decode_text_string max bytes)
  pub decode_array_open_rest : (bytes : Bytes) → Leaves bytes (lib.decode_array_open bytes)

pub take_exact-split :
    (n : ℕ) (bytes s rest : Bytes)
    → take_exact n bytes ≡ some (s, rest)
    → (bytes ≡ s ++ rest) × (length s ≡ n)
unfolding take_exact
take_exact-split zero bytes s rest h = (ground arith, ground arith)
take_exact-split (suc n) [] s rest h = cc
take_exact-split (suc n) (b ∷ bytes) s rest h = elim (Option-cases (take_exact n bytes)) [
  | inl short ↦ absurd (ground arith)
  | inr ((s', rest'), taken) ↦
      let (split, size) = take_exact-split n bytes s' rest' taken in (ground arith, ground arith)
]

skip_bytes-rest : (n : ℕ) (bytes rest : Bytes) → skip_bytes n bytes ≡ some rest → EndsIn bytes rest
unfolding skip_bytes
skip_bytes-rest zero bytes rest h = ([], ground arith)
skip_bytes-rest (suc n) [] rest h = cc
skip_bytes-rest (suc n) (b ∷ bytes) rest h =
    EndsIn-cons b bytes rest (skip_bytes-rest n bytes rest h)

read_int32-rest :
    (n acc : ℕ) (bytes : Bytes) (v : ℕ) (rest : Bytes)
    → read_int32 n acc bytes ≡ some (v, rest)
    → EndsIn bytes rest
unfolding read_int32
read_int32-rest zero acc bytes v rest h = ([], ground arith)
read_int32-rest (suc n) acc [] v rest h = cc
read_int32-rest (suc n) acc (b ∷ bytes) v rest h =
    EndsIn-cons b bytes rest (read_int32-rest n ((acc * 256 + b) % 2 ^ 32) bytes v rest h)

skip_cbor_element-rest :
    (bytes rest : Bytes) → skip_cbor_element bytes ≡ some rest → EndsIn bytes rest
unfolding skip_cbor_element
skip_cbor_element-rest [] rest h = cc
skip_cbor_element-rest (byte ∷ bytes) rest h =
    EndsIn-cons byte bytes rest (elim (Option-cases (bytes_to_skip (byte % 32))) [
      | inl bad ↦ absurd (ground arith)
      | inr (n, head) ↦ elim (Bool-cases (byte / 32 == 2 || byte / 32 == 3)) [
        | inl string ↦ elim (Bool-cases (leb 24 (byte % 32))) [
          | inl long ↦ elim (Option-cases (read_int32 n 0 bytes)) [
            | inl short ↦ absurd (ground arith)
            | inr ((size, after), read) ↦
                EndsIn-trans bytes after rest (read_int32-rest n 0 bytes size after read)
                  (skip_bytes-rest size after rest (ground arith))
          ]
          | inr direct ↦ skip_bytes-rest (byte % 32) bytes rest (ground arith)
        ]
        | inr other ↦ skip_bytes-rest n bytes rest (ground arith)
      ]
    ])

pub skip_elements-rest :
    (n : ℕ) (bytes rest : Bytes) → skip_elements n bytes ≡ some rest → EndsIn bytes rest
unfolding skip_elements
skip_elements-rest zero bytes rest h = ([], ground arith)
skip_elements-rest (suc n) bytes rest h = elim (Option-cases (skip_cbor_element bytes)) [
  | inl bad ↦ absurd (ground arith)
  | inr (after, skipped) ↦
      EndsIn-trans bytes after rest (skip_cbor_element-rest bytes after skipped)
        (skip_elements-rest n after rest (ground arith))
]
