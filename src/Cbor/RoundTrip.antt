-- ===== src/Cbor/RoundTrip.antt =====
-- The readers on well-formed items.
use dtnex_redesign.Base.{
  ℕ, zero, suc, ◌-◌, ◌^◌, ◌<◌, ◌≡◌, refl, ap, none, some, [], ◌∷◌, ◌++◌, Bytes, ltb, if◌then◌else◌,
  arith, length, All, inr, ◌>>=◌, ◌⊎◌,
}
use mathlib.Core.List.{append_assoc}
use dtnex_redesign.Cbor.{
  read_be, take_exact, c_string, integer_argument, manual_decode_cbor_integer, string_length,
  manual_decode_cbor_string, exceeds, read_int32, skip_bytes, skip_cbor_element,
}
use dtnex_redesign.Cbor.Format.{head, integer, text_string, bytes1, bytes2, bytes4, bytes8}

pub read_bytes1 :
    (v : ℕ) (rest : Bytes) → v < 2 ^ 8 → read_be 1 0 (bytes1 v ++ rest) ≡ some (v, rest)
unfolding read_be
read_bytes1 v rest h = ap (λ (x : ℕ). some (x, rest)) (omega arith)

pub read_bytes2 :
    (v : ℕ) (rest : Bytes) → v < 2 ^ 16 → read_be 2 0 (bytes2 v ++ rest) ≡ some (v, rest)
unfolding read_be
read_bytes2 v rest h = ap (λ (x : ℕ). some (x, rest)) (omega arith)

pub read_bytes4 :
    (v : ℕ) (rest : Bytes) → v < 2 ^ 32 → read_be 4 0 (bytes4 v ++ rest) ≡ some (v, rest)
unfolding read_be
read_bytes4 v rest h = ap (λ (x : ℕ). some (x, rest)) (omega arith)

pub read_bytes8 :
    (v : ℕ) (rest : Bytes) → v < 2 ^ 64 → read_be 8 0 (bytes8 v ++ rest) ≡ some (v, rest)
unfolding read_be
read_bytes8 v rest h = ap (λ (x : ℕ). some (x, rest)) (omega arith)

-- The integer reader takes every value below 2^64 back from its shortest form, and leaves what
-- follows.
pub manual_decode_cbor_integer-integer :
    (v : ℕ) (rest : Bytes)
    → v < 2 ^ 64
    → manual_decode_cbor_integer (integer v ++ rest) ≡ some (v, rest)
unfolding manual_decode_cbor_integer integer_argument head
manual_decode_cbor_integer-integer v rest h =
    ground (arith, read_bytes1 v rest, read_bytes2 v rest, read_bytes4 v rest, read_bytes8 v rest)

pub take_exact-append : (s rest : Bytes) → take_exact (length s) (s ++ rest) ≡ some (s, rest)
unfolding take_exact
take_exact-append [] rest = refl
take_exact-append (b ∷ s) rest = ground (arith, take_exact-append s rest)

-- A text holds no zero byte.
abbrev pub IsText : Bytes → Type 0
IsText = All (λ (b : ℕ). 0 < b)

pub c_string-text : (s : Bytes) → IsText s → c_string s ≡ s
unfolding c_string
c_string-text [] h = refl
c_string-text (b ∷ s) h = ground (arith, c_string-text s h.1)

string_head :
    (max_len n : ℕ) (bytes : Bytes)
    → n < 2 ^ 16
    → manual_decode_cbor_string max_len (head 3 n ++ bytes)
      ≡ (if exceeds max_len n then none else (take_exact n bytes >>= λ r. some (c_string r.0, r.1)))
unfolding manual_decode_cbor_string string_length head
string_head max_len n bytes h = ground (arith, read_bytes1 n bytes, read_bytes2 n bytes)

exceeds_lem : (max_len len : ℕ) → 0 < max_len → exceeds max_len len ≡ ltb (max_len - 1) len
unfolding exceeds
exceeds_lem zero len h = absurd (omega arith)
exceeds_lem (suc max_len) len h = ground arith

-- The text reader takes a text without zero bytes back if it leaves room for the final zero in the
-- caller's limit, which is not 0, and refuses every longer one below 2^16 bytes.
pub manual_decode_cbor_string-text_string :
    (max_len : ℕ) (s rest : Bytes)
    → 0 < max_len
    → length s < 2 ^ 16
    → IsText s
    → manual_decode_cbor_string max_len (text_string s ++ rest)
      ≡ (if ltb (max_len - 1) (length s) then none else some (s, rest))
manual_decode_cbor_string-text_string max_len s rest positive h t = rw (
  append_assoc,
  string_head max_len (length s) (s ++ rest) h,
  exceeds_lem max_len (length s) positive,
  take_exact-append s rest,
  c_string-text s t,
)

skip_bytes-append : (s rest : Bytes) → skip_bytes (length s) (s ++ rest) ≡ some rest
unfolding skip_bytes
skip_bytes-append [] rest = refl
skip_bytes-append (b ∷ s) rest = skip_bytes-append s rest

-- Skipping an integer leaves what follows it.
pub skip_cbor_element-integer :
    (v : ℕ) (rest : Bytes) → skip_cbor_element (integer v ++ rest) ≡ some rest
unfolding skip_cbor_element skip_bytes head
skip_cbor_element-integer v rest = ground arith

skip_string_head :
    (m n : ℕ) (bytes : Bytes)
    → (m ≡ 2) ⊎ (m ≡ 3)
    → n < 2 ^ 32
    → skip_cbor_element (head m n ++ bytes) ≡ skip_bytes n bytes
unfolding skip_cbor_element read_int32 head
skip_string_head m n bytes k h = ground arith

-- Skipping a text string leaves what follows it.
pub skip_cbor_element-text_string :
    (s rest : Bytes) → length s < 2 ^ 32 → skip_cbor_element (text_string s ++ rest) ≡ some rest
skip_cbor_element-text_string s rest h =
    rw (append_assoc, skip_string_head 3 (length s) (s ++ rest) (inr refl) h)
      (skip_bytes-append s rest)
