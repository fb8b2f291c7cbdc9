-- ===== src/Cbor/Cursor.antt =====
-- The two ways through the fields of a message: the reader that extracts a value, and the one that
-- skips it for the sake of the tag. `decodeCborMessage` runs both over the same bytes.
use dtnex_redesign.Base.{
  ℕ, zero, suc, ◌+◌, ◌*◌, ◌%◌, ◌≤◌, ◌<◌, ◌≡◌, some, Bytes, [], ◌∷◌, arith, All, ltb, ◌==◌,
  Option-cases, Bool-cases, inl, inr,
}
use dtnex_redesign.Cbor.{
  read_be, take_exact, integer_argument, manual_decode_cbor_integer, string_length,
  manual_decode_cbor_string, read_int32, skip_bytes, bytes_to_skip, skip_cbor_element,
}

read_be-skip :
    (n acc : ℕ) (bytes : Bytes) (v : ℕ) (rest : Bytes)
    → read_be n acc bytes ≡ some (v, rest)
    → skip_bytes n bytes ≡ some rest
unfolding read_be skip_bytes
read_be-skip zero acc bytes v rest h = ground arith
read_be-skip (suc n) acc [] v rest h = cc
read_be-skip (suc n) acc (b ∷ bytes) v rest h = read_be-skip n (acc * 256 + b) bytes v rest h

-- Whatever the bytes are, an integer that is extracted is skipped to the same position.
manual_decode_cbor_integer-skip :
    (bytes : Bytes) (v : ℕ) (rest : Bytes)
    → manual_decode_cbor_integer bytes ≡ some (v, rest)
    → skip_cbor_element bytes ≡ some rest
unfolding manual_decode_cbor_integer integer_argument skip_cbor_element skip_bytes
manual_decode_cbor_integer-skip [] v rest h = cc
manual_decode_cbor_integer-skip (byte ∷ bytes) v rest h = ground (
  arith,
  read_be-skip 1 0 bytes v rest,
  read_be-skip 2 0 bytes v rest,
  read_be-skip 4 0 bytes v rest,
  read_be-skip 8 0 bytes v rest,
)

abbrev IsBuffer : Bytes → Type 0
IsBuffer = All (λ (b : ℕ). b < 256)

take_exact-skip :
    (n : ℕ) (bytes s rest : Bytes)
    → take_exact n bytes ≡ some (s, rest)
    → skip_bytes n bytes ≡ some rest
unfolding take_exact skip_bytes
take_exact-skip zero bytes s rest h = ground arith
take_exact-skip (suc n) [] s rest h = cc
take_exact-skip (suc n) (b ∷ bytes) s rest h = elim (Option-cases (take_exact n bytes)) [
  | inl short ↦ absurd (ground arith)
  | inr ((s', rest'), taken) ↦ ground (arith, take_exact-skip n bytes s' rest' taken)
]

-- The two lengths of a text are the same, where the text reader supports the head.
string_length-int32 :
    (info : ℕ) (bytes : Bytes) (n : ℕ) (rest : Bytes)
    → IsBuffer bytes
    → 24 ≤ info
    → string_length info bytes ≡ some (n, rest)
    → (k : ℕ) × (bytes_to_skip info ≡ some k) × (read_int32 k 0 bytes ≡ some (n, rest))
unfolding string_length bytes_to_skip read_int32 read_be
string_length-int32 info [] n rest b large h = absurd (ground arith)
string_length-int32 info (x ∷ []) n rest b large h = (1, ground arith, ground arith)
string_length-int32 info (x ∷ y ∷ bytes) n rest b large h = elim (Bool-cases (info == 24)) [
  | inl one ↦ (1, ground arith, ground arith)
  | inr more ↦ (2, ground arith, ground arith)
]

direct_length :
    (info : ℕ) (bytes : Bytes) (n : ℕ) (rest : Bytes)
    → info < 24
    → string_length info bytes ≡ some (n, rest)
    → (bytes_to_skip info ≡ some 0) × (n ≡ info) × (rest ≡ bytes)
unfolding string_length bytes_to_skip
direct_length info bytes n rest small h = (ground arith, ground arith, ground arith)

-- Whatever the bytes are, a text that is extracted is skipped to the same position.
manual_decode_cbor_string-skip :
    (max_len : ℕ) (bytes s rest : Bytes)
    → IsBuffer bytes
    → manual_decode_cbor_string max_len bytes ≡ some (s, rest)
    → skip_cbor_element bytes ≡ some rest
unfolding manual_decode_cbor_string skip_cbor_element
manual_decode_cbor_string-skip max_len [] s rest b h = cc
manual_decode_cbor_string-skip max_len (byte ∷ bytes) s rest b h =
    elim (Option-cases (string_length (byte % 32) bytes)) [
      | inl bad ↦ absurd (ground arith)
      | inr ((n, after), size) ↦ elim (Option-cases (take_exact n after)) [
        | inl short ↦ absurd (ground arith)
        | inr ((text, rest'), taken) ↦ elim (Bool-cases (ltb (byte % 32) 24)) [
          | inl direct ↦ ground (
            arith,
            direct_length (byte % 32) bytes n after,
            take_exact-skip n after text rest' taken,
          )
          | inr long ↦
              let (k, follows, read) =
                string_length-int32 (byte % 32) bytes n after b.1 (ground arith) size in
              ground (arith, follows, read, take_exact-skip n after text rest' taken)
        ]
      ]
    ]
