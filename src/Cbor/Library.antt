-- ===== src/Cbor/Library.antt =====
-- The functions of ION's cbor.h that dtnex.c calls, as a parameter, and their documented contract:
-- each encoder writes its item in the shortest form, and each decoder reads such an item and
-- leaves the cursor behind it. `none` is the return value 0.
use dtnex_redesign.Base.{ℕ, ◌≤◌, ◌<◌, ◌^◌, ◌≡◌, Option, some, ◌++◌, Bytes, length}
use dtnex_redesign.Cbor.Format.{integer, byte_string, text_string, array_open}

pub record CborLib : Type 0 where
  pub encode_integer : ℕ → Bytes
  pub encode_byte_string : Bytes → Bytes
  pub encode_text_string : Bytes → Bytes
  pub encode_array_open : ℕ → Bytes
  pub decode_integer : Bytes → Option (ℕ × Bytes)
  -- the first argument is the largest size that is accepted
  pub decode_byte_string : ℕ → Bytes → Option (Bytes × Bytes)
  pub decode_text_string : ℕ → Bytes → Option (Bytes × Bytes)
  -- at the size 0, which accepts any array
  pub decode_array_open : Bytes → Option (ℕ × Bytes)

pub record IsCborEncoder (lib : CborLib) : Type 0 where
  pub encode_integer_lem : (v : ℕ) → v < 2 ^ 64 → lib.encode_integer v ≡ integer v
  pub encode_byte_string_lem :
      (s : Bytes) → length s < 2 ^ 64 → lib.encode_byte_string s ≡ byte_string s
  pub encode_text_string_lem :
      (s : Bytes) → length s < 2 ^ 64 → lib.encode_text_string s ≡ text_string s
  pub encode_array_open_lem : (n : ℕ) → n < 2 ^ 64 → lib.encode_array_open n ≡ array_open n

pub record IsCborDecoder (lib : CborLib) : Type 0 where
  pub decode_integer_lem :
      (v : ℕ) (rest : Bytes) → v < 2 ^ 64 → lib.decode_integer (integer v ++ rest) ≡ some (v, rest)
  pub decode_byte_string_lem :
      (max : ℕ) (s rest : Bytes)
      → length s ≤ max
      → max < 2 ^ 64
      → lib.decode_byte_string max (byte_string s ++ rest) ≡ some (s, rest)
  pub decode_text_string_lem :
      (max : ℕ) (s rest : Bytes)
      → length s ≤ max
      → max < 2 ^ 64
      → lib.decode_text_string max (text_string s ++ rest) ≡ some (s, rest)
  pub decode_array_open_lem :
      (n : ℕ) (rest : Bytes)
      → n < 2 ^ 64
      → lib.decode_array_open (array_open n ++ rest) ≡ some (n, rest)
