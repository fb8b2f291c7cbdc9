-- ===== src/Cbor/Format.antt =====
-- The wire format of CBOR (RFC 8949) for the items that DTNEX exchanges: the description against
-- which the readers and the library are held.
use dtnex_redesign.Base.{
  ℕ, ◌+◌, ◌*◌, ◌/◌, ◌%◌, ◌^◌, [], ◌∷◌, ◌++◌, Bytes, ltb, length, if◌then◌else◌,
}

abbrev pub bytes1 : ℕ → Bytes
bytes1 v = v % 256 ∷ []

abbrev pub bytes2 : ℕ → Bytes
bytes2 v = v / 256 % 256 ∷ bytes1 v

abbrev pub bytes4 : ℕ → Bytes
bytes4 v = v / 2 ^ 24 % 256 ∷ v / 2 ^ 16 % 256 ∷ bytes2 v

abbrev pub bytes8 : ℕ → Bytes
bytes8 v = v / 2 ^ 56 % 256 ∷ v / 2 ^ 48 % 256 ∷ v / 2 ^ 40 % 256 ∷ v / 2 ^ 32 % 256 ∷ bytes4 v

-- The head of an item of major type `m` with argument `v`, in the shortest form.
unfoldable pub head : ℕ → ℕ → Bytes
head m v =
    if ltb v 24
    then (m * 32 + v) ∷ []
    else if ltb v (2 ^ 8)
    then (m * 32 + 24) ∷ bytes1 v
    else if ltb v (2 ^ 16)
    then (m * 32 + 25) ∷ bytes2 v
    else if ltb v (2 ^ 32)
    then (m * 32 + 26) ∷ bytes4 v
    else (m * 32 + 27) ∷ bytes8 v

-- An unsigned integer, a byte string, a text string, and the head of an array.
abbrev pub integer : ℕ → Bytes
integer v = head 0 v

abbrev pub byte_string : Bytes → Bytes
byte_string s = head 2 (length s) ++ s

abbrev pub text_string : Bytes → Bytes
text_string s = head 3 (length s) ++ s

abbrev pub array_open : ℕ → Bytes
array_open n = head 4 n
