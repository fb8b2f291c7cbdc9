-- ===== src/Cbor.antt =====
-- The hand-written CBOR readers of dtnex.c: `manualDecodeCborInteger`, `manualDecodeCborString`
-- and `skipCborElement`. A cursor with its count of buffered bytes is the list of the bytes that
-- are left. The major type `byte >> 5` is `byte / 32`, and `byte & 0x1F` is `byte % 32`.
pub mod Format
pub mod RoundTrip
pub mod Library
pub mod Cursor
pub mod Consumed
use dtnex_redesign.Base.{
  ℕ, zero, suc, ◌+◌, ◌*◌, ◌/◌, ◌%◌, ◌^◌, Bool, false, ◌||◌, Option, none, some, List, [], ◌∷◌,
  Bytes, ◌>>=◌, ltb, leb, ◌==◌, if◌then◌else◌,
}

-- `n` bytes as a big-endian number, after the value read so far.
unfoldable pub read_be : ℕ → ℕ → Bytes → Option (ℕ × Bytes)
read_be zero acc bytes = some (acc, bytes)
read_be (suc n) acc [] = none
read_be (suc n) acc (b ∷ bytes) = read_be n (acc * 256 + b) bytes

-- `n` bytes copied out of the buffer, where so many are left.
unfoldable pub take_exact : ℕ → Bytes → Option (Bytes × Bytes)
take_exact zero bytes = some ([], bytes)
take_exact (suc n) [] = none
take_exact (suc n) (b ∷ bytes) = take_exact n bytes >>= λ r. some (b ∷ r.0, r.1)

-- The text that a zero-terminated buffer holds.
unfoldable pub c_string : Bytes → Bytes
c_string [] = []
c_string (b ∷ bytes) = if b == 0 then [] else b ∷ c_string bytes

-- The argument that the additional information of a head announces.
unfoldable pub integer_argument : ℕ → Bytes → Option (ℕ × Bytes)
integer_argument info bytes =
    if ltb info 24
    then some (info, bytes)
    else if info == 24
    then read_be 1 0 bytes
    else if info == 25
    then read_be 2 0 bytes
    else if info == 26
    then read_be 4 0 bytes
    else if info == 27
    then read_be 8 0 bytes
    else none

unfoldable pub manual_decode_cbor_integer : Bytes → Option (ℕ × Bytes)
manual_decode_cbor_integer [] = none
manual_decode_cbor_integer (byte ∷ bytes) =
    if byte / 32 == 0 then integer_argument (byte % 32) bytes else none

-- The length of a text string: four and eight bytes are not supported.
unfoldable pub string_length : ℕ → Bytes → Option (ℕ × Bytes)
string_length info bytes =
    if ltb info 24
    then some (info, bytes)
    else if info == 24
    then read_be 1 0 bytes
    else if info == 25
    then read_be 2 0 bytes
    else none

-- `stringLen > maxLen - 1` compares as unsigned: at the limit 0 the right side is the largest value.
unfoldable pub exceeds : ℕ → ℕ → Bool
exceeds zero len = false
exceeds (suc max_len) len = ltb max_len len

-- The result is the text in the caller's buffer, which ends at the first zero byte.
unfoldable pub manual_decode_cbor_string : ℕ → Bytes → Option (Bytes × Bytes)
unfolding exceeds
manual_decode_cbor_string max_len [] = none
manual_decode_cbor_string max_len (byte ∷ bytes) =
    if byte / 32 == 3
    then (string_length (byte % 32) bytes >>= λ l.
        if exceeds max_len l.0
        then none
        else (take_exact l.0 l.1 >>= λ r. some (c_string r.0, r.1)))
    else none

-- `length = (length << 8) | byte` in a 32-bit `int`, here its bit pattern.
unfoldable pub read_int32 : ℕ → ℕ → Bytes → Option (ℕ × Bytes)
read_int32 zero acc bytes = some (acc, bytes)
read_int32 (suc n) acc [] = none
read_int32 (suc n) acc (b ∷ bytes) = read_int32 n ((acc * 256 + b) % 2 ^ 32) bytes

unfoldable pub skip_bytes : ℕ → Bytes → Option Bytes
skip_bytes zero bytes = some bytes
skip_bytes (suc n) [] = none
skip_bytes (suc n) (b ∷ bytes) = skip_bytes n bytes

-- The `switch`: how many bytes follow the head.
unfoldable pub bytes_to_skip : ℕ → Option ℕ
bytes_to_skip info =
    if info == 24
    then some 1
    else if info == 25
    then some 2
    else if info == 26
    then some 4
    else if info == 27
    then some 8
    else if ltb info 24
    then some 0
    else none

-- The comparison of the count with `bytesBuffered` is unsigned, so a bit pattern serves.
unfoldable pub skip_cbor_element : Bytes → Option Bytes
unfolding bytes_to_skip
skip_cbor_element [] = none
skip_cbor_element (byte ∷ bytes) = bytes_to_skip (byte % 32) >>= λ n.
    if byte / 32 == 2 || byte / 32 == 3
    then (if leb 24 (byte % 32)
        then (read_int32 n 0 bytes >>= λ l. skip_bytes l.0 l.1)
        else skip_bytes (byte % 32) bytes)
    else skip_bytes n bytes

-- `for (i = 0; i < n; i++) if (!skipCborElement(...)) return -1;`
unfoldable pub skip_elements : ℕ → Bytes → Option Bytes
skip_elements zero bytes = some bytes
skip_elements (suc n) bytes = skip_cbor_element bytes >>= skip_elements n
