-- ===== src/Decode.antt =====
-- `decodeCborMessage` of dtnex.c up to the point where the message is authenticated: everything
-- that can refuse a bundle without a change of state. `none` is the result -1.
pub mod RoundTrip
pub mod Sent
pub mod Authentic
use dtnex_redesign.Base.{
  ℕ, ◌+◌, ◌-◌, ◌/◌, ◌%◌, ◌^◌, Bool, true, false, not, Option, none, some, List, [], ◌∷◌, Bytes,
  ◌>>=◌, ◌>>◌, guard, length, take, ltb, leb, ◌==◌, if◌then◌else◌,
}
use dtnex_redesign.Base.Int.{ℤ, pos, to_time, to_int32}
use dtnex_redesign.Types.{ContactRecord, RangeRecord, StructuredMetadata}
use dtnex_redesign.Cbor.{take_exact, skip_elements}
use dtnex_redesign.Extract.{decode_array_header, extract_contact, extract_range, extract_metadata}
use mathlib.Core.Option
use dtnex_redesign.Cbor.Library.{CborLib}
use dtnex_redesign.Hmac.{HmacSha256, dtnex_hmac_size, verify_hmac}
use dtnex_redesign.Nonce.{NonceCache, is_nonce_duplicate}
use dtnex_redesign.Message.{dtnex_protocol_version, dtnex_nonce_size}

-- The first seven elements.
pub record Envelope : Type 0 where
  pub message_type : ℕ
  pub timestamp : ℕ
  pub expire_time : ℕ
  pub origin : ℕ
  pub from : ℕ
  pub nonce : Bytes

-- The extracted data of the eighth.
pub data Payload : Type 0 where
  contact : ContactRecord → Payload
  range : RangeRecord → Payload
  metadata : StructuredMetadata → Payload

-- `messageType[0]`, where the array was zero before.
unfoldable pub first_char : Bytes → ℕ
first_char [] = 0
first_char (c ∷ _) = c

-- `currentTime > expireTime` compares as unsigned; `now` is not negative.
unfoldable pub decode_envelope : CborLib → ℕ → Bytes → Option (Envelope × Bytes)
unfolding first_char
decode_envelope lib now buffer = do
  (array_size, b1) ← lib.decode_array_open buffer
  guard (array_size == 9)
  (version, b2) ← lib.decode_integer b1
  guard (version == dtnex_protocol_version)
  (type, b3) ← lib.decode_text_string 1 b2
  (timestamp, b4) ← lib.decode_integer b3
  (expire_time, b5) ← lib.decode_integer b4
  guard (not (ltb expire_time now))
  (origin, b6) ← lib.decode_integer b5
  (from, b7) ← lib.decode_integer b6
  (nonce, b8) ← lib.decode_byte_string dtnex_nonce_size b7
  guard (length nonce == dtnex_nonce_size)
  some (
    record {
      message_type = first_char type;
      timestamp = timestamp;
      expire_time = expire_time;
      origin = origin;
      from = from;
      nonce = nonce;
    },
    b8,
  )

-- The extraction, on a copy of the cursor, and then the skipping of the same elements, which goes
-- on with the cursor itself. The inner `none` is `hasExtractedData == 0`.
unfoldable pub decode_payload : Envelope → ℕ → Bytes → Option (Option Payload × Bytes)
decode_payload e size bytes =
    if e.message_type == b'c'
    then (do
      guard (size == 7)
      rest ← skip_elements size bytes
      some (Option.map contact (extract_contact bytes), rest))
    else if e.message_type == b'r'
    then (do
      guard (size == 5)
      rest ← skip_elements size bytes
      some (Option.map range (extract_range bytes), rest))
    else if e.message_type == b'm'
    then (do
      rest ← skip_elements size bytes
      some (Option.map metadata (extract_metadata size e.origin bytes), rest))
    else none

-- The ninth element: a byte string of exactly the size of a tag.
unfoldable pub decode_hmac_field : Bytes → Option (Bytes × Bytes)
decode_hmac_field [] = none
decode_hmac_field (byte ∷ bytes) =
    if byte / 32 == 2
    then (if byte % 32 == dtnex_hmac_size then take_exact dtnex_hmac_size bytes else none)
    else none

-- The message without its tag is `buffer` up to the position of the ninth element.
unfoldable pub parse_message :
    CborLib → HmacSha256 → Bytes → List NonceCache → ℕ → Bytes → Option (Envelope × Option Payload)
parse_message lib hmac key cache now buffer = do
  (e, b1) ← decode_envelope lib now buffer
  guard (not (is_nonce_duplicate e.nonce e.origin cache))
  (size, b2) ← decode_array_header b1
  (payload, b3) ← decode_payload e size b2
  (tag, b4) ← decode_hmac_field b3
  guard (verify_hmac hmac (take (length buffer - length b3) buffer) tag key)
  some (e, payload)
