-- ===== src/Message.antt =====
-- The encoders of dtnex.c: the common envelope, the tag, and the three kinds of message.
-- A buffer with the count of bytes written is the list of those bytes.
pub mod Layout
pub mod Bounds
use dtnex_redesign.Base.{
  ℕ, ◌+◌, ◌*◌, ◌≡◌, Bool, true, false, not, ◌&&◌, List, [], ◌∷◌, ◌++◌, Bytes, length, ltb, ◌==◌,
  if◌then◌else◌,
}
use dtnex_redesign.Base.Int.{ℤ, pos, to_uvast, eqb_ℤ, ◌+ℤ◌}
use dtnex_redesign.Types.{DtnexConfig, ContactRecord, RangeRecord, StructuredMetadata}
use dtnex_redesign.Cbor.Library.{CborLib}
use dtnex_redesign.Hmac.{HmacSha256, calculate_hmac}

abbrev pub dtnex_protocol_version : ℕ
dtnex_protocol_version = 3

abbrev pub dtnex_nonce_size : ℕ
dtnex_nonce_size = 3

abbrev pub max_cbor_buffer : ℕ
max_cbor_buffer = 128

-- `metadata->latitude != 0 && metadata->longitude != 0`
unfoldable pub has_gps : StructuredMetadata → Bool
has_gps m = not (eqb_ℤ m.latitude (pos 0)) && not (eqb_ℤ m.longitude (pos 0))

-- `strlen(metadata->location) > 0`
unfoldable pub has_location : StructuredMetadata → Bool
has_location m = ltb 0 (length m.location)

unfoldable pub metadata_elements : StructuredMetadata → ℕ
metadata_elements m =
    if has_location m && has_gps m
    then 3 + 3
    else if has_gps m
    then 3 + 2
    else if has_location m
    then 3 + 1
    else 3

module _ (lib : CborLib) where
  open lib use {encode_integer, encode_byte_string, encode_text_string, encode_array_open}

  unfoldable pub write_cbor_envelope : ℕ → ℤ → ℤ → ℕ → ℕ → Bytes → Bytes
  write_cbor_envelope type timestamp expire_time origin from nonce =
      encode_array_open 9
      ++ (encode_integer dtnex_protocol_version
          ++ (encode_text_string (type ∷ [])
              ++ (encode_integer (to_uvast timestamp)
                  ++ (encode_integer (to_uvast expire_time)
                      ++ (encode_integer origin
                          ++ (encode_integer from ++ encode_byte_string nonce))))))

  unfoldable pub write_contact_payload : ContactRecord → Bytes
  write_contact_payload c =
      encode_array_open 7
      ++ (encode_integer c.region_nbr
          ++ (encode_integer c.from_node
              ++ (encode_integer c.to_node
                  ++ (encode_integer (to_uvast c.from_time)
                      ++ (encode_integer (to_uvast c.to_time)
                          ++ (encode_integer c.xmit_rate ++ encode_integer c.confidence))))))

  unfoldable pub write_range_payload : RangeRecord → Bytes
  write_range_payload r =
      encode_array_open 5
      ++ (encode_integer r.from_node
          ++ (encode_integer r.to_node
              ++ (encode_integer (to_uvast r.from_time)
                  ++ (encode_integer (to_uvast r.to_time) ++ encode_integer r.owlt))))

  -- The optional fields: the location if there is one, then both coordinates if they are set.
  unfoldable pub write_optional_fields : StructuredMetadata → Bytes
  write_optional_fields m =
      if has_location m && has_gps m
      then encode_text_string m.location
        ++ (encode_integer (to_uvast m.latitude) ++ encode_integer (to_uvast m.longitude))
      else if has_gps m
      then encode_integer (to_uvast m.latitude) ++ encode_integer (to_uvast m.longitude)
      else if has_location m
      then encode_text_string m.location
      else []

  unfoldable pub write_metadata_payload : StructuredMetadata → Bytes
  write_metadata_payload m =
      encode_array_open (metadata_elements m)
      ++ (encode_integer m.node_id
          ++ (encode_text_string m.name
              ++ (encode_text_string m.contact ++ write_optional_fields m)))

  module _ (hmac : HmacSha256) {D : Type 0} (config : DtnexConfig D) where
    -- The message with its ninth element, the tag over all that stands before it.
    unfoldable pub append_cbor_hmac : Bytes → Bytes
    append_cbor_hmac message =
        message ++ encode_byte_string (calculate_hmac hmac message config.pre_shared_network_key).1

    -- `now` is what `time(NULL)` returns, and `nonce` what `generateNonce` writes.
    unfoldable pub encode_cbor_contact_message : ℕ → Bytes → ContactRecord → Bytes
    encode_cbor_contact_message now nonce contact = append_cbor_hmac (
        write_cbor_envelope b'c' (pos now) contact.to_time config.node_id config.node_id nonce
        ++ write_contact_payload contact)

    unfoldable pub encode_cbor_range_message : ℕ → Bytes → RangeRecord → Bytes
    encode_cbor_range_message now nonce range = append_cbor_hmac (
        write_cbor_envelope b'r' (pos now) range.to_time config.node_id config.node_id nonce
        ++ write_range_payload range)

    -- With long texts it is longer than the buffer of the caller, and the code writes all of it.
    unfoldable pub encode_cbor_metadata_message : ℕ → Bytes → StructuredMetadata → Bytes
    encode_cbor_metadata_message now nonce metadata = append_cbor_hmac (
        write_cbor_envelope b'm' (pos now) (pos now +ℤ config.metadata_lifetime) config.node_id
          config.node_id nonce
        ++ write_metadata_payload metadata)
