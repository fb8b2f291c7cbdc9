-- ===== src/Decode/Sent.antt =====
-- The three kinds of message end to end: what one node encodes, another node with the same key
-- reads.
use dtnex_redesign.Base.{
  ℕ, ◌≡◌, refl, ◌<◌, ◌^◌, Option, none, some, List, ◌++◌, Bytes, length, ltb, if◌then◌else◌, arith,
}
use dtnex_redesign.Base.Int.{ℤ, to_uvast, to_uvast-lt}
use dtnex_redesign.Types.{
  DtnexConfig, ContactRecord, RangeRecord, StructuredMetadata, IsContactRecord, IsRangeRecord,
}
use dtnex_redesign.Cbor.Library.{CborLib, IsCborEncoder, IsCborDecoder}
use dtnex_redesign.Cbor.Format.{array_open}
use dtnex_redesign.Hmac.{HmacSha256, calculate_hmac}
use dtnex_redesign.Hmac.Laws.{IsSha256, calculate_hmac-verified}
use dtnex_redesign.Nonce.{NonceCache, is_nonce_duplicate}
use dtnex_redesign.Message.{
  append_cbor_hmac, write_cbor_envelope, write_contact_payload, write_range_payload,
  write_metadata_payload, metadata_elements,
}
use dtnex_redesign.Message.Layout.{
  envelope_bytes, contact_fields, range_fields, metadata_fields, write_cbor_envelope-bytes,
  write_contact_payload-fields, write_range_payload-fields, write_metadata_payload-fields,
}
use dtnex_redesign.Extract.Fields.{
  extract_contact-fields, extract_range-fields, skip_elements-contact_fields,
  skip_elements-range_fields,
}
use dtnex_redesign.Extract.Texts.{
  IsPortable, as_sent, extract_metadata-fields, skip_elements-metadata_fields,
}
use dtnex_redesign.Decode.{
  Envelope, Payload, contact, range, metadata, decode_payload, parse_message,
}
use dtnex_redesign.Decode.RoundTrip.{parse_message-sealed}

decode_payload-contact :
    (e : Envelope) (c : ContactRecord)
    → e.message_type ≡ b'c'
    → IsContactRecord c
    → (rest : Bytes) → decode_payload e 7 (contact_fields c ++ rest) ≡ some (some (contact c), rest)
unfolding decode_payload
decode_payload-contact e c t h rest =
    rw (t, skip_elements-contact_fields c rest, extract_contact-fields c rest h) refl

decode_payload-range :
    (e : Envelope) (r : RangeRecord)
    → e.message_type ≡ b'r'
    → IsRangeRecord r
    → (rest : Bytes) → decode_payload e 5 (range_fields r ++ rest) ≡ some (some (range r), rest)
unfolding decode_payload
decode_payload-range e r t h rest =
    rw (t, skip_elements-range_fields r rest, extract_range-fields r rest h) refl

decode_payload-metadata :
    (e : Envelope) (m : StructuredMetadata)
    → e.message_type ≡ b'm'
    → IsPortable m
    → (rest : Bytes)
    → decode_payload e (metadata_elements m) (metadata_fields m ++ rest)
      ≡ some (some (metadata (as_sent m)), rest)
unfolding decode_payload
decode_payload-metadata e m t h rest =
    rw (t, skip_elements-metadata_fields m h rest, extract_metadata-fields m h e.origin rest) refl

metadata_elements-small : (m : StructuredMetadata) → metadata_elements m < 24
unfolding metadata_elements
metadata_elements-small m = ground arith

-- What a receiver makes of a message: nothing if it has expired or its nonce is known, and
-- otherwise its envelope and its data.
unfoldable pub expected :
    Envelope → List NonceCache → ℕ → Payload → Option (Envelope × Option Payload)
expected e cache now payload =
    if ltb e.expire_time now
    then none
    else if is_nonce_duplicate e.nonce e.origin cache
    then none
    else some (e, some payload)

module _ (lib : CborLib) (enc : IsCborEncoder lib) (dec : IsCborDecoder lib) (hmac : HmacSha256)
    (sha : IsSha256 hmac) {D : Type 0} (config : DtnexConfig D)
    (node_fits : config.node_id < 2 ^ 64) (nonce : Bytes) (nonce_size : length nonce ≡ 3) where
  sealed :
      (e : Envelope) (cache : List NonceCache) (now size : ℕ) (fields : Bytes) (payload : Payload)
      → e.timestamp < 2 ^ 64
      → e.expire_time < 2 ^ 64
      → e.origin < 2 ^ 64
      → e.from < 2 ^ 64
      → length e.nonce ≡ 3
      → size < 24
      → ((rest : Bytes) → decode_payload e size (fields ++ rest) ≡ some (some payload, rest))
      → parse_message lib hmac config.pre_shared_network_key cache now (
          append_cbor_hmac lib hmac config (
            envelope_bytes e.message_type e.timestamp e.expire_time e.origin e.from e.nonce
            ++ (array_open size ++ fields)))
        ≡ expected e cache now payload
  unfolding append_cbor_hmac expected
  sealed e cache now size fields payload ht he ho hf hn small extract =
      let message =
        envelope_bytes e.message_type e.timestamp e.expire_time e.origin e.from e.nonce
        ++ (array_open size ++ fields) in
      let key = config.pre_shared_network_key in
      let (tag_size, verified) = calculate_hmac-verified hmac sha key message in
      rw (enc.encode_byte_string_lem (calculate_hmac hmac message key).1 (omega arith)) (
        parse_message-sealed lib dec e ht he ho hf hn hmac key cache now size fields
          (calculate_hmac hmac message key).1 (some payload) small extract tag_size verified)

  module _ (cache : List NonceCache) (now origin : ℕ) (timestamp expire_time : ℤ)
      (origin_fits : origin < 2 ^ 64) where
    -- The envelope that arrives.
    abbrev arrives : ℕ → Envelope
    arrives type = record {
      message_type = type;
      timestamp = to_uvast timestamp;
      expire_time = to_uvast expire_time;
      origin = origin;
      from = config.node_id;
      nonce = nonce;
    }

    -- A contact message that a node has signed, its own or one that it forwards, with a nonce of
    -- three bytes and fields in range, reads at any node with the key as that contact with its
    -- envelope, or as nothing if it has expired or its nonce is known there.
    pub parse_message-contact :
        (c : ContactRecord)
        → IsContactRecord c
        → parse_message lib hmac config.pre_shared_network_key cache now (
            append_cbor_hmac lib hmac config (
              write_cbor_envelope lib b'c' timestamp expire_time origin config.node_id nonce
              ++ write_contact_payload lib c))
          ≡ expected (arrives b'c') cache now (contact c)
    parse_message-contact c h =
        rw
          (
            write_cbor_envelope-bytes lib enc b'c' origin config.node_id timestamp expire_time nonce
                origin_fits node_fits nonce_size,
            write_contact_payload-fields lib enc c h,
          )
          (sealed (arrives b'c') cache now 7 (contact_fields c) (contact c) (to_uvast-lt timestamp)
            (to_uvast-lt expire_time) origin_fits node_fits nonce_size (omega arith)
            (decode_payload-contact (arrives b'c') c refl h))

    -- A range message, likewise.
    pub parse_message-range :
        (r : RangeRecord)
        → IsRangeRecord r
        → parse_message lib hmac config.pre_shared_network_key cache now (
            append_cbor_hmac lib hmac config (
              write_cbor_envelope lib b'r' timestamp expire_time origin config.node_id nonce
              ++ write_range_payload lib r))
          ≡ expected (arrives b'r') cache now (range r)
    parse_message-range r h =
        rw
          (
            write_cbor_envelope-bytes lib enc b'r' origin config.node_id timestamp expire_time nonce
                origin_fits node_fits nonce_size,
            write_range_payload-fields lib enc r h,
          )
          (sealed (arrives b'r') cache now 5 (range_fields r) (range r) (to_uvast-lt timestamp)
            (to_uvast-lt expire_time) origin_fits node_fits nonce_size (omega arith)
            (decode_payload-range (arrives b'r') r refl h))

    -- A metadata message, likewise, for metadata that the receiver has room for.
    pub parse_message-metadata :
        (m : StructuredMetadata)
        → IsPortable m
        → parse_message lib hmac config.pre_shared_network_key cache now (
            append_cbor_hmac lib hmac config (
              write_cbor_envelope lib b'm' timestamp expire_time origin config.node_id nonce
              ++ write_metadata_payload lib m))
          ≡ expected (arrives b'm') cache now (metadata (as_sent m))
    parse_message-metadata m h =
        rw
          (
            write_cbor_envelope-bytes lib enc b'm' origin config.node_id timestamp expire_time nonce
                origin_fits node_fits nonce_size,
            write_metadata_payload-fields lib enc m h.id_fits (omega arith) (omega arith)
                (omega arith),
          )
          (sealed (arrives b'm') cache now (metadata_elements m) (metadata_fields m)
            (metadata (as_sent m)) (to_uvast-lt timestamp) (to_uvast-lt expire_time) origin_fits
            node_fits nonce_size (metadata_elements-small m)
            (decode_payload-metadata (arrives b'm') m refl h))
