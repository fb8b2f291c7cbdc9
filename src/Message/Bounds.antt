-- ===== src/Message/Bounds.antt =====
-- The sizes of the messages against the 128-byte buffers that dtnex.c encodes them into: no
-- encoder looks at the size of its buffer.
use dtnex_redesign.Base.{
  ℕ, ◌+◌, ◌≡◌, refl, ◌<◌, ◌≤◌, ◌^◌, [], ◌∷◌, ◌++◌, Bytes, length, length-append, length-take-eq,
  Option-cases, arith, inl, inr,
}
use dtnex_redesign.Base.Int.{pos, to_uvast, ◌+ℤ◌}
use dtnex_redesign.Types.{
  DtnexConfig, ContactRecord, RangeRecord, StructuredMetadata, IsContactRecord, IsRangeRecord,
}
use dtnex_redesign.Cbor.Library.{CborLib, IsCborEncoder}
use dtnex_redesign.Cbor.Format.{head, integer, byte_string, array_open}
use dtnex_redesign.Hmac.{HmacSha256, dtnex_hmac_size, calculate_hmac}
use dtnex_redesign.Message.{
  max_cbor_buffer, append_cbor_hmac, encode_cbor_contact_message, encode_cbor_range_message,
  encode_cbor_metadata_message, metadata_elements,
}
use dtnex_redesign.Message.Layout.{
  envelope_bytes, contact_fields, range_fields, metadata_fields, write_cbor_envelope-bytes,
  write_contact_payload-fields, write_range_payload-fields, write_metadata_payload-fields,
}

length-head : (m v : ℕ) → (1 ≤ length (head m v)) × (length (head m v) ≤ 9)
unfolding head
length-head m v = ground arith

length-byte_string : (s : Bytes) → length s < 24 → length (byte_string s) ≡ length s + 1
unfolding head
length-byte_string s h = ground arith

length-array_open : (n : ℕ) → n < 24 → length (array_open n) ≡ 1
unfolding head
length-array_open n h = ground arith

length-integer-three : length (integer 3) ≡ 1
unfolding head
length-integer-three = refl

-- The length of a sequence of parts is the sum of theirs.
bytes-append : (xs ys : Bytes) → length (xs ++ ys) ≡ length xs + length ys
bytes-append xs ys = length-append xs ys

ruleset lengths = (arith, bytes-append)

length-envelope_bytes :
    (type timestamp expire_time origin from : ℕ) (nonce : Bytes)
    → length nonce ≡ 3
    → (12 ≤ length (envelope_bytes type timestamp expire_time origin from nonce))
      × (length (envelope_bytes type timestamp expire_time origin from nonce) ≤ 44)
unfolding envelope_bytes head
length-envelope_bytes type timestamp expire_time origin from nonce h = omega (
  lengths,
  length-head 0 timestamp,
  length-head 0 expire_time,
  length-head 0 origin,
  length-head 0 from,
  length-array_open 9 (omega arith),
  length-integer-three,
  length-byte_string (type ∷ []) (omega arith),
  length-byte_string nonce (omega arith),
)

length-contact_fields : (c : ContactRecord) → length (contact_fields c) ≤ 63
unfolding contact_fields
length-contact_fields c = omega (
  lengths,
  length-head 0 c.region_nbr,
  length-head 0 c.from_node,
  length-head 0 c.to_node,
  length-head 0 (to_uvast c.from_time),
  length-head 0 (to_uvast c.to_time),
  length-head 0 c.xmit_rate,
  length-head 0 c.confidence,
)

length-range_fields : (r : RangeRecord) → length (range_fields r) ≤ 45
unfolding range_fields
length-range_fields r = omega (
  lengths,
  length-head 0 r.from_node,
  length-head 0 r.to_node,
  length-head 0 (to_uvast r.from_time),
  length-head 0 (to_uvast r.to_time),
  length-head 0 r.owlt,
)

length-metadata_fields :
    (m : StructuredMetadata) → length m.name + length m.contact + 3 ≤ length (metadata_fields m)
unfolding metadata_fields
length-metadata_fields m = omega (
  lengths,
  length-head 0 m.node_id,
  length-head 3 (length m.name),
  length-head 3 (length m.contact),
)

-- With a failed computation too, a tag has eight bytes.
length-calculate_hmac :
    (hmac : HmacSha256) (message key : Bytes)
    → length (calculate_hmac hmac message key).1 ≡ dtnex_hmac_size
unfolding calculate_hmac
length-calculate_hmac hmac message key = elim (Option-cases (hmac key message)) [
  | inl failed ↦ ground arith
  | inr (full, digest) ↦ ground (arith, length-take-eq 8 full)
]

metadata_head : (m : StructuredMetadata) → length (array_open (metadata_elements m)) ≡ 1
metadata_head m = length-array_open (metadata_elements m) (unfold metadata_elements in ground arith)

module _ (lib : CborLib) (enc : IsCborEncoder lib) (hmac : HmacSha256) {D : Type 0}
    (config : DtnexConfig D) (node_fits : config.node_id < 2 ^ 64) (now : ℕ) (nonce : Bytes)
    (nonce_size : length nonce ≡ 3) where
  length-append_cbor_hmac :
      (message : Bytes) → length (append_cbor_hmac lib hmac config message) ≡ length message + 9
  unfolding append_cbor_hmac
  length-append_cbor_hmac message =
      let tag = (calculate_hmac hmac message config.pre_shared_network_key).1 in
      let size = length-calculate_hmac hmac message config.pre_shared_network_key in
      rw (enc.encode_byte_string_lem tag (omega arith))
        (omega (lengths, size, length-byte_string tag (omega arith)))

  -- A contact message with fields in range and a nonce of three bytes always fits the buffer that it
  -- is encoded into.
  encode_cbor_contact_message-le :
      (c : ContactRecord)
      → IsContactRecord c
      → length (encode_cbor_contact_message lib hmac config now nonce c) ≤ max_cbor_buffer
  unfolding encode_cbor_contact_message
  encode_cbor_contact_message-le c h =
      rw
        (
          write_cbor_envelope-bytes lib enc b'c' config.node_id config.node_id (pos now) c.to_time
              nonce node_fits node_fits nonce_size,
          write_contact_payload-fields lib enc c h,
        )
        (omega (
          lengths,
          length-append_cbor_hmac,
          length-envelope_bytes b'c' (to_uvast (pos now)) (to_uvast c.to_time) config.node_id
              config.node_id nonce nonce_size,
          length-array_open 7 (omega arith),
          length-contact_fields c,
        ))

  -- A range message with fields in range and a nonce of three bytes always fits the buffer that it
  -- is encoded into.
  encode_cbor_range_message-le :
      (r : RangeRecord)
      → IsRangeRecord r
      → length (encode_cbor_range_message lib hmac config now nonce r) ≤ max_cbor_buffer
  unfolding encode_cbor_range_message
  encode_cbor_range_message-le r h =
      rw
        (
          write_cbor_envelope-bytes lib enc b'r' config.node_id config.node_id (pos now) r.to_time
              nonce node_fits node_fits nonce_size,
          write_range_payload-fields lib enc r h,
        )
        (omega (
          lengths,
          length-append_cbor_hmac,
          length-envelope_bytes b'r' (to_uvast (pos now)) (to_uvast r.to_time) config.node_id
              config.node_id nonce nonce_size,
          length-array_open 5 (omega arith),
          length-range_fields r,
        ))

  -- A metadata message whose name and contact text have 104 bytes or more together, within the sizes
  -- of their arrays, is longer than the buffer that it is encoded into.
  pub encode_cbor_metadata_message-overflow :
      (m : StructuredMetadata)
      → m.node_id < 2 ^ 64
      → length m.name ≤ 63
      → length m.contact ≤ 127
      → length m.location ≤ 63
      → 104 ≤ length m.name + length m.contact
      → max_cbor_buffer < length (encode_cbor_metadata_message lib hmac config now nonce m)
  unfolding encode_cbor_metadata_message
  encode_cbor_metadata_message-overflow m hi hn hc hl long =
      rw
        (
          write_cbor_envelope-bytes lib enc b'm' config.node_id config.node_id (pos now) _ nonce
              node_fits node_fits nonce_size,
          write_metadata_payload-fields lib enc m hi (omega arith) (omega arith) (omega arith),
        )
        (omega (
          lengths,
          length-append_cbor_hmac,
          length-envelope_bytes b'm' (to_uvast (pos now))
              (to_uvast (pos now +ℤ config.metadata_lifetime)) config.node_id config.node_id nonce
              nonce_size,
          metadata_head m,
          length-metadata_fields m,
        ))
