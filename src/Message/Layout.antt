-- ===== src/Message/Layout.antt =====
-- The encoders of dtnex.c against the wire format: what an encoder over a library that keeps the
-- contract of cbor.h writes.
use dtnex_redesign.Base.{
  ℕ, ◌≡◌, refl, ◌<◌, ◌^◌, [], ◌∷◌, ◌++◌, Bytes, length, if◌then◌else◌, arith, ◌&&◌,
}
use dtnex_redesign.Base.Int.{ℤ, to_uvast, to_uvast-lt}
use dtnex_redesign.Types.{
  ContactRecord, RangeRecord, StructuredMetadata, IsContactRecord, IsRangeRecord,
}
use dtnex_redesign.Cbor.Library.{CborLib, IsCborEncoder}
use dtnex_redesign.Cbor.Format.{integer, byte_string, text_string, array_open}
use dtnex_redesign.Message.{
  write_cbor_envelope, write_contact_payload, write_range_payload, write_metadata_payload,
  write_optional_fields, has_gps, has_location, metadata_elements,
}

unfoldable pub envelope_bytes : ℕ → ℕ → ℕ → ℕ → ℕ → Bytes → Bytes
envelope_bytes type timestamp expire_time origin from nonce =
    array_open 9
    ++ (integer 3
        ++ (text_string (type ∷ [])
            ++ (integer timestamp
                ++ (integer expire_time
                    ++ (integer origin ++ (integer from ++ byte_string nonce))))))

unfoldable pub contact_fields : ContactRecord → Bytes
contact_fields c =
    integer c.region_nbr
    ++ (integer c.from_node
        ++ (integer c.to_node
            ++ (integer (to_uvast c.from_time)
                ++ (integer (to_uvast c.to_time)
                    ++ (integer c.xmit_rate ++ integer c.confidence)))))

unfoldable pub range_fields : RangeRecord → Bytes
range_fields r =
    integer r.from_node
    ++ (integer r.to_node
        ++ (integer (to_uvast r.from_time) ++ (integer (to_uvast r.to_time) ++ integer r.owlt)))

unfoldable pub gps_fields : StructuredMetadata → Bytes
gps_fields m = integer (to_uvast m.latitude) ++ integer (to_uvast m.longitude)

unfoldable pub optional_fields : StructuredMetadata → Bytes
optional_fields m =
    if has_location m && has_gps m
    then text_string m.location ++ gps_fields m
    else if has_gps m
    then gps_fields m
    else if has_location m
    then text_string m.location
    else []

unfoldable pub metadata_fields : StructuredMetadata → Bytes
metadata_fields m =
    integer m.node_id ++ (text_string m.name ++ (text_string m.contact ++ optional_fields m))

metadata_elements-lt : (m : StructuredMetadata) → metadata_elements m < 2 ^ 64
unfolding metadata_elements
metadata_elements-lt m = ground arith

module _ (lib : CborLib) (enc : IsCborEncoder lib) where
  open enc use {
    encode_integer_lem, encode_byte_string_lem, encode_text_string_lem, encode_array_open_lem,
  }

  pub write_cbor_envelope-bytes :
      (type origin from : ℕ) (timestamp expire_time : ℤ) (nonce : Bytes)
      → origin < 2 ^ 64
      → from < 2 ^ 64
      → length nonce ≡ 3
      → write_cbor_envelope lib type timestamp expire_time origin from nonce
        ≡ envelope_bytes type (to_uvast timestamp) (to_uvast expire_time) origin from nonce
  unfolding write_cbor_envelope envelope_bytes
  write_cbor_envelope-bytes type origin from timestamp expire_time nonce ho hf hn =
      rw
        (
          encode_array_open_lem 9 (omega arith),
          encode_integer_lem 3 (omega arith),
          encode_text_string_lem (type ∷ []) (omega arith),
          encode_integer_lem _ (to_uvast-lt timestamp),
          encode_integer_lem _ (to_uvast-lt expire_time),
          encode_integer_lem origin ho,
          encode_integer_lem from hf,
          encode_byte_string_lem nonce (omega arith),
        )
        refl

  pub write_contact_payload-fields :
      (c : ContactRecord)
      → IsContactRecord c
      → write_contact_payload lib c ≡ array_open 7 ++ contact_fields c
  unfolding write_contact_payload contact_fields
  write_contact_payload-fields c h = cc (
    encode_array_open_lem 7 (omega arith),
    encode_integer_lem c.region_nbr (omega arith),
    encode_integer_lem c.from_node h.from_node_fits,
    encode_integer_lem c.to_node h.to_node_fits,
    encode_integer_lem _ (to_uvast-lt c.from_time),
    encode_integer_lem _ (to_uvast-lt c.to_time),
    encode_integer_lem c.xmit_rate h.rate_fits,
    encode_integer_lem c.confidence (omega arith),
  )

  pub write_range_payload-fields :
      (r : RangeRecord)
      → IsRangeRecord r
      → write_range_payload lib r ≡ array_open 5 ++ range_fields r
  unfolding write_range_payload range_fields
  write_range_payload-fields r h = cc (
    encode_array_open_lem 5 (omega arith),
    encode_integer_lem r.from_node h.from_node_fits,
    encode_integer_lem r.to_node h.to_node_fits,
    encode_integer_lem _ (to_uvast-lt r.from_time),
    encode_integer_lem _ (to_uvast-lt r.to_time),
    encode_integer_lem r.owlt (omega arith),
  )

  write_optional_fields-fields :
      (m : StructuredMetadata)
      → length m.location < 2 ^ 64
      → write_optional_fields lib m ≡ optional_fields m
  unfolding write_optional_fields optional_fields gps_fields
  write_optional_fields-fields m h = cc (
    encode_text_string_lem m.location h,
    encode_integer_lem _ (to_uvast-lt m.latitude),
    encode_integer_lem _ (to_uvast-lt m.longitude),
  )

  pub write_metadata_payload-fields :
      (m : StructuredMetadata)
      → m.node_id < 2 ^ 64
      → length m.name < 2 ^ 64
      → length m.contact < 2 ^ 64
      → length m.location < 2 ^ 64
      → write_metadata_payload lib m ≡ array_open (metadata_elements m) ++ metadata_fields m
  unfolding write_metadata_payload metadata_fields metadata_elements
  write_metadata_payload-fields m hi hn hc hl = cc (
    encode_array_open_lem (metadata_elements m) (metadata_elements-lt m),
    encode_integer_lem m.node_id hi,
    encode_text_string_lem m.name hn,
    encode_text_string_lem m.contact hc,
    write_optional_fields-fields m hl,
  )
