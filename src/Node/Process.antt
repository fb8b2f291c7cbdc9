-- ===== src/Node/Process.antt =====
-- `decodeCborMessage`, `processCborMessage` and the three handlers of dtnex.c.
use dtnex_redesign.Base.{
  ◌==◌, ltb, not, ◌||◌, Option, none, some, ◌∷◌, ◌++◌, Bytes, length, if◌then◌else◌,
}
use dtnex_redesign.Base.Int.{ℤ, pos, negsuc, eqb_ℤ}
use dtnex_redesign.Types.{ContactRecord, RangeRecord, StructuredMetadata}
use dtnex_redesign.Nonce.{add_nonce_to_cache}
use dtnex_redesign.Metadata.{max_metadata_length, strncpy, update_node_metadata}
use dtnex_redesign.Message.{has_location}
use dtnex_redesign.Validate.{validate_contact, validate_range}
use dtnex_redesign.Ion.Contacts.{ionc_apply_contact}
use dtnex_redesign.Ion.Ranges.{ionc_apply_range}
use dtnex_redesign.Decode.{Envelope, Payload, contact, range, metadata, parse_message}
use dtnex_redesign.Node.{System, Node, Times}
use dtnex_redesign.Node.Forward.{
  forward_cbor_contact_message, forward_cbor_range_message, forward_cbor_metadata_message,
}

module _ {D F S : Type 0} (sys : System D F S) where
  open sys use {lib, hmac, float, ion, config, format_gps}

  -- The outcome of the write is only logged.
  unfoldable pub process_cbor_contact_message :
      Times → Envelope → ContactRecord → Node S → ℤ × Node S
  process_cbor_contact_message t e c node =
      elim (validate_contact config.node_id t.validated e.origin c) [
        | some reason ↦ (pos 0, node)
        | none ↦ (
          pos 0,
          forward_cbor_contact_message sys e c t.planned
              (record node { ion_state = (ionc_apply_contact float ion c node.ion_state).1 }),
        )
      ]

  unfoldable pub process_cbor_range_message : Times → Envelope → RangeRecord → Node S → ℤ × Node S
  process_cbor_range_message t e r node =
      elim (validate_range config.node_id t.validated e.origin r) [
        | some reason ↦ (pos 0, node)
        | none ↦ (
          pos 0,
          forward_cbor_range_message sys e r t.planned
              (record node { ion_state = (ionc_apply_range ion r node.ion_state).1 }),
        )
      ]

  -- The text of the record, by `snprintf` into an array of `MAX_METADATA_LENGTH`.
  unfoldable pub full_metadata : StructuredMetadata → Bytes
  full_metadata m =
      let base = m.name ++ (b',' ∷ m.contact) in
      if not (eqb_ℤ m.latitude (pos 0)) || not (eqb_ℤ m.longitude (pos 0))
      then strncpy max_metadata_length
          (base ++ (b',' ∷ (format_gps m.latitude ++ (b',' ∷ format_gps m.longitude))))
      else if has_location m
      then strncpy max_metadata_length (base ++ (b',' ∷ m.location))
      else strncpy max_metadata_length base

  unfoldable pub process_cbor_metadata_message :
      Times → Envelope → StructuredMetadata → Node S → ℤ × Node S
  process_cbor_metadata_message t e m node = if e.origin == config.node_id then (pos 0, node) else (
    pos 0,
    forward_cbor_metadata_message sys e m t.planned (record node {
      metadata_list = update_node_metadata m.node_id (full_metadata m) node.metadata_list;
    }),
  )

  -- The dispatch on the extracted data, which is absent where the extraction failed.
  unfoldable pub dispatch : Times → Envelope → Option Payload → Node S → ℤ × Node S
  dispatch t e none node = (negsuc 0, node)
  dispatch t e (some (contact c)) node = process_cbor_contact_message t e c node
  dispatch t e (some (range r)) node = process_cbor_range_message t e r node
  dispatch t e (some (metadata m)) node = process_cbor_metadata_message t e m node

  unfoldable pub decode_cbor_message : Times → Bytes → Node S → ℤ × Node S
  decode_cbor_message t buffer node =
      elim (parse_message lib hmac config.pre_shared_network_key node.nonce_cache t.decoded
        buffer) [
          | none ↦ (negsuc 0, node)
          | some (e, payload) ↦ dispatch t e payload (record node {
            nonce_cache = add_nonce_to_cache e.nonce e.origin t.cached node.nonce_cache;
          })
        ]

  -- The result is only logged.
  unfoldable pub process_cbor_message : Times → Bytes → Node S → Node S
  process_cbor_message t buffer node =
      if ltb 0 (length buffer) then (decode_cbor_message t buffer node).1 else node
