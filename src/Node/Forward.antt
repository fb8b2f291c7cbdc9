-- ===== src/Node/Forward.antt =====
-- `forwardCborContactMessage`, `forwardCborRangeMessage` and `forwardCborMetadataMessage` of
-- dtnex.c.
use dtnex_redesign.Base.{ℕ, ◌==◌, Bool, ◌||◌, List, [], ◌∷◌, ◌++◌, Bytes, if◌then◌else◌}
use dtnex_redesign.Base.Int.{to_time}
use dtnex_redesign.Types.{ContactRecord, RangeRecord, StructuredMetadata, Plan, Bundle}
use dtnex_redesign.Plans.{getplanlist}
use dtnex_redesign.Message.{
  append_cbor_hmac, write_cbor_envelope, write_contact_payload, write_range_payload,
  write_metadata_payload,
}
use dtnex_redesign.Decode.{Envelope}
use dtnex_redesign.Node.{System, Node}

module _ {D F S : Type 0} (sys : System D F S) where
  open sys use {lib, hmac, config}

  -- The neighbours that the loop passes over.
  unfoldable pub is_skipped : Envelope → ℕ → Bool
  is_skipped e neighbor = neighbor == e.origin || (neighbor == e.from || neighbor == config.node_id)

  -- The loop; the message does not depend on the neighbour.
  unfoldable pub forward_loop : Envelope → Bytes → List Plan → List Bundle
  forward_loop e message [] = []
  forward_loop e message (p ∷ plans) =
      let rest = forward_loop e message plans in
      let bundle : Bundle = record {
        dest_node = p.plan_id;
        dest_service = config.service_nr;
        cbor_data = message;
        ttl = config.bundle_ttl;
      } in
      if is_skipped e p.plan_id then rest else bundle ∷ rest

  unfoldable pub forward : Envelope → Bytes → ℕ → Node S → Node S
  forward e message now node =
      let r = getplanlist config.node_id now (sys.plan_view node.ion_state) node.plan_cache in
      record node { plan_cache = r.1; outbox = node.outbox ++ forward_loop e message r.0 }

  -- The envelope of a forwarded message: all as it came, but `from` this node.
  unfoldable pub forwarded_envelope : ℕ → Envelope → Bytes
  forwarded_envelope type e =
      write_cbor_envelope lib type (to_time e.timestamp) (to_time e.expire_time) e.origin
        config.node_id e.nonce

  unfoldable pub forwarded_contact : Envelope → ContactRecord → Bytes
  forwarded_contact e c =
      append_cbor_hmac lib hmac config (forwarded_envelope b'c' e ++ write_contact_payload lib c)

  unfoldable pub forwarded_range : Envelope → RangeRecord → Bytes
  forwarded_range e r =
      append_cbor_hmac lib hmac config (forwarded_envelope b'r' e ++ write_range_payload lib r)

  unfoldable pub forwarded_metadata : Envelope → StructuredMetadata → Bytes
  forwarded_metadata e m =
      append_cbor_hmac lib hmac config (forwarded_envelope b'm' e ++ write_metadata_payload lib m)

  unfoldable pub forward_cbor_contact_message : Envelope → ContactRecord → ℕ → Node S → Node S
  forward_cbor_contact_message e c = forward e (forwarded_contact e c)

  unfoldable pub forward_cbor_range_message : Envelope → RangeRecord → ℕ → Node S → Node S
  forward_cbor_range_message e r = forward e (forwarded_range e r)

  unfoldable pub forward_cbor_metadata_message : Envelope → StructuredMetadata → ℕ → Node S → Node S
  forward_cbor_metadata_message e m = forward e (forwarded_metadata e m)
