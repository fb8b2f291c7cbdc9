-- ===== src/Node/Rule.antt =====
-- What the handlers of `processCborMessage` of dtnex.c can do to a node: nothing, or a change that the
-- message is for and its forwarding.
use dtnex_redesign.Base.{◌==◌, Option, none, some, Bool-cases, Option-cases, inl, inr}
use dtnex_redesign.Types.{ContactRecord, RangeRecord, StructuredMetadata}
use dtnex_redesign.Metadata.{update_node_metadata}
use dtnex_redesign.Validate.{validate_contact, validate_range}
use dtnex_redesign.Ion.Contacts.{ionc_apply_contact}
use dtnex_redesign.Ion.Ranges.{ionc_apply_range}
use dtnex_redesign.Decode.{Envelope, Payload, contact, range, metadata}
use dtnex_redesign.Node.{System, Node, Times}
use dtnex_redesign.Node.Forward.{
  forward, forwarded_contact, forwarded_range, forwarded_metadata, forward_cbor_contact_message,
  forward_cbor_range_message, forward_cbor_metadata_message,
}
use dtnex_redesign.Node.Process.{
  process_cbor_contact_message, process_cbor_range_message, process_cbor_metadata_message, dispatch,
  full_metadata,
}

module _ {κ} {D F S : Type 0} (sys : System D F S) (P : Node S → Type κ) (t : Times) (e : Envelope)
    (node : Node S) where
  open sys use {config}

  -- What holds of a node that forwards a message, after a write to ION or to the address book.
  pub record Forwards : Type κ where
    pub by_contact :
        (c : ContactRecord) (s : S)
        → P (forward sys e (forwarded_contact sys e c) t.planned (record node { ion_state = s }))
    pub by_range :
        (r : RangeRecord) (s : S)
        → P (forward sys e (forwarded_range sys e r) t.planned (record node { ion_state = s }))
    pub by_metadata :
        (m : StructuredMetadata)
        → P (
            forward sys e (forwarded_metadata sys e m) t.planned (record node {
              metadata_list =
                  update_node_metadata m.node_id (full_metadata sys m) node.metadata_list;
            }))

  -- A property of the node, and of the node after each kind of forwarding, holds after the dispatch.
  pub dispatch_P :
      (payload : Option Payload) → Forwards → P node → P (dispatch sys t e payload node).1
  unfolding dispatch process_cbor_contact_message process_cbor_range_message
      process_cbor_metadata_message forward_cbor_contact_message forward_cbor_range_message
      forward_cbor_metadata_message
  dispatch_P none f h = h
  dispatch_P (some (contact c)) f h =
      elim (Option-cases (validate_contact config.node_id t.validated e.origin c)) [
        | inl accepted ↦
            rw (process_cbor_contact_message, accepted)
              (f.by_contact c (ionc_apply_contact sys.float sys.ion c node.ion_state).1)
        | inr (reason, refused) ↦ rw (process_cbor_contact_message, refused) h
      ]
  dispatch_P (some (range r)) f h =
      elim (Option-cases (validate_range config.node_id t.validated e.origin r)) [
        | inl accepted ↦
            rw (process_cbor_range_message, accepted)
              (f.by_range r (ionc_apply_range sys.ion r node.ion_state).1)
        | inr (reason, refused) ↦ rw (process_cbor_range_message, refused) h
      ]
  dispatch_P (some (metadata m)) f h = elim (Bool-cases (e.origin == config.node_id)) [
    | inl own ↦ rw own h
    | inr foreign ↦ rw foreign (f.by_metadata m)
  ]
