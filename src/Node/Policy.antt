-- ===== src/Node/Policy.antt =====
-- What it takes for a received message to change the node, and ION.
use dtnex_redesign.Base.{
  ◌≡◌, ◌≢◌, refl, ap, ◌≤◌, ltb, ◌==◌, false, Option, none, some, ◌∷◌, ◌++◌, Bytes, length,
  Bool-cases, Option-cases, inl, inr, ◌⊎◌,
}
use dtnex_redesign.Types.{ContactRecord, RangeRecord}
use dtnex_redesign.Cbor.Consumed.{IsCborCursor}
use dtnex_redesign.Hmac.{dtnex_hmac_size}
use dtnex_redesign.Hmac.Laws.{IsTag}
use dtnex_redesign.Nonce.{is_nonce_duplicate, add_nonce_to_cache}
use dtnex_redesign.Validate.{validate_contact, validate_range}
use dtnex_redesign.Validate.Accepted.{
  IsWindow, IsAcceptable, validate_contact_iff, validate_range_iff,
}
use dtnex_redesign.Decode.{Envelope, Payload, contact, range, metadata, parse_message}
use dtnex_redesign.Decode.Authentic.{tag_head, parse_message-authentic}
use dtnex_redesign.Node.{System, Node, Times}
use dtnex_redesign.Node.Forward.{forward, forward_cbor_metadata_message}
use dtnex_redesign.Node.Process.{
  process_cbor_contact_message, process_cbor_range_message, process_cbor_metadata_message, dispatch,
  decode_cbor_message, process_cbor_message,
}

module _ {D F S : Type 0} (sys : System D F S) where
  open sys use {lib, hmac, config}

  -- The reading of a buffer by the node in some state.
  abbrev pub parsed_by : Times → Bytes → Node S → Option (Envelope × Option Payload)
  parsed_by t buffer node =
      parse_message lib hmac config.pre_shared_network_key node.nonce_cache t.decoded buffer

  pub process_refused :
      (t : Times) (buffer : Bytes) (node : Node S)
      → parsed_by t buffer node ≡ none
      → process_cbor_message sys t buffer node ≡ node
  unfolding process_cbor_message decode_cbor_message
  process_refused t buffer node h = elim (Bool-cases (ltb 0 (length buffer))) [
    | inl bytes ↦ rw (process_cbor_message, bytes, decode_cbor_message, h) refl
    | inr empty ↦ rw (process_cbor_message, empty) refl
  ]

  -- Only a message that is some bytes, then a tag of eight bytes which is computed for exactly these
  -- bytes under the network's key, and what follows; that has not expired, and whose nonce is not
  -- known, changes anything in the node. The decoders of cbor.h leave an end of what they are given.
  pub process_cbor_message-authentic :
      (cursor : IsCborCursor lib) (t : Times) (buffer : Bytes) (node : Node S)
      → process_cbor_message sys t buffer node ≢ node
      → (e : Envelope) × (payload : Option Payload) × (parsed_by t buffer node ≡ some (e, payload))
        × (t.decoded ≤ e.expire_time)
        × (is_nonce_duplicate e.nonce e.origin node.nonce_cache ≡ false)
        × (before tag after : Bytes) × (buffer ≡ before ++ tag_head ∷ (tag ++ after))
        × (length tag ≡ dtnex_hmac_size)
        × IsTag hmac config.pre_shared_network_key before tag
  process_cbor_message-authentic cursor t buffer node changed =
      elim (Option-cases (parsed_by t buffer node)) [
        | inl refused ↦ absurd (changed (process_refused t buffer node refused))
        | inr ((e, payload), parsed) ↦
            let (before, tag, after, shape, size, tagged, timely, fresh) =
              parse_message-authentic lib cursor hmac config.pre_shared_network_key node.nonce_cache
                t.decoded buffer e payload parsed in
            (e, payload, parsed, timely, fresh, before, tag, after, shape, size, tagged)
      ]

  -- A message that may be written to ION.
  abbrev pub IsWritable : Times → Envelope → Option Payload → Type 0
  IsWritable t e payload =
      ((c : ContactRecord) × (payload ≡ some (contact c))
        × IsAcceptable config.node_id t.validated e.origin c)
      ⊎ ((r : RangeRecord) × (payload ≡ some (range r))
          × IsWindow config.node_id t.validated e.origin r.from_node r.to_node r.from_time
              r.to_time)

  contact_writes :
      (t : Times) (e : Envelope) (c : ContactRecord) (node : Node S)
      → (process_cbor_contact_message sys t e c node).1.ion_state ≢ node.ion_state
      → IsAcceptable config.node_id t.validated e.origin c
  unfolding process_cbor_contact_message
  contact_writes t e c node changed =
      elim (Option-cases (validate_contact config.node_id t.validated e.origin c)) [
        | inl accepted ↦ (validate_contact_iff config.node_id t.validated e.origin c).0 accepted
        | inr (reason, refused) ↦ absurd (changed (rw (process_cbor_contact_message, refused) refl))
      ]

  range_writes :
      (t : Times) (e : Envelope) (r : RangeRecord) (node : Node S)
      → (process_cbor_range_message sys t e r node).1.ion_state ≢ node.ion_state
      → IsWindow config.node_id t.validated e.origin r.from_node r.to_node r.from_time r.to_time
  unfolding process_cbor_range_message
  range_writes t e r node changed =
      elim (Option-cases (validate_range config.node_id t.validated e.origin r)) [
        | inl accepted ↦ (validate_range_iff config.node_id t.validated e.origin r).0 accepted
        | inr (reason, refused) ↦ absurd (changed (rw (process_cbor_range_message, refused) refl))
      ]

  dispatch_writes :
      (t : Times) (e : Envelope) (payload : Option Payload) (node : Node S)
      → (dispatch sys t e payload node).1.ion_state ≢ node.ion_state
      → IsWritable t e payload
  unfolding dispatch process_cbor_metadata_message forward_cbor_metadata_message forward
  dispatch_writes t e none node changed = absurd (changed refl)
  dispatch_writes t e (some (contact c)) node changed =
      inl (c, refl, contact_writes t e c node changed)
  dispatch_writes t e (some (range r)) node changed = inr (r, refl, range_writes t e r node changed)
  dispatch_writes t e (some (metadata m)) node changed =
      elim (Bool-cases (e.origin == config.node_id)) [
        | inl own ↦ absurd (changed (rw own refl))
        | inr foreign ↦ absurd (changed (rw foreign refl))
      ]

  -- The contact plan of ION changes only by an authentic message that announces a contact or a
  -- range of its own origin, another node, with a window that is well formed, not over and not too
  -- far ahead.
  pub process_cbor_message-writes :
      (t : Times) (buffer : Bytes) (node : Node S)
      → (process_cbor_message sys t buffer node).ion_state ≢ node.ion_state
      → (e : Envelope) × (payload : Option Payload) × (parsed_by t buffer node ≡ some (e, payload))
        × IsWritable t e payload
  unfolding process_cbor_message decode_cbor_message
  process_cbor_message-writes t buffer node changed =
      elim (Option-cases (parsed_by t buffer node)) [
        | inl refused ↦
            absurd
              (changed (ap (λ (n : Node S). n.ion_state) (process_refused t buffer node refused)))
        | inr ((e, payload), parsed) ↦ elim (Bool-cases (ltb 0 (length buffer))) [
          | inl bytes ↦ (
            e,
            payload,
            parsed,
            dispatch_writes t e payload
                (record node {
                  nonce_cache = add_nonce_to_cache e.nonce e.origin t.cached node.nonce_cache;
                })
                (λ same.
                  changed (rw (process_cbor_message, bytes, decode_cbor_message, parsed) same)),
          )
          | inr empty ↦ absurd (changed (rw (process_cbor_message, empty) refl))
        ]
      ]
