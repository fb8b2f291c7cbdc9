-- ===== src/Node/Learn.antt =====
-- One hop of a message, from the node that signs it to the tables of the node that receives it.
use dtnex_redesign.Base.{
  ℕ, ◌≡◌, refl, sym, ap, ◌∙◌, ◌≤◌, ◌<◌, ◌^◌, ltb, true, false, some, ◌++◌, Bytes, length, arith,
}
use dtnex_redesign.Base.Int.{ℤ, to_uvast}
use dtnex_redesign.Types.{DtnexConfig, ContactRecord, RangeRecord, IsContactRecord, IsRangeRecord}
use dtnex_redesign.Cbor.Format.{head}
use dtnex_redesign.Cbor.Library.{IsCborEncoder, IsCborDecoder}
use dtnex_redesign.Hmac.Laws.{IsSha256}
use dtnex_redesign.Nonce.{is_nonce_duplicate, add_nonce_to_cache}
use dtnex_redesign.Message.{
  append_cbor_hmac, write_cbor_envelope, write_contact_payload, write_range_payload,
}
use dtnex_redesign.Validate.Accepted.{
  IsWindow, IsAcceptable, validate_contact_iff, validate_range_iff,
}
use dtnex_redesign.Ion.Contacts.{ionc_apply_contact}
use dtnex_redesign.Ion.Ranges.{ionc_apply_range}
use dtnex_redesign.Decode.{Envelope, Payload, contact, range, parse_message}
use dtnex_redesign.Decode.Sent.{expected, parse_message-contact, parse_message-range}
use dtnex_redesign.Node.{System, Node, Times}
use dtnex_redesign.Node.Forward.{forward_cbor_contact_message, forward_cbor_range_message}
use dtnex_redesign.Node.Process.{
  process_cbor_contact_message, process_cbor_range_message, dispatch, decode_cbor_message,
  process_cbor_message,
}
use dtnex_redesign.Node.Policy.{parsed_by}

module _ {D F S : Type 0} (sys : System D F S) (enc : IsCborEncoder sys.lib)
    (dec : IsCborDecoder sys.lib) (sha : IsSha256 sys.hmac) {E : Type 0} (sender : DtnexConfig E)
    (sender_fits : sender.node_id < 2 ^ 64)
    (same_key : sender.pre_shared_network_key ≡ sys.config.pre_shared_network_key) (nonce : Bytes)
    (nonce_size : length nonce ≡ 3) (timestamp expire_time : ℤ) (origin : ℕ)
    (origin_fits : origin < 2 ^ 64) (t : Times) (node : Node S)
    (timely : t.decoded ≤ to_uvast expire_time)
    (fresh : is_nonce_duplicate nonce origin node.nonce_cache ≡ false) where
  open sys use {lib, hmac, config}

  -- The message that arrives, of some type and with some payload, and its envelope as it is read.
  abbrev sent : ℕ → Bytes → Bytes
  sent type payload =
      append_cbor_hmac lib hmac sender
        (write_cbor_envelope lib type timestamp expire_time origin sender.node_id nonce ++ payload)

  abbrev arrived : ℕ → Envelope
  arrived type = record {
    message_type = type;
    timestamp = to_uvast timestamp;
    expire_time = to_uvast expire_time;
    origin = origin;
    from = sender.node_id;
    nonce = nonce;
  }

  -- The node with the nonce of the message in its cache.
  abbrev noted : Node S
  noted = record node { nonce_cache = add_nonce_to_cache nonce origin t.cached node.nonce_cache }

  expected_accepted :
      (type : ℕ) (payload : Payload)
      → expected (arrived type) node.nonce_cache t.decoded payload
        ≡ some (arrived type, some payload)
  unfolding expected
  expected_accepted type payload = ground (arith, fresh)

  sent_bytes : (type : ℕ) (payload : Bytes) → ltb 0 (length (sent type payload)) ≡ true
  unfolding append_cbor_hmac write_cbor_envelope head
  sent_bytes type payload = rw (enc.encode_array_open_lem 9 (omega arith)) (ground arith)

  process_accepted :
      (type : ℕ) (payload : Bytes) (said : Payload)
      → parse_message lib hmac sender.pre_shared_network_key node.nonce_cache t.decoded
          (sent type payload)
        ≡ expected (arrived type) node.nonce_cache t.decoded said
      → process_cbor_message sys t (sent type payload) node
        ≡ (dispatch sys t (arrived type) (some said) noted).1
  unfolding process_cbor_message decode_cbor_message
  process_accepted type payload said parsed =
      let read : parsed_by sys t (sent type payload) node ≡ some (arrived type, some said) =
        ap (λ key. parse_message lib hmac key node.nonce_cache t.decoded (sent type payload))
          (sym same_key)
        ∙ parsed
        ∙ expected_accepted type said in
      rw (process_cbor_message, sent_bytes type payload, decode_cbor_message, read) refl

  -- For a contact message that a node with the same key signs, for any origin and any times, with a
  -- nonce of three bytes that is not in the cache, not yet expired, and with a contact whose fields
  -- are in range and that is acceptable here: the node notes the nonce, applies exactly that contact
  -- to ION, and then forwards the message, with all of the envelope as it was read.
  pub process_cbor_message-contact :
      (c : ContactRecord)
      → IsContactRecord c
      → IsAcceptable config.node_id t.validated origin c
      → process_cbor_message sys t (sent b'c' (write_contact_payload lib c)) node
        ≡ forward_cbor_contact_message sys
            (arrived b'c')
            c
            t.planned
            (record noted { ion_state = (ionc_apply_contact sys.float sys.ion c node.ion_state).1 })
  unfolding dispatch process_cbor_contact_message
  process_cbor_message-contact c h k =
      process_accepted b'c' (write_contact_payload lib c) (contact c) (
        parse_message-contact lib enc dec hmac sha sender sender_fits nonce nonce_size
          node.nonce_cache t.decoded origin timestamp expire_time origin_fits c h)
      ∙ rw
          (
            process_cbor_contact_message,
            (validate_contact_iff config.node_id t.validated origin c).1 k,
          )
          refl

  -- For a range message that a node with the same key signs, with a nonce of three bytes that is not
  -- in the cache, not yet expired, and with a range whose fields are in range and whose window is
  -- acceptable here: the node notes the nonce, applies exactly that range to ION, and then forwards
  -- the message.
  process_cbor_message-range :
      (r : RangeRecord)
      → IsRangeRecord r
      → IsWindow config.node_id t.validated origin r.from_node r.to_node r.from_time r.to_time
      → process_cbor_message sys t (sent b'r' (write_range_payload lib r)) node
        ≡ forward_cbor_range_message sys
            (arrived b'r')
            r
            t.planned
            (record noted { ion_state = (ionc_apply_range sys.ion r node.ion_state).1 })
  unfolding dispatch process_cbor_range_message
  process_cbor_message-range r h k =
      process_accepted b'r' (write_range_payload lib r) (range r) (
        parse_message-range lib enc dec hmac sha sender sender_fits nonce nonce_size
          node.nonce_cache t.decoded origin timestamp expire_time origin_fits r h)
      ∙ rw
          (process_cbor_range_message, (validate_range_iff config.node_id t.validated origin r).1 k)
          refl
