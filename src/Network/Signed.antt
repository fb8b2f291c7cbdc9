-- ===== src/Network/Signed.antt =====
-- One contact message as the nodes of dtnex.c pass it on: the message of its own node, and its copies.
use dtnex_redesign.Base.{
  ℕ, ◌≡◌, refl, sym, ap, subst, ◌∙◌, ◌≤◌, ◌<◌, ◌^◌, true, false, none, some, List, [], ◌++◌, Bytes,
  length, All, All-map, arith, Bool-cases, Option-cases, inl, inr, ◌⊎◌, if_P, ltb,
}
use dtnex_redesign.Base.Int.{ℤ, pos, to_time, to_uvast, to_uvast-lt, to_uvast-to_time}
use dtnex_redesign.Types.{DtnexConfig, ContactRecord, Bundle, IsContactRecord}
use dtnex_redesign.Cbor.Library.{IsCborEncoder, IsCborDecoder}
use dtnex_redesign.Hmac.Laws.{IsSha256}
use dtnex_redesign.Nonce.{NonceCache, is_nonce_duplicate, add_nonce_to_cache}
use dtnex_redesign.Message.{
  append_cbor_hmac, write_cbor_envelope, write_contact_payload, encode_cbor_contact_message,
}
use dtnex_redesign.Validate.{validate_contact}
use dtnex_redesign.Validate.Accepted.{IsAcceptable}
use dtnex_redesign.Ion.Contacts.{ionc_apply_contact}
use dtnex_redesign.Plans.{getplanlist}
use dtnex_redesign.Decode.{Envelope, Payload, contact, parse_message}
use dtnex_redesign.Decode.Sent.{expected, parse_message-contact}
use dtnex_redesign.Node.{System, Node, Times}
use dtnex_redesign.Node.Forward.{
  forward_loop, forward, forwarded_envelope, forwarded_contact, forward_cbor_contact_message,
}
use dtnex_redesign.Node.Process.{process_cbor_contact_message, dispatch, process_cbor_message}
use dtnex_redesign.Node.Policy.{parsed_by, process_refused}
use dtnex_redesign.Node.Flood.{IsCopy, forward_loop-IsCopy}
use dtnex_redesign.Node.Learn.{process_cbor_message-contact}
use dtnex_redesign.Network.Delivery.{handle_bundle, handle_bundle_accepted, noted, empty}

expected-cases :
    (e : Envelope) (cache : List NonceCache) (now : ℕ) (p : Payload)
    → (expected e cache now p ≡ none) ⊎ (expected e cache now p ≡ some (e, some p))
unfolding expected
expected-cases e cache now p =
    if_P (λ o. (o ≡ none) ⊎ (o ≡ some (e, some p))) (ltb e.expire_time now) (inl refl)
      (if_P (λ o. (o ≡ none) ⊎ (o ≡ some (e, some p))) (is_nonce_duplicate e.nonce e.origin cache)
        (inl refl) (inr refl))

-- The same libraries, and an ION, at another node.
abbrev pub at : {D F S : Type 0} → System D F S → DtnexConfig D → System D F S
at sys config = record sys { config = config }

module _ {D F S : Type 0} (sys : System D F S) (key : Bytes) (origin : ℕ) (nonce : Bytes)
    (c : ContactRecord) where
  open sys use {lib, hmac}

  abbrev pub written : DtnexConfig D → ℤ → ℤ → Bytes
  written signer timestamp expire_time = append_cbor_hmac lib hmac signer (
      write_cbor_envelope lib b'c' timestamp expire_time origin signer.node_id nonce
      ++ write_contact_payload lib c)

  -- A contact message with this origin, this nonce and the end of the contact, signed with the key.
  pub record IsSigned (m : Bytes) : Type 0 where
    pub signer : DtnexConfig D
    pub signer_fits : signer.node_id < 2 ^ 64
    pub same_key : signer.pre_shared_network_key ≡ key
    pub timestamp : ℤ
    pub expire_time : ℤ
    pub ends : to_uvast expire_time ≡ to_uvast c.to_time
    pub bytes : m ≡ written signer timestamp expire_time

  -- Its envelope, as every node reads it.
  abbrev pub as_read : {m : Bytes} → IsSigned m → Envelope
  as_read s = record {
    message_type = b'c';
    timestamp = to_uvast s.timestamp;
    expire_time = to_uvast s.expire_time;
    origin = origin;
    from = s.signer.node_id;
    nonce = nonce;
  }

  pub announced-IsSigned :
      (sender : DtnexConfig D) (now : ℕ)
      → origin < 2 ^ 64
      → sender.node_id ≡ origin
      → sender.pre_shared_network_key ≡ key
      → IsSigned (encode_cbor_contact_message lib hmac sender now nonce c)
  unfolding encode_cbor_contact_message
  announced-IsSigned sender now fits here same = record {
    signer = sender;
    signer_fits = rw here fits;
    same_key = same;
    timestamp = pos now;
    expire_time = c.to_time;
    ends = refl;
    bytes = rw (encode_cbor_contact_message, here) refl;
  }

  module _ (enc : IsCborEncoder lib) (dec : IsCborDecoder lib) (sha : IsSha256 hmac)
      (origin_fits : origin < 2 ^ 64) (nonce_size : length nonce ≡ 3) (h : IsContactRecord c)
      (config : DtnexConfig D) (same_config : config.pre_shared_network_key ≡ key) (t : Times)
      (node : Node S) where
    -- A signed message is read as the contact, or not at all.
    signed-parsed :
        {m : Bytes} (s : IsSigned m)
        → parsed_by (at sys config) t m node
          ≡ expected (as_read s) node.nonce_cache t.decoded (contact c)
    signed-parsed s =
        ap (λ b. parse_message lib hmac config.pre_shared_network_key node.nonce_cache t.decoded b)
          s.bytes
        ∙ ap
            (λ k.
              parse_message lib hmac k node.nonce_cache t.decoded
                (written s.signer s.timestamp s.expire_time))
            (same_config ∙ sym s.same_key)
        ∙ parse_message-contact lib enc dec hmac sha s.signer s.signer_fits nonce nonce_size
            node.nonce_cache t.decoded origin s.timestamp s.expire_time origin_fits c h

    -- The copies that a node sends of a contact.
    AreCopies : Envelope → List Bundle → Type 0
    AreCopies e = All (λ b. b.cbor_data ≡ forwarded_contact (at sys config) e c)

    dispatch-AreCopies :
        (e : Envelope) (n : Node S)
        → n.outbox ≡ []
        → AreCopies e (dispatch (at sys config) t e (some (contact c)) n).1.outbox
    unfolding AreCopies dispatch process_cbor_contact_message forward_cbor_contact_message forward
    dispatch-AreCopies e n none_yet =
        elim (Option-cases (validate_contact config.node_id t.validated e.origin c)) [
          | inl accepted ↦
              let r =
                getplanlist config.node_id t.planned
                  (sys.plan_view (ionc_apply_contact sys.float sys.ion c n.ion_state).1)
                  n.plan_cache in
              let message = forwarded_contact (at sys config) e c in
              rw (process_cbor_contact_message, accepted, forward, none_yet)
                (All-map (IsCopy (at sys config) e message) (λ b. b.cbor_data ≡ message)
                  (forward_loop (at sys config) e message r.0) (λ b copy. copy.0)
                  (forward_loop-IsCopy (at sys config) e message r.0))
          | inr (reason, refused) ↦ rw (process_cbor_contact_message, refused, none_yet) tt
        ]

    -- The node sends copies of a signed message, or nothing.
    handle_bundle-AreCopies :
        {m : Bytes} (s : IsSigned m)
        → AreCopies (as_read s) (handle_bundle (at sys config) t m node).outbox
    unfolding AreCopies handle_bundle process_cbor_message
    handle_bundle-AreCopies {m} s =
        elim (expected-cases (as_read s) node.nonce_cache t.decoded (contact c)) [
          | inl nothing ↦
              subst (λ (n : Node S). AreCopies (as_read s) n.outbox)
                (sym (
                  process_refused (at sys config) t m (empty (at sys config) node)
                    (signed-parsed s ∙ nothing)))
                tt
          | inr accepted ↦ elim (Bool-cases (ltb 0 (length m))) [
            | inl bytes ↦
                subst (λ (n : Node S). AreCopies (as_read s) n.outbox)
                  (sym (
                    handle_bundle_accepted (at sys config) t m node (as_read s) (some (contact c))
                      (ground arith) (signed-parsed s ∙ accepted)))
                  (dispatch-AreCopies (as_read s) (noted (at sys config) t node (as_read s)) refl)
            | inr short ↦ rw (handle_bundle, process_cbor_message, short) tt
          ]
        ]

    -- A copy is signed by the node that sends it.
    copy-IsSigned :
        {m : Bytes} (s : IsSigned m) (b : Bundle)
        → config.node_id < 2 ^ 64
        → b.cbor_data ≡ forwarded_contact (at sys config) (as_read s) c
        → (g : IsSigned b.cbor_data) × (g.signer.node_id ≡ config.node_id)
    unfolding forwarded_contact forwarded_envelope
    copy-IsSigned s b fits copy = (
      record {
        signer = config;
        signer_fits = fits;
        same_key = same_config;
        timestamp = to_time (as_read s).timestamp;
        expire_time = to_time (as_read s).expire_time;
        ends = to_uvast-to_time (as_read s).expire_time (to_uvast-lt s.expire_time) ∙ s.ends;
        bytes = copy;
      },
      refl,
    )

    -- Everything that a node sends for a signed message is signed by the node.
    pub handle_bundle-IsSigned :
        {m : Bytes} (s : IsSigned m)
        → config.node_id < 2 ^ 64
        → All
            (λ b. (g : IsSigned b.cbor_data) × (g.signer.node_id ≡ config.node_id))
            (handle_bundle (at sys config) t m node).outbox
    unfolding AreCopies
    handle_bundle-IsSigned {m} s fits =
        All-map (λ b. b.cbor_data ≡ forwarded_contact (at sys config) (as_read s) c)
          (λ b. (g : IsSigned b.cbor_data) × (g.signer.node_id ≡ config.node_id))
          (handle_bundle (at sys config) t m node).outbox (λ b copy. copy-IsSigned s b fits copy)
          (handle_bundle-AreCopies s)

    -- A message that is not known, not over and acceptable is applied and forwarded.
    pub handle_bundle-fresh :
        {m : Bytes} (s : IsSigned m)
        → t.decoded ≤ to_uvast c.to_time
        → is_nonce_duplicate nonce origin node.nonce_cache ≡ false
        → IsAcceptable config.node_id t.validated origin c
        → handle_bundle (at sys config) t m node
          ≡ forward_cbor_contact_message (at sys config) (as_read s) c t.planned (record node {
            nonce_cache = add_nonce_to_cache nonce origin t.cached node.nonce_cache;
            ion_state = (ionc_apply_contact sys.float sys.ion c node.ion_state).1;
            outbox = [];
          })
    unfolding handle_bundle
    handle_bundle-fresh s timely fresh good =
        ap (λ b. process_cbor_message (at sys config) t b (empty (at sys config) node)) s.bytes
        ∙ process_cbor_message-contact (at sys config) enc dec sha s.signer s.signer_fits
            (s.same_key ∙ sym same_config) nonce nonce_size s.timestamp s.expire_time origin
            origin_fits t (empty (at sys config) node)
            (subst (λ x. t.decoded ≤ x) (sym s.ends) timely) fresh c h good

    -- A message whose nonce is known changes nothing.
    pub handle_bundle-known :
        {m : Bytes} (s : IsSigned m)
        → is_nonce_duplicate nonce origin node.nonce_cache ≡ true
        → handle_bundle (at sys config) t m node ≡ empty (at sys config) node
    unfolding handle_bundle expected
    handle_bundle-known {m} s known =
        let nothing : expected (as_read s) node.nonce_cache t.decoded (contact c) ≡ none =
          ground (arith, known) in
        process_refused (at sys config) t m (empty (at sys config) node) (signed-parsed s ∙ nothing)
