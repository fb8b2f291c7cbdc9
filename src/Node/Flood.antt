-- ===== src/Node/Flood.antt =====
-- What the forwarding of an accepted message sends: to whom, and what they read.
use dtnex_redesign.Base.{
  ℕ, suc, ◌≡◌, ◌≢◌, refl, ◌∙◌, ◌≤◌, ◌<◌, ◌^◌, ◌==◌, ==_iff, List, [], ◌∷◌, Bytes, length, All,
  arith, if◌then◌else◌, Bool-cases, inl, inr,
}
use dtnex_redesign.Base.Int.{to_time, to_uvast, to_uvast-to_time}
use dtnex_redesign.Types.{
  ContactRecord, RangeRecord, StructuredMetadata, Plan, Bundle, IsContactRecord, IsRangeRecord,
}
use dtnex_redesign.Cbor.Library.{IsCborEncoder, IsCborDecoder}
use dtnex_redesign.Hmac.Laws.{IsSha256}
use dtnex_redesign.Nonce.{NonceCache}
use dtnex_redesign.Message.{max_cbor_buffer}
use dtnex_redesign.Extract.Texts.{IsPortable, as_sent}
use dtnex_redesign.Decode.{Envelope, Payload, contact, range, metadata, parse_message}
use dtnex_redesign.Decode.Sent.{
  expected, parse_message-contact, parse_message-range, parse_message-metadata,
}
use dtnex_redesign.Node.{System}
use dtnex_redesign.Node.Forward.{
  is_skipped, forward_loop, forwarded_envelope, forwarded_contact, forwarded_range,
  forwarded_metadata,
}

-- How many bundles go to a node, and how many plans there are for it.
unfoldable pub bundles_to : ℕ → List Bundle → ℕ
bundles_to n [] = 0
bundles_to n (b ∷ bundles) =
    let rest = bundles_to n bundles in if b.dest_node == n then suc rest else rest

unfoldable pub plans_to : ℕ → List Plan → ℕ
plans_to n [] = 0
plans_to n (p ∷ plans) = let rest = plans_to n plans in if p.plan_id == n then suc rest else rest

-- A decoded envelope that the encoder can write again.
pub record IsEnvelope (e : Envelope) : Type 0 where
  pub timestamp_fits : e.timestamp < 2 ^ 64
  pub expire_fits : e.expire_time < 2 ^ 64
  pub origin_fits : e.origin < 2 ^ 64
  pub nonce_size : length e.nonce ≡ 3

module _ {D F S : Type 0} (sys : System D F S) where
  open sys use {lib, hmac, config}

  pub forward_loop-bundles_to :
      (e : Envelope) (message : Bytes) (plans : List Plan) (n : ℕ)
      → bundles_to n (forward_loop sys e message plans)
        ≡ (if is_skipped sys e n then 0 else plans_to n plans)
  unfolding forward_loop bundles_to plans_to
  forward_loop-bundles_to e message [] n = ground arith
  forward_loop-bundles_to e message (p ∷ plans) n = elim (Bool-cases (p.plan_id == n)) [
    | inl here ↦
        let same : p.plan_id ≡ n = ground (arith, ==_iff p.plan_id n) in
        ground (arith, same, forward_loop-bundles_to e message plans n)
    | inr there ↦ ground (arith, there, forward_loop-bundles_to e message plans n)
  ]

  -- The origin, the sender and the node itself are sent no bundle, and each other node one for each
  -- of its plans.
  pub forward_loop-targets :
      (e : Envelope) (message : Bytes) (plans : List Plan) (n : ℕ)
      → bundles_to n (forward_loop sys e message plans) ≡ (
          if n == e.origin
          then 0
          else if n == e.from
          then 0
          else if n == config.node_id
          then 0
          else plans_to n plans)
  unfolding is_skipped
  forward_loop-targets e message plans n = ground (arith, forward_loop-bundles_to e message plans n)

  -- The service, the lifetime and the bytes of each bundle.
  abbrev pub IsCopy : Envelope → Bytes → Bundle → Type 0
  IsCopy e message b =
      (b.cbor_data ≡ message)
      × (b.dest_service ≡ config.service_nr)
      × (b.ttl ≡ config.bundle_ttl)
      × (b.dest_node ≢ e.origin)
      × (b.dest_node ≢ e.from)
      × (b.dest_node ≢ config.node_id)

  -- Every bundle that is sent has the same bytes, the lifetime of the configuration, and none
  -- goes back to the origin, to the sender, or to the node itself.
  pub forward_loop-IsCopy :
      (e : Envelope) (message : Bytes) (plans : List Plan)
      → All (IsCopy e message) (forward_loop sys e message plans)
  unfolding forward_loop is_skipped
  forward_loop-IsCopy e message [] = ground arith
  forward_loop-IsCopy e message (p ∷ plans) = elim (Bool-cases (is_skipped sys e p.plan_id)) [
    | inl skipped ↦ ground (arith, skipped, forward_loop-IsCopy e message plans)
    | inr taken ↦ ground (arith, taken, forward_loop-IsCopy e message plans)
  ]

  -- The envelope that the next node reads.
  abbrev pub passed_on : ℕ → Envelope → Envelope
  passed_on type e = record e { message_type = type; from = config.node_id }

  module _ (enc : IsCborEncoder lib) (dec : IsCborDecoder lib) (sha : IsSha256 hmac)
      (node_fits : config.node_id < 2 ^ 64) (e : Envelope) (h : IsEnvelope e)
      (cache : List NonceCache) (now : ℕ) where
    -- The two times go through `time_t` and back.
    times_kept :
        (type : ℕ) (payload : Payload)
        → expected
            (record (passed_on type e) {
              timestamp = to_uvast (to_time e.timestamp);
              expire_time = to_uvast (to_time e.expire_time);
            })
            cache
            now
            payload
          ≡ expected (passed_on type e) cache now payload
    times_kept type payload =
        rw
          (
            to_uvast-to_time e.timestamp h.timestamp_fits,
            to_uvast-to_time e.expire_time h.expire_fits,
          )
          refl

    -- The next node with the key reads the contact that this one forwards, with the envelope that it
    -- came in but for the sender, unless the message has expired or its nonce is known.
    pub parse_message-forwarded_contact :
        (c : ContactRecord)
        → IsContactRecord c
        → parse_message lib hmac config.pre_shared_network_key cache now (forwarded_contact sys e c)
          ≡ expected (passed_on b'c' e) cache now (contact c)
    unfolding forwarded_contact forwarded_envelope
    parse_message-forwarded_contact c k =
        parse_message-contact lib enc dec hmac sha config node_fits e.nonce h.nonce_size cache now
          e.origin (to_time e.timestamp) (to_time e.expire_time) h.origin_fits c k
        ∙ times_kept b'c' (contact c)

    -- The next node with the key reads the range that this one forwards, with the envelope that it
    -- came in but for the sender, unless the message has expired or its nonce is known.
    parse_message-forwarded_range :
        (r : RangeRecord)
        → IsRangeRecord r
        → parse_message lib hmac config.pre_shared_network_key cache now (forwarded_range sys e r)
          ≡ expected (passed_on b'r' e) cache now (range r)
    unfolding forwarded_range forwarded_envelope
    parse_message-forwarded_range r k =
        parse_message-range lib enc dec hmac sha config node_fits e.nonce h.nonce_size cache now
          e.origin (to_time e.timestamp) (to_time e.expire_time) h.origin_fits r k
        ∙ times_kept b'r' (range r)

    -- The next node with the key reads the metadata that this one forwards, if the texts fit its
    -- reader and the message the buffer of 128 bytes that it is encoded into, with the coordinates
    -- only if neither is 0, and with the envelope that they came in but for the sender, unless the
    -- message has expired or its nonce is known.
    pub parse_message-forwarded_metadata :
        (m : StructuredMetadata)
        → IsPortable m
        → length (forwarded_metadata sys e m) ≤ max_cbor_buffer
        → parse_message lib hmac config.pre_shared_network_key cache now
            (forwarded_metadata sys e m)
          ≡ expected (passed_on b'm' e) cache now (metadata (as_sent m))
    unfolding forwarded_metadata forwarded_envelope
    parse_message-forwarded_metadata m k small =
        parse_message-metadata lib enc dec hmac sha config node_fits e.nonce h.nonce_size cache now
          e.origin (to_time e.timestamp) (to_time e.expire_time) h.origin_fits m k
        ∙ times_kept b'm' (metadata (as_sent m))
