-- ===== src/Network/Copies.antt =====
-- What an accepted message makes a node of dtnex.c send: at most one bundle for each plan, each with
-- the nonce and the origin of the message.
use dtnex_redesign.Base.{
  ℕ, ◌≡◌, refl, sym, ap, subst, ◌∙◌, ◌≤◌, ◌<◌, ◌^◌, Option, none, some, List, [], ◌∷◌, ◌++◌, Bytes,
  length, All, arith, Bool-cases, inl, inr, ltb, if◌then◌else◌,
}
use dtnex_redesign.Base.Int.{ℤ, to_time, to_uvast, to_uvast-lt}
use dtnex_redesign.Types.{Plan, Bundle}
use dtnex_redesign.Cbor.Library.{CborLib, IsCborEncoder, IsCborDecoder}
use dtnex_redesign.Message.{
  append_cbor_hmac, write_cbor_envelope, write_contact_payload, write_range_payload,
  write_metadata_payload,
}
use dtnex_redesign.Message.Layout.{write_cbor_envelope-bytes}
use dtnex_redesign.Plans.{max_plans, getplanlist}
use dtnex_redesign.Plans.Laws.{IsPlanList, getplanlist-IsPlanList}
use dtnex_redesign.Decode.{Envelope, Payload, decode_envelope}
use dtnex_redesign.Decode.RoundTrip.{decode_envelope-bytes}
use dtnex_redesign.Node.{System, Node, Times}
use dtnex_redesign.Node.Forward.{
  is_skipped, forward_loop, forward, forwarded_envelope, forwarded_contact, forwarded_range,
  forwarded_metadata,
}
use dtnex_redesign.Node.Rule.{dispatch_P}
use dtnex_redesign.Node.Process.{dispatch, full_metadata}
use dtnex_redesign.Metadata.{update_node_metadata}
use mathlib.Core.List.{append-nil, append_assoc}

-- Whoever reads the envelope of the bytes, and whenever, finds this nonce and this origin.
abbrev pub Carries : CborLib → Bytes → ℕ → Bytes → Type 0
Carries lib nonce origin bytes =
    (now : ℕ) (f : Envelope) (rest : Bytes)
    → decode_envelope lib now bytes ≡ some (f, rest)
    → (f.nonce ≡ nonce) × (f.origin ≡ origin)

module _ (lib : CborLib) (enc : IsCborEncoder lib) (dec : IsCborDecoder lib) where
  pub Carries-envelope :
      (type : ℕ) (timestamp expire_time : ℤ) (origin from : ℕ) (nonce rest : Bytes)
      → origin < 2 ^ 64
      → from < 2 ^ 64
      → length nonce ≡ 3
      → Carries lib nonce origin
          (write_cbor_envelope lib type timestamp expire_time origin from nonce ++ rest)
  Carries-envelope type timestamp expire_time origin from nonce rest ho hf hn now f after read =
      let e : Envelope = record {
        message_type = type;
        timestamp = to_uvast timestamp;
        expire_time = to_uvast expire_time;
        origin = origin;
        from = from;
        nonce = nonce;
      } in
      let written =
        write_cbor_envelope-bytes lib enc type origin from timestamp expire_time nonce ho hf hn in
      let decoded =
        decode_envelope-bytes lib dec e (to_uvast-lt timestamp) (to_uvast-lt expire_time) ho hf hn
          now rest in
      let joined : (if ltb e.expire_time now then none else some (e, rest)) ≡ some (f, after) =
        sym decoded ∙ ap (λ m. decode_envelope lib now (m ++ rest)) (sym written) ∙ read in
      ground (arith, joined)

module _ {D F S : Type 0} (sys : System D F S) where
  open sys use {lib, hmac, config}

  -- The bundles that are sent, each with the nonce and the origin of the message.
  abbrev IsSpread : Envelope → List Bundle → Type 0
  IsSpread e bundles =
      All (λ b. Carries lib e.nonce e.origin b.cbor_data) bundles × (length bundles ≤ max_plans)

  forward_loop-IsSpread :
      (e : Envelope) (message : Bytes) (plans : List Plan)
      → Carries lib e.nonce e.origin message
      → All (λ b. Carries lib e.nonce e.origin b.cbor_data) (forward_loop sys e message plans)
        × (length (forward_loop sys e message plans) ≤ length plans)
  unfolding forward_loop
  forward_loop-IsSpread e message [] carries = (tt, omega arith)
  forward_loop-IsSpread e message (p ∷ plans) carries =
      let rest = forward_loop-IsSpread e message plans carries in
      elim (Bool-cases (is_skipped sys e p.plan_id)) [
        | inl skipped ↦ rw skipped (rest.0, omega arith)
        | inr taken ↦ rw taken ((carries, rest.0), omega arith)
      ]

  -- What a step has appended to the outbox.
  abbrev Sends : Envelope → Node S → Node S → Type 0
  Sends e node after = (sent : List Bundle) × (after.outbox ≡ node.outbox ++ sent) × IsSpread e sent

  nothing-Sends : (e : Envelope) (node : Node S) → Sends e node node
  nothing-Sends e node = ([], sym (append-nil node.outbox), (tt, omega arith))

  forward-Sends :
      (e : Envelope) (message : Bytes) (now : ℕ) (node : Node S)
      → IsPlanList config.node_id node.plan_cache.plans
      → Carries lib e.nonce e.origin message
      → Sends e node (forward sys e message now node)
  unfolding forward
  forward-Sends e message now node h carries =
      let r = getplanlist config.node_id now (sys.plan_view node.ion_state) node.plan_cache in
      let (listed, _) =
        getplanlist-IsPlanList config.node_id now (sys.plan_view node.ion_state) node.plan_cache
          h in
      let (all, few) = forward_loop-IsSpread e message r.0 carries in
      (forward_loop sys e message r.0, refl, (all, omega (arith, few, listed.1)))

  module _ (enc : IsCborEncoder lib) (dec : IsCborDecoder lib) (node_fits : config.node_id < 2 ^ 64)
      (t : Times) (e : Envelope) (origin_fits : e.origin < 2 ^ 64) (nonce_size : length e.nonce ≡ 3)
      (node : Node S) (plans : IsPlanList config.node_id node.plan_cache.plans) where
    Carries-forwarded :
        (type : ℕ) (payload : Bytes)
        → Carries lib e.nonce e.origin
            (append_cbor_hmac lib hmac config (forwarded_envelope sys type e ++ payload))
    unfolding append_cbor_hmac forwarded_envelope
    Carries-forwarded type payload =
        subst (Carries lib e.nonce e.origin)
          (sym (append_assoc (forwarded_envelope sys type e) payload _))
          (Carries-envelope lib enc dec type (to_time e.timestamp) (to_time e.expire_time) e.origin
            config.node_id e.nonce (payload ++ _) origin_fits node_fits nonce_size)

    -- Whatever the payload is, the node sends copies to its neighbours or nothing.
    pub dispatch-Sends : (payload : Option Payload) → Sends e node (dispatch sys t e payload node).1
    unfolding forwarded_contact forwarded_range forwarded_metadata
    dispatch-Sends payload =
        dispatch_P sys (Sends e node) t e node payload
          (record {
            by_contact = λ c s.
                forward-Sends e (forwarded_contact sys e c) t.planned
                  (record node { ion_state = s }) plans
                  (Carries-forwarded b'c' (write_contact_payload lib c));
            by_range = λ r s.
                forward-Sends e (forwarded_range sys e r) t.planned (record node { ion_state = s })
                  plans (Carries-forwarded b'r' (write_range_payload lib r));
            by_metadata = λ m.
                forward-Sends e (forwarded_metadata sys e m) t.planned
                  (record node {
                    metadata_list =
                        update_node_metadata m.node_id (full_metadata sys m) node.metadata_list;
                  })
                  plans (Carries-forwarded b'm' (write_metadata_payload lib m));
          })
          (nothing-Sends e node)
