-- ===== src/Threads/Addressed.antt =====
-- To whom the two threads of dtnex.c that send anything send it.
use dtnex_redesign.Base.{
  ℕ, ◌≢◌, sym, subst, ltb, Option, List, [], ◌∷◌, Bytes, length, All, All-append, Bool-cases,
  Option-cases, inl, inr, if_P,
}
use dtnex_redesign.Base.Int.{ℤ}
use dtnex_redesign.Types.{DtnexConfig, Plan, Bundle}
use dtnex_redesign.Cbor.Library.{CborLib}
use dtnex_redesign.Hmac.{HmacSha256}
use dtnex_redesign.Nonce.{add_nonce_to_cache}
use dtnex_redesign.Metadata.{update_node_metadata}
use dtnex_redesign.Plans.Laws.{IsNeighbor, IsPlanList, getplanlist-IsPlanList}
use dtnex_redesign.Ion.{IonView, Float}
use dtnex_redesign.Decode.{Envelope, Payload}
use dtnex_redesign.Node.{System, Node, Times}
use dtnex_redesign.Node.Forward.{
  is_skipped, forward_loop, forward, forwarded_contact, forwarded_range, forwarded_metadata,
}
use dtnex_redesign.Node.Rule.{dispatch_P}
use dtnex_redesign.Node.Process.{dispatch, decode_cbor_message, process_cbor_message, full_metadata}
use dtnex_redesign.Node.Replay.{process_all}
use dtnex_redesign.Node.Policy.{parsed_by, process_refused}
use dtnex_redesign.Announce.Exchange.{Announcer, Inputs, exchange_with_neighbors}
use dtnex_redesign.Announce.Exchange.Rule.{All-unit, exchange_with_neighbors_P}

-- To another node, and one that has a number.
abbrev pub IsAddressed : ℕ → Bundle → Type 0
IsAddressed id b = (b.dest_node ≢ 0) × (b.dest_node ≢ id)

module _ {D F : Type 0} (lib : CborLib) (hmac : HmacSha256) (float : Float F) (scale_gps : D → ℤ)
    (config : DtnexConfig D) (id : ℕ) where
  -- An exchange sends to the neighbours only.
  pub exchange_with_neighbors-IsAddressed :
      (i : Inputs) (v : IonView F) (plans : List Plan) (a : Announcer)
      → All (IsNeighbor id) plans
      → All (IsAddressed id) (exchange_with_neighbors lib hmac float scale_gps config i v plans a).0
  exchange_with_neighbors-IsAddressed i v plans a h =
      exchange_with_neighbors_P lib hmac float scale_gps config (IsAddressed id) (IsNeighbor id)
        (λ c. Unit) i v plans a
        (record {
          by_contact = λ p k c n _. n;
          by_range = λ p k r n. n;
          by_metadata = λ p k m n _. n;
        })
        h (All-unit _)

module _ {D F S : Type 0} (sys : System D F S) where
  open sys use {config}

  forward_loop-IsAddressed :
      (e : Envelope) (message : Bytes) (plans : List Plan)
      → All (IsNeighbor config.node_id) plans
      → All (IsAddressed config.node_id) (forward_loop sys e message plans)
  unfolding forward_loop
  forward_loop-IsAddressed e message [] h = tt
  forward_loop-IsAddressed e message (p ∷ plans) h =
      let rest = forward_loop-IsAddressed e message plans h.1 in
      if_P (All (IsAddressed config.node_id)) (is_skipped sys e p.plan_id) rest (h.0, rest)

  -- A node whose plans are neighbours, and which has sent to other nodes only.
  abbrev pub IsSender : Node S → Type 0
  IsSender node =
      IsPlanList config.node_id node.plan_cache.plans × All (IsAddressed config.node_id) node.outbox

  forward-IsSender :
      (e : Envelope) (message : Bytes) (now : ℕ) (node : Node S)
      → IsSender node
      → IsSender (forward sys e message now node)
  unfolding forward
  forward-IsSender e message now node h =
      let (listed, kept) =
        getplanlist-IsPlanList config.node_id now (sys.plan_view node.ion_state) node.plan_cache
          h.0 in
      (
        kept,
        All-append (IsAddressed config.node_id) node.outbox _ h.1
            (forward_loop-IsAddressed e message _ listed.0),
      )

  dispatch-IsSender :
      (t : Times) (e : Envelope) (payload : Option Payload) (node : Node S)
      → IsSender node
      → IsSender (dispatch sys t e payload node).1
  dispatch-IsSender t e payload node h =
      dispatch_P sys IsSender t e node payload
        (record {
          by_contact = λ c s.
              forward-IsSender e (forwarded_contact sys e c) t.planned
                (record node { ion_state = s }) h;
          by_range = λ r s.
              forward-IsSender e (forwarded_range sys e r) t.planned (record node { ion_state = s })
                h;
          by_metadata = λ m.
              forward-IsSender e (forwarded_metadata sys e m) t.planned
                (record node {
                  metadata_list =
                      update_node_metadata m.node_id (full_metadata sys m) node.metadata_list;
                })
                h;
        })
        h

  process_cbor_message-IsSender :
      (t : Times) (buffer : Bytes) (node : Node S)
      → IsSender node
      → IsSender (process_cbor_message sys t buffer node)
  unfolding process_cbor_message decode_cbor_message
  process_cbor_message-IsSender t buffer node h =
      elim (Option-cases (parsed_by sys t buffer node)) [
        | inl refused ↦ subst IsSender (sym (process_refused sys t buffer node refused)) h
        | inr ((e, payload), parsed) ↦ elim (Bool-cases (ltb 0 (length buffer))) [
          | inl bytes ↦
              rw (process_cbor_message, bytes, decode_cbor_message, parsed)
                (dispatch-IsSender t e payload
                  (record node {
                    nonce_cache = add_nonce_to_cache e.nonce e.origin t.cached node.nonce_cache;
                  })
                  h)
          | inr empty ↦ rw (process_cbor_message, empty) h
        ]
      ]

  -- Whatever bundles come, the node sends to its neighbours only.
  pub process_all-IsSender :
      (bundles : List (Times × Bytes)) (node : Node S)
      → IsSender node
      → IsSender (process_all sys bundles node)
  unfolding process_all
  process_all-IsSender [] node h = h
  process_all-IsSender ((t, buffer) ∷ bundles) node h =
      process_all-IsSender bundles (process_cbor_message sys t buffer node)
        (process_cbor_message-IsSender t buffer node h)
