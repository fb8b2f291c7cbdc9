-- ===== src/Node/Invariant.antt =====
-- The bounds of the node's tables, through everything that it receives.
use dtnex_redesign.Base.{
  ℕ, ◌≡◌, ◌≤◌, ltb, Option, List, [], ◌∷◌, Bytes, length, length-append, arith, Bool-cases,
  Option-cases, inl, inr,
}
use dtnex_redesign.Nonce.{NonceCache, max_hash_cache, shift_in, add_nonce, add_nonce_to_cache}
use dtnex_redesign.Metadata.{update_node_metadata}
use dtnex_redesign.Metadata.Store.{IsBook, update_node_metadata-IsBook}
use dtnex_redesign.Plans.Laws.{IsPlanList, getplanlist-IsPlanList}
use dtnex_redesign.Decode.{Envelope, Payload, parse_message}
use dtnex_redesign.Node.{System, Node, Times}
use dtnex_redesign.Node.Forward.{forward, forwarded_contact, forwarded_range, forwarded_metadata}
use dtnex_redesign.Node.Rule.{dispatch_P}
use dtnex_redesign.Node.Process.{dispatch, decode_cbor_message, process_cbor_message, full_metadata}

length-shift_in : (e : NonceCache) (xs : List NonceCache) → length (shift_in e xs) ≡ length xs
unfolding shift_in
length-shift_in e [] = ground arith
length-shift_in e (x ∷ []) = ground arith
length-shift_in e (x ∷ y ∷ xs) = ground (arith, length-shift_in e (y ∷ xs))

add_nonce_to_cache-le :
    (nonce : Bytes) (origin now : ℕ) (cache : List NonceCache)
    → length cache ≤ max_hash_cache
    → length (add_nonce_to_cache nonce origin now cache) ≤ max_hash_cache
unfolding add_nonce_to_cache add_nonce
add_nonce_to_cache-le nonce origin now cache h =
    let e : NonceCache = record { nonce = nonce; origin = origin; timestamp = now } in
    ground (arith, length-shift_in e cache, length-append cache (e ∷ []))

-- The three tables fit their arrays, and the plans are those of neighbours of the node.
pub record IsNode {S : Type 0} (id : ℕ) (node : Node S) : Type 0 where
  pub nonces : length node.nonce_cache ≤ max_hash_cache
  pub book : IsBook node.metadata_list
  pub neighbors : IsPlanList id node.plan_cache.plans

module _ {D F S : Type 0} (sys : System D F S) where
  open sys use {config}

  forward-IsNode :
      (e : Envelope) (message : Bytes) (now : ℕ) (node : Node S)
      → IsNode config.node_id node
      → IsNode config.node_id (forward sys e message now node)
  unfolding forward
  forward-IsNode e message now node h = record {
    nonces = h.nonces;
    book = h.book;
    neighbors =
        (getplanlist-IsPlanList config.node_id now (sys.plan_view node.ion_state) node.plan_cache
          h.neighbors).1;
  }

  dispatch-IsNode :
      (t : Times) (e : Envelope) (payload : Option Payload) (node : Node S)
      → IsNode config.node_id node
      → IsNode config.node_id (dispatch sys t e payload node).1
  dispatch-IsNode t e payload node h =
      dispatch_P sys (IsNode config.node_id) t e node payload
        (record {
          by_contact = λ c s.
              forward-IsNode e (forwarded_contact sys e c) t.planned (record node { ion_state = s })
                (record { nonces = h.nonces; book = h.book; neighbors = h.neighbors });
          by_range = λ r s.
              forward-IsNode e (forwarded_range sys e r) t.planned (record node { ion_state = s })
                (record { nonces = h.nonces; book = h.book; neighbors = h.neighbors });
          by_metadata = λ m.
              let updated =
                update_node_metadata-IsBook m.node_id (full_metadata sys m) node.metadata_list
                  h.book in
              forward-IsNode e (forwarded_metadata sys e m) t.planned
                (record node {
                  metadata_list =
                      update_node_metadata m.node_id (full_metadata sys m) node.metadata_list;
                })
                (record { nonces = h.nonces; book = updated; neighbors = h.neighbors });
        })
        h

  decode-IsNode :
      (t : Times) (buffer : Bytes) (node : Node S)
      → IsNode config.node_id node
      → IsNode config.node_id (decode_cbor_message sys t buffer node).1
  unfolding decode_cbor_message
  decode-IsNode t buffer node h =
      elim (Option-cases (
        parse_message sys.lib sys.hmac config.pre_shared_network_key node.nonce_cache t.decoded
          buffer)) [
            | inl refused ↦ rw (decode_cbor_message, refused) h
            | inr ((e, payload), parsed) ↦
                let added =
                  add_nonce_to_cache-le e.nonce e.origin t.cached node.nonce_cache h.nonces in
                rw (decode_cbor_message, parsed)
                  (dispatch-IsNode t e payload
                    (record node {
                      nonce_cache = add_nonce_to_cache e.nonce e.origin t.cached node.nonce_cache;
                    })
                    (record { nonces = added; book = h.book; neighbors = h.neighbors }))
          ]

  -- Whatever bytes arrive and whatever ION answers, a node whose tables are in their bounds stays
  -- so.
  pub process_cbor_message-IsNode :
      (t : Times) (buffer : Bytes) (node : Node S)
      → IsNode config.node_id node
      → IsNode config.node_id (process_cbor_message sys t buffer node)
  unfolding process_cbor_message
  process_cbor_message-IsNode t buffer node h = elim (Bool-cases (ltb 0 (length buffer))) [
    | inl bytes ↦ rw bytes (decode-IsNode t buffer node h)
    | inr empty ↦ rw empty h
  ]
