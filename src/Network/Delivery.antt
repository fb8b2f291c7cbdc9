-- ===== src/Network/Delivery.antt =====
-- One bundle that arrives at a node of dtnex.c: what it costs of the keys that the node has not seen,
-- and what it sends for it.
use dtnex_redesign.Base.{
  ℕ, ◌+◌, ◌*◌, ◌≡◌, refl, sym, ap, subst, ◌∙◌, ◌≤◌, ◌<◌, ◌^◌, Bool, true, false, ◌&&◌, Option, none,
  some, List, [], ◌∷◌, ◌++◌, Bytes, length, All, All-map, arith, Bool-cases, Option-cases, inl, inr,
  ltb, if◌then◌else◌,
}
use dtnex_redesign.Cbor.Library.{CborLib, IsCborEncoder, IsCborDecoder}
use dtnex_redesign.Nonce.{NonceCache, max_hash_cache, is_nonce_duplicate, add_nonce_to_cache}
use dtnex_redesign.Plans.{max_plans}
use dtnex_redesign.Decode.{Envelope, Payload, decode_envelope, parse_message}
use dtnex_redesign.Node.{System, Node, Times}
use dtnex_redesign.Node.Policy.{parsed_by, process_refused}
use dtnex_redesign.Node.Invariant.{IsNode, process_cbor_message-IsNode}
use dtnex_redesign.Node.Process.{dispatch, decode_cbor_message, process_cbor_message}
use dtnex_redesign.Node.Replay.{dispatch-nonce_cache}
use dtnex_redesign.Network.Keys.{unseen, unseen-add_nonce_to_cache}
use dtnex_redesign.Network.Copies.{Carries, dispatch-Sends}

pub All-middle {ℓ} :
    {A : Type 0} (P : A → Type ℓ) (before after : List A) (x : A)
    → All P (before ++ (x ∷ after))
    → P x × All P (before ++ after)
All-middle P [] after x h = (h.0, h.1)
All-middle P (y ∷ before) after x h =
    let (here, others) = All-middle P before after x h.1 in (here, (h.0, others))

-- The integers that the library reads are of the type `uvast`, of 64 bits.
abbrev pub IsUvast : CborLib → Type 0
IsUvast lib =
    (bytes : Bytes) (v : ℕ) (rest : Bytes) → lib.decode_integer bytes ≡ some (v, rest) → v < 2 ^ 64

-- Whoever reads an envelope in the bytes finds one of the keys.
abbrev pub IsKeyed : CborLib → List NonceCache → Bytes → Type 0
IsKeyed lib keys bytes =
    (now : ℕ) (f : Envelope) (rest : Bytes)
    → decode_envelope lib now bytes ≡ some (f, rest)
    → is_nonce_duplicate f.nonce f.origin keys ≡ true

envelope_bounds :
    (lib : CborLib) (uvast : IsUvast lib) (now : ℕ) (bytes rest : Bytes) (e : Envelope)
    → decode_envelope lib now bytes ≡ some (e, rest)
    → (e.origin < 2 ^ 64) × (length e.nonce ≡ 3)
unfolding decode_envelope
envelope_bounds lib uvast now bytes rest e h = elim (Option-cases (lib.decode_array_open bytes)) [
  | inl bad ↦ absurd (ground arith)
  | inr ((size, b1), r1) ↦ elim (Option-cases (lib.decode_integer b1)) [
    | inl bad ↦ absurd (ground arith)
    | inr ((version, b2), r2) ↦ elim (Option-cases (lib.decode_text_string 1 b2)) [
      | inl bad ↦ absurd (ground arith)
      | inr ((type, b3), r3) ↦ elim (Option-cases (lib.decode_integer b3)) [
        | inl bad ↦ absurd (ground arith)
        | inr ((timestamp, b4), r4) ↦ elim (Option-cases (lib.decode_integer b4)) [
          | inl bad ↦ absurd (ground arith)
          | inr ((expire, b5), r5) ↦ elim (Option-cases (lib.decode_integer b5)) [
            | inl bad ↦ absurd (ground arith)
            | inr ((origin, b6), r6) ↦ ground (arith, uvast b5 origin b6 r6)
          ]
        ]
      ]
    ]
  ]
]

-- The parse of a message begins with its envelope, whose nonce is not known.
parsed_envelope :
    {D F S : Type 0} (sys : System D F S) (t : Times) (buffer : Bytes) (node : Node S)
    (e : Envelope) (payload : Option Payload)
    → parsed_by sys t buffer node ≡ some (e, payload)
    → (rest : Bytes) × (decode_envelope sys.lib t.decoded buffer ≡ some (e, rest))
      × (is_nonce_duplicate e.nonce e.origin node.nonce_cache ≡ false)
unfolding parse_message
parsed_envelope sys t buffer node e payload h =
    elim (Option-cases (decode_envelope sys.lib t.decoded buffer)) [
      | inl bad ↦ absurd (ground arith)
      | inr ((e1, b1), envelope) ↦ (b1, ground arith, ground arith)
    ]

unfoldable pub is_some {ℓ} : {A : Type ℓ} → Option A → Bool
is_some none = false
is_some (some a) = true

module _ {D F S : Type 0} (sys : System D F S) where
  open sys use {lib, config}

  -- Whether the node takes a bundle, and what it does with it, its sends counted from here.
  unfoldable pub is_accepted : Times → Bytes → Node S → Bool
  is_accepted t buffer node = ltb 0 (length buffer) && is_some (parsed_by sys t buffer node)

  unfoldable pub handle_bundle : Times → Bytes → Node S → Node S
  handle_bundle t buffer node = process_cbor_message sys t buffer (record node { outbox = [] })

  abbrev pub empty : Node S → Node S
  empty node = record node { outbox = [] }

  -- The node with the nonce of a message in its cache.
  abbrev pub noted : Times → Node S → Envelope → Node S
  noted t node e = record node {
    nonce_cache = add_nonce_to_cache e.nonce e.origin t.cached node.nonce_cache;
    outbox = [];
  }

  pub handle_bundle_accepted :
      (t : Times) (buffer : Bytes) (node : Node S) (e : Envelope) (payload : Option Payload)
      → 0 < length buffer
      → parsed_by sys t buffer node ≡ some (e, payload)
      → handle_bundle t buffer node ≡ (dispatch sys t e payload (noted t node e)).1
  unfolding handle_bundle process_cbor_message decode_cbor_message
  handle_bundle_accepted t buffer node e payload bytes parsed =
      let some_bytes : ltb 0 (length buffer) ≡ true = ground arith in
      rw (handle_bundle, process_cbor_message, some_bytes, decode_cbor_message, parsed) refl

  -- The tables are in their bounds, and the cache has room for the keys that are unseen.
  abbrev pub HasRoom : List NonceCache → Node S → Type 0
  HasRoom keys node =
      IsNode config.node_id node
      × (length node.nonce_cache + unseen node.nonce_cache keys ≤ max_hash_cache)

  -- What a bundle costs: a key that was unseen, and a bundle for each plan, if it is accepted, and
  -- nothing otherwise.
  pub record Costs (keys : List NonceCache) (node after : Node S) (a : ℕ) : Type 0 where
    pub valid : HasRoom keys after
    pub used : unseen after.nonce_cache keys + a ≤ unseen node.nonce_cache keys
    pub sent : length after.outbox ≤ max_plans * a
    pub keyed : All (λ b. IsKeyed lib keys b.cbor_data) after.outbox

  module _ (enc : IsCborEncoder lib) (dec : IsCborDecoder lib) (uvast : IsUvast lib)
      (node_fits : config.node_id < 2 ^ 64) (keys : List NonceCache) (t : Times) (buffer : Bytes)
      (node : Node S) (h : HasRoom keys node) where
    empty-IsNode : IsNode config.node_id (empty node)
    empty-IsNode = record { nonces = h.0.nonces; book = h.0.book; neighbors = h.0.neighbors }

    refused-Costs :
        handle_bundle t buffer node ≡ empty node → Costs keys node (handle_bundle t buffer node) 0
    refused-Costs same =
        subst (λ n. Costs keys node n 0) (sym same)
          (record {
            valid = (empty-IsNode, h.1);
            used = omega arith;
            sent = omega arith;
            keyed = tt;
          })

    handle_bundle-IsNode : IsNode config.node_id (handle_bundle t buffer node)
    unfolding handle_bundle
    handle_bundle-IsNode = process_cbor_message-IsNode sys t buffer (empty node) empty-IsNode

    accepted-Costs :
        (e : Envelope) (payload : Option Payload)
        → IsKeyed lib keys buffer
        → 0 < length buffer
        → parsed_by sys t buffer node ≡ some (e, payload)
        → Costs keys node (handle_bundle t buffer node) 1
    accepted-Costs e payload keyed bytes parsed =
        let (rest, envelope, fresh) = parsed_envelope sys t buffer node e payload parsed in
        let (origin_fits, nonce_size) =
          envelope_bounds lib uvast t.decoded buffer rest e envelope in
        let known = keyed t.decoded e rest envelope in
        let done = handle_bundle_accepted t buffer node e payload bytes parsed in
        let (sent, out, (all, few)) =
          dispatch-Sends sys enc dec node_fits t e origin_fits nonce_size (noted t node e)
            h.0.neighbors payload in
        let (used, grown) =
          unseen-add_nonce_to_cache e.nonce e.origin t.cached node.nonce_cache keys known fresh
            h.1 in
        let cache : (handle_bundle t buffer node).nonce_cache ≡ (noted t node e).nonce_cache =
          ap (λ (n : Node S). n.nonce_cache) done
          ∙ dispatch-nonce_cache sys t e payload (noted t node e) in
        let box : (handle_bundle t buffer node).outbox ≡ sent =
          ap (λ (n : Node S). n.outbox) done ∙ out in
        record {
          valid = (handle_bundle-IsNode, rw cache (omega arith));
          used = rw cache (omega arith);
          sent = rw box (omega arith);
          keyed = rw box (
              All-map (λ b. Carries lib e.nonce e.origin b.cbor_data)
                (λ b. IsKeyed lib keys b.cbor_data) sent
                (λ b carries now f r read.
                  let (nonce, origin) = carries now f r read in rw (nonce, origin) known)
                all);
        }

    -- A keyed bundle costs the node a key that was unseen if it is accepted, and nothing otherwise.
    pub handle_bundle-Costs :
        IsKeyed lib keys buffer
        → Costs keys node (handle_bundle t buffer node) (if is_accepted t buffer node then 1 else 0)
    unfolding is_accepted is_some handle_bundle process_cbor_message
    handle_bundle-Costs keyed = elim (Option-cases (parsed_by sys t buffer node)) [
      | inl refused ↦
          let nothing : is_accepted t buffer node ≡ false = ground (arith, refused) in
          rw nothing (refused-Costs (process_refused sys t buffer (empty node) refused))
      | inr ((e, payload), parsed) ↦ elim (Bool-cases (ltb 0 (length buffer))) [
        | inl bytes ↦
            let taken : is_accepted t buffer node ≡ true = ground (arith, bytes, parsed) in
            rw taken (accepted-Costs e payload keyed (ground arith) parsed)
        | inr short ↦
            let nothing : is_accepted t buffer node ≡ false = ground (arith, short) in
            rw nothing (refused-Costs (rw (handle_bundle, process_cbor_message, short) refl))
      ]
    ]
