-- ===== src/Network/Travel.antt =====
-- A contact of one node of dtnex.c on its way through any number of others.
use dtnex_redesign.Base.{
  ℕ, ◌≡◌, refl, sym, ap, subst, ◌∙◌, ◌≤◌, ◌<◌, ◌^◌, true, false, List, ◌∷◌, ◌++◌, Bytes, length,
  All, arith,
}
use dtnex_redesign.Base.Int.{to_uvast}
use dtnex_redesign.Types.{DtnexConfig, ContactRecord, Bundle, IsContactRecord}
use dtnex_redesign.Cbor.Library.{IsCborEncoder, IsCborDecoder}
use dtnex_redesign.Hmac.Laws.{IsSha256}
use dtnex_redesign.Nonce.{is_nonce_duplicate}
use dtnex_redesign.Message.{encode_cbor_contact_message}
use dtnex_redesign.Validate.Accepted.{IsAcceptable}
use dtnex_redesign.Ion.Contacts.{ionc_apply_contact}
use dtnex_redesign.Ion.Contacts.Sync.{
  is_written, IsHeld, IsReal, KeepsContacts, ionc_apply_contact-IsHeld,
}
use dtnex_redesign.Node.{System, Node, Times}
use dtnex_redesign.Node.Forward.{forward, forward_cbor_contact_message}
use dtnex_redesign.Node.Process.{process_cbor_message}
use dtnex_redesign.Node.Learn.{process_cbor_message-contact}
use dtnex_redesign.Network.Delivery.{handle_bundle, All-middle}
use dtnex_redesign.Network.Signed.{at, IsSigned, announced-IsSigned, handle_bundle-IsSigned}

module _ {D F S : Type 0} (sys : System D F S) (key : Bytes) (origin : ℕ) (nonce : Bytes)
    (c : ContactRecord) where
  open sys use {lib, hmac}

  -- The bundles that carry the contact: what its own node announces, and what any node with the key
  -- sends, in whatever state it is, when it receives one of them.
  pub data Travels : Bytes → Type 0 where
    announced :
        (sender : DtnexConfig D) (now : ℕ)
        → sender.node_id ≡ origin
        → sender.pre_shared_network_key ≡ key
        → Travels (encode_cbor_contact_message lib hmac sender now nonce c)
    relayed :
        {m : Bytes} (relay : DtnexConfig D) (t : Times) (node : Node S) (before after : List Bundle)
        (b : Bundle)
        → relay.node_id < 2 ^ 64
        → relay.pre_shared_network_key ≡ key
        → (handle_bundle (at sys relay) t m node).outbox ≡ before ++ (b ∷ after)
        → Travels m
        → Travels b.cbor_data

  module _ (enc : IsCborEncoder lib) (dec : IsCborDecoder lib) (sha : IsSha256 hmac)
      (origin_fits : origin < 2 ^ 64) (nonce_size : length nonce ≡ 3) (h : IsContactRecord c) where
    Travels-IsSigned : {m : Bytes} → Travels m → IsSigned sys key origin nonce c m
    Travels-IsSigned (announced sender now here same) =
        announced-IsSigned sys key origin nonce c sender now origin_fits here same
    Travels-IsSigned (relayed relay t node before after b fits same split earlier) =
        let sent =
          handle_bundle-IsSigned sys key origin nonce c enc dec sha origin_fits nonce_size h relay
            same t node (Travels-IsSigned earlier) fits in
        (All-middle
          (λ b.
            (g : IsSigned sys key origin nonce c b.cbor_data) × (g.signer.node_id ≡ relay.node_id))
          before after b
          (subst
            (All (λ b.
              (g : IsSigned sys key origin nonce c b.cbor_data) × (g.signer.node_id
                ≡ relay.node_id)))
            split sent)).0.0

    -- A contact that another node has announced, and that has come here through any number of nodes
    -- with the key, in whatever state each of them was, is applied to ION as it was announced, if
    -- it is not yet over, acceptable here, and its nonce is not known.
    Travels-applied :
        {m : Bytes} (config : DtnexConfig D) (t : Times) (node : Node S)
        → Travels m
        → config.pre_shared_network_key ≡ key
        → t.decoded ≤ to_uvast c.to_time
        → is_nonce_duplicate nonce origin node.nonce_cache ≡ false
        → IsAcceptable config.node_id t.validated origin c
        → (process_cbor_message (at sys config) t m node).ion_state
          ≡ (ionc_apply_contact sys.float sys.ion c node.ion_state).1
    unfolding forward_cbor_contact_message forward
    Travels-applied config t node way same timely fresh good =
        let s = Travels-IsSigned way in
        ap (λ b. (process_cbor_message (at sys config) t b node).ion_state) s.bytes
        ∙ ap (λ (n : Node S). n.ion_state)
            (process_cbor_message-contact (at sys config) enc dec sha s.signer s.signer_fits
              (s.same_key ∙ sym same) nonce nonce_size s.timestamp s.expire_time origin origin_fits
              t node (subst (λ x. t.decoded ≤ x) (sym s.ends) timely) fresh c h good)

    -- A contact that a node has announced is then in the ION of every node that it has come to,
    -- through any number of nodes with the key, where the receiver's clock, nonce cache and ION
    -- allow it: the window, the rate and the confidence are as they were announced.
    pub Travels-IsHeld :
        {m : Bytes} (config : DtnexConfig D) (t : Times) (node : Node S)
        → KeepsContacts sys.float sys.ion
        → Travels m
        → config.pre_shared_network_key ≡ key
        → t.decoded ≤ to_uvast c.to_time
        → is_nonce_duplicate nonce origin node.nonce_cache ≡ false
        → IsAcceptable config.node_id t.validated origin c
        → is_written (ionc_apply_contact sys.float sys.ion c node.ion_state).0 ≡ true
        → IsHeld sys.float c
            (sys.ion.view (process_cbor_message (at sys config) t m node).ion_state)
    Travels-IsHeld {m} config t node keeps way same timely fresh good wrote =
        let w = good.window in
        let real : IsReal c =
          (w.begins, w.real, omega (arith, w.begins, w.ordered), λ same. w.outward (sym same)) in
        subst (λ s. IsHeld sys.float c (sys.ion.view s))
          (sym (Travels-applied config t node way same timely fresh good))
          (ionc_apply_contact-IsHeld sys.float sys.ion keeps c real node.ion_state _ _ refl wrote)
