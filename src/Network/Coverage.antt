-- ===== src/Network/Coverage.antt =====
-- Nodes of dtnex.c that pass on one contact message until none is under way: which of them have
-- applied it.
pub mod Step
pub mod Held
use dtnex_redesign.Base.{
  ℕ, zero, suc, ◌+◌, ◌≡◌, ◌≢◌, refl, sym, ap, subst, ◌∙◌, ◌≤◌, ◌<◌, ◌^◌, ◌⊎◌, ◌==◌, ◌||◌, Bool,
  true, false, List, [], ◌∷◌, ◌++◌, Bytes, length, All, All-map, All-append, arith, Bool-cases, inl,
  inr, ==_iff, ==_ne,
}
use dtnex_redesign.Base.Int.{to_uvast}
use dtnex_redesign.Types.{DtnexConfig, ContactRecord, Bundle, IsContactRecord}
use dtnex_redesign.Cbor.Library.{IsCborEncoder, IsCborDecoder}
use dtnex_redesign.Hmac.Laws.{IsSha256}
use dtnex_redesign.Nonce.{is_nonce_duplicate}
use dtnex_redesign.Validate.Accepted.{IsAcceptable}
use dtnex_redesign.Node.{System, Node, Times}
use dtnex_redesign.Node.Flood.{bundles_to}
use dtnex_redesign.Announce.Exchange.Targets.{bundles_to-append}
use dtnex_redesign.Network.Sum.{replace, replace_P, replace_here, replace_elsewhere}
use dtnex_redesign.Network.Delivery.{handle_bundle, All-middle}
use dtnex_redesign.Network.Signed.{at, IsSigned}
use dtnex_redesign.Network.Nodes.{Net, deliver}
use dtnex_redesign.Network.Arrival.{Holds, Links, IsSteady}

module _ {D F S : Type 0} (sys : System D F S) (key : Bytes) (origin : ℕ) (nonce : Bytes)
    (c : ContactRecord) (configs : ℕ → DtnexConfig D) (n : ℕ) where
  open sys use {lib, hmac}

  abbrev pub id : ℕ → ℕ
  id i = (configs i).node_id

  abbrev pub knows : Net S → ℕ → Bool
  knows s i = is_nonce_duplicate nonce origin (s.nodes i).nonce_cache

  module _ (links : Links sys key origin nonce c configs) where
    abbrev Holding : S → Type 0
    Holding = Holds sys key origin nonce c configs

    abbrev Steady : ℕ → Node S → Type 0
    Steady = IsSteady sys key origin nonce c configs links

    -- A run of one message in which no copy is lost: each is delivered, in any order, before the
    -- contact is over and where it is acceptable; and between the deliveries any node may change, by
    -- other messages too, but for its plans and for what it knows and holds of this one.
    pub data Deliveries : Net S → Net S → Type 0 where
      over : {s : Net S} → Deliveries s s
      delivered :
          {s r : Net S} (before after : List Bundle) (b : Bundle) (i : ℕ) (t : Times)
          → s.air ≡ before ++ (b ∷ after)
          → i < n
          → b.dest_node ≡ id i
          → t.decoded ≤ to_uvast c.to_time
          → IsAcceptable (id i) t.validated origin c
          → Deliveries (deliver sys configs i t b (before ++ after) s) r
          → Deliveries s r
      changed :
          {s r : Net S} (i : ℕ) (node : Node S)
          → is_nonce_duplicate nonce origin node.nonce_cache ≡ knows s i
          → Steady i node
          → (Holding (s.nodes i).ion_state → Holding node.ion_state)
          → Deliveries (record s { nodes = replace s.nodes i node }) r
          → Deliveries s r

    -- The nodes to which the message is under way, and those that their plans lead to.
    pub data Linked (start : Net S) : ℕ → Type 0 where
      first : (j : ℕ) → j < n → 0 < bundles_to (id j) start.air → Linked start j
      next :
          (i j : ℕ)
          → Linked start i
          → j < n
          → 0 < links.degree i (id j)
          → id j ≢ origin
          → Linked start j

    -- The origin, or a node that has the message.
    abbrev pub IsSource : Net S → ℕ → Type 0
    IsSource s i = (id i ≡ origin) ⊎ (knows s i ≡ true)

    -- A bundle under way is a signed copy, and whoever has its signer's number is a source.
    abbrev pub IsCopyOf : Net S → Bundle → Type 0
    IsCopyOf s b =
        (g : IsSigned sys key origin nonce c b.cbor_data) × ((j : ℕ)
          → j < n
          → id j ≡ g.signer.node_id
          → IsSource s j)

    -- What a node has, or is about to receive.
    abbrev pub IsServed : Net S → ℕ → Type 0
    IsServed s j = (knows s j ≡ true) ⊎ (0 < bundles_to (id j) s.air)

    pub record IsSpreading (start s : Net S) : Type 0 where
      pub copies : All (IsCopyOf s) s.air
      pub steady : (i : ℕ) → Steady i (s.nodes i)
      pub seeds : (j : ℕ) → j < n → 0 < bundles_to (id j) start.air → IsServed s j
      pub served :
          (i j : ℕ)
          → i < n
          → j < n
          → knows s i ≡ true
          → 0 < links.degree i (id j)
          → id j ≢ origin
          → IsServed s j
      pub held : (i : ℕ) → knows s i ≡ true → Holding (s.nodes i).ion_state

    -- The origin has announced the message, and no node has it.
    pub record IsAnnounced (s : Net S) : Type 0 where
      pub copies :
          All
            (λ b. (g : IsSigned sys key origin nonce c b.cbor_data) × (g.signer.node_id ≡ origin))
            s.air
      pub steady : (i : ℕ) → Steady i (s.nodes i)
      pub unknown : (i : ℕ) → knows s i ≡ false

    pub IsAnnounced-IsSpreading : (s : Net S) → IsAnnounced s → IsSpreading s s
    IsAnnounced-IsSpreading s p = record {
      copies =
          All-map
            (λ b. (g : IsSigned sys key origin nonce c b.cbor_data) × (g.signer.node_id ≡ origin))
            (IsCopyOf s) s.air (λ b k. (k.0, λ j low mine. inl (mine ∙ k.1))) p.copies;
      steady = p.steady;
      seeds = λ j low k. inr k;
      served = λ i j high low k linked foreign. absurd (ground (arith, p.unknown i, k));
      held = λ i k. absurd (ground (arith, p.unknown i, k));
    }

    -- A change of a node that keeps what it knows, its plans and what it holds.
    pub changed-IsSpreading :
        (start s : Net S) (i : ℕ) (node : Node S)
        → is_nonce_duplicate nonce origin node.nonce_cache ≡ knows s i
        → Steady i node
        → (Holding (s.nodes i).ion_state → Holding node.ion_state)
        → IsSpreading start s
        → IsSpreading start (record s { nodes = replace s.nodes i node })
    changed-IsSpreading start s i node same steady kept p =
        let after : Net S = record s { nodes = replace s.nodes i node } in
        let known : (j : ℕ) → knows after j ≡ knows s j = λ j.
          replace_P (λ k (a : Node S). is_nonce_duplicate nonce origin a.nonce_cache ≡ knows s k)
            s.nodes i node same j refl in
        let serves : (j : ℕ) → IsServed s j → IsServed after j =
          λ j w. elim w [ inl k ↦ inl (known j ∙ k) | inr k ↦ inr k ] in
        record {
          copies =
              All-map (IsCopyOf s) (IsCopyOf after) s.air
                (λ b w. (
                  w.0,
                  λ j low mine. elim (w.1 j low mine) [
                    | inl own ↦ inl own
                    | inr k ↦ inr (known j ∙ k)
                  ],
                ))
                p.copies;
          steady = λ j. replace_P Steady s.nodes i node steady j (p.steady j);
          seeds = λ j low k. serves j (p.seeds j low k);
          served = λ a j high low k linked foreign.
              serves j (p.served a j high low (sym (known a) ∙ k) linked foreign);
          held = λ j k.
              replace_P (λ x (a : Node S). knows s x ≡ true → Holding a.ion_state) s.nodes i node
                (λ w. kept (p.held i w)) j (p.held j) (sym (known j) ∙ k);
        }
