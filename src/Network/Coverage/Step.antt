-- ===== src/Network/Coverage/Step.antt =====
-- What a delivery of one contact message keeps.
use dtnex_redesign.Base.{
  ℕ, ◌≡◌, ◌≢◌, sym, ap, subst, ◌∙◌, ◌≤◌, ◌<◌, ◌^◌, ◌==◌, Bool, true, false, List, ◌∷◌, ◌++◌, Bytes,
  length, All, All-map, All-append, arith, Bool-cases, inl, inr,
}
use dtnex_redesign.Base.Int.{to_uvast}
use dtnex_redesign.Types.{DtnexConfig, ContactRecord, Bundle, IsContactRecord}
use dtnex_redesign.Cbor.Library.{IsCborEncoder, IsCborDecoder}
use dtnex_redesign.Hmac.Laws.{IsSha256}
use dtnex_redesign.Nonce.{is_nonce_duplicate}
use dtnex_redesign.Validate.Accepted.{IsAcceptable}
use dtnex_redesign.Node.{System, Node, Times}
use dtnex_redesign.Node.Flood.{bundles_to}
use dtnex_redesign.Announce.Exchange.Targets.{bundles_to-append}
use dtnex_redesign.Network.Sum.{replace, replace_P, replace_here, replace_elsewhere}
use dtnex_redesign.Network.Delivery.{handle_bundle, All-middle}
use dtnex_redesign.Network.Signed.{at, IsSigned}
use dtnex_redesign.Network.Nodes.{Net}
use dtnex_redesign.Network.Arrival.{
  Holds, Links, IsSteady, Arrived, applied-Holds, handle_bundle-Arrived,
}
use dtnex_redesign.Network.Coverage.{knows, IsSource, IsCopyOf, IsServed, IsSpreading}

module _ {D F S : Type 0} (sys : System D F S) (key : Bytes) (origin : ℕ) (nonce : Bytes)
    (c : ContactRecord) (configs : ℕ → DtnexConfig D) (n : ℕ) where
  open sys use {lib, hmac}

  module _ (links : Links sys key origin nonce c configs) where
    abbrev id_ : ℕ → ℕ
    id_ i = (configs i).node_id

    abbrev Source : Net S → ℕ → Type 0
    Source = IsSource sys key origin nonce c configs n links

    abbrev CopyOf : Net S → Bundle → Type 0
    CopyOf = IsCopyOf sys key origin nonce c configs n links

    abbrev Served : Net S → ℕ → Type 0
    Served = IsServed sys key origin nonce c configs n links

    abbrev pub Spreading : Net S → Net S → Type 0
    Spreading = IsSpreading sys key origin nonce c configs n links

    abbrev Signed : Bytes → Type 0
    Signed = IsSigned sys key origin nonce c

    abbrev Holding : S → Type 0
    Holding = Holds sys key origin nonce c configs

    abbrev Steady : ℕ → Node S → Type 0
    Steady = IsSteady sys key origin nonce c configs links

    abbrev knows_ : Net S → ℕ → Bool
    knows_ = knows sys key origin nonce c configs n

    module _ (enc : IsCborEncoder lib) (dec : IsCborDecoder lib) (sha : IsSha256 hmac)
        (origin_fits : origin < 2 ^ 64) (nonce_size : length nonce ≡ 3) (h : IsContactRecord c)
        (same : (i : ℕ) → (configs i).pre_shared_network_key ≡ key)
        (fits : (i : ℕ) → id_ i < 2 ^ 64)
        (distinct : (i j : ℕ) → i < n → j < n → id_ i ≡ id_ j → i ≡ j) where
      module _ (start s : Net S) (before after : List Bundle) (b : Bundle) (i : ℕ) (t : Times)
          (split : s.air ≡ before ++ (b ∷ after)) (small : i < n) (here : b.dest_node ≡ id_ i)
          (timely : t.decoded ≤ to_uvast c.to_time)
          (good : IsAcceptable (id_ i) t.validated origin c) (p : Spreading start s) where
        abbrev pub node : Node S
        node = handle_bundle (at sys (configs i)) t b.cbor_data (s.nodes i)

        abbrev pub then_net : Net S
        then_net = record { nodes = replace s.nodes i node; air = (before ++ after) ++ node.outbox }

        taken : CopyOf s b × All (CopyOf s) (before ++ after)
        taken = All-middle (CopyOf s) before after b (subst (All (CopyOf s)) split p.copies)

        arrived :
            Arrived sys key origin nonce c configs links i taken.0.0.signer.node_id (s.nodes i) node
        arrived =
            handle_bundle-Arrived sys key origin nonce c configs links enc dec sha origin_fits
              nonce_size h i (same i) (fits i) t (s.nodes i) b.cbor_data taken.0.0 (p.steady i)
              timely good

        knows_here : knows_ then_net i ≡ true
        knows_here = rw replace_here arrived.known

        knows_elsewhere : (j : ℕ) → i ≢ j → knows_ then_net j ≡ knows_ s j
        knows_elsewhere j other =
            ap (λ (a : Node S). is_nonce_duplicate nonce origin a.nonce_cache)
              (replace_elsewhere s.nodes i node j other)

        still_knows : (j : ℕ) → knows_ s j ≡ true → knows_ then_net j ≡ true
        still_knows j k = elim (Bool-cases (i == j)) [
          | inl e ↦ subst (λ x. knows_ then_net x ≡ true) {x = i} (ground arith) knows_here
          | inr e ↦ knows_elsewhere j (ground arith) ∙ k
        ]

        still-Source : (j : ℕ) → Source s j → Source then_net j
        still-Source j (inl own) = inl own
        still-Source j (inr k) = inr (still_knows j k)

        then_copies : All (CopyOf then_net) then_net.air
        then_copies =
            All-append (CopyOf then_net) (before ++ after) node.outbox
              (All-map (CopyOf s) (CopyOf then_net) (before ++ after)
                (λ d k. (k.0, λ j low mine. still-Source j (k.1 j low mine))) taken.1)
              (All-map (λ d. (g : Signed d.cbor_data) × (g.signer.node_id ≡ id_ i))
                (CopyOf then_net) node.outbox
                (λ d k. (
                  k.0,
                  λ j low mine. inr (
                      subst (λ x. knows_ then_net x ≡ true)
                        (distinct i j small low (sym k.1 ∙ sym mine)) knows_here),
                ))
                arrived.signed)

        -- What was under way to another node still is.
        under_way :
            (j : ℕ)
            → id_ j ≢ id_ i
            → 0 < bundles_to (id_ j) s.air
            → 0 < bundles_to (id_ j) then_net.air
        unfolding bundles_to
        under_way j other k =
            let elsewhere : (b.dest_node == id_ j) ≡ false = ground (arith, here, other) in
            ground (
              arith,
              elsewhere,
              ap (bundles_to (id_ j)) split,
              bundles_to-append (id_ j) before (b ∷ after),
              bundles_to-append (id_ j) before after,
              bundles_to-append (id_ j) (before ++ after) node.outbox,
            )

        -- The node has sent copies to all its neighbours, but to those that have the message.
        spread-Served :
            (j : ℕ)
            → j < n
            → knows_ s i ≡ false
            → 0 < links.degree i (id_ j)
            → id_ j ≢ origin
            → Served then_net j
        spread-Served j low fresh linked foreign =
            elim (Bool-cases (id_ j == taken.0.0.signer.node_id)) [
              | inl back ↦ elim (taken.0.1 j low (ground arith)) [
                | inl own ↦ absurd (foreign own)
                | inr k ↦ inl (still_knows j k)
              ]
              | inr onward ↦ elim (Bool-cases (id_ j == id_ i)) [
                | inl self ↦ inl (
                    subst (λ x. knows_ then_net x ≡ true) (distinct i j small low (ground arith))
                      knows_here)
                | inr other ↦
                    let sent =
                      arrived.spread fresh (id_ j) (ground (arith, foreign, onward, other)) in
                    inr (
                      ground (
                        arith,
                        sent,
                        linked,
                        bundles_to-append (id_ j) (before ++ after) node.outbox,
                      ))
              ]
            ]

        -- A node that was served still is.
        old-Served : (j : ℕ) → j < n → Served s j → Served then_net j
        old-Served j low (inl k) = inl (still_knows j k)
        old-Served j low (inr k) = elim (Bool-cases (id_ j == id_ i)) [
          | inl self ↦ inl (
              subst (λ x. knows_ then_net x ≡ true) (distinct i j small low (ground arith))
                knows_here)
          | inr other ↦ inr (under_way j (ground arith) k)
        ]

        then-Served :
            (a j : ℕ)
            → a < n
            → j < n
            → knows_ then_net a ≡ true
            → 0 < links.degree a (id_ j)
            → id_ j ≢ origin
            → Served then_net j
        then-Served a j high low k linked foreign = elim (Bool-cases (knows_ s a)) [
          | inl old ↦ old-Served j low (p.served a j high low old linked foreign)
          | inr fresh ↦ elim (Bool-cases (i == a)) [
            | inl e ↦
                let one : i ≡ a = ground arith in
                spread-Served j low (rw one fresh) (rw one linked) foreign
            | inr e ↦ absurd (ground (arith, knows_elsewhere a (ground arith), fresh, k))
          ]
        ]

        held_here : Holding node.ion_state
        held_here = elim (Bool-cases (knows_ s i)) [
          | inl k ↦ subst Holding (sym (arrived.kept k)) (p.held i k)
          | inr k ↦ subst Holding (sym (arrived.learned k)) (
              applied-Holds sys key origin nonce c configs links i (s.nodes i).ion_state
                (s.nodes i).plan_cache (p.steady i))
        ]

        pub then_IsSpreading : Spreading start then_net
        then_IsSpreading = record {
          copies = then_copies;
          steady = λ j. replace_P Steady s.nodes i node arrived.steady j (p.steady j);
          seeds = λ j low k. old-Served j low (p.seeds j low k);
          served = then-Served;
          held = λ j k.
              replace_P
                (λ x (a : Node S).
                  is_nonce_duplicate nonce origin a.nonce_cache ≡ true → Holding a.ion_state)
                s.nodes i node (λ w. held_here) j (p.held j) k;
        }
