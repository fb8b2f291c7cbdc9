-- ===== src/Network/Coverage/Held.antt =====
-- Where a contact message is held when no copy of it is under way any more.
use dtnex_redesign.Base.{ℕ, ◌≡◌, ap, ◌<◌, ◌^◌, Bool, true, [], Bytes, length, arith, inl, inr}
use dtnex_redesign.Types.{DtnexConfig, ContactRecord, IsContactRecord}
use dtnex_redesign.Cbor.Library.{IsCborEncoder, IsCborDecoder}
use dtnex_redesign.Hmac.Laws.{IsSha256}
use dtnex_redesign.Node.{System}
use dtnex_redesign.Node.Flood.{bundles_to}
use dtnex_redesign.Ion.Contacts.Sync.{IsHeld}
use dtnex_redesign.Network.Nodes.{Net, deliver}
use dtnex_redesign.Network.Arrival.{Links}
use dtnex_redesign.Network.Coverage.Step.{then_IsSpreading}
use dtnex_redesign.Network.Coverage.{
  knows, Deliveries, over, delivered, changed, changed-IsSpreading, Linked, first, next, IsServed,
  IsSpreading, IsAnnounced, IsAnnounced-IsSpreading,
}

module _ {D F S : Type 0} (sys : System D F S) (key : Bytes) (origin : ℕ) (nonce : Bytes)
    (c : ContactRecord) (configs : ℕ → DtnexConfig D) (n : ℕ) where
  open sys use {lib, hmac}

  module _ (links : Links sys key origin nonce c configs) where
    abbrev id_ : ℕ → ℕ
    id_ i = (configs i).node_id

    abbrev Served : Net S → ℕ → Type 0
    Served = IsServed sys key origin nonce c configs n links

    abbrev Spreading : Net S → Net S → Type 0
    Spreading = IsSpreading sys key origin nonce c configs n links

    abbrev knows_ : Net S → ℕ → Bool
    knows_ = knows sys key origin nonce c configs n

    settled : (r : Net S) (j : ℕ) → r.air ≡ [] → Served r j → knows_ r j ≡ true
    unfolding bundles_to
    settled r j quiet (inl k) = k
    settled r j quiet (inr k) = absurd (ground (arith, k, ap (bundles_to (id_ j)) quiet))

    module _ (enc : IsCborEncoder lib) (dec : IsCborDecoder lib) (sha : IsSha256 hmac)
        (origin_fits : origin < 2 ^ 64) (nonce_size : length nonce ≡ 3) (h : IsContactRecord c)
        (same : (i : ℕ) → (configs i).pre_shared_network_key ≡ key)
        (fits : (i : ℕ) → id_ i < 2 ^ 64)
        (distinct : (i j : ℕ) → i < n → j < n → id_ i ≡ id_ j → i ≡ j) where
      Deliveries-IsSpreading :
          {start s r : Net S}
          → Deliveries sys key origin nonce c configs n links s r
          → Spreading start s
          → Spreading start r
      unfolding deliver
      Deliveries-IsSpreading over p = p
      Deliveries-IsSpreading {start = start} {s = s}
            (delivered before after b i t split small here timely good later) p =
          Deliveries-IsSpreading later (
            then_IsSpreading sys key origin nonce c configs n links enc dec sha origin_fits
              nonce_size h same fits distinct start s before after b i t split small here timely
              good p)
      Deliveries-IsSpreading {start = start} {s = s} (changed i node known steady kept later) p =
          Deliveries-IsSpreading later (
            changed-IsSpreading sys key origin nonce c configs n links start s i node known steady
              kept p)

      -- Where no copy is under way, every node that the plans lead to has the message.
      Linked-knows :
          {start r : Net S}
          → Spreading start r
          → r.air ≡ []
          → (j : ℕ) → Linked sys key origin nonce c configs n links start j
          → (j < n) × (knows_ r j ≡ true)
      Linked-knows {r = r} p quiet j (first j' low seed) =
          (low, settled r j quiet (p.seeds j low seed))
      Linked-knows {r = r} p quiet j (next i j' earlier low linked foreign) =
          let (small, k) = Linked-knows p quiet i earlier in
          (low, settled r j quiet (p.served i j small low k linked foreign))

      -- A contact message that its node has announced is, once no copy of it is under way, held by the
      -- nodes that it was sent to and by all that their plans lead to, the origin apart: in a run in
      -- which no copy is lost and each is delivered in time and where the contact is acceptable, and
      -- in which other messages may come in between; held is in ION with its window, rate and
      -- confidence. If ION keeps what it accepts and refuses the contact at no node, where either it
      -- has the contact or a write is reported; if the float comparison tolerates equality, the plans
      -- are steady, the contact is real, the numbers are distinct and the key is common.
      pub Deliveries-Held :
          {start r : Net S}
          → IsAnnounced sys key origin nonce c configs n links start
          → Deliveries sys key origin nonce c configs n links start r
          → r.air ≡ []
          → (j : ℕ) → Linked sys key origin nonce c configs n links start j
          → IsHeld sys.float c (sys.ion.view (r.nodes j).ion_state)
      Deliveries-Held {start = start} announced run quiet j linked =
          let p =
            Deliveries-IsSpreading run
              (IsAnnounced-IsSpreading sys key origin nonce c configs n links start announced) in
          p.held j (Linked-knows p quiet j linked).1
