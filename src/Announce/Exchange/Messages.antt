-- ===== src/Announce/Exchange/Messages.antt =====
-- What an exchange of dtnex.c puts on the network.
use dtnex_redesign.Base.{ℕ, ◌≡◌, [], ◌∷◌, List, All}
use dtnex_redesign.Base.Int.{ℤ}
use dtnex_redesign.Types.{DtnexConfig, ContactRecord, RangeRecord, StructuredMetadata, Plan, Bundle}
use dtnex_redesign.Cbor.Library.{CborLib}
use dtnex_redesign.Hmac.{HmacSha256}
use dtnex_redesign.Message.{
  encode_cbor_contact_message, encode_cbor_range_message, encode_cbor_metadata_message,
}
use dtnex_redesign.Ion.{IonView, Float}
use dtnex_redesign.Plans.Laws.{IsNeighbor}
use dtnex_redesign.Announce.Exchange.{
  Announcer, Inputs, announced_metadata, exchange_with_neighbors,
}
use dtnex_redesign.Announce.Exchange.Own.{IsMine, exchange_with_neighbors-IsMine}
use dtnex_redesign.Announce.Exchange.Rule.{bundle_for, exchange_with_neighbors_P}

module _ {D F : Type 0} (lib : CborLib) (hmac : HmacSha256) (float : Float F) (scale_gps : D → ℤ)
    (config : DtnexConfig D) (i : Inputs) where
  -- To a neighbour, with the node's key: a contact of the node's own, a range, or the metadata
  -- that it has to announce.
  pub data IsAnnouncement : Bundle → Type 0 where
    of_contact :
        (p : Plan) (k : ℕ) (c : ContactRecord)
        → IsNeighbor config.node_id p
        → IsMine config.node_id c
        → IsAnnouncement (
            bundle_for config p (
              encode_cbor_contact_message lib hmac config
                (i.contact_message k).0
                (i.contact_message k).1
                c))
    of_range :
        (p : Plan) (k : ℕ) (r : RangeRecord)
        → IsNeighbor config.node_id p
        → IsAnnouncement (
            bundle_for config p (
              encode_cbor_range_message lib hmac config
                (i.range_message k).0
                (i.range_message k).1
                r))
    of_metadata :
        (p : Plan) (k : ℕ) (m : StructuredMetadata)
        → IsNeighbor config.node_id p
        → announced_metadata scale_gps config ≡ m ∷ []
        → IsAnnouncement (
            bundle_for config p (
              encode_cbor_metadata_message lib hmac config
                (i.metadata_message k).0
                (i.metadata_message k).1
                m))

  -- Whatever ION shows, if the snapshot has only contacts from the node itself towards another one
  -- and the plans are of neighbours, then every bundle that an exchange sends is to a neighbour
  -- and is, with the node's key, the message of such a contact, of a range, or of the metadata that
  -- the configuration has the node announce; and the snapshot that it leaves is as before.
  pub exchange_with_neighbors-IsAnnouncement :
      (v : IonView F) (plans : List Plan) (a : Announcer)
      → All (IsMine config.node_id) a.my_contacts.records
      → All (IsNeighbor config.node_id) plans
      → All IsAnnouncement (exchange_with_neighbors lib hmac float scale_gps config i v plans a).0
        × All
            (IsMine config.node_id)
            (exchange_with_neighbors lib hmac float scale_gps config i v plans
              a).1.my_contacts.records
  exchange_with_neighbors-IsAnnouncement v plans a mine neighbors =
      let kept = exchange_with_neighbors-IsMine lib hmac float scale_gps config i v plans a mine in
      (
        exchange_with_neighbors_P lib hmac float scale_gps config IsAnnouncement
            (IsNeighbor config.node_id) (IsMine config.node_id) i v plans a
            (record { by_contact = of_contact; by_range = of_range; by_metadata = of_metadata })
            neighbors kept,
        kept,
      )
