-- ===== src/Announce/Exchange/Rule.antt =====
-- What holds of every bundle that an exchange sends.
use dtnex_redesign.Base.{
  ℕ, suc, ◌+◌, ltb, ◌==◌, ◌≡◌, refl, not, ◌&&◌, List, [], ◌∷◌, ◌++◌, Bytes, length, All, All-append,
  arith, if_P,
}
use dtnex_redesign.Base.Int.{ℤ, pos}
use dtnex_redesign.Types.{DtnexConfig, ContactRecord, RangeRecord, StructuredMetadata, Plan, Bundle}
use dtnex_redesign.Cbor.Library.{CborLib}
use dtnex_redesign.Hmac.{HmacSha256}
use dtnex_redesign.Message.{
  encode_cbor_contact_message, encode_cbor_range_message, encode_cbor_metadata_message,
}
use dtnex_redesign.Ion.{IonView, Float}
use dtnex_redesign.Ion.Contacts.{ionc_get_own_contacts}
use dtnex_redesign.Ion.Ranges.{ionc_get_own_ranges}
use dtnex_redesign.Announce.Snapshot.{refresh_my_contacts, refresh_my_ranges}
use dtnex_redesign.Announce.Exchange.{
  Announcer, Inputs, send_records, send_all, announced_metadata, announcements,
  exchange_with_neighbors, ionc_max_records,
}

module _ {D : Type 0} (config : DtnexConfig D) where
  -- A bundle to a neighbour.
  abbrev pub bundle_for : Plan → Bytes → Bundle
  bundle_for p message = record {
    dest_node = p.plan_id;
    dest_service = config.service_nr;
    cbor_data = message;
    ttl = config.bundle_ttl;
  }

  module _ (P : Bundle → Type 0) (N : Plan → Type 0) {R : Type 0} (encode : ℕ → R → Bytes)
      (Q : R → Type 0)
      (each : (p : Plan) (k : ℕ) (r : R) → N p → Q r → P (bundle_for p (encode k r))) where
    send_records_P :
        (p : Plan) (k : ℕ) (records : List R)
        → N p
        → All Q records
        → All P (send_records config encode p.plan_id k records)
    unfolding send_records
    send_records_P p k [] n q = tt
    send_records_P p k (r ∷ records) n q =
        let rest = send_records_P p (suc k) records n q.1 in
        if_P (All P) (ltb 0 (length (encode k r))) (each p k r n q.0, rest) rest

    send_all_P :
        (k : ℕ) (records : List R) (plans : List Plan)
        → All N plans
        → All Q records
        → All P (send_all config encode k records plans)
    unfolding send_all
    send_all_P k records [] n q = tt
    send_all_P k records (p ∷ plans) n q =
        if_P (All P) (p.plan_id == config.node_id) (send_all_P k records plans n.1 q) (
          All-append P (send_records config encode p.plan_id k records)
            (send_all config encode (k + length records) records plans)
            (send_records_P p k records n.0 q)
            (send_all_P (k + length records) records plans n.1 q))

pub All-unit {ℓ} : {A : Type ℓ} (xs : List A) → All (λ a. Unit {0}) xs
All-unit [] = tt
All-unit (x ∷ xs) = (tt, All-unit xs)

module _ {D F : Type 0} (lib : CborLib) (hmac : HmacSha256) (float : Float F) (scale_gps : D → ℤ)
    (config : DtnexConfig D) (P : Bundle → Type 0) (N : Plan → Type 0) (Q : ContactRecord → Type 0)
    (i : Inputs) where
  -- The messages of an exchange.
  pub record Announces : Type 0 where
    pub by_contact :
        (p : Plan) (k : ℕ) (c : ContactRecord)
        → N p
        → Q c
        → P (
            bundle_for config p (
              encode_cbor_contact_message lib hmac config
                (i.contact_message k).0
                (i.contact_message k).1
                c))
    pub by_range :
        (p : Plan) (k : ℕ) (r : RangeRecord)
        → N p
        → P (
            bundle_for config p (
              encode_cbor_range_message lib hmac config
                (i.range_message k).0
                (i.range_message k).1
                r))
    pub by_metadata :
        (p : Plan) (k : ℕ) (m : StructuredMetadata)
        → N p
        → announced_metadata scale_gps config ≡ m ∷ []
        → P (
            bundle_for config p (
              encode_cbor_metadata_message lib hmac config
                (i.metadata_message k).0
                (i.metadata_message k).1
                m))

  announced_metadata-only :
      All (λ m. announced_metadata scale_gps config ≡ m ∷ []) (announced_metadata scale_gps config)
  unfolding announced_metadata
  announced_metadata-only =
      if_P (λ (own : List StructuredMetadata). All (λ (m : StructuredMetadata). own ≡ m ∷ []) own)
        (not config.no_metadata_exchange && ltb 0 (length config.node_metadata)) (refl, tt) tt

  announcements_P :
      (contacts : List ContactRecord) (ranges : List RangeRecord) (plans : List Plan)
      → Announces
      → All N plans
      → All Q contacts
      → All P (announcements lib hmac float scale_gps config i contacts ranges plans)
  unfolding announcements
  announcements_P contacts ranges plans a n q =
      let first : ℕ → ContactRecord → Bytes = λ k.
        encode_cbor_contact_message lib hmac config (i.contact_message k).0
          (i.contact_message k).1 in
      let second : ℕ → RangeRecord → Bytes = λ k.
        encode_cbor_range_message lib hmac config (i.range_message k).0 (i.range_message k).1 in
      let third : ℕ → StructuredMetadata → Bytes = λ k.
        encode_cbor_metadata_message lib hmac config (i.metadata_message k).0
          (i.metadata_message k).1 in
      let own = announced_metadata scale_gps config in
      All-append P (send_all config first 0 contacts plans)
        (send_all config second 0 ranges plans ++ send_all config third 0 own plans)
        (send_all_P config P N first Q a.by_contact 0 contacts plans n q)
        (All-append P (send_all config second 0 ranges plans) (send_all config third 0 own plans)
          (send_all_P config P N second (λ r. Unit) (λ p k r m _. a.by_range p k r m) 0 ranges plans
            n (All-unit ranges))
          (send_all_P config P N third (λ m. announced_metadata scale_gps config ≡ m ∷ [])
            a.by_metadata 0 own plans n announced_metadata-only))

  -- What holds of each message to a neighbour holds of every bundle that an exchange sends, with `Q` of
  -- the contacts in the snapshot that it leaves.
  pub exchange_with_neighbors_P :
      (v : IonView F) (plans : List Plan) (a : Announcer)
      → Announces
      → All N plans
      → All Q
          (exchange_with_neighbors lib hmac float scale_gps config i v plans
            a).1.my_contacts.records
      → All P (exchange_with_neighbors lib hmac float scale_gps config i v plans a).0
  unfolding exchange_with_neighbors
  exchange_with_neighbors_P v plans a each n q =
      let contacts =
        refresh_my_contacts i.contacts_time
          (ionc_get_own_contacts float config.node_id (pos i.contacts_time) ionc_max_records v)
          a.my_contacts in
      let ranges =
        refresh_my_ranges i.ranges_time
          (ionc_get_own_ranges config.node_id (pos i.ranges_time) ionc_max_records v) a.my_ranges in
      ground (arith, announcements_P contacts.1.records ranges.1.records plans each n)
