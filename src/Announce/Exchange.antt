-- ===== src/Announce/Exchange.antt =====
-- `exchangeWithNeighbors` of dtnex.c: the four triggers, and the three loops over the neighbours.
-- Its static variables and the two snapshots are the record `Announcer`.
pub mod Targets
pub mod Triggered
pub mod Own
pub mod Rule
pub mod Messages
use dtnex_redesign.Base.{
  ℕ, suc, ◌+◌, ltb, ◌==◌, Bool, true, false, not, ◌&&◌, ◌||◌, Option, none, some, List, [], ◌∷◌,
  ◌++◌, Bytes, length, map, if◌then◌else◌,
}
use dtnex_redesign.Base.Int.{ℤ, pos, leb_ℤ, ◌-ℤ◌}
use dtnex_redesign.Types.{DtnexConfig, ContactRecord, RangeRecord, StructuredMetadata, Plan, Bundle}
use dtnex_redesign.Cbor.Library.{CborLib}
use dtnex_redesign.Hmac.{HmacSha256}
use dtnex_redesign.Metadata.{parse_node_metadata}
use dtnex_redesign.Message.{
  encode_cbor_contact_message, encode_cbor_range_message, encode_cbor_metadata_message,
}
use dtnex_redesign.Ion.{IonView, Float}
use dtnex_redesign.Ion.Contacts.{ionc_get_own_contacts}
use dtnex_redesign.Ion.Ranges.{ionc_get_own_ranges}
use dtnex_redesign.Announce.Snapshot.{Snapshot, refresh_my_contacts, refresh_my_ranges}

abbrev pub ionc_max_records : ℕ
ionc_max_records = 200

pub record Announcer : Type 0 where
  pub my_contacts : Snapshot ContactRecord
  pub my_ranges : Snapshot RangeRecord
  pub last_exchange_time : ℕ
  pub last_plan_list : List ℕ

-- The clock at the beginning, and in the two refreshes; and the clock and the nonce of each message
-- that is encoded, by its number in its loop.
pub record Inputs : Type 0 where
  pub current_time : ℕ
  pub contacts_time : ℕ
  pub ranges_time : ℕ
  pub contact_message : ℕ → ℕ × Bytes
  pub range_message : ℕ → ℕ × Bytes
  pub metadata_message : ℕ → ℕ × Bytes

-- The inner loop over `lastPlanList`.
unfoldable pub is_known : ℕ → List ℕ → Bool
is_known id [] = false
is_known id (x ∷ last) = if id == x then true else is_known id last

unfoldable pub all_known : List Plan → List ℕ → Bool
all_known [] last = true
all_known (p ∷ plans) last = if is_known p.plan_id last then all_known plans last else false

unfoldable pub plan_list_changed : List Plan → List ℕ → Bool
plan_list_changed plans last =
    if not (length plans == length last) then true else not (all_known plans last)

module _ {D : Type 0} (config : DtnexConfig D) where
  module _ {R : Type 0} (encode : ℕ → R → Bytes) where
    -- The messages to one neighbour, from the number `k` on; an empty one is not sent.
    unfoldable pub send_records : ℕ → ℕ → List R → List Bundle
    send_records neighbor k [] = []
    send_records neighbor k (r ∷ records) =
        let rest = send_records neighbor (suc k) records in
        let bundle : Bundle = record {
          dest_node = neighbor;
          dest_service = config.service_nr;
          cbor_data = encode k r;
          ttl = config.bundle_ttl;
        } in
        if ltb 0 (length (encode k r)) then bundle ∷ rest else rest

    -- The loop over the neighbours, without the loopback plan.
    unfoldable pub send_all : ℕ → List R → List Plan → List Bundle
    send_all k records [] = []
    send_all k records (p ∷ plans) =
        let skipped = send_all k records plans in
        let sent =
          send_records p.plan_id k records ++ send_all (k + length records) records plans in
        if p.plan_id == config.node_id then skipped else sent

  unfoldable pub is_due : ℕ → ℕ → Bool
  is_due now last = last == 0 || leb_ℤ config.update_interval (pos now -ℤ pos last)

module _ {D : Type 0} (scale_gps : D → ℤ) (config : DtnexConfig D) where
  -- `scale_gps` is `(int) (x * GPS_PRECISION_FACTOR)`.
  unfoldable pub own_metadata : StructuredMetadata
  own_metadata = parse_node_metadata config.node_metadata (record {
    node_id = config.node_id;
    name = [];
    contact = [];
    location = [];
    latitude = if config.has_gps_coordinates then scale_gps config.gps_latitude else pos 0;
    longitude = if config.has_gps_coordinates then scale_gps config.gps_longitude else pos 0;
  })

  -- The metadata to announce: none if the exchange is off or nothing is configured.
  unfoldable pub announced_metadata : List StructuredMetadata
  announced_metadata =
      if not config.no_metadata_exchange && ltb 0 (length config.node_metadata)
      then own_metadata ∷ []
      else []

module _ {D F : Type 0} (lib : CborLib) (hmac : HmacSha256) (float : Float F) (scale_gps : D → ℤ)
    (config : DtnexConfig D) where
  unfoldable pub announcements :
      Inputs → List ContactRecord → List RangeRecord → List Plan → List Bundle
  announcements i contacts ranges plans =
      send_all config
        (λ k.
          encode_cbor_contact_message lib hmac config (i.contact_message k).0
            (i.contact_message k).1)
        0 contacts plans
      ++ (send_all config
            (λ k.
              encode_cbor_range_message lib hmac config (i.range_message k).0 (i.range_message k).1)
            0 ranges plans
          ++ send_all config
              (λ k.
                encode_cbor_metadata_message lib hmac config (i.metadata_message k).0
                  (i.metadata_message k).1)
              0 (announced_metadata scale_gps config) plans)

  -- The bundles that are sent, and the variables afterwards; `v` is what ION shows.
  unfoldable pub exchange_with_neighbors :
      Inputs → IonView F → List Plan → Announcer → List Bundle × Announcer
  exchange_with_neighbors i v plans a =
      let contacts =
        refresh_my_contacts i.contacts_time
          (ionc_get_own_contacts float config.node_id (pos i.contacts_time) ionc_max_records v)
          a.my_contacts in
      let ranges =
        refresh_my_ranges i.ranges_time
          (ionc_get_own_ranges config.node_id (pos i.ranges_time) ionc_max_records v) a.my_ranges in
      if is_due config i.current_time a.last_exchange_time
        || (plan_list_changed plans a.last_plan_list || (contacts.0 || ranges.0))
      then (
        announcements i contacts.1.records ranges.1.records plans,
        record {
          my_contacts = contacts.1;
          my_ranges = ranges.1;
          last_exchange_time = i.current_time;
          last_plan_list = map (λ (p : Plan). p.plan_id) plans;
        },
      )
      else ([], record a { my_contacts = contacts.1; my_ranges = ranges.1 })
