-- ===== src/Tests/Announcing.antt =====
-- An exchange of node 2 after a first contact of its own appeared in ION.
use dtnex_redesign.Base.{
  ◌+◌, ◌*◌, ◌≡◌, ◌≢◌, ap, ◌==◌, List, [], ◌∷◌, length, All, arith, inl, inr, if◌then◌else◌,
}
use dtnex_redesign.Base.Int.{pos, ◌-ℤ◌}
use dtnex_redesign.Types.{ContactRecord, Plan}
use dtnex_redesign.Ion.{scheduled, is_reachable}
use dtnex_redesign.Ion.Contacts.{
  ionc_get_own_contacts, own_contacts, is_announceable, is_real_window,
}
use dtnex_redesign.Node.Flood.{bundles_to, plans_to}
use dtnex_redesign.Announce.Snapshot.{same_contact_record, refresh_my_contacts, refresh, differs}
use dtnex_redesign.Announce.Exchange.{
  Announcer, Inputs, announced_metadata, exchange_with_neighbors, is_due, plan_list_changed,
  all_known, is_known,
}
use dtnex_redesign.Announce.Exchange.Triggered.{exchange_with_neighbors-triggered}
use dtnex_redesign.Announce.Exchange.Own.{IsMine}
use dtnex_redesign.Announce.Exchange.Messages.{
  IsAnnouncement, exchange_with_neighbors-IsAnnouncement,
}
use dtnex_redesign.Tests.Library.{lib, enc, hmac, float}
use dtnex_redesign.Tests.World.{Database, view_of, config_of}

abbrev pub database : Database
database = record {
  contacts =
      record {
        region_nbr = 1;
        from_node = 2;
        to_node = 3;
        from_time = pos 900;
        to_time = pos 5000;
        xmit_rate = 1000;
        confidence = 100;
        type = scheduled;
      }
      ∷ [];
  ranges = [];
}

abbrev pub announcer : Announcer
announcer = record {
  my_contacts = record { records = []; updated = 900 };
  my_ranges = record { records = []; updated = 900 };
  last_exchange_time = 900;
  last_plan_list = 3 ∷ [];
}

abbrev pub inputs : Inputs
inputs = record {
  current_time = 1000;
  contacts_time = 1000;
  ranges_time = 1000;
  contact_message = λ k. (1000, k ∷ 1 ∷ 1 ∷ []);
  range_message = λ k. (1000, k ∷ 2 ∷ 1 ∷ []);
  metadata_message = λ k. (1000, k ∷ 3 ∷ 1 ∷ []);
}

abbrev pub neighbors : List Plan
neighbors = record { plan_id = 3; timestamp = 1000 } ∷ []

abbrev outcome : Announcer
outcome =
    (exchange_with_neighbors lib hmac float (λ c. pos c) (config_of 2) inputs (view_of database)
      neighbors announcer).1

contacts_changed : outcome.my_contacts.records ≢ announcer.my_contacts.records
unfolding exchange_with_neighbors ◌-ℤ◌ plan_list_changed all_known is_known same_contact_record
    refresh_my_contacts refresh ionc_get_own_contacts is_reachable own_contacts is_announceable
    is_real_window differs is_due
contacts_changed same = absurd (omega (arith, ap (λ (cs : List ContactRecord). length cs) same))

exchange_with_neighbors-triggered_example :
    bundles_to 3
      (exchange_with_neighbors lib hmac float
        (λ c. pos c)
        (config_of 2)
        inputs
        (view_of database)
        neighbors
        announcer).0
    ≡ (if 3 == 2
        then 0
        else plans_to 3 neighbors * length outcome.my_contacts.records
          + (plans_to 3 neighbors * length outcome.my_ranges.records
              + plans_to 3 neighbors * length (announced_metadata (λ c. pos c) (config_of 2))))
exchange_with_neighbors-triggered_example =
    exchange_with_neighbors-triggered lib enc hmac float (λ c. pos c) (config_of 2) inputs
      (view_of database) neighbors announcer (inr (inl contacts_changed)) 3

exchange_with_neighbors-IsAnnouncement_example :
    All
      (IsAnnouncement lib hmac float (λ c. pos c) (config_of 2) inputs)
      (exchange_with_neighbors lib hmac float
        (λ c. pos c)
        (config_of 2)
        inputs
        (view_of database)
        neighbors
        announcer).0
    × All (IsMine 2) outcome.my_contacts.records
exchange_with_neighbors-IsAnnouncement_example =
    exchange_with_neighbors-IsAnnouncement lib hmac float (λ c. pos c) (config_of 2) inputs
      (view_of database) neighbors announcer tt ((omega arith, omega arith), tt)
