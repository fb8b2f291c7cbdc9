-- ===== src/Tests/World.antt =====
-- A database that answers as ION does, and two nodes that know each other.
use dtnex_redesign.Base.{
  ℕ, ◌≡◌, refl, ◌==◌, Bool, true, false, ◌&&◌, none, some, List, [], ◌∷◌, Bytes, map, arith,
  if◌then◌else◌,
}
use dtnex_redesign.Base.Int.{ℤ, pos, negsuc, eqb_ℤ, eqb_ℤ_refl}
use dtnex_redesign.Types.{
  DtnexConfig, ContactRecord, RangeRecord, StructuredMetadata, IsContactRecord,
}
use dtnex_redesign.Ion.{IonCxref, IonRxref, IonView, Ion, scheduled}
use dtnex_redesign.Ion.Contacts.{
  is_contact, find_in_contacts, find_contact, ion_confidence, insert_contact,
}
use dtnex_redesign.Ion.Contacts.Sync.{IsHeld, KeepsContacts}
use dtnex_redesign.Plans.{PlanView}
use dtnex_redesign.Node.{System, Node, Times}
use dtnex_redesign.Tests.Library.{lib, hmac, float}

pub record Database : Type 0 where
  pub contacts : List (IonCxref ℕ)
  pub ranges : List IonRxref

abbrev pub view_of : Database → IonView ℕ
view_of db = record {
  sdr = true;
  begin_xn = pos 1;
  vdb = true;
  wm = true;
  contact_index = some (map some db.contacts);
  range_index = some (map some db.ranges);
  own_node_nbr = some 2;
}

unfoldable pub is_at : ℕ → ℤ → ℕ → ℕ → IonCxref ℕ → Bool
is_at region from_time from to x =
    x.region_nbr == region
    && (x.from_node == from && (x.to_node == to && eqb_ℤ x.from_time from_time))

unfoldable pub revise_in : ℕ → ℤ → ℕ → ℕ → ℕ → ℕ → List (IonCxref ℕ) → List (IonCxref ℕ)
revise_in region from_time from to rate confidence [] = []
revise_in region from_time from to rate confidence (x ∷ xs) =
    let rest = revise_in region from_time from to rate confidence xs in
    if is_at region from_time from to x
    then record x { xmit_rate = rate; confidence = confidence } ∷ xs
    else x ∷ rest

unfoldable pub remove_in : ℕ → ℤ → ℕ → ℕ → List (IonCxref ℕ) → List (IonCxref ℕ)
remove_in region from_time from to [] = []
remove_in region from_time from to (x ∷ xs) =
    let rest = remove_in region from_time from to xs in
    if is_at region from_time from to x then xs else x ∷ rest

abbrev pub ion : Ion ℕ Database
ion = record {
  view = view_of;
  rfx_insert_contact = λ region from_time to_time from to rate confidence db. (
    pos 0,
    record db {
      contacts =
          record {
            region_nbr = region;
            from_node = from;
            to_node = to;
            from_time = from_time;
            to_time = to_time;
            xmit_rate = rate;
            confidence = confidence;
            type = scheduled;
          }
          ∷ db.contacts;
    },
  );
  rfx_revise_contact = λ region from_time from to rate confidence db. (
    pos 0,
    record db { contacts = revise_in region from_time from to rate confidence db.contacts },
  );
  rfx_remove_contact = λ region key from to db. elim key [
    | none ↦ (pos 0, record db { contacts = [] })
    | some from_time ↦
        (pos 0, record db { contacts = remove_in region from_time from to db.contacts })
  ];
  rfx_insert_range = λ from_time to_time from to owlt db. (
    pos 0,
    record db {
      ranges =
          record {
            from_node = from;
            to_node = to;
            from_time = from_time;
            to_time = to_time;
            owlt = owlt;
            asserted = true;
          }
          ∷ db.ranges;
    },
  );
  rfx_remove_range = λ key from to db. (pos 0, record db { ranges = [] });
}

insert-IsHeld :
    (rec : ContactRecord) (db : Database)
    → IsHeld float rec (view_of (insert_contact float ion rec db).1)
unfolding find_contact find_in_contacts is_contact insert_contact ion_confidence
insert-IsHeld rec db = record {
  reachable = (refl, refl, refl, refl);
  entry = record {
    region_nbr = rec.region_nbr;
    from_node = rec.from_node;
    to_node = rec.to_node;
    from_time = rec.from_time;
    to_time = rec.to_time;
    xmit_rate = rec.xmit_rate;
    confidence = rec.confidence;
    type = scheduled;
  };
  found = ground (arith, eqb_ℤ_refl rec.from_time);
  same_window = refl;
  same_rate = refl;
  same_confidence = refl;
}

found_revised :
    (rec : ContactRecord) (xs : List (IonCxref ℕ)) (x : IonCxref ℕ)
    → find_in_contacts rec (map some xs) ≡ some x
    → find_in_contacts rec (
        map some (
          revise_in rec.region_nbr rec.from_time rec.from_node rec.to_node rec.xmit_rate
            rec.confidence xs))
      ≡ some (record x { xmit_rate = rec.xmit_rate; confidence = rec.confidence })
unfolding find_in_contacts is_contact revise_in is_at
found_revised rec [] x h = cc
found_revised rec (y ∷ xs) x h = ground (arith, found_revised rec xs x)

pub ion-KeepsContacts : KeepsContacts float ion
unfolding find_contact ion_confidence
ion-KeepsContacts = record {
  insert_lem = λ rec db real ok. insert-IsHeld rec db;
  revise_lem = λ rec db x real found same ok. record {
    reachable = (refl, refl, refl, refl);
    entry = record x { xmit_rate = rec.xmit_rate; confidence = rec.confidence };
    found = found_revised rec db.contacts x found;
    same_window = same;
    same_rate = refl;
    same_confidence = refl;
  };
}

abbrev pub config_of : ℕ → DtnexConfig ℕ
config_of id = record {
  update_interval = pos 600;
  metadata_lifetime = pos 3600;
  bundle_ttl = pos 1800;
  pre_shared_network_key = b'o' ∷ b'p' ∷ b'e' ∷ b'n' ∷ [];
  service_nr = b'1' ∷ b'2' ∷ [];
  bpecho_service_nr = b'7' ∷ [];
  node_id = id;
  node_metadata = [];
  create_graph = false;
  graph_file = [];
  no_metadata_exchange = false;
  service_mode = false;
  debug_mode = false;
  gps_latitude = 0;
  gps_longitude = 0;
  has_gps_coordinates = false;
}

-- Node 2, with the neighbours 1, 3 and 4.
abbrev pub plan_view : Database → PlanView
plan_view db = record {
  sdr = true;
  begin_xn = pos 1;
  bp_constants = true;
  plans = some 1 ∷ some 2 ∷ none ∷ some 3 ∷ some 4 ∷ [];
}

abbrev pub sys : System ℕ ℕ Database
sys = record {
  lib = lib;
  hmac = hmac;
  float = float;
  ion = ion;
  plan_view = plan_view;
  config = config_of 2;
  format_gps = λ c. b'?' ∷ [];
}

abbrev pub node : Node Database
node = record {
  nonce_cache = [];
  metadata_list = [];
  plan_cache = record { plans = []; last_update = 0 };
  ion_state = record { contacts = []; ranges = [] };
  outbox = [];
}

abbrev pub times : Times
times = record { decoded = 1000; cached = 1000; validated = 1000; planned = 1000 }

abbrev pub contact_1_3 : ContactRecord
contact_1_3 = record {
  region_nbr = 1;
  from_node = 1;
  to_node = 3;
  from_time = pos 900;
  to_time = pos 5000;
  xmit_rate = 125000;
  confidence = 100;
}

abbrev pub range_1_3 : RangeRecord
range_1_3 = record { from_node = 1; to_node = 3; from_time = pos 900; to_time = pos 5000; owlt = 0 }

abbrev pub metadata_1 : StructuredMetadata
metadata_1 = record {
  node_id = 1;
  name = b'a' ∷ [];
  contact = b'b' ∷ [];
  location = b'c' ∷ [];
  latitude = pos 45000000;
  longitude = negsuc 9000000;
}

abbrev pub nonce_1 : Bytes
nonce_1 = 7 ∷ 8 ∷ 9 ∷ []

pub contact_1_3-IsContactRecord : IsContactRecord contact_1_3
contact_1_3-IsContactRecord = record {
  region_fits = omega arith;
  from_node_fits = omega arith;
  to_node_fits = omega arith;
  from_time_fits = (omega arith, omega arith);
  to_time_fits = (omega arith, omega arith);
  rate_fits = omega arith;
  confidence_fits = omega arith;
}
