-- ===== src/Tests/Line.antt =====
-- Three nodes in a line, of which the first announces a contact with the third.
use dtnex_redesign.Base.{
  ℕ, zero, suc, ◌≡◌, refl, ap, ◌∙◌, ◌⊎◌, inl, inr, ◌==◌, if◌then◌else◌, ltb, ◌&&◌, ◌-◌, if_P,
  if_known_P, Option-cases, Bool-cases, true, Option, none, some, List, [], ◌∷◌, Bytes, arith,
}
use dtnex_redesign.Base.Int.{pos, eqb_ℤ, eqb_ℤ→eq, to_uvast, to_time, to_uvast-lt, to_uvast-to_time}
use dtnex_redesign.Types.{DtnexConfig, Plan, Bundle}
use dtnex_redesign.Plans.{max_plans, PlanCache, collect_plans, getplanlist}
use dtnex_redesign.Node.{System, Node}
use dtnex_redesign.Node.Flood.{plans_to}
use dtnex_redesign.Ion.{IonRxref, is_reachable, by_code}
use dtnex_redesign.Ion.Contacts.Sync.{IsHeld, IsReal, is_written}
use dtnex_redesign.Ion.Contacts.{
  ionc_apply_contact, find_contact, find_in_contacts, rate_or_confidence_differs,
  insert_new_contact, revise_contact, replace_contact, insert_contact,
}
use dtnex_redesign.Node.Flood.{bundles_to}
use dtnex_redesign.Nonce.{is_nonce_duplicate}
use dtnex_redesign.Network.Nodes.{Net, deliver}
use dtnex_redesign.Network.Signed.{at, IsSigned, as_read, handle_bundle-fresh}
use dtnex_redesign.Network.Coverage.{IsAnnounced, Deliveries, delivered, over, Linked, first, next}
use dtnex_redesign.Network.Coverage.Held.{Deliveries-Held}
use dtnex_redesign.Network.Sum.{replace}
use dtnex_redesign.Tests.Net.{at_3-IsAcceptable}
use dtnex_redesign.Tests.Network.{contact_message, contact_1_3-IsAcceptable}
use dtnex_redesign.Node.Forward.{
  is_skipped, forward_loop, forward, forwarded_envelope, forwarded_contact,
  forward_cbor_contact_message,
}
use dtnex_redesign.Network.Arrival.{Links}
use dtnex_redesign.Tests.Library.{enc, dec, sha, float, float-IsTolerant}
use dtnex_redesign.Tests.World.{
  ion-KeepsContacts, Database, ion, view_of, contact_1_3-IsContactRecord, config_of, sys, node,
  times, contact_1_3, nonce_1,
}

-- A node with a range in its ION has the plans of the second node, and another one those of an end.
abbrev neighbors_by : List IonRxref → List (Option ℕ)
neighbors_by [] = some 2 ∷ []
neighbors_by (r ∷ rs) = some 1 ∷ some 3 ∷ []

abbrev neighbors_of : Database → List (Option ℕ)
neighbors_of db = neighbors_by db.ranges

abbrev line : System ℕ ℕ Database
line = record sys {
  plan_view =
      λ db. record { sdr = true; begin_xn = pos 1; bp_constants = true; plans = neighbors_of db };
}

abbrev key : Bytes
key = b'o' ∷ b'p' ∷ b'e' ∷ b'n' ∷ []

abbrev configs : ℕ → DtnexConfig ℕ
configs i = config_of (if i == 0 then 1 else if i == 1 then 2 else 3)

abbrev elements : ℕ → List (Option ℕ)
elements i = if i == 1 then some 1 ∷ some 3 ∷ [] else some 2 ∷ []

abbrev degree : ℕ → ℕ → ℕ
degree i m = plans_to m (collect_plans (configs i).node_id 0 max_plans (elements i))

plans_to-collect_plans :
    (m id now later room : ℕ) (es : List (Option ℕ))
    → plans_to m (collect_plans id now room es) ≡ plans_to m (collect_plans id later room es)
unfolding collect_plans plans_to
plans_to-collect_plans m id now later room [] = refl
plans_to-collect_plans m id now later room (none ∷ es) =
    plans_to-collect_plans m id now later room es
plans_to-collect_plans m id now later zero (some k ∷ es) =
    ground (arith, plans_to-collect_plans m id now later zero es)
plans_to-collect_plans m id now later (suc room) (some k ∷ es) = ground (
  arith,
  plans_to-collect_plans m id now later (suc room) es,
  plans_to-collect_plans m id now later room es,
)

abbrev Steady : ℕ → Database → PlanCache → Type 0
Steady i db cache =
    (neighbors_of db ≡ elements i)
    × ((cache.last_update ≡ 0) ⊎ ((m : ℕ) → plans_to m cache.plans ≡ degree i m))

fresh :
    (i : ℕ) (db : Database) (now m : ℕ)
    → neighbors_of db ≡ elements i
    → plans_to m (collect_plans (configs i).node_id now max_plans (neighbors_of db)) ≡ degree i m
fresh i db now m same =
    ap (λ es. plans_to m (collect_plans (configs i).node_id now max_plans es)) same
    ∙ plans_to-collect_plans m (configs i).node_id now 0 max_plans (elements i)

listed :
    (i : ℕ) (db : Database) (cache : PlanCache) (now m : ℕ)
    → Steady i db cache
    → plans_to m (getplanlist (configs i).node_id now (line.plan_view db) cache).0 ≡ degree i m
unfolding getplanlist
listed i db cache now m (same, held) =
    if_known_P (λ (r : List Plan × PlanCache). plans_to m r.0 ≡ degree i m)
      (ltb 0 cache.last_update && ltb (now - cache.last_update) 20)
      (λ cached. elim held [
        | inl empty ↦ absurd (ground (arith, cached, empty))
        | inr known ↦ known m
      ])
      (λ stale. fresh i db now m same)

cached :
    (i : ℕ) (db : Database) (cache : PlanCache) (now : ℕ)
    → Steady i db cache
    → Steady i db (getplanlist (configs i).node_id now (line.plan_view db) cache).1
unfolding getplanlist
cached i db cache now (same, held) =
    if_P (λ (r : List Plan × PlanCache). Steady i db r.1)
      (ltb 0 cache.last_update && ltb (now - cache.last_update) 20) (same, held)
      (same, inr (λ m. fresh i db now m same))

applied_ranges :
    (db : Database) → (ionc_apply_contact float ion contact_1_3 db).1.ranges ≡ db.ranges
unfolding ionc_apply_contact is_reachable insert_new_contact revise_contact replace_contact
    insert_contact by_code
applied_ranges db = elim (Option-cases (find_contact contact_1_3 (view_of db))) [
  | inl absent ↦ ground (arith, absent)
  | inr (x, found) ↦ ground (arith, found)
]

real : IsReal contact_1_3
real = (omega arith, omega arith, omega arith, omega arith)

-- The database has the contact already, or its application reports a write.
accepted :
    (db : Database)
    → IsHeld float contact_1_3 (view_of db)
      ⊎ (is_written (ionc_apply_contact float ion contact_1_3 db).0 ≡ true)
unfolding ionc_apply_contact is_reachable insert_new_contact revise_contact replace_contact
    insert_contact by_code is_written rate_or_confidence_differs
accepted db = elim (Option-cases (find_contact contact_1_3 (view_of db))) [
  | inl absent ↦ inr (ground (arith, absent))
  | inr (x, found) ↦ elim (Bool-cases (eqb_ℤ x.to_time contact_1_3.to_time)) [
    | inr moved ↦ inr (ground (arith, found, moved))
    | inl same ↦ elim (Bool-cases (rate_or_confidence_differs float contact_1_3 x)) [
      | inl differs ↦ inr (ground (arith, found, same, differs))
      | inr alike ↦ inl (record {
        reachable = (refl, refl, refl, refl);
        entry = x;
        found = found;
        same_window = eqb_ℤ→eq x.to_time contact_1_3.to_time same;
        same_rate = ground (arith, alike);
        same_confidence = ground (arith, alike);
      })
    ]
  ]
]

abbrev links : Links line key 1 nonce_1 contact_1_3 configs
links = record {
  Steady = Steady;
  degree = degree;
  real = real;
  tolerant = float-IsTolerant;
  keeps = ion-KeepsContacts;
  accepted_lem = λ i db cache steady. accepted db;
  apply_lem = λ i db cache steady. (ap neighbors_by (applied_ranges db) ∙ steady.0, steady.1);
  listed_lem = listed;
  cached_lem = cached;
}

-- The second node has a range.
abbrev nodes : ℕ → Node Database
nodes i = record node {
  ion_state = record {
    contacts = [];
    ranges =
        if i == 1
        then record {
          from_node = 2;
          to_node = 3;
          from_time = pos 900;
          to_time = pos 5000;
          owlt = 1;
          asserted = true;
        }
          ∷ []
        else [];
  };
}

abbrev first_bundle : Bundle
first_bundle = record {
  dest_node = 2;
  dest_service = b'1' ∷ b'2' ∷ [];
  cbor_data = contact_message;
  ttl = pos 1800;
}

abbrev start : Net Database
start = record { nodes = nodes; air = first_bundle ∷ [] }

abbrev at_2 : Net Database
at_2 = deliver line configs 1 times first_bundle [] start

abbrev Signed : Bytes → Type 0
Signed = IsSigned line key 1 nonce_1 contact_1_3

abbrev contact_message-IsSigned : Signed contact_message
contact_message-IsSigned = record {
  signer = config_of 1;
  signer_fits = omega arith;
  same_key = refl;
  timestamp = pos 990;
  expire_time = pos 5000;
  ends = refl;
  bytes = refl;
}

nodes_at_rest : (i : ℕ) → neighbors_of (nodes i).ion_state ≡ elements i
nodes_at_rest i = ground arith

start-IsAnnounced : IsAnnounced line key 1 nonce_1 contact_1_3 configs 3 links start
unfolding is_nonce_duplicate bundles_to collect_plans plans_to
start-IsAnnounced = record {
  copies = ((contact_message-IsSigned, refl), tt);
  steady = λ i. (nodes_at_rest i, inl refl);
  unknown = λ i. refl;
}

-- The copy of the second node, and what it leaves.
abbrev second_bundle : Bundle
second_bundle = record {
  dest_node = 3;
  dest_service = b'1' ∷ b'2' ∷ [];
  cbor_data =
      forwarded_contact (at line (config_of 2))
        (as_read line key 1 nonce_1 contact_1_3 contact_message-IsSigned) contact_1_3;
  ttl = pos 1800;
}

sent_by_2 : at_2.air ≡ second_bundle ∷ []
unfolding deliver forward_cbor_contact_message forward forward_loop is_skipped getplanlist
    collect_plans is_nonce_duplicate to_uvast ionc_apply_contact is_reachable find_contact
    find_in_contacts insert_new_contact by_code insert_contact
sent_by_2 =
    ap (λ (n : Node Database). n.outbox)
      (handle_bundle-fresh line key 1 nonce_1 contact_1_3 enc dec sha (omega arith) refl
        contact_1_3-IsContactRecord (configs 1) refl times (nodes 1) contact_message-IsSigned
        (omega arith) refl contact_1_3-IsAcceptable)

second-IsSigned : Signed second_bundle.cbor_data
unfolding forwarded_contact forwarded_envelope
second-IsSigned = record {
  signer = config_of 2;
  signer_fits = omega arith;
  same_key = refl;
  timestamp = to_time (to_uvast (pos 990));
  expire_time = to_time (to_uvast (pos 5000));
  ends = to_uvast-to_time (to_uvast (pos 5000)) (to_uvast-lt (pos 5000));
  bytes = refl;
}

abbrev at_3 : Net Database
at_3 = deliver line configs 2 times second_bundle [] at_2

sent_by_3 : at_3.air ≡ []
unfolding deliver forward_cbor_contact_message forward forward_loop is_skipped getplanlist
    collect_plans is_nonce_duplicate to_uvast ionc_apply_contact is_reachable find_contact
    find_in_contacts insert_new_contact by_code insert_contact second-IsSigned replace
sent_by_3 =
    ap (λ (n : Node Database). n.outbox)
      (handle_bundle-fresh line key 1 nonce_1 contact_1_3 enc dec sha (omega arith) refl
        contact_1_3-IsContactRecord (configs 2) refl times (nodes 2) second-IsSigned (omega arith)
        refl at_3-IsAcceptable)

run : Deliveries line key 1 nonce_1 contact_1_3 configs 3 links start at_3
unfolding to_uvast
run =
    delivered [] [] first_bundle 1 times refl (omega arith) refl (omega arith)
      contact_1_3-IsAcceptable
      (delivered [] [] second_bundle 2 times sent_by_2 (omega arith) refl (omega arith)
        at_3-IsAcceptable over)

third_linked : Linked line key 1 nonce_1 contact_1_3 configs 3 links start 2
unfolding plans_to collect_plans bundles_to
third_linked =
    next 1 2 (first 1 (omega arith) (omega arith)) (omega arith) (omega arith) (omega arith)

Deliveries-Held_example : IsHeld float contact_1_3 (view_of (at_3.nodes 2).ion_state)
Deliveries-Held_example =
    Deliveries-Held line key 1 nonce_1 contact_1_3 configs 3 links enc dec sha (omega arith) refl
      contact_1_3-IsContactRecord (λ i. refl) (λ i. ground arith)
      (λ i j low high same. ground arith) start-IsAnnounced run sent_by_3 2 third_linked
