-- ===== src/Tests/Tables.antt =====
-- The nonce cache, the plans, the address book, and the contacts in ION at concrete inputs.
use dtnex_redesign.Base.{
  ℕ, ◌≡◌, refl, true, false, some, List, [], ◌∷◌, ◌++◌, take, map, All, arith,
}
use dtnex_redesign.Base.Int.{pos}
use dtnex_redesign.Types.{NodeMetadata}
use dtnex_redesign.Nonce.{NonceCache, is_nonce_duplicate, same_nonce}
use dtnex_redesign.Nonce.History.{last_n, remember, remember-last_n}
use dtnex_redesign.Plans.{PlanCache, getplanlist}
use dtnex_redesign.Plans.Laws.{IsPlanList, getplanlist-IsPlanList, getplanlist_cached}
use dtnex_redesign.Metadata.{update_node_metadata}
use dtnex_redesign.Metadata.Store.{IsBook, update_node_metadata-IsBook}
use dtnex_redesign.Ion.{noop, inserted, is_reachable, by_code}
use dtnex_redesign.Ion.Trace.{remove_range, traced}
use dtnex_redesign.Ion.Contacts.{
  ionc_apply_contact, own_contacts, find_contact, find_in_contacts, insert_new_contact,
  insert_contact,
}
use dtnex_redesign.Ion.Contacts.Sync.{
  IsReal, IsHeld, is_written, ionc_apply_contact-IsHeld, ionc_apply_contact_in_sync,
  ionc_apply_contact_again,
}
use dtnex_redesign.Ion.Contacts.Calls.{IsExplained, ionc_apply_contact-calls}
use dtnex_redesign.Ion.Contacts.Announced.{announceable, as_percentage, own_contacts-announceable}
use dtnex_redesign.Ion.Ranges.{
  max_prune_scan, ionc_apply_range, prune_redundant_imputed, push_window, remove_redundant,
  scan_pair, overlaps_any, overlaps,
}
use dtnex_redesign.Ion.Ranges.Calls.{IsTargeted, ionc_apply_range-IsTargeted}
use dtnex_redesign.Ion.Ranges.Exact.{
  newest_first, redundant, windows_of, removal, prune_redundant_imputed-calls,
}
use dtnex_redesign.Tests.Library.{float, float-IsTolerant}
use dtnex_redesign.Tests.World.{
  Database, ion, ion-KeepsContacts, view_of, plan_view, node, contact_1_3, range_1_3, nonce_1,
}

abbrev first : NonceCache
first = record { nonce = nonce_1; origin = 1; timestamp = 1000 }

abbrev second : NonceCache
second = record { nonce = nonce_1; origin = 3; timestamp = 1001 }

remember-last_n_example :
    remember 1 (last_n 1 []) (first ∷ second ∷ []) ≡ last_n 1 ([] ++ (first ∷ second ∷ []))
remember-last_n_example = remember-last_n 1 [] (first ∷ second ∷ []) (omega arith)

never : is_nonce_duplicate nonce_1 4 (first ∷ second ∷ []) ≡ false
unfolding is_nonce_duplicate same_nonce
never = refl

getplanlist-IsPlanList_example :
    IsPlanList 2 (getplanlist 2 1000 (plan_view node.ion_state) node.plan_cache).0
    × IsPlanList 2 (getplanlist 2 1000 (plan_view node.ion_state) node.plan_cache).1.plans
getplanlist-IsPlanList_example =
    getplanlist-IsPlanList 2 1000 (plan_view node.ion_state) node.plan_cache (tt, omega arith)

abbrev cached : PlanCache
cached = record { plans = record { plan_id = 3; timestamp = 990 } ∷ []; last_update = 990 }

getplanlist_cached_example :
    getplanlist 2 1000 (plan_view node.ion_state) cached ≡ (cached.plans, cached)
getplanlist_cached_example =
    getplanlist_cached 2 1000 (plan_view node.ion_state) cached (omega arith) (omega arith)

abbrev book : List NodeMetadata
book = record { node_id = 1; metadata = b'a' ∷ [] } ∷ []

update_node_metadata-IsBook_example : IsBook (update_node_metadata 3 (b'z' ∷ []) book)
update_node_metadata-IsBook_example =
    update_node_metadata-IsBook 3 (b'z' ∷ []) book ((omega arith, tt), omega arith)

abbrev after : Database
after = (ionc_apply_contact float ion contact_1_3 node.ion_state).1

applied : ionc_apply_contact float ion contact_1_3 node.ion_state ≡ (inserted, after)
unfolding ionc_apply_contact is_reachable find_contact find_in_contacts insert_new_contact
    insert_contact by_code
applied = refl

written : is_written inserted ≡ true
unfolding is_written
written = refl

contact_1_3-IsReal : IsReal contact_1_3
contact_1_3-IsReal = (omega arith, omega arith, omega arith, omega arith)

ionc_apply_contact-IsHeld_example : IsHeld float contact_1_3 (view_of after)
ionc_apply_contact-IsHeld_example =
    ionc_apply_contact-IsHeld float ion ion-KeepsContacts contact_1_3 contact_1_3-IsReal
      node.ion_state after inserted applied written

ionc_apply_contact_in_sync_example : ionc_apply_contact float ion contact_1_3 after ≡ (noop, after)
ionc_apply_contact_in_sync_example =
    ionc_apply_contact_in_sync float ion float-IsTolerant contact_1_3 after
      ionc_apply_contact-IsHeld_example

ionc_apply_contact_again_example : ionc_apply_contact float ion contact_1_3 after ≡ (noop, after)
ionc_apply_contact_again_example =
    ionc_apply_contact_again float ion float-IsTolerant contact_1_3 ion-KeepsContacts
      contact_1_3-IsReal node.ion_state after inserted applied written

ionc_apply_contact-calls_example :
    IsExplained float contact_1_3
      (ionc_apply_contact float (traced ion) contact_1_3 (node.ion_state, [])).0
      (ionc_apply_contact float (traced ion) contact_1_3 (node.ion_state, [])).1.1
ionc_apply_contact-calls_example = ionc_apply_contact-calls float contact_1_3 ion node.ion_state

own_contacts-announceable_example :
    own_contacts float 1 (pos 1000) 8 (map some after.contacts)
    ≡ map (as_percentage float) (take 8 (announceable 1 (pos 1000) (map some after.contacts)))
own_contacts-announceable_example =
    own_contacts-announceable float 1 (pos 1000) 8 (map some after.contacts)

ionc_apply_range-IsTargeted_example :
    All (IsTargeted range_1_3) (ionc_apply_range (traced ion) range_1_3 (node.ion_state, [])).1.1
ionc_apply_range-IsTargeted_example = ionc_apply_range-IsTargeted range_1_3 ion node.ion_state

-- An asserted range and an imputed one of the same pair, whose windows overlap.
abbrev crowded : Database
crowded = record {
  contacts = [];
  ranges =
      record {
        from_node = 1;
        to_node = 3;
        from_time = pos 900;
        to_time = pos 5000;
        owlt = 1;
        asserted = true;
      }
      ∷ record {
        from_node = 1;
        to_node = 3;
        from_time = pos 1000;
        to_time = pos 6000;
        owlt = 1;
        asserted = false;
      }
      ∷ [];
}

prune-crowded :
    (prune_redundant_imputed (traced ion) 1 3 (crowded, [])).1
    ≡ remove_range (some (pos 1000)) 1 3 ∷ []
unfolding prune_redundant_imputed traced is_reachable push_window remove_redundant scan_pair
    overlaps_any overlaps
prune-crowded = refl

prune_redundant_imputed-calls_example :
    (prune_redundant_imputed (traced ion) 1 3 (crowded, [])).1
    ≡ newest_first
        (map (removal {F = ℕ} ion 1 3) (
          redundant
            (take max_prune_scan (windows_of true 1 3 (map some crowded.ranges)))
            (take max_prune_scan (windows_of false 1 3 (map some crowded.ranges)))))
        []
prune_redundant_imputed-calls_example =
    prune_redundant_imputed-calls ion 1 3 crowded (map some crowded.ranges) refl refl refl refl refl
