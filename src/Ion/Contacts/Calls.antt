-- ===== src/Ion/Contacts/Calls.antt =====
-- The calls that `ionc_apply_contact` makes of ION.
use dtnex_redesign.Base.{◌≡◌, ◌⊎◌, some, List, [], ◌∷◌, arith}
use dtnex_redesign.Types.{ContactRecord}
use dtnex_redesign.Ion.{
  Ion, Float, IoncApplyOutcome, noop, revised, inserted, replaced, lost, error, is_reachable,
  by_code,
}
use dtnex_redesign.Ion.Trace.{IonCall, insert_contact, revise_contact, remove_contact, traced}
use dtnex_redesign.Ion.Contacts.{
  find_contact, ion_confidence, insert_new_contact, replace_contact, ionc_apply_contact,
}
use dtnex_redesign.Ion.Contacts

module _ {F : Type 0} (float : Float F) (rec : ContactRecord) where
  abbrev pub insertion : IonCall F
  insertion =
      insert_contact rec.region_nbr rec.from_time rec.to_time rec.from_node rec.to_node
        rec.xmit_rate (ion_confidence float rec)

  abbrev revision : IonCall F
  revision =
      revise_contact rec.region_nbr rec.from_time rec.from_node rec.to_node rec.xmit_rate
        (ion_confidence float rec)

  -- The removal of the one entry with the record's time, never of the whole pair.
  abbrev pub removal : IonCall F
  removal = remove_contact rec.region_nbr (some rec.from_time) rec.from_node rec.to_node

  -- What was asked of ION, the last call first, for each outcome. A refusal is a no-op for what
  -- the function reports, but the call has been made.
  abbrev pub IsExplained : IoncApplyOutcome → List (IonCall F) → Type 0
  IsExplained inserted calls = calls ≡ insertion ∷ []
  IsExplained revised calls = calls ≡ revision ∷ []
  IsExplained replaced calls = calls ≡ insertion ∷ removal ∷ []
  IsExplained lost calls = calls ≡ insertion ∷ removal ∷ []
  IsExplained noop calls =
      (calls ≡ []) ⊎ ((calls ≡ insertion ∷ []) ⊎ ((calls ≡ revision ∷ []) ⊎ (calls ≡ removal ∷ [])))
  IsExplained error calls =
      (calls ≡ [])
      ⊎ ((calls ≡ insertion ∷ [])
          ⊎ ((calls ≡ revision ∷ [])
              ⊎ ((calls ≡ removal ∷ []) ⊎ (calls ≡ insertion ∷ removal ∷ []))))

  module _ {S : Type 0} (ion : Ion F S) where
    -- Each outcome comes with exactly the calls that explain it; every removal names the exact time
    -- of the record, so no other contact of the pair is touched.
    pub ionc_apply_contact-calls :
        (s : S)
        → IsExplained
            (ionc_apply_contact float (traced ion) rec (s, [])).0
            (ionc_apply_contact float (traced ion) rec (s, [])).1.1
    unfolding ionc_apply_contact traced is_reachable by_code insert_new_contact replace_contact
        Contacts.revise_contact Contacts.insert_contact
    ionc_apply_contact-calls s = ground arith
