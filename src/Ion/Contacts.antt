-- ===== src/Ion/Contacts.antt =====
-- The contacts of ion_contacts.c: `findContact`, `ionc_get_own_contacts` and `ionc_apply_contact`.
-- Logging is left out, and the record pointer is never NULL.
pub mod Sync
pub mod Calls
pub mod Announced
use dtnex_redesign.Base.{
  ℕ, zero, suc, ◌==◌, Bool, true, false, not, ◌&&◌, ◌||◌, Option, none, some, List, [], ◌∷◌,
  if◌then◌else◌,
}
use dtnex_redesign.Base.Int.{ℤ, pos, eqb_ℤ, ltb_ℤ}
use dtnex_redesign.Types.{ContactRecord}
use dtnex_redesign.Ion.{
  ContactType, scheduled, predicted, IonCxref, IonView, Ion, Float, IoncApplyOutcome, noop, revised,
  inserted, replaced, lost, error, is_reachable, by_code,
}

unfoldable pub is_real_window : ContactType → Bool
is_real_window scheduled = true
is_real_window predicted = true
is_real_window _ = false

module _ {F : Type 0} where
  -- `regionNbr`, `fromNode`, `toNode` and `fromTime` are those of the key.
  unfoldable pub is_contact : ContactRecord → IonCxref F → Bool
  is_contact rec x =
      x.region_nbr == rec.region_nbr
      && (x.from_node == rec.from_node
          && (x.to_node == rec.to_node && eqb_ℤ x.from_time rec.from_time))

  unfoldable pub find_in_contacts : ContactRecord → List (Option (IonCxref F)) → Option (IonCxref F)
  find_in_contacts rec [] = none
  find_in_contacts rec (none ∷ index) = find_in_contacts rec index
  find_in_contacts rec (some x ∷ index) =
      if is_contact rec x then some x else find_in_contacts rec index

  unfoldable pub find_contact : ContactRecord → IonView F → Option (IonCxref F)
  find_contact rec v = elim (v.contact_index) [
    | none ↦ none
    | some index ↦ find_in_contacts rec index
  ]

  -- The filters of the loop in `ionc_get_own_contacts`.
  unfoldable pub is_announceable : ℕ → ℤ → IonCxref F → Bool
  unfolding is_real_window
  is_announceable node now x =
      x.from_node == node
      && (not (x.from_node == x.to_node) && (is_real_window x.type && ltb_ℤ now x.to_time))

module _ {F : Type 0} (float : Float F) where
  open float use {of_uint, to_uint, add, sub, mul, div, less, half, hundred, tolerance}

  unfoldable pub to_record : IonCxref F → ContactRecord
  to_record x = record {
    region_nbr = x.region_nbr;
    from_node = x.from_node;
    to_node = x.to_node;
    from_time = x.from_time;
    to_time = x.to_time;
    xmit_rate = x.xmit_rate;
    confidence = to_uint (add (mul x.confidence hundred) half);
  }

  -- `room` is `maxRecords - count`.
  unfoldable pub own_contacts : ℕ → ℤ → ℕ → List (Option (IonCxref F)) → List ContactRecord
  own_contacts node now room [] = []
  own_contacts node now zero (x ∷ index) = []
  own_contacts node now (suc room) (none ∷ index) = own_contacts node now (suc room) index
  own_contacts node now (suc room) (some x ∷ index) =
      let taken = to_record x ∷ own_contacts node now room index in
      let skipped = own_contacts node now (suc room) index in
      if is_announceable node now x then taken else skipped

  -- `none` is the result -1.
  unfoldable pub ionc_get_own_contacts : ℕ → ℤ → ℕ → IonView F → Option (List ContactRecord)
  ionc_get_own_contacts node now zero v = none
  ionc_get_own_contacts node now (suc max_records) v =
      is_reachable v
        (elim (v.contact_index) [
          | none ↦ none
          | some index ↦ some (own_contacts node now (suc max_records) index)
        ])
        none

  -- `rec->confidence / 100.0f`
  unfoldable pub ion_confidence : ContactRecord → F
  ion_confidence rec = div (of_uint rec.confidence) hundred

  unfoldable pub rate_or_confidence_differs : ContactRecord → IonCxref F → Bool
  rate_or_confidence_differs rec x =
      not (x.xmit_rate == rec.xmit_rate)
      || (less x.confidence (sub (ion_confidence rec) tolerance)
          || less (add (ion_confidence rec) tolerance) x.confidence)

  module _ {S : Type 0} (ion : Ion F S) where
    unfoldable pub insert_contact : ContactRecord → S → ℤ × S
    insert_contact rec =
        ion.rfx_insert_contact rec.region_nbr rec.from_time rec.to_time rec.from_node rec.to_node
          rec.xmit_rate (ion_confidence rec)

    unfoldable pub insert_new_contact : ContactRecord → S → IoncApplyOutcome × S
    insert_new_contact rec s =
        let r = insert_contact rec s in by_code r.0 (error, r.1) (noop, r.1) (inserted, r.1)

    -- The window changed: a removal by the exact time, and an insertion if that succeeds.
    unfoldable pub replace_contact : ContactRecord → S → IoncApplyOutcome × S
    replace_contact rec s =
        let r =
          ion.rfx_remove_contact rec.region_nbr (some rec.from_time) rec.from_node rec.to_node s in
        let q = insert_contact rec r.1 in
        by_code r.0 (error, r.1) (noop, r.1) (by_code q.0 (error, q.1) (lost, q.1) (replaced, q.1))

    unfoldable pub revise_contact : ContactRecord → S → IoncApplyOutcome × S
    revise_contact rec s =
        let r =
          ion.rfx_revise_contact rec.region_nbr rec.from_time rec.from_node rec.to_node
            rec.xmit_rate (ion_confidence rec) s in
        by_code r.0 (error, r.1) (noop, r.1) (revised, r.1)

    unfoldable pub ionc_apply_contact : ContactRecord → S → IoncApplyOutcome × S
    ionc_apply_contact rec s =
        is_reachable (ion.view s)
          (elim (find_contact rec (ion.view s)) [
            | none ↦ insert_new_contact rec s
            | some x ↦
                if not (eqb_ℤ x.to_time rec.to_time)
                then replace_contact rec s
                else if rate_or_confidence_differs rec x
                then revise_contact rec s
                else (noop, s)
          ])
          (error, s)
