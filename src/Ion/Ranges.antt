-- ===== src/Ion/Ranges.antt =====
-- The ranges of ion_contacts.c: `findRange`, `ionc_get_own_ranges`, `insertRange`,
-- `pruneRedundantImputed` and `ionc_apply_range`. Logging is left out, and the record pointer is
-- never NULL.
pub mod Calls
pub mod Pruned
pub mod Exact
use dtnex_redesign.Base.{
  ℕ, zero, suc, ◌++◌, ◌==◌, ltb, Bool, true, false, not, ◌&&◌, ◌||◌, Option, none, some, List, [],
  ◌∷◌, length, if◌then◌else◌,
}
use dtnex_redesign.Base.Int.{ℤ, pos, eqb_ℤ, ltb_ℤ, leb_ℤ}
use dtnex_redesign.Types.{RangeRecord}
use dtnex_redesign.Ion.{
  IonRxref, IonView, Ion, IoncApplyOutcome, noop, inserted, replaced, lost, error, is_reachable,
  by_code,
}

unfoldable pub is_range : RangeRecord → IonRxref → Bool
is_range rec x =
    x.from_node == rec.from_node && (x.to_node == rec.to_node && eqb_ℤ x.from_time rec.from_time)

unfoldable pub find_in_ranges : RangeRecord → List (Option IonRxref) → Option IonRxref
find_in_ranges rec [] = none
find_in_ranges rec (none ∷ index) = find_in_ranges rec index
find_in_ranges rec (some x ∷ index) = if is_range rec x then some x else find_in_ranges rec index

-- The filters of the loop in `ionc_get_own_ranges`.
unfoldable pub is_announceable_range : ℕ → ℤ → IonRxref → Bool
is_announceable_range node now x =
    x.from_node == node && (not (x.from_node == x.to_node) && (x.asserted && ltb_ℤ now x.to_time))

unfoldable pub to_range_record : IonRxref → RangeRecord
to_range_record x = record {
  from_node = x.from_node;
  to_node = x.to_node;
  from_time = x.from_time;
  to_time = x.to_time;
  owlt = x.owlt;
}

unfoldable pub own_ranges : ℕ → ℤ → ℕ → List (Option IonRxref) → List RangeRecord
own_ranges node now room [] = []
own_ranges node now zero (x ∷ index) = []
own_ranges node now (suc room) (none ∷ index) = own_ranges node now (suc room) index
own_ranges node now (suc room) (some x ∷ index) =
    let taken = to_range_record x ∷ own_ranges node now room index in
    let skipped = own_ranges node now (suc room) index in
    if is_announceable_range node now x then taken else skipped

-- `IONC_MAX_PRUNE_SCAN`
abbrev pub max_prune_scan : ℕ
max_prune_scan = 16

pub record RangeWindow : Type 0 where
  pub from_time : ℤ
  pub to_time : ℤ

-- One array of windows; an entry past its end is left out.
unfoldable pub push_window : IonRxref → List RangeWindow → List RangeWindow
push_window x windows =
    if ltb (length windows) max_prune_scan
    then windows ++ (record { from_time = x.from_time; to_time = x.to_time } ∷ [])
    else windows

-- The reading phase: the windows of the pair that are asserted, and those that are imputed.
unfoldable pub scan_pair :
    ℕ
    → ℕ
    → List (Option IonRxref)
    → List RangeWindow
    → List RangeWindow
    → List RangeWindow × List RangeWindow
scan_pair from to [] asserted imputed = (asserted, imputed)
scan_pair from to (none ∷ index) asserted imputed = scan_pair from to index asserted imputed
scan_pair from to (some x ∷ index) asserted imputed =
    let other = scan_pair from to index asserted imputed in
    let one = scan_pair from to index (push_window x asserted) imputed in
    let two = scan_pair from to index asserted (push_window x imputed) in
    if x.from_node == from && x.to_node == to then (if x.asserted then one else two) else other

-- Neither starts after the other ends.
unfoldable pub overlaps : RangeWindow → RangeWindow → Bool
overlaps a i = leb_ℤ a.from_time i.to_time && leb_ℤ i.from_time a.to_time

unfoldable pub overlaps_any : List RangeWindow → RangeWindow → Bool
overlaps_any [] i = false
overlaps_any (a ∷ asserted) i = if overlaps a i then true else overlaps_any asserted i

pub data InsertRangeSite : Type 0 where
  over_nothing over_imputed after_remove : InsertRangeSite

-- Whether a refusal with the code `rc` leaves ION short of an entry.
unfoldable pub refusal_loses : InsertRangeSite → ℤ → Bool
refusal_loses over_nothing rc = false
refusal_loses over_imputed rc = leb_ℤ (pos 3) rc
refusal_loses after_remove rc = true

-- The reading of the return code in `insertRange`.
unfoldable pub insert_range_outcome : IoncApplyOutcome → InsertRangeSite → ℤ → IoncApplyOutcome
insert_range_outcome ok_outcome site rc =
    if ltb_ℤ rc (pos 0)
    then error
    else if eqb_ℤ rc (pos 0)
    then ok_outcome
    else if eqb_ℤ rc (pos 1)
    then noop
    else if refusal_loses site rc
    then lost
    else noop

module _ {F : Type 0} where
  unfoldable pub find_range : RangeRecord → IonView F → Option IonRxref
  find_range rec v = elim (v.range_index) [ none ↦ none | some index ↦ find_in_ranges rec index ]

  -- `none` is the result -1.
  unfoldable pub ionc_get_own_ranges : ℕ → ℤ → ℕ → IonView F → Option (List RangeRecord)
  ionc_get_own_ranges node now zero v = none
  ionc_get_own_ranges node now (suc max_records) v =
      is_reachable v
        (elim (v.range_index) [
          | none ↦ none
          | some index ↦ some (own_ranges node now (suc max_records) index)
        ])
        none

  module _ {S : Type 0} (ion : Ion F S) where
    unfoldable pub insert_range :
        RangeRecord → IoncApplyOutcome → InsertRangeSite → S → IoncApplyOutcome × S
    insert_range rec ok_outcome site s =
        let r =
          ion.rfx_insert_range rec.from_time rec.to_time rec.from_node rec.to_node rec.owlt s in
        (insert_range_outcome ok_outcome site r.0, r.1)

    -- The removing phase: the outer loop, with one removal at most for each imputed window.
    unfoldable pub remove_redundant : ℕ → ℕ → List RangeWindow → List RangeWindow → S → S
    remove_redundant from to asserted [] s = s
    remove_redundant from to asserted (i ∷ imputed) s = remove_redundant from to asserted imputed (
        if overlaps_any asserted i
        then (ion.rfx_remove_range (some i.from_time) from to s).1
        else s)

    unfoldable pub prune_redundant_imputed : ℕ → ℕ → S → S
    prune_redundant_imputed from to s =
        is_reachable (ion.view s)
          (elim ((ion.view s).range_index) [
            | none ↦ s
            | some index ↦
                let windows = scan_pair from to index [] [] in
                remove_redundant from to windows.0 windows.1 s
          ])
          s

    -- An asserted range whose window or delay changed.
    unfoldable pub replace_range : RangeRecord → S → IoncApplyOutcome × S
    replace_range rec s =
        let r = ion.rfx_remove_range (some rec.from_time) rec.from_node rec.to_node s in
        by_code r.0 (error, r.1) (noop, r.1) (insert_range rec replaced after_remove r.1)

    -- The writing phase.
    unfoldable pub write_range : RangeRecord → Option IonRxref → S → IoncApplyOutcome × S
    write_range rec none s = insert_range rec inserted over_nothing s
    write_range rec (some x) s =
        if not (x.owlt == rec.owlt) || not (eqb_ℤ x.to_time rec.to_time)
        then (if x.asserted then replace_range rec s else insert_range rec replaced over_imputed s)
        else (noop, s)

    -- After an insertion of ours both directions of the pair are pruned.
    unfoldable pub prune_after : RangeRecord → IoncApplyOutcome × S → IoncApplyOutcome × S
    prune_after rec (outcome, s) =
        let pruned =
          prune_redundant_imputed rec.to_node rec.from_node
            (prune_redundant_imputed rec.from_node rec.to_node s) in
        elim outcome [
          | inserted ↦ (inserted, pruned)
          | replaced ↦ (replaced, pruned)
          | other ↦ (other, s)
        ]

    unfoldable pub ionc_apply_range : RangeRecord → S → IoncApplyOutcome × S
    ionc_apply_range rec s =
        is_reachable (ion.view s)
          (prune_after rec (write_range rec (find_range rec (ion.view s)) s)) (error, s)
