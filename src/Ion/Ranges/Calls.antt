-- ===== src/Ion/Ranges/Calls.antt =====
-- The calls that `ionc_apply_range` makes of ION.
use dtnex_redesign.Base.{
  ℕ, ◌≡◌, refl, ◌⊎◌, inl, inr, ◌&&◌, Option, none, some, List, [], ◌∷◌, All, arith, Option-cases,
  Bool-cases,
}
use dtnex_redesign.Base.Int.{ℤ, pos, eqb_ℤ, ltb_ℤ}
use dtnex_redesign.Types.{RangeRecord}
use dtnex_redesign.Ion.{
  IonRxref, Ion, IoncApplyOutcome, inserted, replaced, noop, revised, lost, error, is_reachable,
  by_code,
}
use dtnex_redesign.Ion.Trace.{
  IonCall, insert_contact, revise_contact, remove_contact, insert_range, remove_range, traced,
}
use dtnex_redesign.Ion.Ranges.{
  RangeWindow, scan_pair, overlaps_any, InsertRangeSite, over_nothing, over_imputed, after_remove,
  find_range, remove_redundant, prune_redundant_imputed, replace_range, write_range, prune_after,
  ionc_apply_range,
}
use dtnex_redesign.Ion.Ranges

-- A pair of nodes that is the record's, in one direction or the other.
abbrev pub IsPair : RangeRecord → ℕ → ℕ → Type 0
IsPair rec from to =
    ((from ≡ rec.from_node) × (to ≡ rec.to_node)) ⊎ ((from ≡ rec.to_node) × (to ≡ rec.from_node))

by_code_each :
    {A : Type 0} (P : A → Type 0) (rc : ℤ) (a b c : A) → P a → P b → P c → P (by_code rc a b c)
unfolding by_code
by_code_each P rc a b c ha hb hc = elim (Bool-cases (ltb_ℤ rc (pos 0))) [
  | inl negative ↦ rw (by_code, negative) ha
  | inr other ↦ elim (Bool-cases (ltb_ℤ (pos 0) rc)) [
    | inl positive ↦ rw (by_code, other, positive) hb
    | inr neither ↦ rw (by_code, other, neither) hc
  ]
]

module _ {F : Type 0} (rec : RangeRecord) where
  -- A call that is about the record: the insertion of exactly its window and delay, or the removal
  -- of one entry of its pair of nodes, in one direction or the other, by a start time. The
  -- removal of all entries of a pair, and any call about contacts, is not.
  abbrev pub IsTargeted : IonCall F → Type 0
  IsTargeted (insert_contact region from_time to_time from to rate confidence) = ⊥
  IsTargeted (revise_contact region from_time from to rate confidence) = ⊥
  IsTargeted (remove_contact region key from to) = ⊥
  IsTargeted (insert_range from_time to_time from to owlt) =
      (from_time ≡ rec.from_time)
      × (to_time ≡ rec.to_time)
      × (from ≡ rec.from_node)
      × (to ≡ rec.to_node)
      × (owlt ≡ rec.owlt)
  IsTargeted (remove_range key from to) = ((t : ℤ) × (key ≡ some t)) × IsPair rec from to

  module _ {S : Type 0} (ion : Ion F S) where
    remove_redundant-IsTargeted :
        (from to : ℕ)
        → IsPair rec from to
        → (asserted imputed : List RangeWindow) (s : S × List (IonCall F)) → All IsTargeted s.1
        → All IsTargeted (remove_redundant (traced ion) from to asserted imputed s).1
    unfolding remove_redundant traced
    remove_redundant-IsTargeted from to pair asserted [] s h = h
    remove_redundant-IsTargeted from to pair asserted (i ∷ imputed) s h =
        elim (Bool-cases (overlaps_any asserted i)) [
          | inl redundant ↦
              rw (remove_redundant, redundant)
                (remove_redundant-IsTargeted from to pair asserted imputed
                  (((traced ion).rfx_remove_range (some i.from_time) from to s).1)
                  (((i.from_time, refl), pair), h))
          | inr needed ↦
              rw (remove_redundant, needed)
                (remove_redundant-IsTargeted from to pair asserted imputed s h)
        ]

    prune-cases :
        (from to : ℕ) (s : S × List (IonCall F))
        → (prune_redundant_imputed (traced ion) from to s ≡ s)
          ⊎ ((asserted imputed : List RangeWindow) × (prune_redundant_imputed (traced ion) from to s
                ≡ remove_redundant (traced ion) from to asserted imputed s))
    unfolding prune_redundant_imputed is_reachable traced
    prune-cases from to s = elim (Option-cases (ion.view s.0).range_index) [
      | inl absent ↦ inl (ground (arith, absent))
      | inr (index, present) ↦
          let windows = scan_pair from to index [] [] in
          elim (Bool-cases (
            (ion.view s.0).sdr
            && (eqb_ℤ (ion.view s.0).begin_xn (pos 1)
                && ((ion.view s.0).vdb && (ion.view s.0).wm)))) [
                  | inl reachable ↦ inr (
                    windows.0,
                    windows.1,
                    rw (prune_redundant_imputed, is_reachable, reachable, present) refl,
                  )
                  | inr refused ↦ inl (rw (prune_redundant_imputed, is_reachable, refused) refl)
                ]
    ]

    prune-IsTargeted :
        (from to : ℕ)
        → IsPair rec from to
        → (s : S × List (IonCall F)) → All IsTargeted s.1
        → All IsTargeted (prune_redundant_imputed (traced ion) from to s).1
    prune-IsTargeted from to pair s h = elim (prune-cases from to s) [
      | inl same ↦ rw same h
      | inr (asserted, imputed, removes) ↦
          rw removes (remove_redundant-IsTargeted from to pair asserted imputed s h)
    ]

    insert_range-IsTargeted :
        (ok : IoncApplyOutcome) (site : InsertRangeSite) (s : S × List (IonCall F))
        → All IsTargeted s.1
        → All IsTargeted (Ranges.insert_range (traced ion) rec ok site s).1.1
    unfolding Ranges.insert_range traced
    insert_range-IsTargeted ok site s h = ((refl, refl, refl, refl, refl), h)

    replace_range-IsTargeted :
        (s : S × List (IonCall F))
        → All IsTargeted s.1
        → All IsTargeted (replace_range (traced ion) rec s).1.1
    unfolding replace_range traced
    replace_range-IsTargeted s h =
        let r = (traced ion).rfx_remove_range (some rec.from_time) rec.from_node rec.to_node s in
        let removed : All IsTargeted r.1.1 = (((rec.from_time, refl), inl (refl, refl)), h) in
        by_code_each (λ (q : IoncApplyOutcome × (S × List (IonCall F))). All IsTargeted q.1.1) r.0
          (error, r.1) (noop, r.1) (Ranges.insert_range (traced ion) rec replaced after_remove r.1)
          removed removed (insert_range-IsTargeted replaced after_remove r.1 removed)

    write_range-IsTargeted :
        (found : Option IonRxref) (s : S × List (IonCall F))
        → All IsTargeted s.1
        → All IsTargeted (write_range (traced ion) rec found s).1.1
    unfolding write_range
    write_range-IsTargeted none s h = insert_range-IsTargeted inserted over_nothing s h
    write_range-IsTargeted (some x) s h =
        ground
          (arith, replace_range-IsTargeted s h, insert_range-IsTargeted replaced over_imputed s h)

    both-IsTargeted :
        (s : S × List (IonCall F))
        → All IsTargeted s.1
        → All IsTargeted
            (prune_redundant_imputed
              (traced ion)
              rec.to_node
              rec.from_node
              (prune_redundant_imputed (traced ion) rec.from_node rec.to_node s)).1
    both-IsTargeted s h =
        prune-IsTargeted rec.to_node rec.from_node (inr (refl, refl))
          (prune_redundant_imputed (traced ion) rec.from_node rec.to_node s)
          (prune-IsTargeted rec.from_node rec.to_node (inl (refl, refl)) s h)

    prune_after-IsTargeted :
        (r : IoncApplyOutcome × (S × List (IonCall F)))
        → All IsTargeted r.1.1
        → All IsTargeted (prune_after (traced ion) rec r).1.1
    unfolding prune_after
    prune_after-IsTargeted (inserted, s) h = both-IsTargeted s h
    prune_after-IsTargeted (replaced, s) h = both-IsTargeted s h
    prune_after-IsTargeted (noop, s) h = h
    prune_after-IsTargeted (revised, s) h = h
    prune_after-IsTargeted (lost, s) h = h
    prune_after-IsTargeted (error, s) h = h

    -- Whatever ION answers, the application of a range, with the pruning that follows it, asks ION
    -- only for insertions of exactly that range and for removals of single entries of its pair.
    pub ionc_apply_range-IsTargeted :
        (s : S) → All IsTargeted (ionc_apply_range (traced ion) rec (s, [])).1.1
    unfolding ionc_apply_range is_reachable
    ionc_apply_range-IsTargeted s =
        let found = find_range rec ((traced ion).view (s, [])) in
        ground (
          arith,
          prune_after-IsTargeted (write_range (traced ion) rec found (s, []))
              (write_range-IsTargeted found (s, []) tt),
        )
