-- ===== src/Ion/Ranges/Pruned.antt =====
-- Which entries `prune_redundant_imputed` asks ION to remove.
use dtnex_redesign.Base.{
  ℕ, ◌≡◌, refl, subst, Bool, true, false, ◌&&◌, ◌==◌, Option, none, some, List, [], ◌∷◌, length,
  ltb, All, All-append, arith, Option-cases, Bool-cases, inl, inr, if◌then◌else◌, if_P,
}
use dtnex_redesign.Base.Int.{pos, eqb_ℤ}
use dtnex_redesign.Ion.{IonRxref, Ion, is_reachable}
use dtnex_redesign.Ion.Trace.{IonCall, remove_range, traced}
use dtnex_redesign.Ion.Ranges.{
  max_prune_scan, RangeWindow, push_window, scan_pair, overlaps, overlaps_any, remove_redundant,
  prune_redundant_imputed,
}

-- The entries of an index that is there.
abbrev Entries : (IonRxref → Type 0) → Option (List (Option IonRxref)) → Type 0
Entries P none = Unit
Entries P (some index) = All (λ o. elim o [ none ↦ Unit | some x ↦ P x ]) index

module _ (P : IonRxref → Type 0) (from to : ℕ) where
  -- The window of an entry of the pair, imputed or asserted.
  abbrev FromEntry : Bool → RangeWindow → Type 0
  FromEntry kind w =
      (x : IonRxref) × P x
      × (x.from_node ≡ from)
      × (x.to_node ≡ to)
      × (x.asserted ≡ kind)
      × (w ≡ record { from_time = x.from_time; to_time = x.to_time })

  push_window-FromEntry :
      (kind : Bool) (x : IonRxref) (windows : List RangeWindow)
      → FromEntry kind (record { from_time = x.from_time; to_time = x.to_time })
      → All (FromEntry kind) windows
      → All (FromEntry kind) (push_window x windows)
  unfolding push_window
  push_window-FromEntry kind x windows h k =
      if_P (All (FromEntry kind)) (ltb (length windows) max_prune_scan)
        (All-append (FromEntry kind) windows
          (record { from_time = x.from_time; to_time = x.to_time } ∷ []) k (h, tt))
        k

  scan_pair-FromEntry :
      (index : List (Option IonRxref)) (asserted imputed : List RangeWindow)
      → Entries P (some index)
      → All (FromEntry true) asserted
      → All (FromEntry false) imputed
      → All (FromEntry true) (scan_pair from to index asserted imputed).0
        × All (FromEntry false) (scan_pair from to index asserted imputed).1
  unfolding scan_pair push_window
  scan_pair-FromEntry [] asserted imputed h a i = (a, i)
  scan_pair-FromEntry (none ∷ index) asserted imputed h a i =
      scan_pair-FromEntry index asserted imputed h.1 a i
  scan_pair-FromEntry (some x ∷ index) asserted imputed h a i =
      elim (Bool-cases (x.from_node == from && x.to_node == to)) [
        | inr other ↦ rw (scan_pair, other) (scan_pair-FromEntry index asserted imputed h.1 a i)
        | inl pair ↦
            let same_from : x.from_node ≡ from = ground (arith, pair) in
            let same_to : x.to_node ≡ to = ground (arith, pair) in
            elim (Bool-cases x.asserted) [
              | inl one ↦
                  rw (scan_pair, pair, one)
                    (scan_pair-FromEntry index (push_window x asserted) imputed h.1
                      (push_window-FromEntry true x asserted (x, h.0, same_from, same_to, one, refl)
                        a)
                      i)
              | inr two ↦
                  rw (scan_pair, pair, two)
                    (scan_pair-FromEntry index asserted (push_window x imputed) h.1 a (
                      push_window-FromEntry false x imputed (x, h.0, same_from, same_to, two, refl)
                        i))
            ]
      ]

  -- The removal, by its start, of an imputed entry of the pair that overlaps an asserted one.
  abbrev IsRedundant : {F : Type 0} → IonCall F → Type 0
  IsRedundant call =
      (i a : RangeWindow) × FromEntry false i
      × FromEntry true a
      × (overlaps a i ≡ true)
      × (call ≡ remove_range (some i.from_time) from to)

  overlapping :
      (i : RangeWindow) (asserted : List RangeWindow)
      → All (FromEntry true) asserted
      → overlaps_any asserted i ≡ true
      → (a : RangeWindow) × FromEntry true a × (overlaps a i ≡ true)
  unfolding overlaps_any
  overlapping i [] h k = absurd (ground arith)
  overlapping i (a ∷ asserted) h k = elim (Bool-cases (overlaps a i)) [
    | inl e ↦ (a, h.0, e)
    | inr e ↦
        overlapping i asserted h.1
          (subst (λ (b : Bool). (if b then true else overlaps_any asserted i) ≡ true) e k)
  ]

  module _ {F S : Type 0} (ion : Ion F S) where
    remove_redundant-IsRedundant :
        (asserted imputed : List RangeWindow) (s : S × List (IonCall F))
        → All (FromEntry true) asserted
        → All (FromEntry false) imputed
        → All IsRedundant s.1
        → All IsRedundant (remove_redundant (traced ion) from to asserted imputed s).1
    unfolding remove_redundant traced
    remove_redundant-IsRedundant asserted [] s a i h = h
    remove_redundant-IsRedundant asserted (w ∷ imputed) s a i h =
        elim (Bool-cases (overlaps_any asserted w)) [
          | inl e ↦
              let over : (b : RangeWindow) × FromEntry true b × (overlaps b w ≡ true) =
                overlapping w asserted a e in
              rw (remove_redundant, e)
                (remove_redundant-IsRedundant asserted imputed
                  (((traced ion).rfx_remove_range (some w.from_time) from to s).1) a i.1
                  ((w, over.0, i.0, over.1, over.2, refl), h))
          | inr e ↦
              rw (remove_redundant, e) (remove_redundant-IsRedundant asserted imputed s a i.1 h)
        ]

    -- The pruning asks ION for nothing but the removal of imputed entries of the pair, each by its
    -- start, of which an asserted entry of the same pair overlaps the window; `P` is anything that
    -- holds of all the entries that ION shows.
    prune_redundant_imputed-IsRedundant :
        (s : S)
        → Entries P (ion.view s).range_index
        → All IsRedundant (prune_redundant_imputed (traced ion) from to (s, [])).1
    unfolding prune_redundant_imputed is_reachable traced
    prune_redundant_imputed-IsRedundant s h = elim (Option-cases (ion.view s).range_index) [
      | inl absent ↦
          let none_there : prune_redundant_imputed (traced ion) from to (s, []) ≡ (s, []) =
            ground (arith, absent) in
          rw (none_there) tt
      | inr (index, present) ↦
          let windows = scan_pair from to index [] [] in
          let entries : All (FromEntry true) windows.0 × All (FromEntry false) windows.1 =
            scan_pair-FromEntry index [] [] (subst (Entries P) present h) tt tt in
          elim (Bool-cases (
            (ion.view s).sdr
            && (eqb_ℤ (ion.view s).begin_xn (pos 1) && ((ion.view s).vdb && (ion.view s).wm)))) [
              | inl reachable ↦
                  rw (prune_redundant_imputed, is_reachable, reachable, present)
                    (remove_redundant-IsRedundant windows.0 windows.1 (s, []) entries.0 entries.1
                      tt)
              | inr refused ↦ rw (prune_redundant_imputed, is_reachable, refused) tt
            ]
    ]
