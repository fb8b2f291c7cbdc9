-- ===== src/Ion/Ranges/Exact.antt =====
-- Exactly which entries `prune_redundant_imputed` of ion_contacts.c asks ION to remove.
use dtnex_redesign.Base.{
  ℕ, zero, suc, ◌≡◌, refl, sym, ap, ◌∙◌, ◌≤◌, Bool, true, false, not, ◌&&◌, ◌==◌, ltb, Option, none,
  some, List, [], ◌∷◌, ◌++◌, map, length, length-append, take, take-append, arith, Bool-cases, inl,
  inr, if◌then◌else◌,
}
use mathlib.Core.List.{append_assoc}
use dtnex_redesign.Base.Int.{pos, ltb_ℤ}
use dtnex_redesign.Ion.{IonRxref, Ion, is_reachable}
use dtnex_redesign.Ion.Trace.{IonCall, remove_range, traced}
use dtnex_redesign.Ion.Ranges.{
  max_prune_scan, RangeWindow, push_window, scan_pair, overlaps, overlaps_any, remove_redundant,
  prune_redundant_imputed,
}

-- The windows of the entries of a pair, asserted or imputed, in the order of the index.
unfoldable pub windows_of : Bool → ℕ → ℕ → List (Option IonRxref) → List RangeWindow
windows_of asserted from to [] = []
windows_of asserted from to (none ∷ index) = windows_of asserted from to index
windows_of asserted from to (some x ∷ index) =
    let rest = windows_of asserted from to index in
    let window : RangeWindow = record { from_time = x.from_time; to_time = x.to_time } in
    if x.from_node == from && x.to_node == to
    then (if (if x.asserted then asserted else not asserted) then window ∷ rest else rest)
    else rest

-- Whether some window of the list has an instant in common with another one: it neither ends before
-- that begins, nor begins after that ends.
unfoldable pub meets_any : List RangeWindow → RangeWindow → Bool
meets_any [] i = false
meets_any (a ∷ asserted) i =
    let rest = meets_any asserted i in
    if ltb_ℤ a.to_time i.from_time then rest else if ltb_ℤ i.to_time a.from_time then rest else true

overlaps_any-eq-meets_any :
    (asserted : List RangeWindow) (i : RangeWindow) → overlaps_any asserted i ≡ meets_any asserted i
unfolding overlaps_any overlaps meets_any
overlaps_any-eq-meets_any [] i = refl
overlaps_any-eq-meets_any (a ∷ asserted) i = ground (arith, overlaps_any-eq-meets_any asserted i)

-- Those of the second list that have an instant in common with one of the first.
unfoldable pub redundant : List RangeWindow → List RangeWindow → List RangeWindow
redundant asserted [] = []
redundant asserted (i ∷ imputed) =
    let rest = redundant asserted imputed in if meets_any asserted i then i ∷ rest else rest

-- The last one in front.
unfoldable pub newest_first {ℓ} : {A : Type ℓ} → List A → List A → List A
newest_first [] earlier = earlier
newest_first (x ∷ xs) earlier = newest_first xs (x ∷ earlier)

abbrev window_of : IonRxref → RangeWindow
window_of x = record { from_time = x.from_time; to_time = x.to_time }

take_whole {ℓ} : {A : Type ℓ} (n : ℕ) (xs : List A) → length xs ≤ n → take n (xs ++ []) ≡ xs
take_whole zero [] h = refl
take_whole zero (x ∷ xs) h = absurd (omega arith)
take_whole (suc n) [] h = refl
take_whole (suc n) (x ∷ xs) h = ap (◌∷◌ x) (take_whole n xs (omega arith))

push_window-take :
    (x : IonRxref) (seen rest : List RangeWindow)
    → length seen ≤ max_prune_scan
    → take max_prune_scan (push_window x seen ++ rest)
      ≡ take max_prune_scan (seen ++ (window_of x ∷ rest))
unfolding push_window
push_window-take x seen rest h = elim (Bool-cases (ltb (length seen) max_prune_scan)) [
  | inl room ↦ rw (push_window, room, append_assoc seen (window_of x ∷ []) rest) refl
  | inr full ↦
      let size : length seen ≡ max_prune_scan = ground arith in
      rw (push_window, full, ← size, take-append seen rest, take-append seen (window_of x ∷ rest))
        refl
]

push_window-le :
    (x : IonRxref) (seen : List RangeWindow)
    → length seen ≤ max_prune_scan
    → length (push_window x seen) ≤ max_prune_scan
unfolding push_window
push_window-le x seen h = ground (arith, length-append seen (window_of x ∷ []))

-- The reading phase keeps the first windows of each kind.
scan_pair-windows_of :
    (from to : ℕ) (index : List (Option IonRxref)) (asserted imputed : List RangeWindow)
    → length asserted ≤ max_prune_scan
    → length imputed ≤ max_prune_scan
    → (scan_pair from to index asserted imputed).0
        ≡ take max_prune_scan (asserted ++ windows_of true from to index)
      × (scan_pair from to index asserted imputed).1
        ≡ take max_prune_scan (imputed ++ windows_of false from to index)
unfolding scan_pair windows_of push_window
scan_pair-windows_of from to [] asserted imputed a i =
    (sym (take_whole max_prune_scan asserted a), sym (take_whole max_prune_scan imputed i))
scan_pair-windows_of from to (none ∷ index) asserted imputed a i =
    scan_pair-windows_of from to index asserted imputed a i
scan_pair-windows_of from to (some x ∷ index) asserted imputed a i =
    elim (Bool-cases (x.from_node == from && x.to_node == to)) [
      | inr other ↦
          rw (scan_pair, windows_of, other)
            (scan_pair-windows_of from to index asserted imputed a i)
      | inl pair ↦ elim (Bool-cases x.asserted) [
        | inl one ↦
            let rest =
              scan_pair-windows_of from to index (push_window x asserted) imputed
                (push_window-le x asserted a) i in
            rw (scan_pair, windows_of, pair, one) (rest.0 ∙ push_window-take x asserted _ a, rest.1)
        | inr two ↦
            let rest =
              scan_pair-windows_of from to index asserted (push_window x imputed) a
                (push_window-le x imputed i) in
            rw (scan_pair, windows_of, pair, two) (rest.0, rest.1 ∙ push_window-take x imputed _ i)
      ]
    ]

module _ {F S : Type 0} (ion : Ion F S) (from to : ℕ) where
  abbrev pub removal : RangeWindow → IonCall F
  removal w = remove_range (some w.from_time) from to

  remove_redundant-calls :
      (asserted imputed : List RangeWindow) (s : S × List (IonCall F))
      → (remove_redundant (traced ion) from to asserted imputed s).1
        ≡ newest_first (map removal (redundant asserted imputed)) s.1
  unfolding remove_redundant redundant newest_first traced
  remove_redundant-calls asserted [] s = refl
  remove_redundant-calls asserted (i ∷ imputed) s = elim (Bool-cases (overlaps_any asserted i)) [
    | inl e ↦
        rw (remove_redundant, redundant, ← overlaps_any-eq-meets_any asserted i, e)
          (remove_redundant-calls asserted imputed
            (((traced ion).rfx_remove_range (some i.from_time) from to s).1))
    | inr e ↦
        rw (remove_redundant, redundant, ← overlaps_any-eq-meets_any asserted i, e)
          (remove_redundant-calls asserted imputed s)
  ]

  -- Where ION can be reached and has an index, the pruning asks it, one after the other in the order of
  -- the index, for the removal of exactly those of the first sixteen imputed entries of the pair that
  -- have an instant in common with one of the first sixteen asserted ones, each by its start.
  pub prune_redundant_imputed-calls :
      (s : S) (index : List (Option IonRxref))
      → (ion.view s).sdr ≡ true
      → (ion.view s).begin_xn ≡ pos 1
      → (ion.view s).vdb ≡ true
      → (ion.view s).wm ≡ true
      → (ion.view s).range_index ≡ some index
      → (prune_redundant_imputed (traced ion) from to (s, [])).1
        ≡ newest_first
            (map removal (
              redundant
                (take max_prune_scan (windows_of true from to index))
                (take max_prune_scan (windows_of false from to index))))
            []
  unfolding prune_redundant_imputed is_reachable traced
  prune_redundant_imputed-calls s index sdr begun vdb wm present =
      let scanned = scan_pair-windows_of from to index [] [] (omega arith) (omega arith) in
      rw (prune_redundant_imputed, is_reachable, sdr, begun, vdb, wm, present)
        (remove_redundant-calls (scan_pair from to index [] []).0 (scan_pair from to index [] []).1
            (s, [])
          ∙ ap
              (λ ws. newest_first (map removal (redundant ws (scan_pair from to index [] []).1)) [])
              scanned.0
          ∙ ap
              (λ ws.
                newest_first
                  (map removal (redundant (take max_prune_scan (windows_of true from to index)) ws))
                  [])
              scanned.1)
