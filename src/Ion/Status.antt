-- ===== src/Ion/Status.antt =====
-- `ionc_outcome_name`, `ionc_print_contact_table` and `ionc_check_alive` of ion_contacts.c.
use dtnex_redesign.Base.{ℕ, ◌+◌, ◌==◌, ◌&&◌, Option, none, some, List, [], ◌∷◌, if◌then◌else◌}
use dtnex_redesign.Base.Int.{ℤ, pos, negsuc, eqb_ℤ}
use dtnex_redesign.Ion.{IonView, IonCxref, is_reachable}

module _ {F : Type 0} where
  -- The elements that the loop over the index does not skip.
  unfoldable pub count_present : List (Option (IonCxref F)) → ℕ
  count_present [] = 0
  count_present (none ∷ index) = count_present index
  count_present (some x ∷ index) = count_present index + 1

  -- The result; the printed table is left out.
  unfoldable pub ionc_print_contact_table : IonView F → ℤ
  ionc_print_contact_table v =
      is_reachable v
        (elim (v.contact_index) [ none ↦ pos 0 | some index ↦ pos (count_present index) ])
        (negsuc 0)

  -- No working memory is needed here.
  unfoldable pub ionc_check_alive : ℕ → IonView F → ℤ
  ionc_check_alive expected_node_id v =
      if v.sdr && eqb_ℤ v.begin_xn (pos 1)
      then elim (v.own_node_nbr) [
        | none ↦ negsuc 0
        | some node ↦ if node == 0 then pos 0 else if node == expected_node_id then pos 1 else pos 0
      ]
      else negsuc 0
