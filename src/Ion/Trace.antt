-- ===== src/Ion/Trace.antt =====
-- ION with a record of the writing calls that are made of it, in order.
use dtnex_redesign.Base.{ℕ, Option, List, ◌∷◌}
use dtnex_redesign.Base.Int.{ℤ}
use dtnex_redesign.Ion.{Ion}

pub data IonCall (F : Type 0) : Type 0 where
  insert_contact : ℕ → ℤ → ℤ → ℕ → ℕ → ℕ → F → IonCall F
  revise_contact : ℕ → ℤ → ℕ → ℕ → ℕ → F → IonCall F
  remove_contact : ℕ → Option ℤ → ℕ → ℕ → IonCall F
  insert_range : ℤ → ℤ → ℕ → ℕ → ℕ → IonCall F
  remove_range : Option ℤ → ℕ → ℕ → IonCall F

module _ {F S : Type 0} where
  -- The calls so far are kept with the state, the last one in front.
  abbrev pub note : IonCall F → List (IonCall F) → ℤ × S → ℤ × (S × List (IonCall F))
  note call calls (rc, s) = (rc, (s, call ∷ calls))

unfoldable pub traced : {F S : Type 0} → Ion F S → Ion F (S × List (IonCall F))
traced ion = record {
  view = λ t. ion.view t.0;
  rfx_insert_contact = λ region from_time to_time from to rate confidence t.
      note (insert_contact region from_time to_time from to rate confidence) t.1
        (ion.rfx_insert_contact region from_time to_time from to rate confidence t.0);
  rfx_revise_contact = λ region from_time from to rate confidence t.
      note (revise_contact region from_time from to rate confidence) t.1
        (ion.rfx_revise_contact region from_time from to rate confidence t.0);
  rfx_remove_contact = λ region key from to t.
      note (remove_contact region key from to) t.1 (ion.rfx_remove_contact region key from to t.0);
  rfx_insert_range = λ from_time to_time from to owlt t.
      note (insert_range from_time to_time from to owlt) t.1
        (ion.rfx_insert_range from_time to_time from to owlt t.0);
  rfx_remove_range =
      λ key from to t. note (remove_range key from to) t.1 (ion.rfx_remove_range key from to t.0);
}
