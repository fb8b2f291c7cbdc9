-- ===== src/Ion/Contacts/Sync.antt =====
-- What `ionc_apply_contact` leaves in ION: nothing is written where ION is in sync, and what is
-- written is the contact of the record.
use dtnex_redesign.Base.{
  ◌≢◌, ◌≡◌, subst, inl, inr, Bool, true, false, some, arith, Option-cases, Bool-cases,
}
use dtnex_redesign.Validate.{max_posix_time}
use dtnex_redesign.Base.Int.{◌<ℤ◌, ℤ, pos, eqb_ℤ, eqb_ℤ→eq}
use dtnex_redesign.Types.{ContactRecord}
use dtnex_redesign.Ion.{
  IonCxref, IonView, Ion, Float, IoncApplyOutcome, noop, revised, inserted, replaced, is_reachable,
  by_code,
}
use dtnex_redesign.Ion.Contacts.{
  find_contact, ion_confidence, insert_contact, revise_contact, rate_or_confidence_differs,
  insert_new_contact, replace_contact, ionc_apply_contact,
}

-- The outcomes that report a write.
unfoldable pub is_written : IoncApplyOutcome → Bool
is_written inserted = true
is_written revised = true
is_written replaced = true
is_written _ = false

-- A confidence does not differ from itself.
abbrev pub IsTolerant : {F : Type 0} → Float F → Type 0
IsTolerant {F} float =
    (c : F)
    → (float.less c (float.sub c float.tolerance) ≡ false)
      × (float.less (float.add c float.tolerance) c ≡ false)

-- The contact is in ION, which can be reached, with the window, rate and confidence of the record.
pub record IsHeld {F : Type 0} (float : Float F) (rec : ContactRecord) (v : IonView F)
    : Type 0 where
  pub reachable : (v.sdr ≡ true) × (v.begin_xn ≡ pos 1) × (v.vdb ≡ true) × (v.wm ≡ true)
  pub entry : IonCxref F
  pub found : find_contact rec v ≡ some entry
  pub same_window : entry.to_time ≡ rec.to_time
  pub same_rate : entry.xmit_rate ≡ rec.xmit_rate
  pub same_confidence : entry.confidence ≡ ion_confidence float rec

-- A contact that ION keeps as it is given: neither hypothetical nor a registration, and with an
-- end.
abbrev pub IsReal : ContactRecord → Type 0
IsReal rec =
    (pos 0 <ℤ rec.from_time)
    × (rec.from_time <ℤ pos max_posix_time)
    × (pos 0 <ℤ rec.to_time)
    × (rec.from_node ≢ rec.to_node)

module _ {F S : Type 0} (float : Float F) (ion : Ion F S) where
  abbrev remove_call : ContactRecord → S → ℤ × S
  remove_call rec =
      ion.rfx_remove_contact rec.region_nbr (some rec.from_time) rec.from_node rec.to_node

  abbrev revise_call : ContactRecord → S → ℤ × S
  revise_call rec =
      ion.rfx_revise_contact rec.region_nbr rec.from_time rec.from_node rec.to_node rec.xmit_rate
        (ion_confidence float rec)

  -- The documented effect of the two calls: after a return code of 0 a real contact is in ION as it
  -- was given.
  pub record KeepsContacts : Type 0 where
    pub insert_lem :
        (rec : ContactRecord) (s : S)
        → IsReal rec
        → (insert_contact float ion rec s).0 ≡ pos 0
        → IsHeld float rec (ion.view (insert_contact float ion rec s).1)
    pub revise_lem :
        (rec : ContactRecord) (s : S) (x : IonCxref F)
        → IsReal rec
        → find_contact rec (ion.view s) ≡ some x
        → x.to_time ≡ rec.to_time
        → (revise_call rec s).0 ≡ pos 0
        → IsHeld float rec (ion.view (revise_call rec s).1)

  module _ (keeps : KeepsContacts) (rec : ContactRecord) (real : IsReal rec) where
    insert-IsHeld :
        (s t : S)
        → (insert_contact float ion rec s).0 ≡ pos 0
        → (insert_contact float ion rec s).1 ≡ t
        → IsHeld float rec (ion.view t)
    insert-IsHeld s t code e =
        subst (λ u. IsHeld float rec (ion.view u)) e (keeps.insert_lem rec s real code)

    new-IsHeld :
        (s t : S) (outcome : IoncApplyOutcome)
        → insert_new_contact float ion rec s ≡ (outcome, t)
        → is_written outcome ≡ true
        → IsHeld float rec (ion.view t)
    unfolding insert_new_contact by_code is_written
    new-IsHeld s t outcome e w = insert-IsHeld s t (ground arith) (ground arith)

    replace-IsHeld :
        (s t : S) (outcome : IoncApplyOutcome)
        → replace_contact float ion rec s ≡ (outcome, t)
        → is_written outcome ≡ true
        → IsHeld float rec (ion.view t)
    unfolding replace_contact by_code is_written
    replace-IsHeld s t outcome e w =
        insert-IsHeld (remove_call rec s).1 t (ground arith) (ground arith)

    revise-IsHeld :
        (s t : S) (x : IonCxref F) (outcome : IoncApplyOutcome)
        → find_contact rec (ion.view s) ≡ some x
        → x.to_time ≡ rec.to_time
        → revise_contact float ion rec s ≡ (outcome, t)
        → is_written outcome ≡ true
        → IsHeld float rec (ion.view t)
    unfolding revise_contact by_code is_written
    revise-IsHeld s t x outcome found same e w =
        subst (λ u. IsHeld float rec (ion.view u)) {x = (revise_call rec s).1} (ground arith)
          (keeps.revise_lem rec s x real found same (ground arith))

    -- A real contact whose outcome reports a write is in ION as the record says.
    pub ionc_apply_contact-IsHeld :
        (s t : S) (outcome : IoncApplyOutcome)
        → ionc_apply_contact float ion rec s ≡ (outcome, t)
        → is_written outcome ≡ true
        → IsHeld float rec (ion.view t)
    unfolding ionc_apply_contact is_reachable is_written
    ionc_apply_contact-IsHeld s t outcome e w =
        elim (Option-cases (find_contact rec (ion.view s))) [
          | inl absent ↦ new-IsHeld s t outcome (ground arith) w
          | inr (x, found) ↦ elim (Bool-cases (eqb_ℤ x.to_time rec.to_time)) [
            | inl same ↦
                revise-IsHeld s t x outcome found (eqb_ℤ→eq x.to_time rec.to_time same)
                  (ground arith) w
            | inr moved ↦ replace-IsHeld s t outcome (ground arith) w
          ]
        ]

  module _ (tolerant : IsTolerant float) (rec : ContactRecord) where
    -- Where ION already holds exactly the contact nothing is written.
    pub ionc_apply_contact_in_sync :
        (s : S) → IsHeld float rec (ion.view s) → ionc_apply_contact float ion rec s ≡ (noop, s)
    unfolding ionc_apply_contact is_reachable rate_or_confidence_differs
    ionc_apply_contact_in_sync s h = ground (
      arith,
      h.found,
      h.same_window,
      h.same_rate,
      h.same_confidence,
      h.reachable,
      tolerant (ion_confidence float rec),
    )

    -- Over an ION that keeps what it accepts, and a float comparison that tolerates equality: once
    -- the application of a real contact has reported a write, applying it again is a no-op that
    -- leaves ION as it is.
    pub ionc_apply_contact_again :
        KeepsContacts
        → IsReal rec
        → (s t : S) (outcome : IoncApplyOutcome) → ionc_apply_contact float ion rec s ≡ (outcome, t)
        → is_written outcome ≡ true
        → ionc_apply_contact float ion rec t ≡ (noop, t)
    ionc_apply_contact_again keeps real s t outcome applied w =
        ionc_apply_contact_in_sync t
          (ionc_apply_contact-IsHeld keeps rec real s t outcome applied w)
