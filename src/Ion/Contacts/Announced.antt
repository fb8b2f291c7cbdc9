-- ===== src/Ion/Contacts/Announced.antt =====
-- What `ionc_get_own_contacts` announces, against the description of the filters.
use dtnex_redesign.Base.{
  ℕ, zero, suc, ◌==◌, ◌≡◌, ◌≢◌, refl, ap, ◌≤◌, Bool, true, false, not, Bool-cases, inl, inr, Option,
  none, some, List, [], ◌∷◌, map, length, take, All, arith, if◌then◌else◌,
}
use dtnex_redesign.Base.Int.{ℤ, leb_ℤ, ◌<ℤ◌}
use dtnex_redesign.Types.{ContactRecord}
use dtnex_redesign.Ion.{
  ContactType, registration, scheduled, predicted, hypothetical, discovered, suppressed, IonCxref,
  Float,
}
use dtnex_redesign.Ion.Contacts.{is_real_window, is_announceable, to_record, own_contacts}

-- The contacts that ION plans or predicts, and not those it only suspects, has discovered or uses
-- for registrations.
abbrev pub is_planned : ContactType → Bool
is_planned scheduled = true
is_planned predicted = true
is_planned registration = false
is_planned suppressed = false
is_planned hypothetical = false
is_planned discovered = false

-- From the node itself to another one, planned, and not over.
unfoldable pub may_announce : {F : Type 0} → ℕ → ℤ → IonCxref F → Bool
may_announce node now x =
    if leb_ℤ x.to_time now
    then false
    else if not (is_planned x.type)
    then false
    else if x.to_node == node
    then false
    else x.from_node == node

-- Those of the index that the node may announce, in order.
unfoldable pub announceable : {F : Type 0} → ℕ → ℤ → List (Option (IonCxref F)) → List (IonCxref F)
announceable node now [] = []
announceable node now (none ∷ index) = announceable node now index
announceable node now (some x ∷ index) =
    let rest = announceable node now index in if may_announce node now x then x ∷ rest else rest

is_planned-eq : (type : ContactType) → is_real_window type ≡ is_planned type
unfolding is_real_window
is_planned-eq registration = refl
is_planned-eq scheduled = refl
is_planned-eq predicted = refl
is_planned-eq hypothetical = refl
is_planned-eq discovered = refl
is_planned-eq suppressed = refl

is_announceable-eq :
    {F : Type 0} (node : ℕ) (now : ℤ) (x : IonCxref F)
    → is_announceable node now x ≡ may_announce node now x
unfolding is_announceable may_announce
is_announceable-eq node now x = ground (arith, is_planned-eq x.type)

module _ {F : Type 0} (float : Float F) where
  -- A contact as it is announced: its confidence is a percentage, rounded.
  abbrev pub as_percentage : IonCxref F → ContactRecord
  as_percentage x = record {
    region_nbr = x.region_nbr;
    from_node = x.from_node;
    to_node = x.to_node;
    from_time = x.from_time;
    to_time = x.to_time;
    xmit_rate = x.xmit_rate;
    confidence = float.to_uint (float.add (float.mul x.confidence float.hundred) float.half);
  }

  -- The snapshot is the contacts of the index that lead from the node to another one, are planned or
  -- predicted and not over, in the order of the index and as many as there is room for, each with its
  -- confidence as a percentage.
  pub own_contacts-announceable :
      (node : ℕ) (now : ℤ) (room : ℕ) (index : List (Option (IonCxref F)))
      → own_contacts float node now room index
        ≡ map as_percentage (take room (announceable node now index))
  unfolding own_contacts announceable to_record
  own_contacts-announceable node now zero [] = refl
  own_contacts-announceable node now (suc room) [] = refl
  own_contacts-announceable node now zero (x ∷ index) = refl
  own_contacts-announceable node now (suc room) (none ∷ index) =
      own_contacts-announceable node now (suc room) index
  own_contacts-announceable node now (suc room) (some x ∷ index) =
      elim (Bool-cases (may_announce node now x)) [
        | inl own ↦
            rw (own_contacts, announceable, is_announceable-eq node now x, own)
              (ap (◌∷◌ (as_percentage x)) (own_contacts-announceable node now room index))
        | inr other ↦
            rw (own_contacts, announceable, is_announceable-eq node now x, other)
              (own_contacts-announceable node now (suc room) index)
      ]

  -- A contact that the local node may announce: its own direction, towards another node, and not
  -- over at the time.
  abbrev pub IsOwn : ℕ → ℤ → ContactRecord → Type 0
  IsOwn node now c = (c.from_node ≡ node) × (c.to_node ≢ node) × (now <ℤ c.to_time)

  -- Whatever the index holds, only such contacts are announced, and no more than asked for.
  pub own_contacts-IsOwn :
      (node : ℕ) (now : ℤ) (room : ℕ) (index : List (Option (IonCxref F)))
      → All (IsOwn node now) (own_contacts float node now room index)
        × (length (own_contacts float node now room index) ≤ room)
  unfolding own_contacts to_record is_announceable
  own_contacts-IsOwn node now room [] = ground arith
  own_contacts-IsOwn node now zero (x ∷ index) = ground arith
  own_contacts-IsOwn node now (suc room) (none ∷ index) =
      own_contacts-IsOwn node now (suc room) index
  own_contacts-IsOwn node now (suc room) (some x ∷ index) =
      ground (
        arith,
        own_contacts-IsOwn node now room index,
        own_contacts-IsOwn node now (suc room) index,
      )
