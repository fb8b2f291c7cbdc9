-- ===== src/MainLoop/State.antt =====
-- The state of `eventDrivenLoop` through any sequence of turns.
use dtnex_redesign.Base.{
  ℕ, ◌≡◌, sym, ap, ◌∙◌, ◌≢◌, ◌≤◌, ◌⊎◌, true, false, not, Bool-cases, List, [], ◌∷◌, arith, inl, inr,
  if_P, Bytes,
}
use dtnex_redesign.Base.Int.{ℤ, pos, eqb_ℤ}
use dtnex_redesign.Cbor.Library.{CborLib}
use dtnex_redesign.Hmac.{HmacSha256}
use dtnex_redesign.Ion.{Float}
use dtnex_redesign.Connection.{try_connect_to_ion, Attempt}
use dtnex_redesign.Connection.Protocol.{try_connect_to_ion-sap, try_connect_to_ion-node_id}
use dtnex_redesign.MainLoop.{MainLoop, schedule_next_update, enter_loop}
use dtnex_redesign.MainLoop.Contacts.{exchange}
use dtnex_redesign.MainLoop.Rule.{IsFrame, if_going_P, take_turn_P}
use dtnex_redesign.MainLoop.Turn.{Turn, retry, if_going, take_turn, event_driven_loop}

-- While the loop takes itself to be connected, it has an endpoint and the number of its node; and
-- it has slept for a minute at most.
abbrev pub IsMainLoop : {D : Type 0} → MainLoop D → Type 0
IsMainLoop l =
    ((l.ion_connected ≡ false) ⊎ ((l.sap ≡ true) × (l.config.node_id ≢ 0))) × (l.sleep ≤ 60000)

-- The rest of a turn keeps it.
pub frame-IsMainLoop : {D : Type 0} (l a : MainLoop D) → IsFrame l a → IsMainLoop l → IsMainLoop a
frame-IsMainLoop l a f h = (frame_connected l a f h.0, frame_sleep l a f h.1)
  where
    frame_connected :
        {D : Type 0} (l a : MainLoop D)
        → IsFrame l a
        → (l.ion_connected ≡ false) ⊎ ((l.sap ≡ true) × (l.config.node_id ≢ 0))
        → (a.ion_connected ≡ false) ⊎ ((a.sap ≡ true) × (a.config.node_id ≢ 0))
    frame_connected l a (config, sent, inl off, sleep) h = inl off
    frame_connected l a (config, sent, inr (same, sap), sleep) (inl off) = inl (same ∙ off)
    frame_connected l a (config, sent, inr (same, sap), sleep) (inr (open_sap, id)) =
        inr (sap ∙ open_sap, λ zero_id. id (ap (λ c. c.node_id) (sym config) ∙ zero_id))

    frame_sleep : {D : Type 0} (l a : MainLoop D) → IsFrame l a → l.sleep ≤ 60000 → a.sleep ≤ 60000
    frame_sleep l a (config, sent, connected, inl same) h = rw same h
    frame_sleep l a (config, sent, connected, inr short) h = short

enter_loop-IsMainLoop :
    {D : Type 0} (now : ℕ) (l : MainLoop D) → IsMainLoop l → IsMainLoop (enter_loop now l)
unfolding enter_loop schedule_next_update
enter_loop-IsMainLoop now l h = ground arith

module _ {D F : Type 0} (format_degrees : D → Bytes) where
  pub retry-IsMainLoop :
      (turn : Turn F) (l : MainLoop D)
      → l.ion_connected ≡ false
      → l.sleep ≤ 60000
      → IsMainLoop (retry format_degrees turn l)
  unfolding retry schedule_next_update
  retry-IsMainLoop turn l h k =
      let attempt : Attempt D =
        try_connect_to_ion format_degrees turn.connect turn.uninitialised l.config
          turn.metadata_list in
      elim (Bool-cases attempt.connected) [
        | inl e ↦
            rw (retry, e)
              (
                inr (
                  try_connect_to_ion-sap format_degrees turn.connect turn.uninitialised l.config
                      turn.metadata_list turn.sap_left l.sap e,
                  try_connect_to_ion-node_id format_degrees turn.connect turn.uninitialised l.config
                      turn.metadata_list e,
                ),
                k,
              )
        | inr e ↦
            rw (retry, e) (if_P IsMainLoop (not (eqb_ℤ turn.pgrep (pos 0))) (inl h, k) (inl h, k))
      ]

  module _ (lib : CborLib) (hmac : HmacSha256) (float : Float F) (scale_gps : D → ℤ) where
    take_turn-IsMainLoop :
        (turn : Turn F) (l : MainLoop D)
        → IsMainLoop l
        → IsMainLoop (take_turn format_degrees lib hmac float scale_gps turn l)
    unfolding exchange
    take_turn-IsMainLoop turn l =
        take_turn_P format_degrees lib hmac float scale_gps IsMainLoop frame-IsMainLoop turn l
          (λ a off k. retry-IsMainLoop turn a off k.1) (λ a on k. k) (λ a on k. k)

    turns-IsMainLoop :
        (turns : List (Turn F)) (l : MainLoop D)
        → IsMainLoop l
        → IsMainLoop (event_driven_loop format_degrees lib hmac float scale_gps turns l)
    unfolding event_driven_loop
    turns-IsMainLoop [] l h = h
    turns-IsMainLoop (turn ∷ turns) l h =
        let step : MainLoop D → MainLoop D =
          take_turn format_degrees lib hmac float scale_gps turn in
        turns-IsMainLoop turns (if_going step l)
          (if_going_P IsMainLoop step l (take_turn-IsMainLoop turn) h)

    -- Through every sequence of turns, whatever ION, the clock and the other threads do: while the
    -- loop takes itself to be connected it has an open endpoint and a node number that is not 0, and
    -- it never sleeps for longer than a minute; if this held before the start of the loop.
    pub event_driven_loop-IsMainLoop :
        (now : ℕ) (turns : List (Turn F)) (l : MainLoop D)
        → IsMainLoop l
        → IsMainLoop
            (event_driven_loop format_degrees lib hmac float scale_gps turns (enter_loop now l))
    unfolding enter_loop event_driven_loop schedule_next_update
    event_driven_loop-IsMainLoop now turns l h =
        turns-IsMainLoop turns (enter_loop now l) (enter_loop-IsMainLoop now l h)
