-- ===== src/MainLoop/Rule.antt =====
-- What a turn of `eventDrivenLoop` of dtnex.c keeps: a property needs to be shown of the attempt to
-- connect and of the two exchanges only, if the rest of a turn cannot affect it.
use dtnex_redesign.Base.{
  suc, ◌≡◌, ◌≤◌, ◌⊎◌, refl, true, false, not, ◌&&◌, leb, arith, inl, inr, if_P, if_known_P, Bytes,
  ◌+◌, if◌then◌else◌,
}
use dtnex_redesign.Base.Int.{ℤ, pos, ltb_ℤ, leb_ℤ, eqb_ℤ, ◌-ℤ◌}
use dtnex_redesign.Cbor.Library.{CborLib}
use dtnex_redesign.Hmac.{HmacSha256}
use dtnex_redesign.Ion.{Float}
use dtnex_redesign.Ion.Status.{ionc_print_contact_table, ionc_check_alive}
use dtnex_redesign.MainLoop.{
  LoopOutcome, MainLoop, schedule_next_update, restart_dtnex, check_ion_status, is_running, draw,
}
use dtnex_redesign.MainLoop.Contacts.{Round, get_contacts, exchange, announce}
use dtnex_redesign.MainLoop.Turn.{
  Turn, actual_sleep, retry, retry_if_due, draw_unconnected, go_to_sleep, if_going, finish, update,
  update_if_due, take_turn,
}

-- A property that a step keeps is kept where the step is passed over.
pub if_going_P {κ} :
    {D : Type 0} (P : MainLoop D → Type κ) (k : MainLoop D → MainLoop D) (l : MainLoop D)
    → ((a : MainLoop D) → P a → P (k a))
    → P l
    → P (if_going k l)
unfolding if_going
if_going_P P k l f h =
    elim l.outcome
      as (λ o. P (elim o [
        | LoopOutcome.going ↦ k l
        | LoopOutcome.stopped ↦ l
        | LoopOutcome.restarted ↦ l
      ])) [ LoopOutcome.going ↦ f l h | LoopOutcome.stopped ↦ h | LoopOutcome.restarted ↦ h ]

-- A step that sends nothing, keeps the configuration, opens no connection and sleeps for a minute at
-- most.
abbrev pub IsFrame : {D : Type 0} (l a : MainLoop D) → Type 0
IsFrame l a =
    (a.config ≡ l.config)
    × (a.sent ≡ l.sent)
    × ((a.ion_connected ≡ false) ⊎ ((a.ion_connected ≡ l.ion_connected) × (a.sap ≡ l.sap)))
    × ((a.sleep ≡ l.sleep) ⊎ (a.sleep ≤ 60000))

actual_sleep-le : (t : ℤ) → actual_sleep t ≤ 60000
unfolding actual_sleep
actual_sleep-le t = ground arith

draw-IsFrame : {D : Type 0} (l : MainLoop D) → IsFrame l (draw l)
draw-IsFrame l =
    if_P (IsFrame l) l.config.create_graph {x = record l { graphs = suc l.graphs }} {y = l}
      (refl, refl, inr (refl, refl), inl refl) (refl, refl, inr (refl, refl), inl refl)

module _ {D F : Type 0} where
  get_contacts-IsFrame : (r : Round F) (l : MainLoop D) → IsFrame l (get_contacts r l)
  unfolding get_contacts restart_dtnex
  get_contacts-IsFrame r l =
      if_P (IsFrame l) (ltb_ℤ (ionc_print_contact_table r.table_view) (pos 0))
        (refl, refl, inl refl, inl refl)
        (if_P (IsFrame l) (not (eqb_ℤ (ionc_check_alive l.config.node_id r.alive_view) (pos 1)))
          (refl, refl, inl refl, inl refl) (draw-IsFrame l))

  draw_unconnected-IsFrame : (turn : Turn F) (l : MainLoop D) → IsFrame l (draw_unconnected turn l)
  unfolding draw_unconnected schedule_next_update
  draw_unconnected-IsFrame turn l =
      if_P (IsFrame l)
        (l.config.create_graph
          && (not l.ion_connected && leb_ℤ l.next_update_time (pos turn.current_time)))
        {x = schedule_next_update turn.drawn_time (record l { graphs = suc l.graphs })} {y = l}
        (refl, refl, inr (refl, refl), inl refl) (refl, refl, inr (refl, refl), inl refl)

  go_to_sleep-IsFrame : (turn : Turn F) (l : MainLoop D) → IsFrame l (go_to_sleep turn l)
  unfolding go_to_sleep
  go_to_sleep-IsFrame turn l = (
    refl,
    refl,
    inr (refl, refl),
    inr (
        actual_sleep-le (
          if not l.ion_connected
          then pos l.next_ion_retry -ℤ pos turn.sleep_time
          else l.next_update_time -ℤ pos turn.sleep_time)),
  )

module _ {κ} {D F : Type 0} (format_degrees : D → Bytes) (lib : CborLib) (hmac : HmacSha256)
    (float : Float F) (scale_gps : D → ℤ) (P : MainLoop D → Type κ)
    (frame : (l a : MainLoop D) → IsFrame l a → P l → P a) (turn : Turn F) where
  -- What is to be shown of a round.
  abbrev Exchanged : Round F → Type κ
  Exchanged r =
      (l : MainLoop D) → l.ion_connected ≡ true → P l → P (exchange lib hmac float scale_gps r l)

  announce_P :
      (r : Round F) (l : MainLoop D)
      → Exchanged r
      → l.ion_connected ≡ true
      → P l
      → P (announce lib hmac float scale_gps r l)
  unfolding announce
  announce_P r l exchanged connected h =
      frame (exchange lib hmac float scale_gps r l) _
        (get_contacts-IsFrame r (exchange lib hmac float scale_gps r l)) (exchanged l connected h)

  finish_P :
      (l : MainLoop D)
      → Exchanged turn.wake_up
      → P l
      → P (finish format_degrees lib hmac float scale_gps turn l)
  unfolding finish
  finish_P l woken h =
      let slept : (a : MainLoop D) → P a → P (go_to_sleep turn a) =
        λ a k. frame a (go_to_sleep turn a) (go_to_sleep-IsFrame turn a) k in
      if_P P (not turn.still_running)
        (frame l (record l { outcome = LoopOutcome.stopped })
          (refl, refl, inr (refl, refl), inl refl) h)
        (if_known_P P l.ion_connected
          (λ connected.
            if_going_P P (go_to_sleep turn) (announce lib hmac float scale_gps turn.wake_up l) slept
              (announce_P turn.wake_up l woken connected h))
          (λ alone. slept l h))

  updated_P :
      (l : MainLoop D)
      → Exchanged turn.wake_up
      → P l
      → P (
          finish format_degrees lib hmac float scale_gps turn
            (draw_unconnected turn (schedule_next_update turn.updated_time (draw l))))
  unfolding schedule_next_update
  updated_P l woken h =
      let scheduled : MainLoop D = schedule_next_update turn.updated_time (draw l) in
      let drawn : P (draw l) = frame l (draw l) (draw-IsFrame l) h in
      finish_P (draw_unconnected turn scheduled) woken (
        frame scheduled (draw_unconnected turn scheduled) (draw_unconnected-IsFrame turn scheduled)
          (frame (draw l) scheduled (refl, refl, inr (refl, refl), inl refl) drawn))

  update_P :
      (l : MainLoop D)
      → Exchanged turn.update
      → Exchanged turn.wake_up
      → l.ion_connected ≡ true
      → P l
      → P (update format_degrees lib hmac float scale_gps turn l)
  unfolding update
  update_P l updated woken connected h =
      if_P P (is_running (check_ion_status l.sap turn.check_result turn.check_errno))
        (if_going_P P
          (λ a.
            finish format_degrees lib hmac float scale_gps turn
              (draw_unconnected turn (schedule_next_update turn.updated_time (draw a))))
          (announce lib hmac float scale_gps turn.update l) (λ a k. updated_P a woken k)
          (announce_P turn.update l updated connected h))
        (frame l (record l { ion_connected = false; next_ion_retry = turn.current_time + 60 })
          (refl, refl, inl refl, inl refl) h)

  update_if_due_P :
      (l : MainLoop D)
      → Exchanged turn.update
      → Exchanged turn.wake_up
      → P l
      → P (update_if_due format_degrees lib hmac float scale_gps turn l)
  unfolding update_if_due
  update_if_due_P l updated woken h =
      if_known_P P (l.ion_connected && leb_ℤ l.next_update_time (pos turn.current_time))
        (λ due. update_P l updated woken (ground (arith, due)) h)
        (λ later.
          finish_P (draw_unconnected turn l) woken
            (frame l (draw_unconnected turn l) (draw_unconnected-IsFrame turn l) h))

  -- A property that the attempt to connect and the two exchanges keep, the rest of a turn keeps too.
  pub take_turn_P :
      (l : MainLoop D)
      → ((a : MainLoop D) → a.ion_connected ≡ false → P a → P (retry format_degrees turn a))
      → Exchanged turn.update
      → Exchanged turn.wake_up
      → P l
      → P (take_turn format_degrees lib hmac float scale_gps turn l)
  unfolding take_turn retry_if_due
  take_turn_P l retried updated woken h =
      if_P P turn.running
        (update_if_due_P (retry_if_due format_degrees turn l) updated woken (
          if_known_P P (not l.ion_connected && leb l.next_ion_retry turn.current_time)
            (λ due. retried l (ground (arith, due)) h) (λ early. h)))
        (frame l (record l { outcome = LoopOutcome.stopped })
          (refl, refl, inr (refl, refl), inl refl) h)
