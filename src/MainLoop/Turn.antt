-- ===== src/MainLoop/Turn.antt =====
-- One turn of `eventDrivenLoop` of dtnex.c, and the turns one after another.
use dtnex_redesign.Base.{
  ℕ, suc, ◌+◌, ◌*◌, leb, Bool, true, false, not, ◌&&◌, Bytes, List, [], ◌∷◌, if◌then◌else◌,
}
use dtnex_redesign.Base.Int.{ℤ, pos, ltb_ℤ, leb_ℤ, eqb_ℤ, ◌-ℤ◌, pos_part}
use dtnex_redesign.Types.{NodeMetadata, StructuredMetadata}
use dtnex_redesign.Cbor.Library.{CborLib}
use dtnex_redesign.Hmac.{HmacSha256}
use dtnex_redesign.Ion.{Float}
use dtnex_redesign.Connection.{ConnectAnswers, sap_after, try_connect_to_ion}
use dtnex_redesign.MainLoop.{
  LoopOutcome, MainLoop, schedule_next_update, check_ion_status, is_running, draw,
}
use dtnex_redesign.MainLoop.Contacts.{Round, announce}

-- In the order of use: `running` at the head, the clock, the attempt to connect (`sap_left` is what
-- a `bp_open` that fails leaves in `sap`, and `metadata_list` what is known of nodes), `running` of the two services, whether each of them is initialised and its
-- thread started, the clock of the schedule, the status of `pgrep`, the check of the connection,
-- the two rounds, the clocks of the schedules, `running` again, and the clock before the sleep.
pub record Turn (F : Type 0) : Type 0 where
  pub running : Bool
  pub current_time : ℕ
  pub connect : ConnectAnswers
  pub uninitialised : StructuredMetadata
  pub metadata_list : List NodeMetadata
  pub sap_left : Bool
  pub bpecho_running : Bool
  pub bpecho_started : Bool
  pub reception_running : Bool
  pub reception_started : Bool
  pub connected_time : ℕ
  pub pgrep : ℤ
  pub check_result : ℤ
  pub check_errno : ℤ
  pub update : Round F
  pub updated_time : ℕ
  pub drawn_time : ℕ
  pub still_running : Bool
  pub wake_up : Round F
  pub sleep_time : ℕ

abbrev pub started : Bool → Bool → ℕ
started running begun = if running then 0 else if begun then 1 else 0

-- The difference of the two times, at most a minute of it; a tenth of a second if none is left.
unfoldable pub actual_sleep : ℤ → ℕ
actual_sleep sleep_time =
    if ltb_ℤ (pos 0) sleep_time
    then 1000 * (if ltb_ℤ (pos 60) sleep_time then 60 else pos_part sleep_time)
    else 100

-- What follows a step, unless that has left the loop.
unfoldable pub if_going : {D : Type 0} → (MainLoop D → MainLoop D) → MainLoop D → MainLoop D
if_going k l = elim l.outcome [
  | LoopOutcome.going ↦ k l
  | LoopOutcome.stopped ↦ l
  | LoopOutcome.restarted ↦ l
]

module _ {D F : Type 0} where
  -- The drawing while ION is not connected.
  unfoldable pub draw_unconnected : Turn F → MainLoop D → MainLoop D
  unfolding schedule_next_update
  draw_unconnected turn l =
      if l.config.create_graph
        && (not l.ion_connected && leb_ℤ l.next_update_time (pos turn.current_time))
      then schedule_next_update turn.drawn_time (record l { graphs = suc l.graphs })
      else l

  unfoldable pub go_to_sleep : Turn F → MainLoop D → MainLoop D
  unfolding actual_sleep
  go_to_sleep turn l = record l {
    sleep = actual_sleep (
        if not l.ion_connected
        then pos l.next_ion_retry -ℤ pos turn.sleep_time
        else l.next_update_time -ℤ pos turn.sleep_time);
  }

module _ {D F : Type 0} (format_degrees : D → Bytes) where
  -- The attempt to connect, once it is time for it.
  unfoldable pub retry : Turn F → MainLoop D → MainLoop D
  unfolding schedule_next_update sap_after
  retry turn l =
      let attempt =
        try_connect_to_ion format_degrees turn.connect turn.uninitialised l.config
          turn.metadata_list in
      let services =
        started turn.bpecho_running turn.bpecho_started
        + started turn.reception_running turn.reception_started in
      let sap : Bool = sap_after turn.sap_left attempt.calls l.sap in
      let later : ℕ → MainLoop D = λ seconds. record l {
        config = attempt.config;
        sap = sap;
        next_ion_retry = turn.current_time + seconds;
      } in
      if attempt.connected
      then schedule_next_update turn.connected_time (record l {
        config = attempt.config;
        ion_connected = true;
        sap = sap;
        threads = l.threads + services;
      })
      else if not (eqb_ℤ turn.pgrep (pos 0))
      then later 10
      else later 300

  unfoldable pub retry_if_due : Turn F → MainLoop D → MainLoop D
  unfolding retry
  retry_if_due turn l =
      if not l.ion_connected && leb l.next_ion_retry turn.current_time then retry turn l else l

  -- The address book behind a turn: an attempt that is made may add the own metadata.
  unfoldable pub book_after : Turn F → MainLoop D → List NodeMetadata
  book_after turn l =
      let attempt =
        try_connect_to_ion format_degrees turn.connect turn.uninitialised l.config
          turn.metadata_list in
      if turn.running && (not l.ion_connected && leb l.next_ion_retry turn.current_time)
      then attempt.metadata_list
      else turn.metadata_list

  module _ (lib : CborLib) (hmac : HmacSha256) (float : Float F) (scale_gps : D → ℤ) where
    abbrev announce_in : Round F → MainLoop D → MainLoop D
    announce_in = announce lib hmac float scale_gps

    -- From the second test of `running` on.
    unfoldable pub finish : Turn F → MainLoop D → MainLoop D
    unfolding announce if_going go_to_sleep
    finish turn l =
        if not turn.still_running
        then record l { outcome = LoopOutcome.stopped }
        else if l.ion_connected
        then if_going (go_to_sleep turn) (announce_in turn.wake_up l)
        else go_to_sleep turn l

    -- The scheduled update; `continue` where the connection is lost.
    unfoldable pub update : Turn F → MainLoop D → MainLoop D
    unfolding announce if_going schedule_next_update draw_unconnected finish
    update turn l =
        let rest : MainLoop D → MainLoop D = λ a.
          finish turn (draw_unconnected turn (schedule_next_update turn.updated_time (draw a))) in
        if is_running (check_ion_status l.sap turn.check_result turn.check_errno)
        then if_going rest (announce_in turn.update l)
        else record l { ion_connected = false; next_ion_retry = turn.current_time + 60 }

    unfoldable pub update_if_due : Turn F → MainLoop D → MainLoop D
    unfolding update draw_unconnected finish
    update_if_due turn l =
        if l.ion_connected && leb_ℤ l.next_update_time (pos turn.current_time)
        then update turn l
        else finish turn (draw_unconnected turn l)

    unfoldable pub take_turn : Turn F → MainLoop D → MainLoop D
    unfolding retry_if_due update_if_due
    take_turn turn l =
        if turn.running
        then update_if_due turn (retry_if_due turn l)
        else record l { outcome = LoopOutcome.stopped }

    unfoldable pub event_driven_loop : List (Turn F) → MainLoop D → MainLoop D
    unfolding take_turn if_going
    event_driven_loop [] l = l
    event_driven_loop (turn ∷ turns) l = event_driven_loop turns (if_going (take_turn turn) l)
