-- ===== src/MainLoop/Main.antt =====
-- `main` of dtnex.c from its beginning: the configuration, the connection, the services, the first
-- broadcast, and the main loop.
use dtnex_redesign.Base.{
  ℕ, ◌+◌, ltb, Bool, false, not, ◌&&◌, Option, none, some, List, [], Bytes, length, if◌then◌else◌,
}
use dtnex_redesign.Base.Int.{ℤ, pos}
use dtnex_redesign.Types.{StructuredMetadata}
use dtnex_redesign.Cbor.Library.{CborLib}
use dtnex_redesign.Hmac.{HmacSha256}
use dtnex_redesign.Ion.{Float}
use dtnex_redesign.Announce.Exchange.{Announcer}
use dtnex_redesign.Config.Assign.{Key}
use dtnex_redesign.Connection.{ConnectAnswers, sap_after}
use dtnex_redesign.Connection.Startup.{start}
use dtnex_redesign.MainLoop.{LoopOutcome, MainLoop, enter_loop}
use dtnex_redesign.MainLoop.Contacts.{Round, exchange}
use dtnex_redesign.MainLoop.Turn.{Turn, event_driven_loop}
use dtnex_redesign.MainLoop.State.{IsMainLoop}

-- What a start is given: dtnex.conf, the arguments, ION, what a failed `bp_open` leaves in `sap`,
-- whether the two threads are started, and what the first broadcast sees.
pub record StartInputs (F : Type 0) : Type 0 where
  pub file : Option Bytes
  pub arguments : List Bytes
  pub connect : ConnectAnswers
  pub uninitialised : StructuredMetadata
  pub sap_left : Bool
  pub bpecho_started : Bool
  pub reception_started : Bool
  pub broadcast : Round F

-- The static variables as the program begins.
abbrev no_announcer : Announcer
no_announcer = record {
  my_contacts = record { records = []; updated = 0 };
  my_ranges = record { records = []; updated = 0 };
  last_exchange_time = 0;
  last_plan_list = [];
}

-- What holds of the state, where there is one.
abbrev Holds : {D : Type 0} → Option (MainLoop D) → Type 0
Holds none = Unit
Holds (some l) = IsMainLoop l

module _ {D F : Type 0} (format_degrees : D → Bytes) (atof : Bytes → D) (no_degrees : D)
    (beyond : Key → Bytes) where
  -- The state behind `init` and the services.
  unfoldable pub started_loop : StartInputs F → MainLoop D
  started_loop i =
      let attempt =
        start format_degrees atof no_degrees beyond i.file i.arguments i.connect i.uninitialised in
      record {
        config = attempt.config;
        ion_connected = attempt.connected;
        sap = sap_after i.sap_left attempt.calls false;
        next_update_time = pos 0;
        next_ion_retry = 0;
        announcer = no_announcer;
        sent = [];
        graphs = 0;
        threads = if attempt.connected then (if i.bpecho_started then 1 else 0) + 1 else 0;
        sleep = 0;
        outcome = LoopOutcome.going;
      }

  module _ (lib : CborLib) (hmac : HmacSha256) (float : Float F) (scale_gps : D → ℤ) where
    -- `none` is the exit without a thread for the reception.
    unfoldable enter_main : StartInputs F → Option (MainLoop D)
    unfolding started_loop exchange
    enter_main i =
        let l = started_loop i in
        if l.ion_connected && not i.reception_started
        then none
        else if ltb 0 (length i.broadcast.plans)
        then some (exchange lib hmac float scale_gps i.broadcast l)
        else some l

    unfoldable pub run_main : StartInputs F → ℕ → List (Turn F) → Option (MainLoop D)
    unfolding enter_main event_driven_loop enter_loop
    run_main i now turns = elim (enter_main i) [
      | none ↦ none
      | some l ↦
          some (event_driven_loop format_degrees lib hmac float scale_gps turns (enter_loop now l))
    ]
