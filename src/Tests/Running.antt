-- ===== src/Tests/Running.antt =====
-- The threads and the main loop at work: the reception, the echo service, and the loop before and
-- after its connection.
use dtnex_redesign.Base.{◌≡◌, refl, ℕ, true, false, none, some, List, [], ◌∷◌, ◌++◌}
use dtnex_redesign.Base.Int.{ℤ, pos, negsuc}
use dtnex_redesign.Config.Lines.{codes}
use dtnex_redesign.Service.{Delivery}
use dtnex_redesign.Service.Reception.{Content, BundleReception, init_bundle_reception}
use dtnex_redesign.Service.Reception
use dtnex_redesign.Service.Bpecho.{
  Echoed, EchoTurn, BpechoState, init_bpecho_service, run_bpecho_service,
}
use dtnex_redesign.Service.Echoes.{echoes, run_bpecho_service-echoes}
use dtnex_redesign.MainLoop.{LoopOutcome, MainLoop, enter_loop}
use dtnex_redesign.MainLoop.Contacts.{Round, exchange}
use dtnex_redesign.MainLoop.Turn.{Turn, event_driven_loop}
use dtnex_redesign.MainLoop.Main.{StartInputs, started_loop}
use dtnex_redesign.Tests.Library.{lib, hmac, float}
use dtnex_redesign.Tests.World.{Database, node, times, view_of, config_of}
use dtnex_redesign.Tests.Announcing.{announcer, database, inputs, neighbors}
use dtnex_redesign.Tests.Startup.{atof, beyond, answers, uninitialised, format_degrees}

abbrev payload : Content
payload = record {
  length_begun = true;
  adu = 1 ∷ 2 ∷ [];
  before = [];
  read_begun = true;
  received = pos 2;
  end_xn = pos 0;
}

abbrev reception_turns : List Reception.Turn
reception_turns =
    record {
      go_on = true;
      answer = some (Delivery.payload_present payload);
      still_running = true;
      times = times;
    }
    ∷ record {
      go_on = true;
      answer = some Delivery.endpoint_stopped;
      still_running = true;
      times = times;
    }
    ∷ []

abbrev thread : BundleReception Database
thread = init_bundle_reception true node

abbrev ping : Echoed
ping = record {
  source_eid = codes "ipn:3.1";
  adu = 1 ∷ 2 ∷ [];
  before = [];
  read_begun = true;
  received = pos 2;
  read_ended = pos 0;
  reply_begun = true;
  reply_ended = pos 0;
  zco = true;
}

abbrev echo_turns : List EchoTurn
echo_turns =
    record { go_on = true; answer = some (Delivery.payload_present ping) }
    ∷ record { go_on = false; answer = none }
    ∷ []

abbrev service : BpechoState
service = (init_bpecho_service true true).1

run_bpecho_service-echoes_example :
    (run_bpecho_service echo_turns service).replies ≡ service.replies ++ echoes echo_turns
unfolding init_bpecho_service
run_bpecho_service-echoes_example = run_bpecho_service-echoes echo_turns service refl refl

abbrev pub round : Round ℕ
round = record {
  plans = neighbors;
  inputs = inputs;
  exchange_view = view_of database;
  table_view = view_of database;
  alive_view = view_of database;
}

-- A turn in which ION cannot be attached to.
abbrev pub turn : Turn ℕ
turn = record {
  running = true;
  current_time = 1000;
  connect = record answers { bp_attach = negsuc 0 };
  uninitialised = uninitialised;
  metadata_list = [];
  sap_left = false;
  bpecho_running = false;
  bpecho_started = true;
  reception_running = false;
  reception_started = true;
  connected_time = 1000;
  pgrep = pos 1;
  check_result = pos 0;
  check_errno = pos 0;
  update = round;
  updated_time = 1000;
  drawn_time = 1000;
  still_running = true;
  wake_up = round;
  sleep_time = 1001;
}

abbrev last_turn : Turn ℕ
last_turn = record turn { running = false }

-- The loop of node 2 before its first turn, without ION.
abbrev pub loop : MainLoop ℕ
loop = record {
  config = config_of 2;
  ion_connected = false;
  sap = false;
  next_update_time = pos 0;
  next_ion_retry = 0;
  announcer = announcer;
  sent = [];
  graphs = 0;
  threads = 0;
  sleep = 0;
  outcome = LoopOutcome.going;
}

abbrev pub scale_gps : ℕ → ℤ
scale_gps degrees = pos degrees

abbrev start_inputs : StartInputs ℕ
start_inputs = record {
  file = none;
  arguments = [];
  connect = record answers { bp_attach = negsuc 0 };
  uninitialised = uninitialised;
  sap_left = false;
  bpecho_started = true;
  reception_started = true;
  broadcast = round;
}

abbrev final : MainLoop ℕ
final = event_driven_loop format_degrees lib hmac float scale_gps (turn ∷ last_turn ∷ []) (
    enter_loop 1000 (
      exchange lib hmac float scale_gps round
        (started_loop format_degrees atof 0 beyond start_inputs)))
