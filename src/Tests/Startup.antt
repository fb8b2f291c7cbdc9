-- ===== src/Tests/Startup.antt =====
-- A start of the program from a dtnex.conf, with its flags and its connection.
use dtnex_redesign.Base.{
  ℕ, ◌≡◌, ◌≢◌, refl, true, false, none, some, List, [], ◌∷◌, Bytes, arith, beq, ◌↔◌, ◌>>=◌,
}
use dtnex_redesign.Base.Int.{ℤ, pos, negsuc, to_int32, to_uvast}
use dtnex_redesign.Types.{StructuredMetadata}
use dtnex_redesign.Config.Lines.{codes, isspace, parse_line}
use dtnex_redesign.Config.Assign.{Key, atoi, default_config, load_config}
use dtnex_redesign.Config.Bounds.{IsConfig, load_config-IsConfig}
use dtnex_redesign.Config.Quoted.{IsSetting, quoted_file, assign_all, load_config-quoted_file}
use dtnex_redesign.Connection.{ConnectAnswers, Attempt, try_connect_to_ion}
use dtnex_redesign.Connection.Protocol.{
  Client, client_run, outcome_of, try_connect_to_ion-client_run,
}
use dtnex_redesign.Connection.Startup.{start, start-service_nr}
use dtnex_redesign.Connection.Send.{
  SendAnswers, SendCall, Sending, send_cbor_bundle, reached, is_outside,
  send_cbor_bundle-handed_over,
}

parse_line_plain :
    parse_line (codes "  bundleTTL = 90 # s\n") ≡ some (codes "bundleTTL", codes "90")
unfolding parse_line isspace
parse_line_plain = refl

parse_line_quoted :
    parse_line (codes "nodemetadata=\"a, b \" \n") ≡ some (codes "nodemetadata", codes "a, b ")
unfolding parse_line isspace
parse_line_quoted = refl

parse_line_comment : parse_line (codes " # x=1\n") ≡ none
unfolding parse_line isspace
parse_line_comment = refl

atoi_negative : atoi (codes " -30 s") ≡ negsuc 29
unfolding atoi isspace to_int32 to_uvast
atoi_negative = refl

-- `double` is a number here, and `atof` gives the same one for every text.
abbrev pub atof : Bytes → ℕ
atof text = 7

-- The memory behind each text begins with a zero.
abbrev pub beyond : Key → Bytes
beyond k = []

abbrev pub conf : Bytes
conf = codes "# node 2\nserviceNr=13000\nbundleTTL = 90 # s\ndebugMode=true\n"

load_config-conf : load_config atof 0 beyond (some conf) ≡ record (default_config atof 0 beyond) {
  service_nr = codes "13000";
  bundle_ttl = pos 90;
  debug_mode = true;
  no_metadata_exchange = false;
}
unfolding load_config isspace beq to_int32 to_uvast
load_config-conf = refl

load_config-IsConfig_example : IsConfig (load_config atof 0 beyond (some conf))
load_config-IsConfig_example = load_config-IsConfig atof 0 beyond (λ k. refl) (some conf)

abbrev setting : Bytes × Bytes
setting = (codes "graphFile", codes "my graph.gv")

setting-IsSetting : IsSetting setting
unfolding isspace
setting-IsSetting = ground arith

load_config-quoted_file_example :
    load_config atof 0 beyond (some (quoted_file (setting ∷ [])))
    ≡ assign_all atof 0 beyond
        (setting ∷ [])
        (record (default_config atof 0 beyond) { no_metadata_exchange = false })
load_config-quoted_file_example =
    load_config-quoted_file atof 0 beyond (setting ∷ []) (setting-IsSetting, tt)

abbrev arguments : List Bytes
arguments = codes "--verbose" ∷ codes "--service" ∷ []

abbrev pub answers : ConnectAnswers
answers = record {
  bp_attach = pos 0;
  ionsdr = true;
  begin_xn = pos 1;
  iondb = true;
  own_node_nbr = 2;
  bp_sdr = true;
  add_endpoint = pos 0;
  bp_open = pos 0;
}

abbrev pub uninitialised : StructuredMetadata
uninitialised = record {
  node_id = 0;
  name = [];
  contact = [];
  location = [];
  latitude = pos 0;
  longitude = pos 0;
}

abbrev pub format_degrees : ℕ → Bytes
format_degrees degrees = []

one_no_zero : answers.begin_xn ≢ pos 0
one_no_zero = ground arith

abbrev attempt : Attempt ℕ
attempt =
    try_connect_to_ion format_degrees answers uninitialised (load_config atof 0 beyond (some conf))
      []

try_connect_to_ion-client_run_example :
    client_run attempt.calls Client.detached ≡ some (outcome_of attempt)
try_connect_to_ion-client_run_example =
    try_connect_to_ion-client_run format_degrees answers uninitialised
      (load_config atof 0 beyond (some conf)) [] one_no_zero

abbrev started : Attempt ℕ
started = start format_degrees atof 0 beyond (some conf) arguments answers uninitialised

start_connected : started.connected ≡ true
unfolding start load_config isspace beq try_connect_to_ion
start_connected = refl

start-service_nr_example :
    (client_run started.calls Client.detached
      ≡ some
          (Client.ready started.config.node_id (load_config atof 0 beyond (some conf)).service_nr))
    × (started.config.service_nr ≡ codes "12160")
    × (started.config.bpecho_service_nr ≡ codes "12161")
start-service_nr_example =
    start-service_nr format_degrees atof 0 beyond (some conf) arguments answers uninitialised
      one_no_zero start_connected

abbrev send_answers : SendAnswers
send_answers = record {
  begin_xn = pos 1;
  extent = true;
  end_xn = pos 0;
  zco = true;
  bp_send = pos 1;
}

one_is_no_zero : send_answers.begin_xn ≢ pos 0
one_is_no_zero = ground arith

abbrev sending : ℤ × List SendCall
sending = send_cbor_bundle send_answers (codes "ipn:3.12160") (1 ∷ 2 ∷ []) (pos 1800)

send_cbor_bundle-handed_over_example :
    ((reached sending >>= λ s. some (is_outside s)) ≡ some true)
    × ((sending.0 ≡ pos 2) ↔ (
        reached sending ≡ some (Sending.handed_over (codes "ipn:3.12160") (1 ∷ 2 ∷ []) (pos 1800))))
send_cbor_bundle-handed_over_example =
    send_cbor_bundle-handed_over send_answers (codes "ipn:3.12160") (1 ∷ 2 ∷ []) (pos 1800)
      one_is_no_zero
