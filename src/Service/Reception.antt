-- ===== src/Service/Reception.antt =====
-- The thread that receives messages in dtnex.c: `initBundleReception` and `runBundleReception`.
-- The other threads write `running` and `state->running`: what each test of them reads is given.
use dtnex_redesign.Base.{
  suc, ℕ, ltb, Bool, true, false, not, ◌&&◌, ◌||◌, Option, none, some, List, [], ◌∷◌, Bytes, length,
  if◌then◌else◌,
}
use dtnex_redesign.Base.Int.{ℤ, pos, ltb_ℤ}
use dtnex_redesign.Config.Lines.{max_line_length}
use dtnex_redesign.Node.{System, Node, Times}
use dtnex_redesign.Node.Process.{process_cbor_message}
use dtnex_redesign.Service.{Delivery, Outcome, buffer_after}

-- A payload: its bytes, what the buffer holds before, whether the two `sdr_begin_xn` succeed, and
-- what `zco_receive_source` and `sdr_end_xn` return.
pub record Content : Type 0 where
  pub length_begun : Bool
  pub adu : Bytes
  pub before : Bytes
  pub read_begun : Bool
  pub received : ℤ
  pub end_xn : ℤ

-- A turn of the loop: `state->running && running` at its head, what `bp_receive` gives (`none` is
-- a negative result), `running` after such a failure, and the clock for a message.
pub record Turn : Type 0 where
  pub go_on : Bool
  pub answer : Option (Delivery Content)
  pub still_running : Bool
  pub times : Times

-- `releases` counts the calls of `bp_release_delivery`.
pub record BundleReception (S : Type 0) : Type 0 where
  pub node : Node S
  pub state_running : Bool
  pub running : Bool
  pub releases : ℕ
  pub outcome : Outcome

unfoldable pub init_bundle_reception : {S : Type 0} → Bool → Node S → BundleReception S
init_bundle_reception running node = record {
  node = node;
  state_running = true;
  running = running;
  releases = 0;
  outcome = Outcome.receiving;
}

pub data Reading : Type 0 where
  no_transaction unread : Reading
  content : Bytes → Reading

-- The payload, if it can be read and fits the buffer.
unfoldable pub read_content : Content → Reading
unfolding buffer_after
read_content c =
    if not c.length_begun
    then Reading.no_transaction
    else if ltb 0 (length c.adu) && ltb (length c.adu) max_line_length
    then if not c.read_begun
      then Reading.no_transaction
      else if ltb_ℤ c.end_xn (pos 0) || ltb_ℤ c.received (pos 0)
      then Reading.unread
      else Reading.content (buffer_after c.received c.adu c.before)
    else Reading.unread

abbrev release : {S : Type 0} → BundleReception S → BundleReception S
release b = record b { releases = suc b.releases }

module _ {D F S : Type 0} (sys : System D F S) where
  unfoldable pub receive_payload : Times → Reading → BundleReception S → BundleReception S
  receive_payload t Reading.no_transaction b = record b { outcome = Outcome.returned }
  receive_payload t Reading.unread b = release b
  receive_payload t (Reading.content buffer) b =
      release (record b { node = process_cbor_message sys t buffer b.node })

  -- The body of the loop behind `bp_receive`.
  unfoldable pub receive : Turn → Option (Delivery Content) → BundleReception S → BundleReception S
  unfolding receive_payload read_content
  receive turn none b =
      if turn.still_running
      then record b { state_running = false; outcome = Outcome.left }
      else record b { outcome = Outcome.left }
  receive turn (some Delivery.reception_interrupted) b = b
  receive turn (some Delivery.endpoint_stopped) b = record b {
    state_running = false;
    running = false;
    outcome = Outcome.left;
  }
  receive turn (some (Delivery.payload_present c)) b = receive_payload turn.times (read_content c) b
  receive turn (some Delivery.reception_timed_out) b = release b

  unfoldable pub next_turn : Turn → BundleReception S → BundleReception S
  unfolding receive
  next_turn turn b =
      if turn.go_on then receive turn turn.answer b else record b { outcome = Outcome.left }

  -- The loop; it takes no turn once it is left.
  unfoldable pub run_bundle_reception : List Turn → BundleReception S → BundleReception S
  unfolding next_turn
  run_bundle_reception [] b = b
  run_bundle_reception (turn ∷ turns) b = elim b.outcome [
    | Outcome.receiving ↦ run_bundle_reception turns (next_turn turn b)
    | Outcome.left ↦ b
    | Outcome.returned ↦ b
  ]
