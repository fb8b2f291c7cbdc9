-- ===== src/Service/Bpecho.antt =====
-- The echo service of dtnex.c: `initBpechoService` and the thread `runBpechoService`. The texts on
-- the terminal are left out. What ION answers is given.
use dtnex_redesign.Base.{
  ℕ, suc, Bool, true, false, ◌&&◌, ◌||◌, not, Option, none, some, List, [], ◌∷◌, ◌++◌, Bytes, take,
  beq, if◌then◌else◌,
}
use dtnex_redesign.Base.Int.{ℤ, pos, ltb_ℤ}
use dtnex_redesign.Metadata.{strncpy}
use dtnex_redesign.Config.Lines.{codes}
use dtnex_redesign.Service.{Delivery, Outcome, buffer_after}

abbrev pub bpecho_adu_len : ℕ
bpecho_adu_len = 1024

-- A payload: where it comes from, its bytes, what the buffer holds before, and what the calls that handle it return, in their
-- order; `zco` is whether `ionCreateZco` gives an object.
pub record Echoed : Type 0 where
  pub source_eid : Bytes
  pub adu : Bytes
  pub before : Bytes
  pub read_begun : Bool
  pub received : ℤ
  pub read_ended : ℤ
  pub reply_begun : Bool
  pub reply_ended : ℤ
  pub zco : Bool

pub record EchoTurn : Type 0 where
  pub go_on : Bool
  pub answer : Option (Delivery Echoed)

-- A call of `bp_send`.
pub record EchoReply : Type 0 where
  pub dest_eid : Bytes
  pub data_to_send : Bytes
  pub lifespan : ℕ

-- `replies` has the calls of `bp_send`, in order.
pub record BpechoState : Type 0 where
  pub running : Bool
  pub sap : Bool
  pub attendant : Bool
  pub replies : List EchoReply
  pub releases : ℕ
  pub outcome : Outcome

-- Whether `bp_open` and `ionStartAttendant` succeed; `none` is the result -1 and what it leaves.
unfoldable pub init_bpecho_service : Bool → Bool → Bool × BpechoState
init_bpecho_service opened attended =
    let state : Bool → Bool → Bool → BpechoState = λ running sap attendant. record {
      running = running;
      sap = sap;
      attendant = attendant;
      replies = [];
      releases = 0;
      outcome = Outcome.receiving;
    } in
    if not opened
    then (false, state false false false)
    else if not attended
    then (false, state true false false)
    else (true, state true true true)

-- The reply, once the payload is read and released.
unfoldable pub send_reply : Bytes → Bytes → Echoed → BpechoState → BpechoState
send_reply source_eid data_to_send c b =
    if beq source_eid (codes "dtn:none")
    then b
    else if not c.reply_begun
    then record b { outcome = Outcome.returned }
    else if ltb_ℤ c.reply_ended (pos 0) || not c.zco
    then b
    else record b {
      replies =
          b.replies
          ++ (record { dest_eid = source_eid; data_to_send = data_to_send; lifespan = 300 } ∷ []);
    }

unfoldable pub echo_payload : Echoed → BpechoState → BpechoState
unfolding send_reply buffer_after
echo_payload c b =
    if not c.read_begun
    then record b { outcome = Outcome.returned }
    else if ltb_ℤ c.read_ended (pos 0) || ltb_ℤ c.received (pos 0)
    then record b { releases = suc b.releases }
    else send_reply (strncpy 64 c.source_eid)
        (buffer_after c.received (take bpecho_adu_len c.adu) c.before) c
        (record b { releases = suc b.releases })

-- Behind the loop the endpoint is closed and the attendant stopped.
abbrev pub close_service : BpechoState → BpechoState
close_service b = record b { sap = false; attendant = false; outcome = Outcome.left }

unfoldable pub echo_answer : Option (Delivery Echoed) → BpechoState → BpechoState
unfolding echo_payload
echo_answer none b = close_service (record b { running = false })
echo_answer (some Delivery.reception_interrupted) b = b
echo_answer (some Delivery.endpoint_stopped) b = record b { running = false }
echo_answer (some (Delivery.payload_present c)) b = echo_payload c b
echo_answer (some Delivery.reception_timed_out) b = record b { releases = suc b.releases }

-- A turn: `go_on` is what the other threads have left of `running`.
unfoldable pub echo_turn : EchoTurn → BpechoState → BpechoState
unfolding echo_answer
echo_turn turn b =
    if turn.go_on && b.running
    then echo_answer turn.answer b
    else close_service (record b { running = false })

unfoldable pub run_bpecho_service : List EchoTurn → BpechoState → BpechoState
unfolding echo_turn
run_bpecho_service [] b = b
run_bpecho_service (turn ∷ turns) b = elim b.outcome [
  | Outcome.receiving ↦ run_bpecho_service turns (echo_turn turn b)
  | Outcome.left ↦ b
  | Outcome.returned ↦ b
]
