-- ===== src/Service/Echoes.antt =====
-- What the thread of `runBpechoService` sends back.
use dtnex_redesign.Base.{
  suc, ◌≡◌, refl, sym, ap, subst, ◌∙◌, ◌≢◌, ◌⊎◌, Bool, true, false, ◌&&◌, ◌||◌, not, Option, none,
  some, List, [], ◌∷◌, ◌++◌, take, beq, arith, Bool-cases, inl, inr, if◌then◌else◌,
}
use mathlib.Core.List.{append_assoc, append-nil}
use dtnex_redesign.Base.Int.{pos, ltb_ℤ}
use dtnex_redesign.Metadata.{strncpy}
use dtnex_redesign.Config.Lines.{codes}
use dtnex_redesign.Service.{Delivery, Outcome, Outcome-cases, buffer_after}
use dtnex_redesign.Service.Bpecho.{
  bpecho_adu_len, Echoed, EchoTurn, EchoReply, BpechoState, send_reply, echo_payload, close_service,
  echo_answer, echo_turn, run_bpecho_service,
}

-- The payload is read.
abbrev is_read : Echoed → Bool
is_read c = c.read_begun && not (ltb_ℤ c.read_ended (pos 0) || ltb_ℤ c.received (pos 0))

abbrev is_anonymous : Echoed → Bool
is_anonymous c = beq (strncpy 64 c.source_eid) (codes "dtn:none")

-- A read payload from a named sender is answered if ION has room for the reply.
abbrev is_answered : Echoed → Bool
is_answered c =
    is_read c
    && (not (is_anonymous c) && (c.reply_begun && not (ltb_ℤ c.reply_ended (pos 0) || not c.zco)))

-- A transaction of the payload does not begin.
abbrev is_abandoned : Echoed → Bool
is_abandoned c = not c.read_begun || (is_read c && (not (is_anonymous c) && not c.reply_begun))

abbrev echo_of : Echoed → EchoReply
echo_of c = record {
  dest_eid = strncpy 64 c.source_eid;
  data_to_send = buffer_after c.received (take bpecho_adu_len c.adu) c.before;
  lifespan = 300;
}

abbrev answer_echoes : Option (Delivery Echoed) → List EchoReply
answer_echoes none = []
answer_echoes (some (Delivery.payload_present c)) = if is_answered c then echo_of c ∷ [] else []
answer_echoes (some Delivery.reception_timed_out) = []
answer_echoes (some Delivery.reception_interrupted) = []
answer_echoes (some Delivery.endpoint_stopped) = []

abbrev answer_is_last : Option (Delivery Echoed) → Bool
answer_is_last none = true
answer_is_last (some (Delivery.payload_present c)) = is_abandoned c
answer_is_last (some Delivery.reception_timed_out) = false
answer_is_last (some Delivery.reception_interrupted) = false
answer_is_last (some Delivery.endpoint_stopped) = true

-- The replies to the payloads of the turns before the last one.
abbrev pub echoes : List EchoTurn → List EchoReply
echoes [] = []
echoes (turn ∷ turns) =
    if not turn.go_on || answer_is_last turn.answer
    then []
    else answer_echoes turn.answer ++ echoes turns

-- Nothing more is sent from here.
abbrev IsOver : BpechoState → Type 0
IsOver b = (b.running ≡ false) ⊎ (b.outcome ≢ Outcome.receiving)

abbrev Answers : Bool → List EchoReply → (b after : BpechoState) → Type 0
Answers false rs b after =
    (after.replies ≡ b.replies ++ rs) × (after.running ≡ b.running) × (after.outcome ≡ b.outcome)
Answers true rs b after = (after.replies ≡ b.replies) × IsOver after

-- The five tests on a payload, as Booleans.
tests-Answers :
    (begun failed anonymous reply_begun refused : Bool) (r : EchoReply) (b : BpechoState)
    → Answers
        (not begun || ((begun && not failed) && (not anonymous && not reply_begun)))
        (if (begun && not failed) && (not anonymous && (reply_begun && not refused))
          then r ∷ []
          else [])
        b
        (if not begun
          then record b { outcome = Outcome.returned }
          else if failed
          then record b { releases = suc b.releases }
          else if anonymous
          then record b { releases = suc b.releases }
          else if not reply_begun
          then record b { releases = suc b.releases; outcome = Outcome.returned }
          else if refused
          then record b { releases = suc b.releases }
          else record b { releases = suc b.releases; replies = b.replies ++ (r ∷ []) })
tests-Answers false failed anonymous reply_begun refused r b = (refl, inr (λ e. ground arith))
tests-Answers true true anonymous reply_begun refused r b = (sym (append-nil b.replies), refl, refl)
tests-Answers true false true reply_begun refused r b = (sym (append-nil b.replies), refl, refl)
tests-Answers true false false false refused r b = (refl, inr (λ e. ground arith))
tests-Answers true false false true true r b = (sym (append-nil b.replies), refl, refl)
tests-Answers true false false true false r b = (refl, refl, refl)

echo_payload-Answers :
    (c : Echoed) (b : BpechoState)
    → Answers
        (is_abandoned c)
        (answer_echoes (some (Delivery.payload_present c)))
        b
        (echo_payload c b)
unfolding echo_payload send_reply
echo_payload-Answers c b =
    tests-Answers c.read_begun (ltb_ℤ c.read_ended (pos 0) || ltb_ℤ c.received (pos 0))
      (is_anonymous c) c.reply_begun (ltb_ℤ c.reply_ended (pos 0) || not c.zco) (echo_of c) b

echo_answer-Answers :
    (a : Option (Delivery Echoed)) (b : BpechoState)
    → Answers (answer_is_last a) (answer_echoes a) b (echo_answer a b)
unfolding echo_answer
echo_answer-Answers none b = (refl, inl refl)
echo_answer-Answers (some (Delivery.payload_present c)) b = echo_payload-Answers c b
echo_answer-Answers (some Delivery.reception_timed_out) b = (sym (append-nil b.replies), refl, refl)
echo_answer-Answers (some Delivery.reception_interrupted) b =
    (sym (append-nil b.replies), refl, refl)
echo_answer-Answers (some Delivery.endpoint_stopped) b = (refl, inl refl)

-- The loop by where the thread is.
from_outcome : List EchoTurn → EchoTurn → BpechoState → Outcome → BpechoState
from_outcome turns turn b o = elim o [
  | Outcome.receiving ↦ run_bpecho_service turns (echo_turn turn b)
  | Outcome.left ↦ b
  | Outcome.returned ↦ b
]

run_bpecho_service-receiving :
    (turn : EchoTurn) (turns : List EchoTurn) (b : BpechoState)
    → b.outcome ≡ Outcome.receiving
    → run_bpecho_service (turn ∷ turns) b ≡ run_bpecho_service turns (echo_turn turn b)
unfolding run_bpecho_service from_outcome
run_bpecho_service-receiving turn turns b h = ap (from_outcome turns turn b) h

from_outcome-ended :
    (turns : List EchoTurn) (turn : EchoTurn) (b : BpechoState) (o : Outcome)
    → o ≢ Outcome.receiving
    → from_outcome turns turn b o ≡ b
unfolding from_outcome
from_outcome-ended turns turn b Outcome.receiving h = absurd (h refl)
from_outcome-ended turns turn b Outcome.left h = refl
from_outcome-ended turns turn b Outcome.returned h = refl

run_bpecho_service-ended :
    (turns : List EchoTurn) (b : BpechoState)
    → b.outcome ≢ Outcome.receiving
    → run_bpecho_service turns b ≡ b
unfolding run_bpecho_service from_outcome
run_bpecho_service-ended [] b h = refl
run_bpecho_service-ended (turn ∷ turns) b h = from_outcome-ended turns turn b b.outcome h

-- Once `running` is cleared the next turn leaves the loop.
echo_turn-stopped :
    (turn : EchoTurn) (b : BpechoState)
    → turn.go_on && b.running ≡ false
    → echo_turn turn b ≡ close_service (record b { running = false })
unfolding echo_turn
echo_turn-stopped turn b h = rw (echo_turn, h) refl

and_false : (x y : Bool) → y ≡ false → x && y ≡ false
and_false true y h = h
and_false false y h = refl

run_bpecho_service-over :
    (turns : List EchoTurn) (b : BpechoState)
    → IsOver b
    → (run_bpecho_service turns b).replies ≡ b.replies
unfolding run_bpecho_service
run_bpecho_service-over [] b h = refl
run_bpecho_service-over (turn ∷ turns) b (inr ended) =
    rw (run_bpecho_service-ended (turn ∷ turns) b ended) refl
run_bpecho_service-over (turn ∷ turns) b (inl stopped) = elim (Outcome-cases b.outcome) [
  | inl e ↦
      let left : echo_turn turn b ≡ close_service (record b { running = false }) =
        echo_turn-stopped turn b (and_false turn.go_on b.running stopped) in
      rw
        (
          run_bpecho_service-receiving turn turns b e,
          left,
          run_bpecho_service-ended turns (close_service (record b { running = false }))
              (λ f. ground arith),
        )
        refl
  | inr other ↦ rw (run_bpecho_service-ended (turn ∷ turns) b other) refl
]

-- The calls of `bp_send` of a running thread are the echoes of the payloads before its last turn,
-- in their order and one each: a payload is echoed if it is read, its sender is not "dtn:none" and
-- ION makes a bundle of the reply, and then its first 1024 bytes go back to its sender.
pub run_bpecho_service-echoes :
    (turns : List EchoTurn) (b : BpechoState)
    → b.running ≡ true
    → b.outcome ≡ Outcome.receiving
    → (run_bpecho_service turns b).replies ≡ b.replies ++ echoes turns
unfolding run_bpecho_service
run_bpecho_service-echoes [] b h k = sym (append-nil b.replies)
run_bpecho_service-echoes (turn ∷ turns) b h k =
    rw (run_bpecho_service-receiving turn turns b k) (elim (Bool-cases turn.go_on) [
      | inr stop ↦
          let left : echo_turn turn b ≡ close_service (record b { running = false }) =
            echo_turn-stopped turn b (rw (stop) refl) in
          rw (left, stop, append-nil b.replies)
            (run_bpecho_service-over turns (close_service (record b { running = false }))
              (inl refl))
      | inl go ↦
          let taken : echo_turn turn b ≡ echo_answer turn.answer b = rw (echo_turn, go, h) refl in
          let rs : List EchoReply = answer_echoes turn.answer in
          let after : BpechoState = echo_answer turn.answer b in
          let answers : Answers (answer_is_last turn.answer) rs b after =
            echo_answer-Answers turn.answer b in
          rw (taken, go)
            (elim (Bool-cases (answer_is_last turn.answer)) [
              | inl last ↦
                  let a : Answers true rs b after =
                    subst (λ x. Answers x rs b after) last answers in
                  rw (last, append-nil b.replies) (run_bpecho_service-over turns after a.1 ∙ a.0)
              | inr more ↦
                  let a : Answers false rs b after =
                    subst (λ x. Answers x rs b after) more answers in
                  rw (more) (
                    run_bpecho_service-echoes turns after (a.1 ∙ h) (a.2 ∙ k)
                    ∙ ap (λ (l : List EchoReply). l ++ echoes turns) a.0
                    ∙ append_assoc b.replies rs (echoes turns))
            ])
    ])
