-- ===== src/Service/Delivered.antt =====
-- What the thread of `runBundleReception` does with everything that ION delivers to it.
use dtnex_redesign.Base.{
  ℕ, ◌+◌, ◌≡◌, refl, sym, ap, subst, ◌∙◌, ◌↔◌, ◌≢◌, Bool, true, false, Bool-cases, Option, none,
  some, List, [], ◌∷◌, ◌++◌, Bytes, arith, inl, inr,
}
use dtnex_redesign.Node.{System, Node, Times}
use dtnex_redesign.Node.Invariant.{IsNode, process_cbor_message-IsNode}
use dtnex_redesign.Node.Process.{process_cbor_message}
use dtnex_redesign.Node.Replay.{process_all}
use dtnex_redesign.Service.{Delivery, Outcome}
use dtnex_redesign.Service.Messages.{
  reading_ends, reading_messages, payload_messages, payload_ends_lem, payload_messages_lem,
  answer_ends, answer_messages, answer_deliveries, turn_ends, any_ends, delivered, deliveries,
}
use dtnex_redesign.Service.Reception.{
  Content, Turn, BundleReception, init_bundle_reception, Reading, read_content, receive_payload,
  receive, next_turn, run_bundle_reception,
}

module _ {D F S : Type 0} (sys : System D F S) where
  -- What one turn does: it goes on with its message processed and its delivery released, or it
  -- ends the loop with the node as it was.
  abbrev Goes : Bool → List (Times × Bytes) → ℕ → (b after : BundleReception S) → Type 0
  Goes false ms n b after =
      (after.outcome ≡ b.outcome)
      × (after.node ≡ process_all sys ms b.node)
      × (after.releases ≡ n + b.releases)
  Goes true ms n b after =
      (after.outcome ≢ Outcome.receiving) × (after.node ≡ b.node) × (after.releases ≡ b.releases)

  receive_payload-Goes :
      (t : Times) (r : Reading) (b : BundleReception S)
      → Goes (reading_ends r) (reading_messages t r) 1 b (receive_payload sys t r b)
  unfolding receive_payload process_all
  receive_payload-Goes t Reading.no_transaction b = (λ e. ground arith, refl, refl)
  receive_payload-Goes t Reading.unread b = (refl, refl, omega arith)
  receive_payload-Goes t (Reading.content buffer) b = (refl, refl, omega arith)

  receive-Goes :
      (turn : Turn) (a : Option (Delivery Content)) (b : BundleReception S)
      → Goes
          (answer_ends a)
          (answer_messages turn.times a)
          (answer_deliveries a)
          b
          (receive sys turn a b)
  unfolding receive process_all
  receive-Goes turn none b = elim (Bool-cases turn.still_running) [
    | inl e ↦ rw (receive, e) (λ f. ground arith, refl, refl)
    | inr e ↦ rw (receive, e) (λ f. ground arith, refl, refl)
  ]
  receive-Goes turn (some (Delivery.payload_present c)) b =
      subst
        (λ ends.
          Goes ends (payload_messages turn.times c) 1 b
            (receive sys turn (some (Delivery.payload_present c)) b))
        (payload_ends_lem c)
        (subst
          (λ ms.
            Goes (reading_ends (read_content c)) ms 1 b
              (receive sys turn (some (Delivery.payload_present c)) b))
          (payload_messages_lem turn.times c) (receive_payload-Goes turn.times (read_content c) b))
  receive-Goes turn (some Delivery.reception_timed_out) b = (refl, refl, omega arith)
  receive-Goes turn (some Delivery.reception_interrupted) b = (refl, refl, omega arith)
  receive-Goes turn (some Delivery.endpoint_stopped) b = (λ f. ground arith, refl, refl)

  next_turn-Goes :
      (turn : Turn) (b : BundleReception S)
      → Goes
          (turn_ends turn)
          (answer_messages turn.times turn.answer)
          (answer_deliveries turn.answer)
          b
          (next_turn sys turn b)
  unfolding next_turn
  next_turn-Goes turn b = elim (Bool-cases turn.go_on) [
    | inl e ↦ rw (next_turn, e) (receive-Goes turn turn.answer b)
    | inr e ↦ rw (next_turn, e) (λ f. ground arith, refl, refl)
  ]

  -- A turn processes some messages.
  pub next_turn_processes :
      (turn : Turn) (b : BundleReception S)
      → (ms : List (Times × Bytes)) × ((next_turn sys turn b).node ≡ process_all sys ms b.node)
  unfolding process_all
  next_turn_processes turn b = elim (Bool-cases (turn_ends turn)) [
    | inl e ↦ (
      [],
      (subst
          (λ x.
            Goes x (answer_messages turn.times turn.answer) (answer_deliveries turn.answer) b
              (next_turn sys turn b))
          e (next_turn-Goes turn b)).1,
    )
    | inr e ↦ (
      answer_messages turn.times turn.answer,
      (subst
          (λ x.
            Goes x (answer_messages turn.times turn.answer) (answer_deliveries turn.answer) b
              (next_turn sys turn b))
          e (next_turn-Goes turn b)).1,
    )
  ]

  -- The loop by where the thread is.
  from_outcome : List Turn → Turn → BundleReception S → Outcome → BundleReception S
  from_outcome turns turn b o = elim o [
    | Outcome.receiving ↦ run_bundle_reception sys turns (next_turn sys turn b)
    | Outcome.left ↦ b
    | Outcome.returned ↦ b
  ]

  run_bundle_reception-receiving :
      (turn : Turn) (turns : List Turn) (b : BundleReception S)
      → b.outcome ≡ Outcome.receiving
      → run_bundle_reception sys (turn ∷ turns) b
        ≡ run_bundle_reception sys turns (next_turn sys turn b)
  unfolding run_bundle_reception from_outcome
  run_bundle_reception-receiving turn turns b h = ap (from_outcome turns turn b) h

  from_outcome-ended :
      (turns : List Turn) (turn : Turn) (b : BundleReception S) (o : Outcome)
      → o ≢ Outcome.receiving
      → from_outcome turns turn b o ≡ b
  unfolding from_outcome
  from_outcome-ended turns turn b Outcome.receiving h = absurd (h refl)
  from_outcome-ended turns turn b Outcome.left h = refl
  from_outcome-ended turns turn b Outcome.returned h = refl

  run_bundle_reception-ended :
      (turns : List Turn) (b : BundleReception S)
      → b.outcome ≢ Outcome.receiving
      → run_bundle_reception sys turns b ≡ b
  unfolding run_bundle_reception from_outcome
  run_bundle_reception-ended [] b h = refl
  run_bundle_reception-ended (turn ∷ turns) b h = from_outcome-ended turns turn b b.outcome h

  process_all-append :
      (xs ys : List (Times × Bytes)) (node : Node S)
      → process_all sys (xs ++ ys) node ≡ process_all sys ys (process_all sys xs node)
  unfolding process_all
  process_all-append [] ys node = refl
  process_all-append ((t, buffer) ∷ xs) ys node =
      process_all-append xs ys (process_cbor_message sys t buffer node)

  -- What a run does to a node and to the number of releases, and whether it goes on.
  abbrev pub Served : Bool → List (Times × Bytes) → ℕ → (b after : BundleReception S) → Type 0
  Served ends ms n b after =
      (after.node ≡ process_all sys ms b.node)
      × (after.releases ≡ n + b.releases)
      × ((after.outcome ≡ Outcome.receiving) ↔ (ends ≡ false))

  pub run_bundle_reception-Served :
      (turns : List Turn) (b : BundleReception S)
      → b.outcome ≡ Outcome.receiving
      → Served
          (any_ends turns)
          (delivered turns)
          (deliveries turns)
          b
          (run_bundle_reception sys turns b)
  unfolding run_bundle_reception process_all
  run_bundle_reception-Served [] b h = (refl, omega arith, ((λ e. refl), (λ e. h)))
  run_bundle_reception-Served (turn ∷ turns) b h =
      let ms : List (Times × Bytes) = answer_messages turn.times turn.answer in
      let n : ℕ = answer_deliveries turn.answer in
      let after : BundleReception S = next_turn sys turn b in
      let goes : Goes (turn_ends turn) ms n b after = next_turn-Goes turn b in
      elim (Bool-cases (turn_ends turn)) [
        | inl e ↦
            let g : Goes true ms n b after = subst (λ x. Goes x ms n b after) e goes in
            rw
              (
                run_bundle_reception-receiving turn turns b h,
                e,
                run_bundle_reception-ended turns after g.0,
              )
              (g.1, omega (arith, g.2), ((λ f. absurd (g.0 f)), (λ f. ground arith)))
        | inr e ↦
            let g : Goes false ms n b after = subst (λ x. Goes x ms n b after) e goes in
            let rest : Served (any_ends turns) (delivered turns) (deliveries turns) after
                (run_bundle_reception sys turns after) =
              run_bundle_reception-Served turns after (g.0 ∙ h) in
            rw
              (
                run_bundle_reception-receiving turn turns b h,
                e,
                process_all-append ms (delivered turns) b.node,
              )
              (
                rest.0 ∙ ap (process_all sys (delivered turns)) g.1,
                omega (arith, rest.1, g.2),
                rest.2,
              )
      ]

  pub process_all-IsNode :
      (bundles : List (Times × Bytes)) (node : Node S)
      → IsNode sys.config.node_id node
      → IsNode sys.config.node_id (process_all sys bundles node)
  unfolding process_all
  process_all-IsNode [] node h = h
  process_all-IsNode ((t, buffer) ∷ bundles) node h =
      process_all-IsNode bundles (process_cbor_message sys t buffer node)
        (process_cbor_message-IsNode sys t buffer node h)

  -- Started as `initBundleReception` leaves it, the thread keeps the tables of the node within
  -- their arrays and the plans those of neighbours, whatever ION delivers and whenever it ends.
  run_bundle_reception-IsNode :
      (turns : List Turn) (running : Bool) (node : Node S)
      → IsNode sys.config.node_id node
      → IsNode sys.config.node_id
          (run_bundle_reception sys turns (init_bundle_reception running node)).node
  unfolding init_bundle_reception
  run_bundle_reception-IsNode turns running node h =
      subst (IsNode sys.config.node_id)
        (sym (run_bundle_reception-Served turns (init_bundle_reception running node) refl).0)
        (process_all-IsNode (delivered turns) node h)
