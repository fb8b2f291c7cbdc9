-- ===== src/MainLoop/Waiting.antt =====
-- The turns of `eventDrivenLoop` without a connection, and the end of the loop.
use dtnex_redesign.Base.{
  ℕ, ◌+◌, ◌-◌, ◌*◌, ◌≤◌, ◌<◌, ◌≡◌, ◌≢◌, ◌⊎◌, refl, sym, ap, subst, Bool, false, not, ◌&&◌, leb,
  List, [], ◌∷◌, ◌++◌, Bytes, arith, inl, inr, if◌then◌else◌,
}
use dtnex_redesign.Base.Int.{ℤ, pos, eqb_ℤ}
use dtnex_redesign.Cbor.Library.{CborLib}
use dtnex_redesign.Hmac.{HmacSha256}
use dtnex_redesign.Ion.{Float}
use dtnex_redesign.Connection.{try_connect_to_ion, Attempt}
use dtnex_redesign.MainLoop.{LoopOutcome, MainLoop}
use dtnex_redesign.MainLoop.Turn.{Turn, if_going, take_turn, event_driven_loop}

-- A sleep from a time until another one: in milliseconds, a minute at most, and a tenth of a second
-- where that time has come.
abbrev pub SleepsUntil : ℕ → ℕ → ℕ → Type 0
SleepsUntil next now sleep =
    ((next ≤ now) × (sleep ≡ 100))
    ⊎ (((now < next) × (next ≤ now + 60) × (sleep ≡ 1000 * (next - now)))
        ⊎ ((now + 60 < next) × (sleep ≡ 60000)))

-- What a turn without a connection leaves, for a time of the next attempt.
pub record IsWaiting {D : Type 0} (l after : MainLoop D) (next now : ℕ) : Type 0 where
  pub disconnected : after.ion_connected ≡ false
  pub nothing_sent : after.sent ≡ l.sent
  pub no_thread : after.threads ≡ l.threads
  pub next_attempt : after.next_ion_retry ≡ next
  pub sleeps : SleepsUntil next now after.sleep

abbrev Fails : {D : Type 0} → ℕ → (l after : MainLoop D) → Type 0
Fails next l after =
    (after.ion_connected ≡ false)
    × (after.sent ≡ l.sent)
    × (after.threads ≡ l.threads)
    × (after.next_ion_retry ≡ next)

LoopOutcome-cases : (o : LoopOutcome) → (o ≡ LoopOutcome.going) ⊎ (o ≢ LoopOutcome.going)
LoopOutcome-cases LoopOutcome.going = inl refl
LoopOutcome-cases LoopOutcome.stopped = inr (λ e. ground arith)
LoopOutcome-cases LoopOutcome.restarted = inr (λ e. ground arith)

by_outcome : {D : Type 0} → (going over : MainLoop D) → LoopOutcome → MainLoop D
by_outcome going over o = elim o [
  | LoopOutcome.going ↦ going
  | LoopOutcome.stopped ↦ over
  | LoopOutcome.restarted ↦ over
]

by_outcome-over :
    {D : Type 0} (going over : MainLoop D) (o : LoopOutcome)
    → o ≢ LoopOutcome.going
    → by_outcome going over o ≡ over
unfolding by_outcome
by_outcome-over going over LoopOutcome.going h = absurd (h refl)
by_outcome-over going over LoopOutcome.stopped h = refl
by_outcome-over going over LoopOutcome.restarted h = refl

if_going-going :
    {D : Type 0} (k : MainLoop D → MainLoop D) (l : MainLoop D)
    → l.outcome ≡ LoopOutcome.going
    → if_going k l ≡ k l
unfolding if_going by_outcome
if_going-going k l h = ap (by_outcome (k l) l) h

if_going-over :
    {D : Type 0} (k : MainLoop D → MainLoop D) (l : MainLoop D)
    → l.outcome ≢ LoopOutcome.going
    → if_going k l ≡ l
unfolding if_going by_outcome
if_going-over k l h = by_outcome-over (k l) l l.outcome h

module _ {D F : Type 0} (format_degrees : D → Bytes) where
  abbrev attempt_in : Turn F → MainLoop D → Attempt D
  attempt_in turn l =
      try_connect_to_ion format_degrees turn.connect turn.uninitialised l.config turn.metadata_list

  -- When a failed attempt is followed by the next one, and when an attempt is not due yet.
  abbrev next_attempt_of : Turn F → MainLoop D → ℕ
  next_attempt_of turn l =
      if leb l.next_ion_retry turn.current_time
      then turn.current_time + (if not (eqb_ℤ turn.pgrep (pos 0)) then 10 else 300)
      else l.next_ion_retry

  -- The loop is not connected in this turn.
  abbrev pub connects : Turn F → MainLoop D → Bool
  connects turn l = leb l.next_ion_retry turn.current_time && (attempt_in turn l).connected

  module _ (lib : CborLib) (hmac : HmacSha256) (float : Float F) (scale_gps : D → ℤ) where
    over-stays :
        (turns : List (Turn F)) (l : MainLoop D)
        → l.outcome ≢ LoopOutcome.going
        → event_driven_loop format_degrees lib hmac float scale_gps turns l ≡ l
    unfolding event_driven_loop
    over-stays [] l h = refl
    over-stays (turn ∷ turns) l h =
        let step : MainLoop D → MainLoop D =
          take_turn format_degrees lib hmac float scale_gps turn in
        rw (event_driven_loop, if_going-over step l h) (over-stays turns l h)

    -- The loop is over once a turn finds `running` cleared at its head, whatever came before it and
    -- whatever is given for later turns.
    event_driven_loop-stops :
        (before after : List (Turn F)) (turn : Turn F) (l : MainLoop D)
        → turn.running ≡ false
        → (event_driven_loop format_degrees lib hmac float scale_gps
            (before ++ turn ∷ after)
            l).outcome
          ≢ LoopOutcome.going
    unfolding event_driven_loop take_turn
    event_driven_loop-stops (first ∷ before) after turn l h =
        event_driven_loop-stops before after turn
          (if_going (take_turn format_degrees lib hmac float scale_gps first) l) h
    event_driven_loop-stops [] after turn l h =
        let step : MainLoop D → MainLoop D =
          take_turn format_degrees lib hmac float scale_gps turn in
        let over : (a : MainLoop D)
            → a.outcome ≢ LoopOutcome.going
            → (event_driven_loop format_degrees lib hmac float scale_gps after a).outcome
              ≢ LoopOutcome.going =
          λ a i.
            subst (λ (x : MainLoop D). x.outcome ≢ LoopOutcome.going) (sym (over-stays after a i))
              i in
        elim (LoopOutcome-cases l.outcome) [
          | inl e ↦
              let left : step l ≡ record l { outcome = LoopOutcome.stopped } =
                rw (take_turn, h) refl in
              over (if_going step l) (rw (if_going-going step l e, left) (λ f. ground arith))
          | inr e ↦ over (if_going step l) (rw (if_going-over step l e) e)
        ]
