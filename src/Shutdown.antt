-- ===== src/Shutdown.antt =====
-- The end of dtnex.c: the thread of the termination signals (`signalWaitThread`), the stop of the
-- reception (`stopBundleReception`), and what `main` does behind its loop.
use dtnex_redesign.Base.{
  ℕ, zero, suc, ◌≡◌, refl, ltb, leb, Bool, true, false, ◌&&◌, Bool-cases, List, [], ◌∷◌, ◌++◌,
  arith, inl, inr, if◌then◌else◌,
}
use mathlib.Core.List.{append_assoc}

-- The endpoints of the two threads.
pub data Endpoint : Type 0 where
  own bpecho : Endpoint

pub data ShutdownCall : Type 0 where
  bp_interrupt bp_close : Endpoint → ShutdownCall
  ion_pause_attendant join_reception_thread join_bpecho_thread bp_detach : ShutdownCall

-- What the threads share. `sap` and `bpecho_sap` are whether the pointers are not NULL; `exited`
-- is the forced exit.
pub record Process : Type 0 where
  pub signal_count : ℕ
  pub running : Bool
  pub bpecho_running : Bool
  pub reception_running : Bool
  pub ion_connected : Bool
  pub sap : Bool
  pub bpecho_sap : Bool
  pub reception_started : Bool
  pub bpecho_started : Bool
  pub exited : Bool
  pub calls : List ShutdownCall

abbrev make : List ShutdownCall → Process → Process
make calls p = record p { calls = p.calls ++ calls }

-- The wake-ups of a shutdown.
unfoldable pub wake_ups : Process → List ShutdownCall
wake_ups p =
    (if p.ion_connected && p.sap then ShutdownCall.bp_interrupt Endpoint.own ∷ [] else [])
    ++ (if p.ion_connected && p.bpecho_sap
        then ShutdownCall.bp_interrupt Endpoint.bpecho ∷ ShutdownCall.ion_pause_attendant ∷ []
        else [])

-- One signal that `sigwait` returns.
unfoldable take_signal : Process → Process
unfolding wake_ups
take_signal p =
    if ltb 1 (suc p.signal_count)
    then record p { signal_count = suc p.signal_count; exited = true }
    else make (wake_ups p) (record p {
      signal_count = suc p.signal_count;
      running = false;
      bpecho_running = false;
      reception_running = false;
    })

-- So many signals; nothing follows a forced exit.
unfoldable signal_wait_thread : ℕ → Process → Process
unfolding take_signal
signal_wait_thread zero p = p
signal_wait_thread (suc n) p = if p.exited then p else signal_wait_thread n (take_signal p)

unfoldable stop_bundle_reception : Process → Process
stop_bundle_reception p =
    make (if p.sap && p.ion_connected then ShutdownCall.bp_interrupt Endpoint.own ∷ [] else [])
      (record p { reception_running = false })

-- `main` from the return of `eventDrivenLoop` on.
unfoldable join_reception : Process → Process
unfolding stop_bundle_reception
join_reception p =
    if p.reception_started
    then record (make (ShutdownCall.join_reception_thread ∷ []) (stop_bundle_reception p)) {
      reception_started = false;
    }
    else p

unfoldable join_bpecho : Process → Process
join_bpecho p =
    if p.bpecho_started
    then record (make (ShutdownCall.join_bpecho_thread ∷ []) p) { bpecho_started = false }
    else p

unfoldable close_and_detach : Process → Process
close_and_detach p =
    make
      ((if p.sap then ShutdownCall.bp_close Endpoint.own ∷ [] else [])
        ++ ShutdownCall.bp_detach ∷ [])
      p

unfoldable clean_up : Process → Process
unfolding join_reception join_bpecho close_and_detach
clean_up p = close_and_detach (join_bpecho (join_reception p))

-- Before any signal.
abbrev unsignalled : Process → Process
unsignalled p = record p { signal_count = 0; exited = false }

-- The first signal asks all three loops to end and wakes the endpoints that may be waited on; a
-- second one forces the exit and changes nothing else; further ones are not taken.
signal_wait_thread_lem :
    (n : ℕ) (p : Process)
    → signal_wait_thread (suc n) (unsignalled p) ≡ record p {
      signal_count = if leb 1 n then 2 else 1;
      running = false;
      bpecho_running = false;
      reception_running = false;
      exited = leb 1 n;
      calls = p.calls ++ wake_ups p;
    }
unfolding signal_wait_thread wake_ups
signal_wait_thread_lem zero p = refl
signal_wait_thread_lem (suc zero) p = refl
signal_wait_thread_lem (suc (suc n)) p =
    let many : leb 1 (suc (suc n)) ≡ true = ground arith in rw (many) refl

-- Behind the loop each thread that was started is joined before ION is let go of.
clean_up_lem :
    (p : Process)
    → (clean_up p).calls
      ≡ p.calls
        ++ ((if p.reception_started
              then (if p.sap && p.ion_connected
                  then ShutdownCall.bp_interrupt Endpoint.own ∷ []
                  else [])
                ++ ShutdownCall.join_reception_thread ∷ []
              else [])
            ++ ((if p.bpecho_started then ShutdownCall.join_bpecho_thread ∷ [] else [])
                ++ ((if p.sap then ShutdownCall.bp_close Endpoint.own ∷ [] else [])
                    ++ ShutdownCall.bp_detach ∷ [])))
unfolding clean_up stop_bundle_reception
clean_up_lem p = elim (Bool-cases p.reception_started) [
  | inl r ↦ elim (Bool-cases p.bpecho_started) [
    | inl b ↦
        simp
          (
            clean_up, join_reception, join_bpecho, stop_bundle_reception, close_and_detach, r, b,
            append_assoc,
          )
          refl
    | inr b ↦
        simp
          (
            clean_up, join_reception, join_bpecho, stop_bundle_reception, close_and_detach, r, b,
            append_assoc,
          )
          refl
  ]
  | inr r ↦ elim (Bool-cases p.bpecho_started) [
    | inl b ↦
        simp (clean_up, join_reception, join_bpecho, close_and_detach, r, b, append_assoc) refl
    | inr b ↦
        simp (clean_up, join_reception, join_bpecho, close_and_detach, r, b, append_assoc) refl
  ]
]
