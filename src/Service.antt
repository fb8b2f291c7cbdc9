-- ===== src/Service.antt =====
-- The two threads of dtnex.c that receive bundles, and the connection with ION that they use. What
-- `bp_receive` and the other calls answer is given, turn by turn.
pub mod Reception
pub mod Messages
pub mod Delivered
pub mod Bpecho
pub mod Echoes
use dtnex_redesign.Base.{◌-◌, ◌≡◌, ◌≢◌, refl, ◌⊎◌, inl, inr, ◌++◌, Bytes, length, take, drop, arith}
use dtnex_redesign.Base.Int.{ℤ, pos_part}

-- `BpDelivery`, by its `result`; `C` is what comes with a payload.
pub data Delivery (C : Type 0) : Type 0 where
  payload_present : C → Delivery C
  reception_timed_out reception_interrupted endpoint_stopped : Delivery C

-- Where a thread is: at its next `bp_receive`, behind its loop, or returned by `CHKZERO`.
pub data Outcome : Type 0 where
  receiving left returned : Outcome

-- To split on it and keep the equation.
pub Outcome-cases : (o : Outcome) → (o ≡ Outcome.receiving) ⊎ (o ≢ Outcome.receiving)
Outcome-cases Outcome.receiving = inl refl
Outcome-cases Outcome.left = inr (λ e. ground arith)
Outcome-cases Outcome.returned = inr (λ e. ground arith)

-- What a buffer holds of the bytes that `zco_receive_source` was asked for: as many of them as it
-- says that it has read, and from there on what stood in the buffer before.
unfoldable pub buffer_after : ℤ → Bytes → Bytes → Bytes
buffer_after received asked before =
    take (pos_part received) asked
    ++ take (length asked - pos_part received) (drop (pos_part received) before)
