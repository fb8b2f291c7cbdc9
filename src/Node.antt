-- ===== src/Node.antt =====
-- The node of dtnex.c as it receives a bundle: its static variables and globals, the libraries and
-- the configuration it is built on, and the clock.
pub mod Forward
pub mod Process
pub mod Rule
pub mod Invariant
pub mod Policy
pub mod Replay
pub mod Flood
pub mod Learn
use dtnex_redesign.Base.{ℕ, List, Bytes}
use dtnex_redesign.Base.Int.{ℤ}
use dtnex_redesign.Types.{DtnexConfig, NodeMetadata, Bundle}
use dtnex_redesign.Cbor.Library.{CborLib}
use dtnex_redesign.Hmac.{HmacSha256}
use dtnex_redesign.Nonce.{NonceCache}
use dtnex_redesign.Plans.{PlanView, PlanCache}
use dtnex_redesign.Ion.{Ion, Float}

-- `D` is `double`, `F` is `float`, and `S` the state of ION. `format_gps` is "%.6f" of a coordinate
-- divided by `GPS_PRECISION_FACTOR`.
pub record System (D F S : Type 0) : Type 0 where
  pub lib : CborLib
  pub hmac : HmacSha256
  pub float : Float F
  pub ion : Ion F S
  pub plan_view : S → PlanView
  pub config : DtnexConfig D
  pub format_gps : ℤ → Bytes

-- `outbox` has the calls of `sendCborBundle`, in order.
pub record Node (S : Type 0) : Type 0 where
  pub nonce_cache : List NonceCache
  pub metadata_list : List NodeMetadata
  pub plan_cache : PlanCache
  pub ion_state : S
  pub outbox : List Bundle

-- What the calls of `time` return: for the expiry, for the nonce cache, in the validation, and in
-- `getplanlist`.
pub record Times : Type 0 where
  pub decoded : ℕ
  pub cached : ℕ
  pub validated : ℕ
  pub planned : ℕ
