-- ===== src/Validate.antt =====
-- The validation pipelines of dtnex.c: the checks 4 to 8b of `processCborContactMessage` and of
-- `processCborRangeMessage`, in their order.
pub mod Accepted
use dtnex_redesign.Base.{
  ℕ, ◌+◌, ◌*◌, ltb, ◌==◌, Bool, true, false, not, Option, none, some, if◌then◌else◌,
}
use dtnex_redesign.Base.Int.{ℤ, pos, eqb_ℤ, ltb_ℤ, leb_ℤ}
use dtnex_redesign.Types.{ContactRecord, RangeRecord}

-- Of ION's platform.h.
abbrev pub max_posix_time : ℕ
max_posix_time = 2147397247

abbrev pub clock_skew_future_limit : ℕ
clock_skew_future_limit = 30 * 24 * 3600

-- The check that discards a message.
pub data Reason : Type 0 where
  own_message not_authority to_itself permanent empty_window hypothetical : Reason
  registration zero_rate bad_confidence expired too_far : Reason

-- `node` is `config->nodeId`, and `now` the current time; `none` accepts.
unfoldable pub validate_contact : ℕ → ℕ → ℕ → ContactRecord → Option Reason
validate_contact node now origin c =
    if origin == node
    then some own_message
    else if not (c.from_node == origin)
    then some not_authority
    else if c.from_node == c.to_node
    then some to_itself
    else if eqb_ℤ c.to_time (pos 0)
    then some permanent
    else if leb_ℤ c.to_time c.from_time
    then some empty_window
    else if leb_ℤ c.from_time (pos 0)
    then some hypothetical
    else if leb_ℤ (pos max_posix_time) c.from_time
    then some registration
    else if c.xmit_rate == 0
    then some zero_rate
    else if ltb 100 c.confidence
    then some bad_confidence
    else if leb_ℤ c.to_time (pos now)
    then some expired
    else if ltb_ℤ (pos (now + clock_skew_future_limit)) c.from_time
    then some too_far
    else none

unfoldable pub validate_range : ℕ → ℕ → ℕ → RangeRecord → Option Reason
validate_range node now origin r =
    if origin == node
    then some own_message
    else if not (r.from_node == origin)
    then some not_authority
    else if r.from_node == r.to_node
    then some to_itself
    else if eqb_ℤ r.to_time (pos 0)
    then some permanent
    else if leb_ℤ r.to_time r.from_time
    then some empty_window
    else if leb_ℤ r.from_time (pos 0)
    then some hypothetical
    else if leb_ℤ (pos max_posix_time) r.from_time
    then some registration
    else if leb_ℤ r.to_time (pos now)
    then some expired
    else if ltb_ℤ (pos (now + clock_skew_future_limit)) r.from_time
    then some too_far
    else none
