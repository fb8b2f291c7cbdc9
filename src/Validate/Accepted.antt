-- ===== src/Validate/Accepted.antt =====
-- What the validation accepts, as a description of the message and not of the order of the checks.
use dtnex_redesign.Base.{ℕ, ◌+◌, ◌≡◌, ◌≢◌, ◌↔◌, ◌<◌, ◌≤◌, none, arith}
use dtnex_redesign.Base.Int.{ℤ, pos, ◌<ℤ◌, ◌≤ℤ◌}
use dtnex_redesign.Types.{ContactRecord, RangeRecord}
use dtnex_redesign.Validate.{
  max_posix_time, clock_skew_future_limit, validate_contact, validate_range,
}

-- A window that is announced by its own source, not a message of this node, has a beginning and an
-- end, is not over, and does not begin too late.
pub record IsWindow (node now origin from_node to_node : ℕ) (from_time to_time : ℤ) : Type 0 where
  pub foreign : origin ≢ node
  pub authority : from_node ≡ origin
  pub outward : to_node ≢ from_node
  pub begins : pos 0 <ℤ from_time
  pub ordered : from_time <ℤ to_time
  pub real : from_time <ℤ pos max_posix_time
  pub not_over : pos now <ℤ to_time
  pub not_too_far : from_time ≤ℤ pos (now + clock_skew_future_limit)

pub record IsAcceptable (node now origin : ℕ) (c : ContactRecord) : Type 0 where
  pub window : IsWindow node now origin c.from_node c.to_node c.from_time c.to_time
  pub rate : 0 < c.xmit_rate
  pub percentage : c.confidence ≤ 100

-- A contact passes all the checks exactly if it is acceptable.
pub validate_contact_iff :
    (node now origin : ℕ) (c : ContactRecord)
    → (validate_contact node now origin c ≡ none) ↔ IsAcceptable node now origin c
unfolding validate_contact
validate_contact_iff node now origin c = (λ h. ground arith, λ h. ground arith)

-- A range passes all the checks exactly if its window is acceptable; any delay will do.
pub validate_range_iff :
    (node now origin : ℕ) (r : RangeRecord)
    → (validate_range node now origin r ≡ none)
      ↔ IsWindow node now origin r.from_node r.to_node r.from_time r.to_time
unfolding validate_range
validate_range_iff node now origin r = (λ h. ground arith, λ h. ground arith)
