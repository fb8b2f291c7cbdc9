-- ===== src/Plans.antt =====
-- `getplanlist` of dtnex.c: the neighbours that ION has plans for, with a cache of twenty seconds.
-- The mutex makes a call one step; logging is left out.
pub mod Laws
use dtnex_redesign.Base.{
  ℕ, zero, suc, ◌-◌, ltb, ◌==◌, Bool, true, false, ◌&&◌, Option, none, some, List, [], ◌∷◌,
  if◌then◌else◌,
}
use dtnex_redesign.Base.Int.{ℤ, pos, ltb_ℤ}
use dtnex_redesign.Types.{Plan}

abbrev pub max_plans : ℕ
max_plans = 100

-- What ION's functions return: `getIonsdr`, `sdr_begin_xn`, `getBpConstants`, and the list of plans
-- by their `neighborNodeNbr`, `none` for an element whose data or pointer is null.
pub record PlanView : Type 0 where
  pub sdr : Bool
  pub begin_xn : ℤ
  pub bp_constants : Bool
  pub plans : List (Option ℕ)

-- The static variables of the function.
pub record PlanCache : Type 0 where
  pub plans : List Plan
  pub last_update : ℕ

-- The loop over the list, with room for so many more plans.
unfoldable pub collect_plans : ℕ → ℕ → ℕ → List (Option ℕ) → List Plan
collect_plans node now room [] = []
collect_plans node now room (none ∷ elements) = collect_plans node now room elements
collect_plans node now zero (some neighbor ∷ elements) =
    let rest = collect_plans node now zero elements in
    if neighbor == 0 then rest else if neighbor == node then rest else []
collect_plans node now (suc room) (some neighbor ∷ elements) =
    let skipped = collect_plans node now (suc room) elements in
    let taken =
      record { plan_id = neighbor; timestamp = now } ∷ collect_plans node now room elements in
    if neighbor == 0 then skipped else if neighbor == node then skipped else taken

unfoldable pub getplanlist : ℕ → ℕ → PlanView → PlanCache → List Plan × PlanCache
getplanlist node now v cache =
    if ltb 0 cache.last_update && ltb (now - cache.last_update) 20
    then (cache.plans, cache)
    else if v.sdr
    then (if ltb_ℤ v.begin_xn (pos 0)
        then ([], cache)
        else if v.bp_constants
        then (let fresh = collect_plans node now max_plans v.plans in
            (fresh, record { plans = fresh; last_update = now }))
        else ([], cache))
    else (cache.plans, cache)
