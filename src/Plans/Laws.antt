-- ===== src/Plans/Laws.antt =====
-- The list of neighbours: which nodes are in it, and that the cache keeps it so.
use dtnex_redesign.Base.{
  ℕ, zero, suc, ◌≡◌, ◌≢◌, ◌≤◌, ◌<◌, ◌+◌, Option, none, some, List, [], ◌∷◌, length, All, arith,
}
use dtnex_redesign.Types.{Plan}
use dtnex_redesign.Plans.{max_plans, PlanView, PlanCache, collect_plans, getplanlist}

-- A neighbour has a number, and is not the local node.
abbrev pub IsNeighbor : ℕ → Plan → Type 0
IsNeighbor node p = (p.plan_id ≢ 0) × (p.plan_id ≢ node)

-- The plans of a cache that `getplanlist` has filled for this node.
abbrev pub IsPlanList : ℕ → List Plan → Type 0
IsPlanList node plans = All (IsNeighbor node) plans × (length plans ≤ max_plans)

collect_plans-IsNeighbor :
    (node now room : ℕ) (elements : List (Option ℕ))
    → All (IsNeighbor node) (collect_plans node now room elements)
      × (length (collect_plans node now room elements) ≤ room)
unfolding collect_plans
collect_plans-IsNeighbor node now room [] = ground arith
collect_plans-IsNeighbor node now room (none ∷ elements) =
    collect_plans-IsNeighbor node now room elements
collect_plans-IsNeighbor node now zero (some neighbor ∷ elements) =
    ground (arith, collect_plans-IsNeighbor node now zero elements)
collect_plans-IsNeighbor node now (suc room) (some neighbor ∷ elements) = ground (
  arith,
  collect_plans-IsNeighbor node now (suc room) elements,
  collect_plans-IsNeighbor node now room elements,
)

-- If the cache holds only neighbours, no more than the arrays have room for, then whatever ION
-- returns, so do the list and the cache afterwards.
pub getplanlist-IsPlanList :
    (node now : ℕ) (v : PlanView) (cache : PlanCache)
    → IsPlanList node cache.plans
    → IsPlanList node (getplanlist node now v cache).0
      × IsPlanList node (getplanlist node now v cache).1.plans
unfolding getplanlist
getplanlist-IsPlanList node now v cache h =
    ground (arith, collect_plans-IsNeighbor node now max_plans v.plans)

-- Within twenty seconds of an update the list is the cached one and ION is not asked.
pub getplanlist_cached :
    (node now : ℕ) (v : PlanView) (cache : PlanCache)
    → 0 < cache.last_update
    → now < cache.last_update + 20
    → getplanlist node now v cache ≡ (cache.plans, cache)
unfolding getplanlist
getplanlist_cached node now v cache known recent = ground arith
