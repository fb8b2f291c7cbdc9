-- ===== src/Threads.antt =====
-- The threads of one process of dtnex.c over what they share: the reception and the main loop. The
-- cache of `getplanlist` is used by both, each time under `planListMutex`; and `nodeMetadataList`,
-- which no mutex guards: a turn of either thread is one step here, with all that it writes there.
pub mod Addressed
pub mod Reached
use dtnex_redesign.Base.{ℕ, ◌≡◌, List, Bytes}
use dtnex_redesign.Types.{Plan}
use dtnex_redesign.Node.{System}
use dtnex_redesign.Plans.{getplanlist}
use dtnex_redesign.Service.{Outcome}
use dtnex_redesign.Service.Reception
use dtnex_redesign.Service.Reception.{BundleReception, next_turn}
use dtnex_redesign.MainLoop.{MainLoop, LoopOutcome}
use dtnex_redesign.MainLoop.Turn.{Turn, book_after, take_turn}
use dtnex_redesign.Base.Int.{ℤ}

-- The node of the reception has the shared cache of plans, address book and ION. The two lists are what
-- the calls of `getplanlist` for the next turn of the main loop have returned.
pub record Program (D S : Type 0) : Type 0 where
  pub reception : BundleReception S
  pub loop : MainLoop D
  pub update_plans : List Plan
  pub wake_up_plans : List Plan

module _ {D F S : Type 0} (format_degrees : D → Bytes) (scale_gps : D → ℤ)
    (sys : System D F S) where
  open sys use {lib, hmac, float, config}

  -- A call of `getplanlist` by the main loop.
  unfoldable pub list_plans : ℕ → Program D S → List Plan × Program D S
  list_plans now p =
      let node = p.reception.node in
      let r = getplanlist config.node_id now (sys.plan_view node.ion_state) node.plan_cache in
      (r.0, record p { reception = record p.reception { node = record node { plan_cache = r.1 } } })

  unfoldable pub turn_of_loop : Turn F → MainLoop D → MainLoop D
  turn_of_loop = take_turn format_degrees lib hmac float scale_gps

  -- One of the threads goes on: the reception takes a turn; the main loop asks for the neighbours,
  -- for either of the rounds of its next turn, or takes that turn with them. ION's number of the node
  -- does not change, and ION may change as it likes between any two steps.
  pub data Step : Program D S → Program D S → Type 0 where
    received :
        {p : Program D S} (turn : Reception.Turn)
        → p.reception.outcome ≡ Outcome.receiving
        → Step p (record p { reception = next_turn sys turn p.reception })
    listed_update :
        {p : Program D S} (now : ℕ)
        → Step p (record (list_plans now p).1 { update_plans = (list_plans now p).0 })
    listed_wake_up :
        {p : Program D S} (now : ℕ)
        → Step p (record (list_plans now p).1 { wake_up_plans = (list_plans now p).0 })
    turned :
        {p : Program D S} (turn : Turn F)
        → p.loop.outcome ≡ LoopOutcome.going
        → turn.connect.own_node_nbr ≡ config.node_id
        → turn.update.plans ≡ p.update_plans
        → turn.wake_up.plans ≡ p.wake_up_plans
        → turn.metadata_list ≡ p.reception.node.metadata_list
        → Step p (record p {
          loop = turn_of_loop turn p.loop;
          reception = record p.reception {
            node = record p.reception.node {
              metadata_list = book_after format_degrees turn p.loop;
            };
          };
        })
    changed :
        {p : Program D S} (s : S)
        → Step p (record p {
          reception = record p.reception { node = record p.reception.node { ion_state = s } };
        })

  -- The programs that any order of the steps leads to.
  pub data Reach (start : Program D S) : Program D S → Type 0 where
    at_start : Reach start start
    later : {p q : Program D S} → Reach start p → Step p q → Reach start q
