-- ===== src/MainLoop.antt =====
-- The main loop of dtnex.c: `eventDrivenLoop` with `scheduleNextUpdate`, `checkIonStatus`,
-- `getContacts` and `restartDtnex`. What the clock, ION and the other threads give in a turn is the
-- record `Turn`. The printed tables and texts are left out, and of `createGraph` the calls are
-- counted.
pub mod Contacts
pub mod Turn
pub mod Rule
pub mod State
pub mod Waiting
pub mod Main
use dtnex_redesign.Base.{
  ℕ, suc, ◌+◌, ltb, ◌==◌, Bool, true, false, not, ◌&&◌, List, [], ◌++◌, if◌then◌else◌,
}
use dtnex_redesign.Base.Int.{ℤ, pos, ltb_ℤ, eqb_ℤ, ◌+ℤ◌}
use dtnex_redesign.Types.{DtnexConfig, Bundle}
use dtnex_redesign.Announce.Exchange.{Announcer}

pub data LoopOutcome : Type 0 where
  going stopped restarted : LoopOutcome

-- `ion_connected` and `sap` are the globals, the latter by whether it is not NULL. `sleep` is the
-- last sleep in milliseconds; `sent` has the calls of `sendCborBundle`; `threads` counts the
-- service threads that are started.
pub record MainLoop (D : Type 0) : Type 0 where
  pub config : DtnexConfig D
  pub ion_connected : Bool
  pub sap : Bool
  pub next_update_time : ℤ
  pub next_ion_retry : ℕ
  pub announcer : Announcer
  pub sent : List Bundle
  pub graphs : ℕ
  pub threads : ℕ
  pub sleep : ℕ
  pub outcome : LoopOutcome

-- `now` is what `time` gives.
unfoldable pub schedule_next_update : {D : Type 0} → ℕ → MainLoop D → MainLoop D
schedule_next_update now l = record l { next_update_time = pos now +ℤ l.config.update_interval }

-- The start of the loop; `now` as above.
unfoldable pub enter_loop : {D : Type 0} → ℕ → MainLoop D → MainLoop D
unfolding schedule_next_update
enter_loop now l =
    let connected : Bool = if l.ion_connected then true else l.sap && not (l.config.node_id == 0) in
    let fresh = record l {
      ion_connected = connected;
      next_update_time = pos 0;
      next_ion_retry = 0;
      outcome = LoopOutcome.going;
    } in
    if connected then schedule_next_update now fresh else record fresh { next_ion_retry = now }

-- Up to `execv`, or `exit` where that is not possible: the loop is not gone on with.
unfoldable pub restart_dtnex : {D : Type 0} → MainLoop D → MainLoop D
restart_dtnex l = record l { ion_connected = false; sap = false; outcome = LoopOutcome.restarted }

pub data IonStatus : Type 0 where
  unknown running stopped error : IonStatus

-- What the `bp_receive` of the check returns, and `errno`.
unfoldable pub check_ion_status : Bool → ℤ → ℤ → IonStatus
check_ion_status sap result errno =
    if not sap
    then IonStatus.stopped
    else if ltb_ℤ result (pos 0)
    then if eqb_ℤ errno (pos 22) then IonStatus.error else IonStatus.unknown
    else IonStatus.running

abbrev pub is_running : IonStatus → Bool
is_running IonStatus.running = true
is_running _ = false

abbrev pub draw : {D : Type 0} → MainLoop D → MainLoop D
draw l = if l.config.create_graph then record l { graphs = suc l.graphs } else l
