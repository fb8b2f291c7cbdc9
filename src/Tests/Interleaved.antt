-- ===== src/Tests/Interleaved.antt =====
-- Node 2 with its two threads: a message arrives, the main loop asks for the neighbours, and takes a
-- turn in which it announces what it has.
use dtnex_redesign.Base.{length, ℕ, refl, true, some, List, [], arith, inr}
use dtnex_redesign.Base.Int.{pos}
use dtnex_redesign.Types.{Plan}
use dtnex_redesign.Service.{Delivery, Outcome}
use dtnex_redesign.Service.Reception
use dtnex_redesign.Service.Reception.{Content, BundleReception, next_turn}
use dtnex_redesign.MainLoop.{MainLoop}
use dtnex_redesign.MainLoop.Turn.{Turn, book_after}
use dtnex_redesign.Threads.{
  Program, received, listed_update, listed_wake_up, turned, Reach, at_start, later, list_plans,
  turn_of_loop,
}
use dtnex_redesign.Threads.Reached.{IsProgram, Reach-IsProgram}
use dtnex_redesign.Tests.World.{Database, sys, node, times}
use dtnex_redesign.Tests.Network.{contact_message, node-IsNode}
use dtnex_redesign.Tests.Startup.{answers, format_degrees}
use dtnex_redesign.Tests.Running.{round, turn, loop, scale_gps}

abbrev arrival : Reception.Turn
arrival = record {
  go_on = true;
  answer = some (
      Delivery.payload_present (record {
        length_begun = true;
        adu = contact_message;
        before = [];
        read_begun = true;
        received = pos (length contact_message);
        end_xn = pos 0;
      }));
  still_running = true;
  times = times;
}

abbrev connected_loop : MainLoop ℕ
connected_loop = record loop { ion_connected = true; sap = true }

abbrev program : Program ℕ Database
program = record {
  reception = record {
    node = node;
    state_running = true;
    running = true;
    releases = 0;
    outcome = Outcome.receiving;
  };
  loop = connected_loop;
  update_plans = [];
  wake_up_plans = [];
}

abbrev with_message : Program ℕ Database
with_message = record program { reception = next_turn sys arrival program.reception }

abbrev lists : ℕ → Program ℕ Database → List Plan × Program ℕ Database
lists = list_plans format_degrees scale_gps sys

abbrev with_updates : Program ℕ Database
with_updates = record (lists 1001 with_message).1 { update_plans = (lists 1001 with_message).0 }

abbrev with_wake_ups : Program ℕ Database
with_wake_ups = record (lists 1002 with_updates).1 { wake_up_plans = (lists 1002 with_updates).0 }

abbrev busy_turn : Turn ℕ
busy_turn = record turn {
  connect = answers;
  metadata_list = with_wake_ups.reception.node.metadata_list;
  update = record round { plans = with_wake_ups.update_plans };
  wake_up = record round { plans = with_wake_ups.wake_up_plans };
}

abbrev announced : Program ℕ Database
announced = record with_wake_ups {
  loop = turn_of_loop format_degrees scale_gps sys busy_turn with_wake_ups.loop;
  reception = record with_wake_ups.reception {
    node = record with_wake_ups.reception.node {
      metadata_list = book_after format_degrees busy_turn with_wake_ups.loop;
    };
  };
}

reached : Reach format_degrees scale_gps sys program announced
unfolding list_plans
reached =
    later
      (later (later (later at_start (received arrival refl)) (listed_update 1001))
        (listed_wake_up 1002))
      (turned busy_turn refl refl refl refl refl)

program-IsProgram : IsProgram format_degrees scale_gps sys program
program-IsProgram = record {
  node = node-IsNode;
  sent = tt;
  loop = record {
    valid = (inr (refl, omega arith), omega arith);
    number = inr refl;
    announced = tt;
  };
  updates = (tt, omega arith);
  wake_ups = (tt, omega arith);
}

Reach-IsProgram_example : IsProgram format_degrees scale_gps sys announced
Reach-IsProgram_example = Reach-IsProgram format_degrees scale_gps sys reached program-IsProgram
