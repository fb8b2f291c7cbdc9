-- ===== src/Network/Nodes.antt =====
-- The nodes of a network that run dtnex.c, by their numbers in it, and the bundles under way.
use dtnex_redesign.Base.{ℕ, List, ◌++◌}
use dtnex_redesign.Types.{DtnexConfig, Bundle}
use dtnex_redesign.Node.{System, Node, Times}
use dtnex_redesign.Network.Signed.{at}
use dtnex_redesign.Network.Sum.{replace}
use dtnex_redesign.Network.Delivery.{handle_bundle}

pub record Net (S : Type 0) : Type 0 where
  pub nodes : ℕ → Node S
  pub air : List Bundle

module _ {D F S : Type 0} (sys : System D F S) (configs : ℕ → DtnexConfig D) where
  -- Node `i` receives a bundle, the others stay under way, and what it sends joins them.
  unfoldable pub deliver : ℕ → Times → Bundle → List Bundle → Net S → Net S
  deliver i t b others s =
      let node = handle_bundle (at sys (configs i)) t b.cbor_data (s.nodes i) in
      record { nodes = replace s.nodes i node; air = others ++ node.outbox }
