-- ===== src/Network/Flooding.antt =====
-- Nodes of dtnex.c that send each other bundles, in any order of delivery: the flooding of a message
-- ends.
use dtnex_redesign.Base.{
  ℕ, suc, ◌+◌, ◌*◌, ◌≡◌, refl, ap, subst, ◌≤◌, ◌<◌, ◌^◌, List, [], ◌∷◌, ◌++◌, length, length-append,
  All, All-append, arith, if◌then◌else◌,
}
use dtnex_redesign.Types.{DtnexConfig, Bundle}
use dtnex_redesign.Cbor.Library.{IsCborEncoder, IsCborDecoder}
use dtnex_redesign.Nonce.{NonceCache}
use dtnex_redesign.Plans.{max_plans}
use dtnex_redesign.Node.{System, Node, Times}
use dtnex_redesign.Node.Invariant.{IsNode}
use dtnex_redesign.Network.Keys.{unseen}
use dtnex_redesign.Network.Signed.{at}
use dtnex_redesign.Network.Nodes.{Net, deliver}
use dtnex_redesign.Network.Sum.{replace, replace_P, total, total-replace}
use dtnex_redesign.Network.Delivery.{
  IsUvast, IsKeyed, is_accepted, handle_bundle, HasRoom, Costs, handle_bundle-Costs, All-middle,
}

module _ {D F S : Type 0} (sys : System D F S) (configs : ℕ → DtnexConfig D) (n : ℕ)
    (keys : List NonceCache) where
  abbrev pub accepted_by : ℕ → Times → Bundle → Net S → ℕ
  accepted_by i t b s = if is_accepted (at sys (configs i)) t b.cbor_data (s.nodes i) then 1 else 0

  -- A run with so many deliveries, so many of them accepted, and so many bundles that main loops
  -- have sent: a bundle is delivered, in any order, or is lost, or a main loop changes all of its
  -- node but the nonce cache and announces messages with some of the keys.
  pub data Run : ℕ → ℕ → ℕ → Net S → Net S → Type 0 where
    over : {s : Net S} → Run 0 0 0 s s
    delivered :
        {k a m : ℕ} {s r : Net S} (before after : List Bundle) (b : Bundle) (i : ℕ) (t : Times)
        → s.air ≡ before ++ (b ∷ after)
        → i < n
        → b.dest_node ≡ (configs i).node_id
        → Run k a m (deliver sys configs i t b (before ++ after) s) r
        → Run (suc k) (accepted_by i t b s + a) m s r
    lost :
        {k a m : ℕ} {s r : Net S} (before after : List Bundle) (b : Bundle)
        → s.air ≡ before ++ (b ∷ after)
        → Run k a m (record s { air = before ++ after }) r
        → Run k a m s r
    announced :
        {k a m : ℕ} {s r : Net S} (i : ℕ) (node : Node S) (sent : List Bundle)
        → i < n
        → node.nonce_cache ≡ (s.nodes i).nonce_cache
        → IsNode (configs i).node_id node
        → All (λ b. IsKeyed sys.lib keys b.cbor_data) sent
        → Run k a m (record { nodes = replace s.nodes i node; air = s.air ++ sent }) r
        → Run k a (length sent + m) s r

  -- Every node has room for the keys, and every bundle under way has one of them.
  abbrev pub IsKeyedNet : Net S → Type 0
  IsKeyedNet s =
      ((i : ℕ) → HasRoom (at sys (configs i)) keys (s.nodes i))
      × All (λ b. IsKeyed sys.lib keys b.cbor_data) s.air

  -- The keys that the nodes have yet to see, all together.
  abbrev pub all_unseen : Net S → ℕ
  all_unseen s = total (λ (node : Node S). unseen node.nonce_cache keys) n s.nodes

  middle :
      (s : Net S) (before after : List Bundle) (b : Bundle)
      → s.air ≡ before ++ (b ∷ after)
      → IsKeyedNet s
      → IsKeyed sys.lib keys b.cbor_data
        × All (λ c. IsKeyed sys.lib keys c.cbor_data) (before ++ after)
  middle s before after b split h =
      All-middle (λ c. IsKeyed sys.lib keys c.cbor_data) before after b
        (subst (All (λ c. IsKeyed sys.lib keys c.cbor_data)) split h.1)

  length-middle {ℓ} :
      {A : Type ℓ} (before after : List A) (x : A)
      → length (before ++ (x ∷ after)) ≡ suc (length (before ++ after))
  length-middle [] after x = refl
  length-middle (y ∷ before) after x = ap suc (length-middle before after x)

  module _ (enc : IsCborEncoder sys.lib) (dec : IsCborDecoder sys.lib) (uvast : IsUvast sys.lib)
      (fits : (i : ℕ) → (configs i).node_id < 2 ^ 64) where
    costs :
        (s : Net S) (i : ℕ) (t : Times) (b : Bundle)
        → IsKeyedNet s
        → IsKeyed sys.lib keys b.cbor_data
        → Costs
            (at sys (configs i))
            keys
            (s.nodes i)
            (handle_bundle (at sys (configs i)) t b.cbor_data (s.nodes i))
            (accepted_by i t b s)
    costs s i t b h keyed =
        handle_bundle-Costs (at sys (configs i)) enc dec uvast (fits i) keys t b.cbor_data
          (s.nodes i) (h.0 i) keyed

    deliver-IsKeyedNet :
        (s : Net S) (before after : List Bundle) (b : Bundle) (i : ℕ) (t : Times)
        → s.air ≡ before ++ (b ∷ after)
        → IsKeyedNet s
        → IsKeyedNet (deliver sys configs i t b (before ++ after) s)
    unfolding deliver
    deliver-IsKeyedNet s before after b i t split h =
        let (keyed, others) = middle s before after b split h in
        let c = costs s i t b h keyed in
        (
          λ j.
              replace_P (λ k node. HasRoom (at sys (configs k)) keys node) s.nodes i _ c.valid j
                (h.0 j),
          All-append (λ d. IsKeyed sys.lib keys d.cbor_data) (before ++ after) _ others c.keyed,
        )

    announced-IsKeyedNet :
        (s : Net S) (i : ℕ) (node : Node S) (sent : List Bundle)
        → node.nonce_cache ≡ (s.nodes i).nonce_cache
        → IsNode (configs i).node_id node
        → All (λ b. IsKeyed sys.lib keys b.cbor_data) sent
        → IsKeyedNet s
        → IsKeyedNet (record { nodes = replace s.nodes i node; air = s.air ++ sent })
    announced-IsKeyedNet s i node sent same valid keyed h =
        let (_, room) = h.0 i in
        (
          λ j.
              replace_P (λ k node. HasRoom (at sys (configs k)) keys node) s.nodes i node
                (valid, rw same room) j (h.0 j),
          All-append (λ d. IsKeyed sys.lib keys d.cbor_data) s.air sent h.1 keyed,
        )

    -- In any run of a network whose nodes have room in their nonce caches for the keys of all the
    -- messages, whatever the order of the deliveries, the losses and the clocks: each accepted
    -- delivery uses up a nonce that its node had not seen, and there are no more deliveries than
    -- the bundles under way at the start, those that the main loops have announced, and a hundred,
    -- the plans that a list has room for, for each accepted delivery.
    pub Run-ends :
        {k a m : ℕ} {s r : Net S}
        → IsKeyedNet s
        → Run k a m s r
        → (a + all_unseen r ≤ all_unseen s) × (k + length r.air ≤ length s.air + m + max_plans * a)
    unfolding deliver
    Run-ends h over = (omega arith, omega arith)
    Run-ends {s = s} {r = r} h (delivered before after b i t split small here later) =
        let rest = Run-ends (deliver-IsKeyedNet s before after b i t split h) later in
        let c = costs s i t b h (middle s before after b split h).0 in
        let change =
          total-replace (λ (node : Node S). unseen node.nonce_cache keys) n s.nodes i
            (handle_bundle (at sys (configs i)) t b.cbor_data (s.nodes i)) small in
        (
          omega (arith, rest.0, change, c.used),
          omega (
            arith,
            rest.1,
            c.sent,
            ap length split,
            length-middle before after b,
            length-append (before ++ after)
                (handle_bundle (at sys (configs i)) t b.cbor_data (s.nodes i)).outbox,
          ),
        )
    Run-ends {s = s} h (lost before after b split later) =
        let (_, others) = middle s before after b split h in
        let rest = Run-ends (h.0, others) later in
        (rest.0, omega (arith, rest.1, ap length split, length-middle before after b))
    Run-ends {s = s} {r = r} h (announced {m = m} i node sent small same valid keyed later) =
        let rest = Run-ends (announced-IsKeyedNet s i node sent same valid keyed h) later in
        let change =
          total-replace (λ (node : Node S). unseen node.nonce_cache keys) n s.nodes i node small in
        (
          omega (arith, rest.0, change, ap (λ c. unseen c keys) same),
          omega (arith, rest.1, length-append s.air sent),
        )
