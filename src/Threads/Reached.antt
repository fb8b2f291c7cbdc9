-- ===== src/Threads/Reached.antt =====
-- What holds of a process of dtnex.c in every state that its threads, in any order, lead to.
use dtnex_redesign.Base.{
  ℕ, ◌≡◌, refl, sym, ap, subst, ◌∙◌, ◌⊎◌, false, true, List, Bytes, All, All-append, inl, inr,
  arith, if_P, if_known_P, not, ◌&&◌, leb,
}
use dtnex_redesign.Base.Int.{ℤ, pos, eqb_ℤ}
use dtnex_redesign.Types.{DtnexConfig, NodeMetadata, StructuredMetadata}
use dtnex_redesign.Plans.Laws.{IsNeighbor, IsPlanList, getplanlist-IsPlanList}
use dtnex_redesign.Node.{System}
use dtnex_redesign.Node.Invariant.{IsNode}
use dtnex_redesign.Connection.{ConnectAnswers, Attempt, try_connect_to_ion, open_endpoint}
use dtnex_redesign.Connection.Protocol.{try_connect_to_ion-IsBook}
use dtnex_redesign.Metadata.Store.{IsBook}
use dtnex_redesign.Service.Reception
use dtnex_redesign.Service.Reception.{BundleReception, next_turn}
use dtnex_redesign.Service.Delivered.{next_turn_processes, process_all-IsNode}
use dtnex_redesign.MainLoop.{MainLoop, schedule_next_update}
use dtnex_redesign.MainLoop.Contacts.{Round, exchange}
use dtnex_redesign.MainLoop.Turn.{Turn, retry, book_after}
use dtnex_redesign.MainLoop.Rule.{IsFrame, take_turn_P}
use dtnex_redesign.MainLoop.State.{IsMainLoop, frame-IsMainLoop, retry-IsMainLoop}
use dtnex_redesign.Threads.{
  Program, Step, received, listed_update, listed_wake_up, turned, changed, Reach, at_start, later,
  list_plans, turn_of_loop,
}
use dtnex_redesign.Threads.Addressed.{
  IsAddressed, exchange_with_neighbors-IsAddressed, IsSender, process_all-IsSender,
}

-- An attempt that succeeds has the number that ION gives.
try_connect_to_ion-own_node_nbr :
    {D : Type 0} (format_degrees : D → Bytes) (a : ConnectAnswers)
    (uninitialised : StructuredMetadata) (config : DtnexConfig D) (entries : List NodeMetadata)
    → (try_connect_to_ion format_degrees a uninitialised config entries).connected ≡ true
    → (try_connect_to_ion format_degrees a uninitialised config entries).config.node_id
      ≡ a.own_node_nbr
unfolding try_connect_to_ion open_endpoint
try_connect_to_ion-own_node_nbr format_degrees a uninitialised config entries h = ground arith

-- While it is connected the loop has the number of the node and an open endpoint; it sleeps for a
-- minute at most; and it has sent to other nodes only.
pub record IsLoop {D : Type 0} (id : ℕ) (l : MainLoop D) : Type 0 where
  pub valid : IsMainLoop l
  pub number : (l.ion_connected ≡ false) ⊎ (l.config.node_id ≡ id)
  pub announced : All (IsAddressed id) l.sent

frame_number :
    {D : Type 0} (id : ℕ) (l a : MainLoop D)
    → IsFrame l a
    → (l.ion_connected ≡ false) ⊎ (l.config.node_id ≡ id)
    → (a.ion_connected ≡ false) ⊎ (a.config.node_id ≡ id)
frame_number id l a (config, sent, inl off, sleep) h = inl off
frame_number id l a (config, sent, inr (same, sap), sleep) (inl off) = inl (same ∙ off)
frame_number id l a (config, sent, inr (same, sap), sleep) (inr here) =
    inr (ap (λ c. c.node_id) config ∙ here)

frame-IsLoop : {D : Type 0} (id : ℕ) (l a : MainLoop D) → IsFrame l a → IsLoop id l → IsLoop id a
frame-IsLoop id l a f h = record {
  valid = frame-IsMainLoop l a f h.valid;
  number = frame_number id l a f h.number;
  announced = subst (All (IsAddressed id)) (sym f.1) h.announced;
}

module _ {D F S : Type 0} (format_degrees : D → Bytes) (scale_gps : D → ℤ)
    (sys : System D F S) where
  open sys use {lib, hmac, float, config}

  retry-IsLoop :
      (turn : Turn F) (l : MainLoop D)
      → turn.connect.own_node_nbr ≡ config.node_id
      → l.ion_connected ≡ false
      → IsLoop config.node_id l
      → IsLoop config.node_id (retry format_degrees turn l)
  unfolding retry schedule_next_update
  retry-IsLoop turn l own off h =
      let attempt : Attempt D =
        try_connect_to_ion format_degrees turn.connect turn.uninitialised l.config
          turn.metadata_list in
      let kept : ((retry format_degrees turn l).ion_connected ≡ false
            ⊎ (retry format_degrees turn l).config.node_id ≡ config.node_id)
          × ((retry format_degrees turn l).sent ≡ l.sent) =
        if_known_P
          (λ (a : MainLoop D).
            ((a.ion_connected ≡ false) ⊎ (a.config.node_id ≡ config.node_id)) × (a.sent ≡ l.sent))
          attempt.connected
          (λ e. (
            inr (
                try_connect_to_ion-own_node_nbr format_degrees turn.connect turn.uninitialised
                  l.config turn.metadata_list e
                ∙ own),
            refl,
          ))
          (λ e.
            if_P
              (λ (a : MainLoop D).
                ((a.ion_connected ≡ false) ⊎ (a.config.node_id ≡ config.node_id))
                × (a.sent ≡ l.sent))
              (not (eqb_ℤ turn.pgrep (pos 0))) (inl off, refl) (inl off, refl)) in
      record {
        valid = retry-IsMainLoop format_degrees turn l off h.valid.1;
        number = kept.0;
        announced = subst (All (IsAddressed config.node_id)) (sym kept.1) h.announced;
      }

  turn-IsLoop :
      (turn : Turn F) (l : MainLoop D)
      → turn.connect.own_node_nbr ≡ config.node_id
      → All (IsNeighbor config.node_id) turn.update.plans
      → All (IsNeighbor config.node_id) turn.wake_up.plans
      → IsLoop config.node_id l
      → IsLoop config.node_id (turn_of_loop format_degrees scale_gps sys turn l)
  unfolding turn_of_loop exchange
  turn-IsLoop turn l own update wake_up h =
      let sends : (r : Round F) (a : MainLoop D)
          → All (IsNeighbor config.node_id) r.plans
          → IsLoop config.node_id a
          → IsLoop config.node_id (exchange lib hmac float scale_gps r a) =
        λ r a plans k. record {
          valid = k.valid;
          number = k.number;
          announced = All-append (IsAddressed config.node_id) a.sent _ k.announced (
              exchange_with_neighbors-IsAddressed lib hmac float scale_gps a.config config.node_id
                r.inputs r.exchange_view r.plans a.announcer plans);
        } in
      take_turn_P format_degrees lib hmac float scale_gps (IsLoop config.node_id)
        (frame-IsLoop config.node_id) turn l (λ a off k. retry-IsLoop turn a own off k)
        (λ a on k. sends turn.update a update k) (λ a on k. sends turn.wake_up a wake_up k) h

  -- The tables of the node are in their bounds and its plans are neighbours; the main loop has the
  -- number of the node and an open endpoint while it is connected; the lists that it was given are
  -- neighbours; and neither thread has sent anything to the node itself or to the number 0.
  pub record IsProgram (p : Program D S) : Type 0 where
    pub node : IsNode config.node_id p.reception.node
    pub sent : All (IsAddressed config.node_id) p.reception.node.outbox
    pub loop : IsLoop config.node_id p.loop
    pub updates : IsPlanList config.node_id p.update_plans
    pub wake_ups : IsPlanList config.node_id p.wake_up_plans

  list_plans-IsProgram :
      (now : ℕ) (p : Program D S)
      → IsProgram p
      → IsPlanList config.node_id (list_plans format_degrees scale_gps sys now p).0
        × IsProgram (list_plans format_degrees scale_gps sys now p).1
  unfolding list_plans
  list_plans-IsProgram now p h =
      let node = p.reception.node in
      let (listed, kept) =
        getplanlist-IsPlanList config.node_id now (sys.plan_view node.ion_state) node.plan_cache
          h.node.neighbors in
      (
        listed,
        record {
          node = record { nonces = h.node.nonces; book = h.node.book; neighbors = kept };
          sent = h.sent;
          loop = h.loop;
          updates = h.updates;
          wake_ups = h.wake_ups;
        },
      )

  received-IsProgram :
      (turn : Reception.Turn) (p : Program D S)
      → IsProgram p
      → IsProgram (record p { reception = next_turn sys turn p.reception })
  received-IsProgram turn p h =
      let (ms, processed) = next_turn_processes sys turn p.reception in
      let node : IsNode config.node_id (next_turn sys turn p.reception).node =
        subst (IsNode config.node_id) (sym processed)
          (process_all-IsNode sys ms p.reception.node h.node) in
      let sender : IsSender sys (next_turn sys turn p.reception).node =
        subst (IsSender sys) (sym processed)
          (process_all-IsSender sys ms p.reception.node (h.node.neighbors, h.sent)) in
      record {
        node = node;
        sent = sender.1;
        loop = h.loop;
        updates = h.updates;
        wake_ups = h.wake_ups;
      }

  book_after-IsBook :
      (turn : Turn F) (l : MainLoop D)
      → IsBook turn.metadata_list
      → IsBook (book_after format_degrees turn l)
  unfolding book_after
  book_after-IsBook turn l h =
      if_P IsBook (turn.running && (not l.ion_connected && leb l.next_ion_retry turn.current_time))
        (try_connect_to_ion-IsBook format_degrees turn.connect turn.uninitialised l.config
          turn.metadata_list h)
        h

  Step-IsProgram :
      {p q : Program D S} → Step format_degrees scale_gps sys p q → IsProgram p → IsProgram q
  unfolding list_plans
  Step-IsProgram {p = p} (received turn going) h = received-IsProgram turn p h
  Step-IsProgram {p = p} (listed_update now) h =
      let (listed, k) = list_plans-IsProgram now p h in
      record {
        node = k.node;
        sent = k.sent;
        loop = k.loop;
        updates = listed;
        wake_ups = k.wake_ups;
      }
  Step-IsProgram {p = p} (listed_wake_up now) h =
      let (listed, k) = list_plans-IsProgram now p h in
      record { node = k.node; sent = k.sent; loop = k.loop; updates = k.updates; wake_ups = listed }
  Step-IsProgram {p = p} (turned turn going own update wake_up book) h = record {
    node = record {
      nonces = h.node.nonces;
      book = book_after-IsBook turn p.loop (subst IsBook (sym book) h.node.book);
      neighbors = h.node.neighbors;
    };
    sent = h.sent;
    loop =
        turn-IsLoop turn p.loop own
          (subst (All (IsNeighbor config.node_id)) (sym update) h.updates.0)
          (subst (All (IsNeighbor config.node_id)) (sym wake_up) h.wake_ups.0) h.loop;
    updates = h.updates;
    wake_ups = h.wake_ups;
  }
  Step-IsProgram (changed s) h = record {
    node = record { nonces = h.node.nonces; book = h.node.book; neighbors = h.node.neighbors };
    sent = h.sent;
    loop = h.loop;
    updates = h.updates;
    wake_ups = h.wake_ups;
  }

  -- In every order of the turns of the reception, of the turns of the main loop and of its calls of
  -- `getplanlist` on the shared cache, whatever arrives and whatever ION answers, a process keeps
  -- its tables within their bounds, the address book that both threads write included, and neither
  -- thread sends anything to the node itself or to the number 0; while the main loop is connected it
  -- has an endpoint and the number of the node. If all this held at the start, ION's number of the
  -- node is that of the configuration and does not change, and a turn of a thread is not interrupted
  -- in its writes to the address book.
  pub Reach-IsProgram :
      {start p : Program D S}
      → Reach format_degrees scale_gps sys start p
      → IsProgram start
      → IsProgram p
  Reach-IsProgram at_start h = h
  Reach-IsProgram (later earlier step) h = Step-IsProgram step (Reach-IsProgram earlier h)
