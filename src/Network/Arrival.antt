-- ===== src/Network/Arrival.antt =====
-- What the arrival of a contact message makes of a node of dtnex.c that has its key, in time and where
-- the contact is acceptable.
use dtnex_redesign.Base.{
  ℕ, ◌≡◌, refl, sym, ap, subst, ◌∙◌, ◌≤◌, ◌<◌, ◌^◌, ◌⊎◌, ◌==◌, ◌||◌, true, false, List, [], ◌∷◌,
  Bytes, length, All, arith, Bool-cases, inl, inr, if_false,
}
use dtnex_redesign.Base.Int.{to_uvast}
use dtnex_redesign.Types.{DtnexConfig, ContactRecord, IsContactRecord}
use dtnex_redesign.Cbor.Library.{IsCborEncoder, IsCborDecoder}
use dtnex_redesign.Hmac.Laws.{IsSha256}
use dtnex_redesign.Nonce.{NonceCache, is_nonce_duplicate, shift_in, add_nonce, add_nonce_to_cache}
use dtnex_redesign.Nonce.History.{duplicate-append, duplicate_self}
use dtnex_redesign.Validate.Accepted.{IsAcceptable}
use dtnex_redesign.Ion.Contacts.{ionc_apply_contact}
use dtnex_redesign.Ion.Contacts.Sync.{
  IsTolerant, IsHeld, IsReal, is_written, KeepsContacts, ionc_apply_contact-IsHeld,
  ionc_apply_contact_in_sync,
}
use dtnex_redesign.Plans.{PlanCache, getplanlist}
use dtnex_redesign.Node.{System, Node, Times}
use dtnex_redesign.Node.Forward.{
  is_skipped, forward, forwarded_contact, forward_cbor_contact_message,
}
use dtnex_redesign.Node.Flood.{bundles_to, plans_to, forward_loop-bundles_to}
use dtnex_redesign.Network.Delivery.{handle_bundle}
use dtnex_redesign.Network.Signed.{
  at, IsSigned, as_read, handle_bundle-fresh, handle_bundle-known, handle_bundle-IsSigned,
}

duplicate-shift_in :
    (e x : NonceCache) (cache : List NonceCache)
    → is_nonce_duplicate e.nonce e.origin (shift_in e (x ∷ cache)) ≡ true
unfolding shift_in is_nonce_duplicate
duplicate-shift_in e x [] = duplicate_self e []
duplicate-shift_in e x (y ∷ cache) = ground (arith, duplicate-shift_in e y cache)

-- What was just added is known.
duplicate-added_now :
    (nonce : Bytes) (origin now : ℕ) (cache : List NonceCache)
    → is_nonce_duplicate nonce origin (add_nonce_to_cache nonce origin now cache) ≡ true
unfolding add_nonce_to_cache add_nonce shift_in
duplicate-added_now nonce origin now [] =
    duplicate_self (record { nonce = nonce; origin = origin; timestamp = now }) []
duplicate-added_now nonce origin now (x ∷ cache) =
    let e : NonceCache = record { nonce = nonce; origin = origin; timestamp = now } in
    ground (
      arith,
      duplicate-append nonce origin (x ∷ cache) (e ∷ []),
      duplicate_self e [],
      duplicate-shift_in e x cache,
    )

module _ {D F S : Type 0} (sys : System D F S) (key : Bytes) (origin : ℕ) (nonce : Bytes)
    (c : ContactRecord) (configs : ℕ → DtnexConfig D) where
  open sys use {lib, hmac, float, ion}

  abbrev pub applied : S → S
  applied s = (ionc_apply_contact float ion c s).1

  -- The node has the contact in its ION, with its window, rate and confidence.
  abbrev pub Holds : S → Type 0
  Holds s = IsHeld float c (ion.view s)

  -- An ION that keeps what it accepts, over a comparison that tolerates equality; and, of ION and of
  -- the cache of plans at each node, something that neither the application of the contact nor
  -- `getplanlist` changes, under which the node has so many plans for a number, and under which ION
  -- does not refuse the contact: it has it already, or the outcome reports a write.
  pub record Links : Type 1 where
    pub Steady : ℕ → S → PlanCache → Type 0
    pub degree : ℕ → ℕ → ℕ
    pub real : IsReal c
    pub tolerant : IsTolerant float
    pub keeps : KeepsContacts float ion
    pub accepted_lem :
        (i : ℕ) (s : S) (cache : PlanCache)
        → Steady i s cache
        → Holds s ⊎ (is_written (ionc_apply_contact float ion c s).0 ≡ true)
    pub apply_lem :
        (i : ℕ) (s : S) (cache : PlanCache) → Steady i s cache → Steady i (applied s) cache
    pub listed_lem :
        (i : ℕ) (s : S) (cache : PlanCache) (now m : ℕ)
        → Steady i s cache
        → plans_to m (getplanlist (configs i).node_id now (sys.plan_view s) cache).0 ≡ degree i m
    pub cached_lem :
        (i : ℕ) (s : S) (cache : PlanCache) (now : ℕ)
        → Steady i s cache
        → Steady i s (getplanlist (configs i).node_id now (sys.plan_view s) cache).1

  module _ (links : Links) where
    -- After the application the node has the contact.
    pub applied-Holds :
        (i : ℕ) (s : S) (cache : PlanCache) → links.Steady i s cache → Holds (applied s)
    applied-Holds i s cache steady = elim (links.accepted_lem i s cache steady) [
      | inl before ↦
          subst Holds
            (sym (ap (λ r. r.1) (ionc_apply_contact_in_sync float ion links.tolerant c s before)))
            before
      | inr written ↦
          ionc_apply_contact-IsHeld float ion links.keeps c links.real s
            (ionc_apply_contact float ion c s).1 (ionc_apply_contact float ion c s).0 refl written
    ]

    abbrev pub IsSteady : ℕ → Node S → Type 0
    IsSteady i node = links.Steady i node.ion_state node.plan_cache

    -- What the arrival leaves; `from` is the node that has sent the message.
    pub record Arrived (i from : ℕ) (node after : Node S) : Type 0 where
      pub known : is_nonce_duplicate nonce origin after.nonce_cache ≡ true
      pub steady : IsSteady i after
      pub kept :
          is_nonce_duplicate nonce origin node.nonce_cache ≡ true → after.ion_state ≡ node.ion_state
      pub learned :
          is_nonce_duplicate nonce origin node.nonce_cache ≡ false
          → after.ion_state ≡ applied node.ion_state
      pub spread :
          is_nonce_duplicate nonce origin node.nonce_cache ≡ false
          → (m : ℕ) → ((m == origin) || ((m == from) || (m == (configs i).node_id))) ≡ false
          → bundles_to m after.outbox ≡ links.degree i m
      pub signed :
          All
            (λ b.
              (g : IsSigned sys key origin nonce c b.cbor_data) × (g.signer.node_id
                ≡ (configs i).node_id))
            after.outbox

    module _ (enc : IsCborEncoder lib) (dec : IsCborDecoder lib) (sha : IsSha256 hmac)
        (origin_fits : origin < 2 ^ 64) (nonce_size : length nonce ≡ 3) (h : IsContactRecord c)
        (i : ℕ) (same : (configs i).pre_shared_network_key ≡ key)
        (fits : (configs i).node_id < 2 ^ 64) (t : Times) (node : Node S) (m : Bytes)
        (s : IsSigned sys key origin nonce c m) where
      sent-IsSigned :
          All
            (λ b.
              (g : IsSigned sys key origin nonce c b.cbor_data) × (g.signer.node_id
                ≡ (configs i).node_id))
            (handle_bundle (at sys (configs i)) t m node).outbox
      sent-IsSigned =
          handle_bundle-IsSigned sys key origin nonce c enc dec sha origin_fits nonce_size h
            (configs i) same t node s fits

      known-Arrived :
          IsSteady i node
          → is_nonce_duplicate nonce origin node.nonce_cache ≡ true
          → Arrived i s.signer.node_id node (handle_bundle (at sys (configs i)) t m node)
      known-Arrived steady known =
          let nothing =
            handle_bundle-known sys key origin nonce c enc dec sha origin_fits nonce_size h
              (configs i) same t node s known in
          subst (Arrived i s.signer.node_id node) (sym nothing) (record {
            known = known;
            steady = steady;
            kept = λ e. refl;
            learned = λ e. absurd (ground (arith, known, e));
            spread = λ e. absurd (ground (arith, known, e));
            signed = tt;
          })

      fresh-Arrived :
          IsSteady i node
          → t.decoded ≤ to_uvast c.to_time
          → IsAcceptable (configs i).node_id t.validated origin c
          → is_nonce_duplicate nonce origin node.nonce_cache ≡ false
          → Arrived i s.signer.node_id node (handle_bundle (at sys (configs i)) t m node)
      unfolding forward_cbor_contact_message forward is_skipped
      fresh-Arrived steady timely good fresh =
          let done =
            handle_bundle-fresh sys key origin nonce c enc dec sha origin_fits nonce_size h
              (configs i) same t node s timely fresh good in
          let cache : (handle_bundle (at sys (configs i)) t m node).nonce_cache
              ≡ add_nonce_to_cache nonce origin t.cached node.nonce_cache =
            ap (λ (n : Node S). n.nonce_cache) done in
          let now_applied = links.apply_lem i node.ion_state node.plan_cache steady in
          let read = as_read sys key origin nonce c s in
          let plans =
            getplanlist (configs i).node_id t.planned (sys.plan_view (applied node.ion_state))
              node.plan_cache in
          record {
            known = rw cache (duplicate-added_now nonce origin t.cached node.nonce_cache);
            steady =
                subst (IsSteady i) (sym done) (
                  links.cached_lem i (applied node.ion_state) node.plan_cache t.planned
                    now_applied);
            kept = λ e. absurd (ground (arith, fresh, e));
            learned = λ e. ap (λ (n : Node S). n.ion_state) done;
            spread = λ e n other.
                ap (λ (a : Node S). bundles_to n a.outbox) done
                ∙ forward_loop-bundles_to (at sys (configs i)) read
                    (forwarded_contact (at sys (configs i)) read c) plans.0 n
                ∙ if_false (is_skipped (at sys (configs i)) read n) 0 (plans_to n plans.0) other
                ∙ links.listed_lem i (applied node.ion_state) node.plan_cache t.planned n
                    now_applied;
            signed = sent-IsSigned;
          }

      -- Whether the nonce is known or not.
      pub handle_bundle-Arrived :
          IsSteady i node
          → t.decoded ≤ to_uvast c.to_time
          → IsAcceptable (configs i).node_id t.validated origin c
          → Arrived i s.signer.node_id node (handle_bundle (at sys (configs i)) t m node)
      handle_bundle-Arrived steady timely good =
          elim (Bool-cases (is_nonce_duplicate nonce origin node.nonce_cache)) [
            | inl known ↦ known-Arrived steady known
            | inr fresh ↦ fresh-Arrived steady timely good fresh
          ]
