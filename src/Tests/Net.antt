-- ===== src/Tests/Net.antt =====
-- A contact message of node 1 on its way through a network of the nodes 2 and 3.
use dtnex_redesign.Base.{
  ℕ, ◌+◌, ◌*◌, ◌≡◌, refl, sym, ap, subst, ◌≤◌, ◌==◌, if◌then◌else◌, beq, true, List, [], ◌∷◌,
  length, arith,
}
use mathlib.Core.List.{append_assoc}
use dtnex_redesign.Base.Int.{pos}
use dtnex_redesign.Types.{DtnexConfig, Bundle}
use dtnex_redesign.Message.{append_cbor_hmac, write_contact_payload}
use dtnex_redesign.Nonce.{NonceCache, is_nonce_duplicate, same_nonce}
use dtnex_redesign.Plans.{max_plans}
use dtnex_redesign.Node.Invariant.{IsNode}
use dtnex_redesign.Network.Keys.{unseen}
use dtnex_redesign.Network.Copies.{Carries, Carries-envelope}
use dtnex_redesign.Network.Delivery.{IsKeyed, is_accepted, is_some}
use dtnex_redesign.Network.Nodes.{Net, deliver}
use dtnex_redesign.Network.Signed.{at}
use dtnex_redesign.Network.Flooding.{over, delivered, accepted_by, IsKeyedNet, all_unseen, Run-ends}
use dtnex_redesign.Base.Int.{to_uvast}
use dtnex_redesign.Message.{encode_cbor_contact_message}
use dtnex_redesign.Plans.{getplanlist, collect_plans}
use dtnex_redesign.Node.{Node}
use dtnex_redesign.Node.Forward.{
  forward, forward_loop, is_skipped, forwarded_contact, forward_cbor_contact_message,
}
use dtnex_redesign.Node.Process.{process_cbor_message}
use dtnex_redesign.Ion.Contacts.Sync.{IsHeld, is_written}
use dtnex_redesign.Ion.{is_reachable, by_code}
use dtnex_redesign.Ion.Contacts.{
  ionc_apply_contact, find_contact, find_in_contacts, insert_new_contact, insert_contact,
}
use dtnex_redesign.Node.Learn.{process_cbor_message-contact}
use dtnex_redesign.Validate.Accepted.{IsAcceptable}
use dtnex_redesign.Network.Delivery.{handle_bundle}
use dtnex_redesign.Network.Travel.{relayed, announced, Travels-IsHeld}
use dtnex_redesign.Tests.Library.{float, sha, lib, enc, dec, lib-IsUvast}
use dtnex_redesign.Tests.World.{
  Database, ion, ion-KeepsContacts, contact_1_3-IsContactRecord, config_of, sys, node, times,
  contact_1_3, nonce_1,
}
use dtnex_redesign.Tests.Network.{
  contact_message, parsed, length-contact_message, envelope, timely, fresh,
  contact_1_3-IsAcceptable,
}

abbrev configs : ℕ → DtnexConfig ℕ
configs i = config_of (if i == 0 then 2 else 3)

abbrev keys : List NonceCache
keys = record { nonce = nonce_1; origin = 1; timestamp = 0 } ∷ []

abbrev bundle : Bundle
bundle = record {
  dest_node = 2;
  dest_service = b'1' ∷ b'2' ∷ [];
  cbor_data = contact_message;
  ttl = pos 1800;
}

abbrev before : Net Database
before = record { nodes = λ i. node; air = bundle ∷ [] }

abbrev after : Net Database
after = deliver sys configs 0 times bundle [] before

node-IsNode_at : (id : ℕ) → IsNode id node
node-IsNode_at id = record {
  nonces = omega arith;
  book = (tt, omega arith);
  neighbors = (tt, omega arith);
}

contact_message-Carries : Carries lib nonce_1 1 contact_message
unfolding append_cbor_hmac
contact_message-Carries =
    subst (Carries lib nonce_1 1) (sym (append_assoc _ (write_contact_payload lib contact_1_3) _)) (
      Carries-envelope lib enc dec b'c' (pos 990) (pos 5000) 1 1 nonce_1 _ (omega arith)
        (omega arith) refl)

contact_message-IsKeyed : IsKeyed lib keys contact_message
unfolding is_nonce_duplicate same_nonce beq
contact_message-IsKeyed now f rest read =
    let (nonce, origin) = contact_message-Carries now f rest read in rw (nonce, origin) refl

before-IsKeyedNet : IsKeyedNet sys configs 2 keys before
unfolding unseen is_nonce_duplicate
before-IsKeyedNet =
    (λ i. (node-IsNode_at (configs i).node_id, omega arith), (contact_message-IsKeyed, tt))

-- Node 2 accepts the message.
accepted : is_accepted sys times contact_message node ≡ true
unfolding is_accepted is_some
accepted = ground (arith, parsed, length-contact_message)

Run-ends_example :
    (accepted_by sys configs 2 keys 0 times bundle before + 0 + all_unseen sys configs 2 keys after
      ≤ all_unseen sys configs 2 keys before)
    × (1 + length after.air
        ≤ 1 + 0 + max_plans * (accepted_by sys configs 2 keys 0 times bundle before + 0))
Run-ends_example =
    Run-ends sys configs 2 keys enc dec lib-IsUvast (λ i. ground arith) before-IsKeyedNet
      (delivered [] [] bundle 0 times refl (omega arith) refl over)

-- The message goes on to nodes 3 and 4, and node 3 has the contact then.
abbrev sent_on : ℕ → Bundle
sent_on id = record {
  dest_node = id;
  dest_service = b'1' ∷ b'2' ∷ [];
  cbor_data = forwarded_contact sys (envelope b'c') contact_1_3;
  ttl = pos 1800;
}

outbox_after : (handle_bundle sys times contact_message node).outbox ≡ sent_on 3 ∷ sent_on 4 ∷ []
unfolding handle_bundle forward_cbor_contact_message forward forward_loop is_skipped getplanlist
    collect_plans
outbox_after =
    ap (λ (n : Node Database). n.outbox)
      (process_cbor_message-contact sys enc dec sha (config_of 1) (omega arith) refl nonce_1 refl
        (pos 990) (pos 5000) 1 (omega arith) times node timely fresh contact_1_3
        contact_1_3-IsContactRecord contact_1_3-IsAcceptable)

pub at_3-IsAcceptable : IsAcceptable 3 1000 1 contact_1_3
at_3-IsAcceptable = record {
  window = record {
    foreign = omega arith;
    authority = refl;
    outward = omega arith;
    begins = omega arith;
    ordered = omega arith;
    real = omega arith;
    not_over = omega arith;
    not_too_far = omega arith;
  };
  rate = omega arith;
  percentage = omega arith;
}

written : is_written (ionc_apply_contact float ion contact_1_3 node.ion_state).0 ≡ true
unfolding is_written ionc_apply_contact is_reachable find_contact find_in_contacts
    insert_new_contact insert_contact by_code
written = refl

Travels-IsHeld_example : IsHeld float contact_1_3 (
    ion.view
      (process_cbor_message (at sys (config_of 3)) times (sent_on 3).cbor_data node).ion_state)
unfolding is_nonce_duplicate to_uvast encode_cbor_contact_message
Travels-IsHeld_example =
    Travels-IsHeld sys (b'o' ∷ b'p' ∷ b'e' ∷ b'n' ∷ []) 1 nonce_1 contact_1_3 enc dec sha
      (omega arith) refl contact_1_3-IsContactRecord (config_of 3) times node ion-KeepsContacts
      (relayed {m = contact_message} (config_of 2) times node [] (sent_on 4 ∷ []) (sent_on 3)
        (omega arith) refl outbox_after (announced (config_of 1) 990 refl refl))
      refl (omega arith) refl at_3-IsAcceptable written
