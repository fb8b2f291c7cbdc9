-- ===== src/Tests/Network.antt =====
-- A contact, a range and metadata of node 1, as node 2 receives them.
use dtnex_redesign.Base.{
  drop, ℕ, ◌≡◌, ◌≢◌, refl, ap, ◌≤◌, false, Option, some, [], ◌∷◌, ◌++◌, Bytes, length, arith,
}
use dtnex_redesign.Base.Int.{pos, to_uvast, to_time}
use dtnex_redesign.Hmac.{dtnex_hmac_size, calculate_hmac}
use dtnex_redesign.Cbor.{integer_argument, read_be, take_exact}
use dtnex_redesign.Cbor.Format.{head}
use dtnex_redesign.Hmac.Laws.{IsTag}
use dtnex_redesign.Nonce.{is_nonce_duplicate, add_nonce_to_cache}
use dtnex_redesign.Nonce.History.{last_n}
use dtnex_redesign.Message.{
  max_cbor_buffer, append_cbor_hmac, write_cbor_envelope, write_contact_payload,
  write_metadata_payload, write_optional_fields, has_location, has_gps, metadata_elements,
}
use dtnex_redesign.Extract.Texts.{IsPortable}
use dtnex_redesign.Validate.Accepted.{IsWindow, IsAcceptable}
use dtnex_redesign.Ion.{by_code, is_reachable}
use dtnex_redesign.Ion.Contacts.{
  ionc_apply_contact, find_contact, find_in_contacts, insert_new_contact, insert_contact,
}
use dtnex_redesign.Decode.{Envelope, Payload, contact, parse_message, decode_envelope, first_char}
use dtnex_redesign.Decode.Sent.{expected, parse_message-contact}
use dtnex_redesign.Decode.Authentic.{tag_head}
use dtnex_redesign.Node.{Node}
use dtnex_redesign.Node.Forward.{
  forward, forwarded_envelope, forwarded_metadata, forward_cbor_contact_message,
}
use dtnex_redesign.Node.Process.{process_cbor_message}
use dtnex_redesign.Node.Invariant.{IsNode, process_cbor_message-IsNode}
use dtnex_redesign.Node.Policy.{
  parsed_by, process_cbor_message-authentic, IsWritable, process_cbor_message-writes,
}
use dtnex_redesign.Node.Replay.{process_all, process_all_replay}
use dtnex_redesign.Node.Flood.{IsEnvelope}
use dtnex_redesign.Node.Learn.{process_cbor_message-contact}
use dtnex_redesign.Tests.Library.{
  sum, decode_head, decode_uvast, decode_string, lib, enc, dec, cursor, hmac, sha, float,
}
use dtnex_redesign.Tests.World.{
  Database, ion, config_of, sys, node, times, contact_1_3, metadata_1, nonce_1,
  contact_1_3-IsContactRecord,
}

abbrev message : ℕ → Bytes → Bytes
message type payload =
    append_cbor_hmac lib hmac (config_of 1)
      (write_cbor_envelope lib type (pos 990) (pos 5000) 1 1 nonce_1 ++ payload)

abbrev pub envelope : ℕ → Envelope
envelope type = record {
  message_type = type;
  timestamp = to_uvast (pos 990);
  expire_time = to_uvast (pos 5000);
  origin = 1;
  from = 1;
  nonce = nonce_1;
}

abbrev noted : Node Database
noted = record node { nonce_cache = add_nonce_to_cache nonce_1 1 1000 [] }

abbrev pub contact_message : Bytes
contact_message = message b'c' (write_contact_payload lib contact_1_3)

pub timely : 1000 ≤ to_uvast (pos 5000)
unfolding to_uvast
timely = omega arith

pub fresh : is_nonce_duplicate nonce_1 1 [] ≡ false
unfolding is_nonce_duplicate
fresh = refl

window : IsWindow 2 1000 1 1 3 (pos 900) (pos 5000)
window = record {
  foreign = omega arith;
  authority = refl;
  outward = omega arith;
  begins = omega arith;
  ordered = omega arith;
  real = omega arith;
  not_over = omega arith;
  not_too_far = omega arith;
}

pub contact_1_3-IsAcceptable : IsAcceptable 2 1000 1 contact_1_3
contact_1_3-IsAcceptable = record { window = window; rate = omega arith; percentage = omega arith }

pub metadata_1-IsPortable : IsPortable metadata_1
metadata_1-IsPortable = record {
  id_fits = omega arith;
  name_fits = omega arith;
  contact_fits = omega arith;
  location_fits = omega arith;
  name_text = (omega arith, tt);
  contact_text = (omega arith, tt);
  location_text = (omega arith, tt);
  latitude_fits = (omega arith, omega arith);
  longitude_fits = (omega arith, omega arith);
}

pub envelope-IsEnvelope : (type : ℕ) → IsEnvelope (envelope type)
unfolding to_uvast
envelope-IsEnvelope type = record {
  timestamp_fits = omega arith;
  expire_fits = omega arith;
  origin_fits = omega arith;
  nonce_size = refl;
}

process_cbor_message-contact_example :
    process_cbor_message sys times contact_message node
    ≡ forward_cbor_contact_message sys
        (envelope b'c')
        contact_1_3
        1000
        (record noted { ion_state = (ionc_apply_contact float ion contact_1_3 node.ion_state).1 })
process_cbor_message-contact_example =
    process_cbor_message-contact sys enc dec sha (config_of 1) (omega arith) refl nonce_1 refl
      (pos 990) (pos 5000) 1 (omega arith) times node timely fresh contact_1_3
      contact_1_3-IsContactRecord contact_1_3-IsAcceptable

pub forwarded_metadata-le :
    length (forwarded_metadata sys (envelope b'm') metadata_1) ≤ max_cbor_buffer
unfolding forwarded_metadata forwarded_envelope append_cbor_hmac write_cbor_envelope
    write_metadata_payload write_optional_fields has_location has_gps metadata_elements head
    to_uvast to_time calculate_hmac sum
forwarded_metadata-le = omega arith

parse_message-contact_example :
    parse_message lib hmac (config_of 1).pre_shared_network_key [] 1000 contact_message
    ≡ expected (envelope b'c') [] 1000 (contact contact_1_3)
parse_message-contact_example =
    parse_message-contact lib enc dec hmac sha (config_of 1) (omega arith) nonce_1 refl [] 1000 1
      (pos 990) (pos 5000) (omega arith) contact_1_3 contact_1_3-IsContactRecord

pub parsed :
    parsed_by sys times contact_message node ≡ some (envelope b'c', some (contact contact_1_3))
unfolding expected to_uvast is_nonce_duplicate
parsed = parse_message-contact_example

-- The code computes: 42 bytes, of which the envelope is the first 16.
pub length-contact_message : length contact_message ≡ 42
unfolding append_cbor_hmac write_cbor_envelope write_contact_payload head to_uvast calculate_hmac
    sum
length-contact_message = refl

envelope_read :
    decode_envelope lib 1000 contact_message ≡ some (envelope b'c', drop 16 contact_message)
unfolding append_cbor_hmac write_cbor_envelope write_contact_payload head to_uvast calculate_hmac
    sum decode_envelope first_char decode_head decode_uvast decode_string integer_argument read_be
    take_exact
envelope_read = refl

process_all_replay_example :
    process_cbor_message sys times contact_message
      (process_all sys ((times, contact_message) ∷ []) node)
    ≡ process_all sys ((times, contact_message) ∷ []) node
unfolding last_n
process_all_replay_example =
    process_all_replay sys [] node refl times contact_message (envelope b'c')
      (some (contact contact_1_3)) (omega (arith, length-contact_message)) parsed [] (omega arith)
      times contact_message (drop 16 contact_message) (envelope b'c') envelope_read refl refl

learned : (process_cbor_message sys times contact_message node).ion_state.contacts ≢ []
unfolding forward_cbor_contact_message forward ionc_apply_contact is_reachable find_contact
    find_in_contacts insert_new_contact insert_contact by_code
learned same =
    let one : length (process_cbor_message sys times contact_message node).ion_state.contacts ≡ 1 =
      ap (λ (n : Node Database). length n.ion_state.contacts)
        process_cbor_message-contact_example in
    absurd (omega (arith, one, ap length same))

process_cbor_message-authentic_example :
    (e : Envelope) × (payload : Option Payload) × (parsed_by sys times contact_message node
      ≡ some (e, payload))
    × (1000 ≤ e.expire_time)
    × (is_nonce_duplicate e.nonce e.origin [] ≡ false)
    × (before tag after : Bytes) × (contact_message ≡ before ++ tag_head ∷ (tag ++ after))
    × (length tag ≡ dtnex_hmac_size)
    × IsTag hmac (config_of 2).pre_shared_network_key before tag
process_cbor_message-authentic_example =
    process_cbor_message-authentic sys cursor times contact_message node
      (λ same. learned (ap (λ (n : Node Database). n.ion_state.contacts) same))

process_cbor_message-writes_example :
    (e : Envelope) × (payload : Option Payload) × (parsed_by sys times contact_message node
      ≡ some (e, payload))
    × IsWritable sys times e payload
process_cbor_message-writes_example =
    process_cbor_message-writes sys times contact_message node
      (λ same. learned (ap (λ (db : Database). db.contacts) same))

pub node-IsNode : IsNode 2 node
node-IsNode = record {
  nonces = omega arith;
  book = (tt, omega arith);
  neighbors = (tt, omega arith);
}

process_cbor_message-IsNode_example : IsNode 2 (process_cbor_message sys times contact_message node)
process_cbor_message-IsNode_example =
    process_cbor_message-IsNode sys times contact_message node node-IsNode
