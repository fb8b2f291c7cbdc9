-- ===== src/Extract.antt =====
-- The extraction of the eighth element of a message in `decodeCborMessage` of dtnex.c: the head of
-- the array, and the fields of a contact, a range or a node's metadata. A value that fails to
-- decode leaves no extracted data, `none`.
pub mod Fields
pub mod Texts
use dtnex_redesign.Base.{
  ℕ, ◌-◌, ◌/◌, ◌%◌, ◌^◌, Option, none, some, List, [], ◌∷◌, Bytes, ◌>>=◌, ltb, ◌==◌, if◌then◌else◌,
}
use dtnex_redesign.Base.Int.{ℤ, pos, to_time, to_int32}
use dtnex_redesign.Types.{ContactRecord, RangeRecord, StructuredMetadata}
use dtnex_redesign.Cbor.{manual_decode_cbor_integer, manual_decode_cbor_string}

-- The head of the eighth element, read by hand: an array of fewer than 24 elements.
unfoldable pub decode_array_header : Bytes → Option (ℕ × Bytes)
decode_array_header [] = none
decode_array_header (byte ∷ bytes) =
    if byte / 32 == 4 then (if ltb (byte % 32) 24 then some (byte % 32, bytes) else none) else none

unfoldable pub extract_contact : Bytes → Option ContactRecord
extract_contact bytes = do
  (region_nbr, b1) ← manual_decode_cbor_integer bytes
  (from_node, b2) ← manual_decode_cbor_integer b1
  (to_node, b3) ← manual_decode_cbor_integer b2
  (from_time, b4) ← manual_decode_cbor_integer b3
  (to_time', b5) ← manual_decode_cbor_integer b4
  (xmit_rate, b6) ← manual_decode_cbor_integer b5
  (confidence, b7) ← manual_decode_cbor_integer b6
  some (record {
    region_nbr = region_nbr % 2 ^ 32;
    from_node = from_node;
    to_node = to_node;
    from_time = to_time from_time;
    to_time = to_time to_time';
    xmit_rate = xmit_rate;
    confidence = confidence % 2 ^ 32;
  })

unfoldable pub extract_range : Bytes → Option RangeRecord
extract_range bytes = do
  (from_node, b1) ← manual_decode_cbor_integer bytes
  (to_node, b2) ← manual_decode_cbor_integer b1
  (from_time, b3) ← manual_decode_cbor_integer b2
  (to_time', b4) ← manual_decode_cbor_integer b3
  (owlt, b5) ← manual_decode_cbor_integer b4
  some (record {
    from_node = from_node;
    to_node = to_node;
    from_time = to_time from_time;
    to_time = to_time to_time';
    owlt = owlt % 2 ^ 32;
  })

-- The limits that the calls pass: `MAX_NODE_NAME_LENGTH - 1` and so on.
abbrev pub name_limit : ℕ
name_limit = 64 - 1

abbrev pub contact_limit : ℕ
contact_limit = 128 - 1

abbrev pub location_limit : ℕ
location_limit = 64 - 1

-- The name and the contact text, in that order, which every format has.
unfoldable pub decode_texts : Bytes → Option (Bytes × Bytes × Bytes)
decode_texts bytes = do
  (name, b1) ← manual_decode_cbor_string name_limit bytes
  (contact, b2) ← manual_decode_cbor_string contact_limit b1
  some (name, contact, b2)

-- The two coordinates, each cut to an `int`.
unfoldable pub decode_gps : Bytes → Option (ℤ × ℤ)
decode_gps bytes = do
  (lat, b1) ← manual_decode_cbor_integer bytes
  (lon, b2) ← manual_decode_cbor_integer b1
  some (to_int32 lat, to_int32 lon)

-- [nodeId, name, contact]
unfoldable pub extract_metadata3 : Bytes → Option StructuredMetadata
unfolding decode_texts
extract_metadata3 bytes = do
  (node_id, b1) ← manual_decode_cbor_integer bytes
  (name, contact, b2) ← decode_texts b1
  some (record {
    node_id = node_id;
    name = name;
    contact = contact;
    location = [];
    latitude = pos 0;
    longitude = pos 0;
  })

-- [nodeId, name, contact, lat, lon]
unfoldable pub extract_metadata5 : Bytes → Option StructuredMetadata
unfolding decode_texts decode_gps
extract_metadata5 bytes = do
  (node_id, b1) ← manual_decode_cbor_integer bytes
  (name, contact, b2) ← decode_texts b1
  (lat, lon) ← decode_gps b2
  some (record {
    node_id = node_id;
    name = name;
    contact = contact;
    location = [];
    latitude = lat;
    longitude = lon;
  })

-- [nodeId, name, contact, location, lat, lon]
unfoldable pub extract_metadata6 : Bytes → Option StructuredMetadata
unfolding decode_texts decode_gps
extract_metadata6 bytes = do
  (node_id, b1) ← manual_decode_cbor_integer bytes
  (name, contact, b2) ← decode_texts b1
  (location, b3) ← manual_decode_cbor_string location_limit b2
  (lat, lon) ← decode_gps b3
  some (record {
    node_id = node_id;
    name = name;
    contact = contact;
    location = location;
    latitude = lat;
    longitude = lon;
  })

-- [name, contact]: the legacy format, for the origin of the message.
unfoldable pub extract_metadata2 : ℕ → Bytes → Option StructuredMetadata
unfolding decode_texts
extract_metadata2 origin bytes = do
  (name, contact, b1) ← decode_texts bytes
  some (record {
    node_id = origin;
    name = name;
    contact = contact;
    location = [];
    latitude = pos 0;
    longitude = pos 0;
  })

-- [nodeId, name, contact, location] if the first element is an integer, and otherwise
-- [name, contact, lat, lon].
unfoldable pub extract_metadata4 : ℕ → Bytes → Option StructuredMetadata
unfolding decode_texts decode_gps
extract_metadata4 origin bytes = elim (manual_decode_cbor_integer bytes) [
  | some (node_id, b1) ↦ do
    (name, contact, b2) ← decode_texts b1
    (location, b3) ← manual_decode_cbor_string location_limit b2
    some (record {
      node_id = node_id;
      name = name;
      contact = contact;
      location = location;
      latitude = pos 0;
      longitude = pos 0;
    })
  | none ↦ do
    (name, contact, b1) ← decode_texts bytes
    (lat, lon) ← decode_gps b1
    some (record {
      node_id = origin;
      name = name;
      contact = contact;
      location = [];
      latitude = lat;
      longitude = lon;
    })
]

unfoldable pub extract_metadata : ℕ → ℕ → Bytes → Option StructuredMetadata
extract_metadata size origin bytes =
    if size == 3
    then extract_metadata3 bytes
    else if size == 5
    then extract_metadata5 bytes
    else if size == 6
    then extract_metadata6 bytes
    else if size == 2
    then extract_metadata2 origin bytes
    else if size == 4
    then extract_metadata4 origin bytes
    else none
