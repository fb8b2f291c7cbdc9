-- ===== src/Extract/Fields.antt =====
-- The readers of the eighth element on the fields that the encoders write, and the two cursors:
-- the one that extracts and the one that skips.
use dtnex_redesign.Base.{ℕ, ◌^◌, ◌<◌, ◌≡◌, some, ◌++◌, Bytes, ◌>>=◌, arith}
use mathlib.Core.List.{append_assoc}
use dtnex_redesign.Base.Int.{to_uvast, to_uvast-lt, to_time-to_uvast}
use dtnex_redesign.Types.{ContactRecord, RangeRecord, IsContactRecord, IsRangeRecord}
use dtnex_redesign.Cbor.{manual_decode_cbor_integer, skip_elements}
use dtnex_redesign.Cbor.Format.{integer}
use dtnex_redesign.Cbor.RoundTrip.{manual_decode_cbor_integer-integer, skip_cbor_element-integer}
use dtnex_redesign.Message.Layout.{contact_fields, range_fields}
use dtnex_redesign.Extract.{extract_contact, extract_range}

pub read_integer :
    (v : ℕ)
    → v < 2 ^ 64
    → (rest : Bytes) → manual_decode_cbor_integer (integer v ++ rest) ≡ some (v, rest)
read_integer v h rest = manual_decode_cbor_integer-integer v rest h

-- The fields of a contact are extracted as they were written.
pub extract_contact-fields :
    (c : ContactRecord) (rest : Bytes)
    → IsContactRecord c
    → extract_contact (contact_fields c ++ rest) ≡ some c
unfolding extract_contact contact_fields
extract_contact-fields c rest h =
    simp
      (
        append_assoc,
        ◌>>=◌,
        read_integer c.from_node h.from_node_fits,
        read_integer c.to_node h.to_node_fits,
        read_integer (to_uvast c.from_time) (to_uvast-lt c.from_time),
        read_integer (to_uvast c.to_time) (to_uvast-lt c.to_time),
        read_integer c.xmit_rate h.rate_fits,
        read_integer c.region_nbr (omega arith),
        read_integer c.confidence (omega arith),
      )
      (ground (arith, to_time-to_uvast c.from_time, to_time-to_uvast c.to_time))

-- Skipping seven elements passes exactly the fields of a contact.
pub skip_elements-contact_fields :
    (c : ContactRecord) (rest : Bytes) → skip_elements 7 (contact_fields c ++ rest) ≡ some rest
unfolding skip_elements contact_fields
skip_elements-contact_fields c rest = simp (append_assoc, skip_cbor_element-integer)

-- The same for a range, of five fields.
pub extract_range-fields :
    (r : RangeRecord) (rest : Bytes)
    → IsRangeRecord r
    → extract_range (range_fields r ++ rest) ≡ some r
unfolding extract_range range_fields
extract_range-fields r rest h =
    simp
      (
        append_assoc,
        ◌>>=◌,
        read_integer r.from_node h.from_node_fits,
        read_integer r.to_node h.to_node_fits,
        read_integer (to_uvast r.from_time) (to_uvast-lt r.from_time),
        read_integer (to_uvast r.to_time) (to_uvast-lt r.to_time),
        read_integer r.owlt (omega arith),
      )
      (ground (arith, to_time-to_uvast r.from_time, to_time-to_uvast r.to_time))

pub skip_elements-range_fields :
    (r : RangeRecord) (rest : Bytes) → skip_elements 5 (range_fields r ++ rest) ≡ some rest
unfolding skip_elements range_fields
skip_elements-range_fields r rest = simp (append_assoc, skip_cbor_element-integer)
