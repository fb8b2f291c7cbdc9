-- ===== src/Extract/Texts.antt =====
-- The metadata formats: what is extracted from the fields that the encoder writes.
use dtnex_redesign.Base.{
  ℕ, ◌≤◌, ◌<◌, ◌^◌, ◌≡◌, refl, ◌∙◌, ap, sym, false, some, [], ◌++◌, Bytes, ◌>>=◌, arith, length,
  if◌then◌else◌, Bool-cases, inl, inr,
}
use mathlib.Core.List.{append_assoc}
use dtnex_redesign.Base.Int.{pos, pos_part, neg_part, to_uvast, to_uvast-lt, to_int32-to_uvast}
use dtnex_redesign.Types.{StructuredMetadata}
use dtnex_redesign.Cbor.{manual_decode_cbor_string, skip_cbor_element, skip_elements}
use dtnex_redesign.Cbor.Format.{head, integer, text_string}
use dtnex_redesign.Cbor.RoundTrip.{
  IsText, manual_decode_cbor_string-text_string, skip_cbor_element-integer,
  skip_cbor_element-text_string,
}
use dtnex_redesign.Extract.{
  name_limit, contact_limit, location_limit, decode_texts, decode_gps, extract_metadata,
  extract_metadata3, extract_metadata4, extract_metadata5, extract_metadata6,
}
use dtnex_redesign.Extract.Fields.{read_integer}
use dtnex_redesign.Message.{has_gps, has_location, metadata_elements}
use dtnex_redesign.Message.Layout.{gps_fields, optional_fields, metadata_fields}

-- Metadata that survives the receiver's buffers: each text leaves room for the final zero in a
-- limit that is itself one below the size of the field.
pub record IsPortable (m : StructuredMetadata) : Type 0 where
  pub id_fits : m.node_id < 2 ^ 64
  pub name_fits : length m.name ≤ 62
  pub contact_fits : length m.contact ≤ 126
  pub location_fits : length m.location ≤ 62
  pub name_text : IsText m.name
  pub contact_text : IsText m.contact
  pub location_text : IsText m.location
  pub latitude_fits : (pos_part m.latitude < 2 ^ 31) × (neg_part m.latitude ≤ 2 ^ 31)
  pub longitude_fits : (pos_part m.longitude < 2 ^ 31) × (neg_part m.longitude ≤ 2 ^ 31)

-- Without both coordinates neither is sent.
unfoldable pub as_sent : StructuredMetadata → StructuredMetadata
as_sent m = if has_gps m then m else record m { latitude = pos 0; longitude = pos 0 }

read_text :
    (limit : ℕ) (s : Bytes)
    → length s < limit
    → limit < 2 ^ 16
    → IsText s
    → (rest : Bytes) → manual_decode_cbor_string limit (text_string s ++ rest) ≡ some (s, rest)
read_text limit s h l t rest =
    ground (arith, manual_decode_cbor_string-text_string limit s rest (omega arith) (omega arith) t)

skip_text :
    (s : Bytes)
    → length s < 2 ^ 32
    → (rest : Bytes) → skip_cbor_element (head 3 (length s) ++ (s ++ rest)) ≡ some rest
skip_text s h rest =
    ap skip_cbor_element (sym (append_assoc (head 3 (length s)) s rest))
    ∙ skip_cbor_element-text_string s rest h

module _ (m : StructuredMetadata) (h : IsPortable m) where
  read_texts :
      (rest : Bytes)
      → decode_texts (text_string m.name ++ (text_string m.contact ++ rest))
        ≡ some (m.name, m.contact, rest)
  unfolding decode_texts
  read_texts rest =
      rw
        (
          read_text name_limit m.name (omega arith) (omega arith) h.name_text,
          ◌>>=◌,
          read_text contact_limit m.contact (omega arith) (omega arith) h.contact_text,
        )
        refl

  read_gps : (rest : Bytes) → decode_gps (gps_fields m ++ rest) ≡ some (m.latitude, m.longitude)
  unfolding decode_gps gps_fields
  read_gps rest = simp (
    append_assoc,
    ◌>>=◌,
    read_integer (to_uvast m.latitude) (to_uvast-lt m.latitude),
    read_integer (to_uvast m.longitude) (to_uvast-lt m.longitude),
    to_int32-to_uvast m.latitude h.latitude_fits.0 h.latitude_fits.1,
    to_int32-to_uvast m.longitude h.longitude_fits.0 h.longitude_fits.1,
  )

  read_location :
      (rest : Bytes)
      → manual_decode_cbor_string location_limit (text_string m.location ++ rest)
        ≡ some (m.location, rest)
  read_location = read_text location_limit m.location (omega arith) (omega arith) h.location_text

  with_no_location : has_location m ≡ false → m ≡ record m { location = [] }
  unfolding has_location
  with_no_location e = ground arith

  -- The fields that every format begins with, before `tail`.
  abbrev common : Bytes → Bytes
  common tail = integer m.node_id ++ (text_string m.name ++ (text_string m.contact ++ tail))

  metadata_fields-common :
      (rest : Bytes) → metadata_fields m ++ rest ≡ common (optional_fields m ++ rest)
  unfolding metadata_fields
  metadata_fields-common rest = simp append_assoc

  extract3 :
      (rest : Bytes)
      → extract_metadata3 (common rest)
        ≡ some (record m { location = []; latitude = pos 0; longitude = pos 0 })
  unfolding extract_metadata3
  extract3 rest = rw (read_integer m.node_id h.id_fits, ◌>>=◌, read_texts rest) refl

  extract4 :
      (origin : ℕ) (rest : Bytes)
      → extract_metadata4 origin (common (text_string m.location ++ rest))
        ≡ some (record m { latitude = pos 0; longitude = pos 0 })
  unfolding extract_metadata4
  extract4 origin rest =
      rw
        (
          read_integer m.node_id h.id_fits,
          extract_metadata4,
          ◌>>=◌,
          read_texts (text_string m.location ++ rest),
          read_location rest,
        )
        refl

  extract5 :
      (rest : Bytes)
      → extract_metadata5 (common (gps_fields m ++ rest)) ≡ some (record m { location = [] })
  unfolding extract_metadata5
  extract5 rest =
      rw (read_integer m.node_id h.id_fits, ◌>>=◌, read_texts (gps_fields m ++ rest), read_gps rest)
        refl

  extract6 :
      (rest : Bytes)
      → extract_metadata6 (common (text_string m.location ++ (gps_fields m ++ rest))) ≡ some m
  unfolding extract_metadata6
  extract6 rest =
      rw
        (
          read_integer m.node_id h.id_fits,
          ◌>>=◌,
          read_texts (text_string m.location ++ (gps_fields m ++ rest)),
          read_location (gps_fields m ++ rest),
          read_gps rest,
        )
        refl

  -- In every one of its four formats metadata is extracted as it was sent.
  pub extract_metadata-fields :
      (origin : ℕ) (rest : Bytes)
      → extract_metadata (metadata_elements m) origin (metadata_fields m ++ rest) ≡ some (as_sent m)
  unfolding extract_metadata metadata_elements metadata_fields optional_fields as_sent
  extract_metadata-fields origin rest =
      rw (metadata_fields-common rest) (elim (Bool-cases (has_location m)) [
        | inl located ↦ elim (Bool-cases (has_gps m)) [
          | inl gps ↦
              rw (located, gps, append_assoc (text_string m.location) (gps_fields m) rest)
                (extract6 rest)
          | inr plain ↦ rw (located, plain) (extract4 origin rest)
        ]
        | inr nowhere ↦ elim (Bool-cases (has_gps m)) [
          | inl gps ↦ rw (nowhere, gps) (extract5 rest ∙ ap some (sym (with_no_location nowhere)))
          | inr plain ↦
              rw (nowhere, plain)
                (extract3 rest
                  ∙ ap
                      (λ (x : StructuredMetadata).
                        some (record x { latitude = pos 0; longitude = pos 0 }))
                      (sym (with_no_location nowhere)))
        ]
      ])

  -- Skipping the announced number of elements passes exactly the fields.
  pub skip_elements-metadata_fields :
      (rest : Bytes) → skip_elements (metadata_elements m) (metadata_fields m ++ rest) ≡ some rest
  unfolding metadata_elements optional_fields gps_fields skip_elements
  skip_elements-metadata_fields rest =
      let skip_int = skip_cbor_element-integer in
      let skip_name = skip_text m.name (omega arith) in
      let skip_contact = skip_text m.contact (omega arith) in
      let skip_location = skip_text m.location (omega arith) in
      rw (metadata_fields-common rest) (elim (Bool-cases (has_location m)) [
        | inl located ↦ elim (Bool-cases (has_gps m)) [
          | inl gps ↦
              rw (located, gps)
                (simp (append_assoc, skip_int, skip_name, skip_contact, skip_location, ◌>>=◌))
          | inr plain ↦
              rw (located, plain)
                (simp (append_assoc, skip_int, skip_name, skip_contact, skip_location, ◌>>=◌))
        ]
        | inr nowhere ↦ elim (Bool-cases (has_gps m)) [
          | inl gps ↦
              rw (nowhere, gps) (simp (append_assoc, skip_int, skip_name, skip_contact, ◌>>=◌))
          | inr plain ↦
              rw (nowhere, plain) (simp (append_assoc, skip_int, skip_name, skip_contact, ◌>>=◌))
        ]
      ])
