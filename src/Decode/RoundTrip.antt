-- ===== src/Decode/RoundTrip.antt =====
-- What a receiver makes of a message that an encoder of dtnex.c has written.
use dtnex_redesign.Base.{
  ℕ, ◌-◌, ◌≡◌, refl, ap, subst, ◌∙◌, ◌<◌, ◌^◌, true, Option, none, some, List, [], ◌∷◌, ◌++◌, Bytes,
  ◌>>=◌, length, length-append, take, take-append, ltb, if◌then◌else◌, arith, Bool-cases, inl, inr,
}
use mathlib.Core.List.{append-nil, append_assoc}
use dtnex_redesign.Cbor.Library.{CborLib, IsCborDecoder}
use dtnex_redesign.Cbor.Format.{head, integer, byte_string, text_string, array_open}
use dtnex_redesign.Hmac.{HmacSha256, verify_hmac}
use dtnex_redesign.Nonce.{NonceCache, is_nonce_duplicate}
use dtnex_redesign.Message.Layout.{envelope_bytes}
use dtnex_redesign.Cbor.{take_exact}
use dtnex_redesign.Cbor.RoundTrip.{take_exact-append}
use dtnex_redesign.Extract.{decode_array_header}
use dtnex_redesign.Decode.{
  Envelope, Payload, decode_envelope, decode_payload, decode_hmac_field, parse_message,
}

decode_array_header-array_open :
    (size : ℕ) (rest : Bytes)
    → size < 24
    → decode_array_header (array_open size ++ rest) ≡ some (size, rest)
unfolding decode_array_header head
decode_array_header-array_open size rest h = ground arith

take_exact-all : (n : ℕ) (s : Bytes) → length s ≡ n → take_exact n s ≡ some (s, [])
take_exact-all n s h =
    subst (λ k. take_exact k s ≡ some (s, [])) h
      (subst (λ b. take_exact (length s) b ≡ some (s, [])) (append-nil s) (take_exact-append s []))

decode_hmac_field-byte_string :
    (tag : Bytes) → length tag ≡ 8 → decode_hmac_field (byte_string tag) ≡ some (tag, [])
unfolding decode_hmac_field head
decode_hmac_field-byte_string tag h = rw h (take_exact-all 8 tag h)

-- The bytes before the tag, by the positions.
take-before :
    (message rest : Bytes)
    → take (length (message ++ rest) - length rest) (message ++ rest) ≡ message
take-before message rest =
    let e : length (message ++ rest) - length rest ≡ length message =
      omega (arith, length-append message rest) in
    rw e (take-append message rest)

module _ (lib : CborLib) (dec : IsCborDecoder lib) (e : Envelope)
    (timestamp_fits : e.timestamp < 2 ^ 64) (expire_fits : e.expire_time < 2 ^ 64)
    (origin_fits : e.origin < 2 ^ 64) (from_fits : e.from < 2 ^ 64)
    (nonce_size : length e.nonce ≡ 3) where
  open dec use {
    decode_integer_lem, decode_byte_string_lem, decode_text_string_lem, decode_array_open_lem,
  }

  abbrev bytes_of : Bytes
  bytes_of = envelope_bytes e.message_type e.timestamp e.expire_time e.origin e.from e.nonce

  -- The envelope is read back, unless the message has expired.
  pub decode_envelope-bytes :
      (now : ℕ) (rest : Bytes)
      → decode_envelope lib now (bytes_of ++ rest)
        ≡ (if ltb e.expire_time now then none else some (e, rest))
  unfolding decode_envelope envelope_bytes
  decode_envelope-bytes now rest =
      rw
        (
          append_assoc (array_open 9),
          decode_array_open_lem 9 _ (omega arith),
          ◌>>=◌,
          append_assoc (integer 3),
          decode_integer_lem 3 _ (omega arith),
          append_assoc (text_string (e.message_type ∷ [])),
          decode_text_string_lem 1 (e.message_type ∷ []) _ (omega arith) (omega arith),
          append_assoc (integer e.timestamp),
          decode_integer_lem e.timestamp _ timestamp_fits,
          append_assoc (integer e.expire_time),
          decode_integer_lem e.expire_time _ expire_fits,
        )
        (elim (Bool-cases (ltb e.expire_time now)) [
          | inl late ↦ rw late
          | inr timely ↦
              rw
                (
                  timely,
                  append_assoc (integer e.origin),
                  decode_integer_lem e.origin _ origin_fits,
                  append_assoc (integer e.from),
                  decode_integer_lem e.from _ from_fits,
                  decode_byte_string_lem 3 e.nonce rest (omega arith) (omega arith),
                  nonce_size,
                )
                refl
        ])

  -- A whole message: its envelope, an array of fields that decode to `payload`, and a tag that is
  -- verified over both. It is refused if it has expired or its nonce is known, and otherwise read
  -- back.
  pub parse_message-sealed :
      (hmac : HmacSha256) (key : Bytes) (cache : List NonceCache) (now size : ℕ)
      (fields tag : Bytes) (payload : Option Payload)
      → size < 24
      → ((rest : Bytes) → decode_payload e size (fields ++ rest) ≡ some (payload, rest))
      → length tag ≡ 8
      → verify_hmac hmac (bytes_of ++ (array_open size ++ fields)) tag key ≡ true
      → parse_message lib hmac key cache now
          ((bytes_of ++ (array_open size ++ fields)) ++ byte_string tag)
        ≡ (if ltb e.expire_time now
            then none
            else if is_nonce_duplicate e.nonce e.origin cache
            then none
            else some (e, payload))
  unfolding parse_message
  parse_message-sealed hmac key cache now size fields tag payload small extract tag_size verified =
      rw (regroup, decode_envelope-bytes now _)
        (elim (Bool-cases (ltb e.expire_time now)) [
          | inl late ↦ rw late
          | inr timely ↦ elim (Bool-cases (is_nonce_duplicate e.nonce e.origin cache)) [
            | inl known ↦ rw (timely, known)
            | inr fresh ↦
                rw
                  (
                    timely,
                    fresh,
                    decode_array_header-array_open size _ small,
                    ◌>>=◌,
                    extract (byte_string tag),
                    decode_hmac_field-byte_string tag tag_size,
                  )
                  (rw
                    (
                      ← regroup,
                      take-before (bytes_of ++ (array_open size ++ fields)) (byte_string tag),
                      verified,
                    )
                    refl)
          ]
        ])
    where
      regroup :
          (bytes_of ++ (array_open size ++ fields)) ++ byte_string tag
          ≡ bytes_of ++ (array_open size ++ (fields ++ byte_string tag))
      regroup =
          append_assoc bytes_of (array_open size ++ fields) (byte_string tag)
          ∙ ap (λ t. bytes_of ++ t) (append_assoc (array_open size) fields (byte_string tag))
