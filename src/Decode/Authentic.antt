-- ===== src/Decode/Authentic.antt =====
-- What is known of a message that `decodeCborMessage` does not refuse, whatever bytes arrived.
use dtnex_redesign.Base.{
  ℕ, ◌-◌, ◌≡◌, refl, ap, subst, ◌∙◌, ◌≤◌, not, false, ltb, ◌==◌, Option, some, List, [], ◌∷◌, ◌++◌,
  Bytes, length, length-append, take, take-append, arith, Option-cases, inl, inr,
}
use dtnex_redesign.Cbor.{skip_elements}
use dtnex_redesign.Cbor.Library.{CborLib}
use dtnex_redesign.Cbor.Consumed.{
  EndsIn, EndsIn-trans, Leaves, bind-Leaves, guard-Leaves, IsCborCursor, take_exact-split,
  skip_elements-rest,
}
use dtnex_redesign.Hmac.{HmacSha256, dtnex_hmac_size}
use dtnex_redesign.Hmac.Laws.{IsTag, verify_hmac_iff}
use dtnex_redesign.Message.{dtnex_protocol_version, dtnex_nonce_size}
use dtnex_redesign.Nonce.{NonceCache, is_nonce_duplicate}
use dtnex_redesign.Decode.{
  Envelope, Payload, decode_envelope, decode_payload, decode_hmac_field, parse_message,
}
use dtnex_redesign.Extract.{decode_array_header}

-- The envelope of an accepted message is not expired and carries a nonce of three bytes.
decode_envelope_timely :
    (lib : CborLib) (now : ℕ) (buffer : Bytes) (e : Envelope) (rest : Bytes)
    → decode_envelope lib now buffer ≡ some (e, rest)
    → (now ≤ e.expire_time) × (length e.nonce ≡ 3)
unfolding decode_envelope
decode_envelope_timely lib now buffer e rest h = ground arith

-- The bytes before an end of the buffer.
take_front :
    (buffer used rest : Bytes)
    → buffer ≡ used ++ rest
    → take (length buffer - length rest) buffer ≡ used
take_front buffer used rest h =
    let size : length buffer - length rest ≡ length used =
      omega (arith, ap length h, length-append used rest) in
    rw (size, h) (take-append used rest)

-- The first byte of the tag: a byte string of eight bytes.
abbrev pub tag_head : ℕ
tag_head = 72

module _ (lib : CborLib) (cursor : IsCborCursor lib) where
  decode_envelope-Leaves :
      (now : ℕ) (buffer : Bytes) → Leaves buffer (decode_envelope lib now buffer)
  unfolding decode_envelope
  decode_envelope-Leaves now buffer =
      bind-Leaves buffer buffer (lib.decode_array_open buffer) _ ([], refl)
        (cursor.decode_array_open_rest buffer)
        λ size b1 e1. guard-Leaves buffer (size == 9) _ (
          bind-Leaves buffer b1 (lib.decode_integer b1) _ e1 (cursor.decode_integer_rest b1)
            λ version b2 e2. guard-Leaves buffer (version == dtnex_protocol_version) _ (
              bind-Leaves buffer b2 (lib.decode_text_string 1 b2) _ e2
                (cursor.decode_text_string_rest 1 b2)
                λ type b3 e3.
                  bind-Leaves buffer b3 (lib.decode_integer b3) _ e3 (cursor.decode_integer_rest b3)
                    λ timestamp b4 e4.
                      bind-Leaves buffer b4 (lib.decode_integer b4) _ e4
                        (cursor.decode_integer_rest b4)
                        λ expire_time b5 e5. guard-Leaves buffer (not (ltb expire_time now)) _ (
                          bind-Leaves buffer b5 (lib.decode_integer b5) _ e5
                            (cursor.decode_integer_rest b5)
                            λ origin b6 e6.
                              bind-Leaves buffer b6 (lib.decode_integer b6) _ e6
                                (cursor.decode_integer_rest b6)
                                λ from b7 e7.
                                  bind-Leaves buffer b7 (lib.decode_byte_string dtnex_nonce_size b7)
                                    _ e7 (cursor.decode_byte_string_rest dtnex_nonce_size b7)
                                    λ nonce b8 e8.
                                      guard-Leaves buffer (length nonce == dtnex_nonce_size) _ e8)))

  decode_envelope-rest :
      (now : ℕ) (buffer : Bytes) (e : Envelope) (rest : Bytes)
      → decode_envelope lib now buffer ≡ some (e, rest)
      → EndsIn buffer rest
  decode_envelope-rest now buffer e rest h =
      subst (Leaves buffer) h (decode_envelope-Leaves now buffer)

decode_array_header-rest :
    (bytes : Bytes) (size : ℕ) (rest : Bytes)
    → decode_array_header bytes ≡ some (size, rest)
    → EndsIn bytes rest
unfolding decode_array_header
decode_array_header-rest [] size rest h = cc
decode_array_header-rest (byte ∷ bytes) size rest h = (byte ∷ [], ground arith)

decode_payload-rest :
    (e : Envelope) (size : ℕ) (bytes : Bytes) (p : Option Payload) (rest : Bytes)
    → decode_payload e size bytes ≡ some (p, rest)
    → EndsIn bytes rest
unfolding decode_payload
decode_payload-rest e size bytes p rest h = elim (Option-cases (skip_elements size bytes)) [
  | inl short ↦ absurd (ground arith)
  | inr (after, skipped) ↦ skip_elements-rest size bytes rest (ground arith)
]

decode_hmac_field-split :
    (field tag after : Bytes)
    → decode_hmac_field field ≡ some (tag, after)
    → (field ≡ tag_head ∷ (tag ++ after)) × (length tag ≡ dtnex_hmac_size)
unfolding decode_hmac_field
decode_hmac_field-split [] tag after h = cc
decode_hmac_field-split (byte ∷ bytes) tag after h =
    let head : byte ≡ tag_head = ground arith in
    let split = take_exact-split dtnex_hmac_size bytes tag after (ground arith) in
    (rw (head, split.0) refl, split.1)

-- A message is accepted only before its expiry, with a nonce that is not in the cache, and if it is
-- some bytes, a tag of eight bytes that OpenSSL computes for them under the key, and what follows.
pub parse_message-authentic :
    (lib : CborLib) (cursor : IsCborCursor lib) (hmac : HmacSha256) (key : Bytes)
    (cache : List NonceCache) (now : ℕ) (buffer : Bytes) (e : Envelope) (payload : Option Payload)
    → parse_message lib hmac key cache now buffer ≡ some (e, payload)
    → (before tag after : Bytes) × (buffer ≡ before ++ tag_head ∷ (tag ++ after))
      × (length tag ≡ dtnex_hmac_size)
      × IsTag hmac key before tag
      × (now ≤ e.expire_time)
      × (is_nonce_duplicate e.nonce e.origin cache ≡ false)
unfolding parse_message
parse_message-authentic lib cursor hmac key cache now buffer e payload h =
    elim (Option-cases (decode_envelope lib now buffer)) [
      | inl bad ↦ absurd (ground arith)
      | inr ((e1, b1), envelope) ↦ elim (Option-cases (decode_array_header b1)) [
        | inl bad ↦ absurd (ground arith)
        | inr ((size, b2), header) ↦ elim (Option-cases (decode_payload e1 size b2)) [
          | inl bad ↦ absurd (ground arith)
          | inr ((p, b3), extracted) ↦ elim (Option-cases (decode_hmac_field b3)) [
            | inl bad ↦ absurd (ground arith)
            | inr ((tag, b4), field) ↦
                let ends : EndsIn buffer b3 =
                  EndsIn-trans buffer b1 b3
                    (decode_envelope-rest lib cursor now buffer e1 b1 envelope)
                    (EndsIn-trans b1 b2 b3 (decode_array_header-rest b1 size b2 header)
                      (decode_payload-rest e1 size b2 p b3 extracted)) in
                let shape = decode_hmac_field-split b3 tag b4 field in
                let tagged : IsTag hmac key (take (length buffer - length b3) buffer) tag =
                  (verify_hmac_iff hmac key (take (length buffer - length b3) buffer) tag).0
                    (ground arith) in
                (
                  ends.0,
                  tag,
                  b4,
                  ends.1 ∙ ap (λ x. ends.0 ++ x) shape.0,
                  shape.1,
                  subst (λ m. IsTag hmac key m tag) (take_front buffer ends.0 b3 ends.1) tagged,
                  ground (arith, decode_envelope_timely lib now buffer e1 b1),
                  ground arith,
                )
          ]
        ]
      ]
    ]
