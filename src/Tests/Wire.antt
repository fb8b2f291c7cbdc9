-- ===== src/Tests/Wire.antt =====
-- The readers, the tag, the buffer and the validation at concrete inputs.
use dtnex_redesign.Base.{
  ◌-◌, ◌≡◌, refl, ◌<◌, ◌↔◌, true, none, some, [], ◌∷◌, ◌++◌, Bytes, length, ltb, arith,
  if◌then◌else◌,
}
use dtnex_redesign.Cbor.{
  manual_decode_cbor_integer, manual_decode_cbor_string, skip_cbor_element, integer_argument,
  read_be, string_length, take_exact, c_string,
}
use dtnex_redesign.Cbor.Format.{integer, text_string}
use dtnex_redesign.Cbor.RoundTrip.{manual_decode_cbor_string-text_string, skip_cbor_element-integer}
use dtnex_redesign.Hmac.{verify_hmac}
use dtnex_redesign.Hmac.Laws.{IsTag, verify_hmac_iff}
use dtnex_redesign.Message.{max_cbor_buffer, encode_cbor_metadata_message}
use dtnex_redesign.Message.Bounds.{encode_cbor_metadata_message-overflow}
use dtnex_redesign.Types.{StructuredMetadata}
use dtnex_redesign.Validate.{validate_contact}
use dtnex_redesign.Validate.Accepted.{IsAcceptable, validate_contact_iff}
use dtnex_redesign.Tests.Library.{lib, enc, hmac, repeat}
use dtnex_redesign.Tests.World.{config_of, contact_1_3, metadata_1, nonce_1}

abbrev abc : Bytes
abc = b'a' ∷ b'b' ∷ b'c' ∷ []

manual_decode_cbor_string-text_string_example :
    manual_decode_cbor_string 63 (text_string abc ++ (1 ∷ []))
    ≡ (if ltb (63 - 1) (length abc) then none else some (abc, 1 ∷ []))
manual_decode_cbor_string-text_string_example =
    manual_decode_cbor_string-text_string 63 abc (1 ∷ []) (omega arith) (omega arith)
      (omega arith, (omega arith, (omega arith, tt)))

skip_cbor_element-integer_example : skip_cbor_element (integer 70000 ++ (1 ∷ [])) ≡ some (1 ∷ [])
skip_cbor_element-integer_example = skip_cbor_element-integer 70000 (1 ∷ [])

integer_read : manual_decode_cbor_integer (25 ∷ 1 ∷ 2 ∷ 3 ∷ []) ≡ some (258, 3 ∷ [])
unfolding manual_decode_cbor_integer integer_argument read_be
integer_read = refl

-- A length in a byte of its own, as no encoder writes it.
string_read : manual_decode_cbor_string 63 (120 ∷ 1 ∷ 97 ∷ 3 ∷ []) ≡ some (97 ∷ [], 3 ∷ [])
unfolding manual_decode_cbor_string string_length read_be take_exact c_string
string_read = refl

verify_hmac_iff_example :
    (verify_hmac hmac abc (repeat 8 5) abc ≡ true) ↔ IsTag hmac abc abc (repeat 8 5)
verify_hmac_iff_example = verify_hmac_iff hmac abc abc (repeat 8 5)

abbrev long_metadata : StructuredMetadata
long_metadata = record metadata_1 { name = repeat 40 97; contact = repeat 64 98 }

encode_cbor_metadata_message-overflow_example :
    max_cbor_buffer
    < length (encode_cbor_metadata_message lib hmac (config_of 1) 1000 nonce_1 long_metadata)
encode_cbor_metadata_message-overflow_example =
    encode_cbor_metadata_message-overflow lib enc hmac (config_of 1) (omega arith) 1000 nonce_1 refl
      long_metadata (omega arith) (omega arith) (omega arith) (omega arith) (omega arith)

validate_contact_iff_example :
    (validate_contact 2 1000 1 contact_1_3 ≡ none) ↔ IsAcceptable 2 1000 1 contact_1_3
validate_contact_iff_example = validate_contact_iff 2 1000 1 contact_1_3
