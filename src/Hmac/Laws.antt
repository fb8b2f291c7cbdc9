-- ===== src/Hmac/Laws.antt =====
-- What a positive answer of `verify_hmac` means.
use dtnex_redesign.Base.{
  ◌≡◌, sym, ◌↔◌, true, some, Bytes, length, take, arith, beq_refl, length-take-eq, beq→eq,
  Option-cases, inl, inr,
}
use dtnex_redesign.Hmac.{
  HmacSha256, sha256_digest_size, dtnex_hmac_size, calculate_hmac, verify_hmac,
}

-- A digest of the message under the key that OpenSSL computed, cut to the size of the field.
abbrev pub IsTag : HmacSha256 → Bytes → Bytes → Bytes → Type 0
IsTag hmac key message tag =
    (full : Bytes) × (hmac key message ≡ some full)
    × (length full ≡ sha256_digest_size)
    × (tag ≡ take dtnex_hmac_size full)

verified-IsTag :
    (hmac : HmacSha256) (key message received : Bytes)
    → verify_hmac hmac message received key ≡ true
    → IsTag hmac key message received
unfolding verify_hmac calculate_hmac
verified-IsTag hmac key message received h = elim (Option-cases (hmac key message)) [
  | inl failed ↦ absurd (ground arith)
  | inr (full, digest) ↦
      (full, digest, ground arith, sym (beq→eq (take dtnex_hmac_size full) received (ground arith)))
]

IsTag-verified :
    (hmac : HmacSha256) (key message received : Bytes)
    → IsTag hmac key message received
    → verify_hmac hmac message received key ≡ true
unfolding verify_hmac calculate_hmac
IsTag-verified hmac key message received (full, digest, size, tag) =
    ground (arith, beq_refl (take dtnex_hmac_size full))

-- The verification accepts exactly the first eight bytes of a computed digest; where OpenSSL fails
-- or gives a digest of another size it accepts nothing, not even the null tag that the sender
-- appends then.
pub verify_hmac_iff :
    (hmac : HmacSha256) (key message received : Bytes)
    → (verify_hmac hmac message received key ≡ true) ↔ IsTag hmac key message received
unfolding verify_hmac calculate_hmac
verify_hmac_iff hmac key message received =
    (verified-IsTag hmac key message received, IsTag-verified hmac key message received)

-- OpenSSL computes a digest of 32 bytes for every key and message.
abbrev pub IsSha256 : HmacSha256 → Type 0
IsSha256 hmac =
    (key message : Bytes)
    → (full : Bytes) × (hmac key message ≡ some full) × (length full ≡ sha256_digest_size)

-- The tag that a sender computes has eight bytes and is verified by who has the same key.
pub calculate_hmac-verified :
    (hmac : HmacSha256)
    → IsSha256 hmac
    → (key message : Bytes)
    → (length (calculate_hmac hmac message key).1 ≡ dtnex_hmac_size)
      × (verify_hmac hmac message (calculate_hmac hmac message key).1 key ≡ true)
unfolding calculate_hmac verify_hmac
calculate_hmac-verified hmac sha key message =
    let (full, digest, size) = sha key message in
    (ground (arith, length-take-eq 8 full), ground (arith, beq_refl (take dtnex_hmac_size full)))
