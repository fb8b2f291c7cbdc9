-- ===== src/Hmac.antt =====
-- `calculateHmac` and `verifyHmac` of dtnex.c. OpenSSL's HMAC-SHA256 is a parameter: from the key
-- and the message to the digest, or `none` where the call returns NULL.
pub mod Laws
use dtnex_redesign.Base.{
  ℕ, Bool, true, false, Option, none, some, List, [], ◌∷◌, Bytes, length, take, ◌==◌, beq,
  if◌then◌else◌,
}

abbrev pub sha256_digest_size : ℕ
sha256_digest_size = 32

abbrev pub dtnex_hmac_size : ℕ
dtnex_hmac_size = 8

abbrev null_hmac : Bytes
null_hmac = 0 ∷ 0 ∷ 0 ∷ 0 ∷ 0 ∷ 0 ∷ 0 ∷ 0 ∷ []

-- OpenSSL's `HMAC(EVP_sha256(), key, message)`.
abbrev pub HmacSha256 : Type 0
HmacSha256 = Bytes → Bytes → Option Bytes

-- The return value, and the content of the caller's buffer.
unfoldable pub calculate_hmac : HmacSha256 → Bytes → Bytes → ℕ × Bytes
calculate_hmac hmac message key = elim (hmac key message) [
  | none ↦ (0, null_hmac)
  | some full ↦
      if length full == sha256_digest_size
      then (dtnex_hmac_size, take dtnex_hmac_size full)
      else (0, null_hmac)
]

unfoldable pub verify_hmac : HmacSha256 → Bytes → Bytes → Bytes → Bool
verify_hmac hmac message received key =
    let r = calculate_hmac hmac message key in
    if r.0 == dtnex_hmac_size then beq r.1 received else false
