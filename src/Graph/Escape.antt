-- ===== src/Graph/Escape.antt =====
-- The labels of the graph against the buffer that they are escaped into.
use dtnex_redesign.Base.{
  ℕ, ◌+◌, ◌*◌, ◌≡◌, ◌<◌, ◌≢◌, ◌↔◌, ◌==◌, ◌||◌, [], ◌∷◌, Bytes, length, length-append, All,
  All-append, arith, if◌then◌else◌,
}
use dtnex_redesign.Metadata.{max_metadata_length}
use dtnex_redesign.Graph.{escape_byte, escape}

-- The bytes that are written as five.
abbrev pub specials : Bytes → ℕ
specials [] = 0
specials (b ∷ text) = (if b == b'@' || (b == b'.' || b == b',') then 1 else 0) + specials text

length-escape_byte :
    (b : ℕ)
    → length (escape_byte b) ≡ 1 + 4 * (if b == b'@' || (b == b'.' || b == b',') then 1 else 0)
unfolding escape_byte
length-escape_byte b = ground arith

length-escape : (text : Bytes) → length (escape text) ≡ length text + 4 * specials text
unfolding escape
length-escape [] = omega arith
length-escape (b ∷ text) =
    omega
      (arith, length-append (escape_byte b) (escape text), length-escape_byte b, length-escape text)

abbrev pub IsPlain : ℕ → Type 0
IsPlain b = (b ≢ b'@') × (b ≢ b'.') × (b ≢ b',')

escape_byte-IsPlain : (b : ℕ) → All IsPlain (escape_byte b)
unfolding escape_byte
escape_byte-IsPlain b = ground arith

escape-IsPlain : (text : Bytes) → All IsPlain (escape text)
unfolding escape
escape-IsPlain [] = tt
escape-IsPlain (b ∷ text) =
    All-append IsPlain (escape_byte b) (escape text) (escape_byte-IsPlain b) (escape-IsPlain text)

-- No label holds an `@`, a dot or a comma; and with its final zero it fits the buffer of twice the
-- size of a metadata text exactly if the text with four bytes more for each of these does.
pub escape-fits_iff :
    (text : Bytes)
    → All IsPlain (escape text)
      × ((length (escape text) < 2 * max_metadata_length)
          ↔ (length text + 4 * specials text < 2 * max_metadata_length))
escape-fits_iff text = (
  escape-IsPlain text,
  ((λ h. omega (arith, length-escape text)), (λ h. omega (arith, length-escape text))),
)
