-- ===== src/Tests/Library.antt =====
-- A CBOR library, a digest and a `float` that keep the contracts of the real ones.
use dtnex_redesign.Network.Delivery.{IsUvast}
use dtnex_redesign.Base.{
  Option-cases, inl, inr, ℕ, zero, suc, ◌+◌, ◌-◌, ◌*◌, ◌/◌, ◌%◌, ◌^◌, ◌<◌, ◌≡◌, refl, ap, if_P, ltb,
  ◌==◌, Option, none, some, [], ◌∷◌, ◌++◌, Bytes, ◌>>=◌, length, arith, if◌then◌else◌,
}
use mathlib.Core.List.{append_assoc}
use dtnex_redesign.Cbor.{read_be, integer_argument, take_exact}
use dtnex_redesign.Cbor.Consumed.{EndsIn-trans, Leaves, bind-Leaves, IsCborCursor, take_exact-split}
use dtnex_redesign.Cbor.Format.{head, integer, byte_string, text_string, array_open}
use dtnex_redesign.Cbor.RoundTrip.{
  read_bytes1, read_bytes2, read_bytes4, read_bytes8, take_exact-append,
}
use dtnex_redesign.Cbor.Library.{CborLib, IsCborEncoder, IsCborDecoder}
use dtnex_redesign.Hmac.{HmacSha256}
use dtnex_redesign.Hmac.Laws.{IsSha256}
use dtnex_redesign.Ion.{Float}
use dtnex_redesign.Ion.Contacts.Sync.{IsTolerant}

unfoldable pub decode_head : ℕ → Bytes → Option (ℕ × Bytes)
unfolding integer_argument
decode_head m [] = none
decode_head m (byte ∷ bytes) = if byte / 32 == m then integer_argument (byte % 32) bytes else none

unfoldable pub decode_string : ℕ → ℕ → Bytes → Option (Bytes × Bytes)
decode_string m max bytes =
    decode_head m bytes >>= λ l. if ltb max l.0 then none else take_exact l.0 l.1

decode_head-head :
    (m v : ℕ) (rest : Bytes) → v < 2 ^ 64 → decode_head m (head m v ++ rest) ≡ some (v, rest)
unfolding decode_head integer_argument head
decode_head-head m v rest h =
    ground (arith, read_bytes1 v rest, read_bytes2 v rest, read_bytes4 v rest, read_bytes8 v rest)

decode_string-string :
    (m max : ℕ) (s rest : Bytes)
    → length s < suc max
    → max < 2 ^ 64
    → decode_string m max ((head m (length s) ++ s) ++ rest) ≡ some (s, rest)
unfolding decode_string
decode_string-string m max s rest h k =
    rw (append_assoc, decode_head-head m (length s) (s ++ rest) (omega arith), ◌>>=◌)
      (ground (arith, take_exact-append s rest))

-- An integer is of 64 bits.
unfoldable pub decode_uvast : Bytes → Option (ℕ × Bytes)
decode_uvast bytes = decode_head 0 bytes >>= λ l. if ltb l.0 (2 ^ 64) then some l else none

abbrev pub lib : CborLib
lib = record {
  encode_integer = integer;
  encode_byte_string = byte_string;
  encode_text_string = text_string;
  encode_array_open = array_open;
  decode_integer = decode_uvast;
  decode_byte_string = decode_string 2;
  decode_text_string = decode_string 3;
  decode_array_open = decode_head 4;
}

pub enc : IsCborEncoder lib
enc = record {
  encode_integer_lem = λ v h. refl;
  encode_byte_string_lem = λ s h. refl;
  encode_text_string_lem = λ s h. refl;
  encode_array_open_lem = λ n h. refl;
}

decode_uvast-integer :
    (v : ℕ) (rest : Bytes) → v < 2 ^ 64 → decode_uvast (integer v ++ rest) ≡ some (v, rest)
unfolding decode_uvast
decode_uvast-integer v rest h = rw (decode_head-head 0 v rest h, ◌>>=◌) (ground arith)

pub lib-IsUvast : IsUvast lib
unfolding decode_uvast
lib-IsUvast bytes v rest h = elim (Option-cases (decode_head 0 bytes)) [
  | inl bad ↦ absurd (ground arith)
  | inr ((w, after), read) ↦ ground arith
]

pub dec : IsCborDecoder lib
dec = record {
  decode_integer_lem = λ v rest h. decode_uvast-integer v rest h;
  decode_byte_string_lem = λ max s rest h k. decode_string-string 2 max s rest (omega arith) k;
  decode_text_string_lem = λ max s rest h k. decode_string-string 3 max s rest (omega arith) k;
  decode_array_open_lem = λ n rest h. decode_head-head 4 n rest h;
}

weaker : (b : ℕ) (bytes : Bytes) (o : Option (ℕ × Bytes)) → Leaves bytes o → Leaves (b ∷ bytes) o
weaker b bytes none h = tt
weaker b bytes (some (v, rest)) (used, e) = (b ∷ used, ap (◌∷◌ b) e)

read_be-Leaves : (n acc : ℕ) (bytes : Bytes) → Leaves bytes (read_be n acc bytes)
unfolding read_be
read_be-Leaves zero acc bytes = ([], refl)
read_be-Leaves (suc n) acc [] = tt
read_be-Leaves (suc n) acc (b ∷ bytes) =
    weaker b bytes (read_be n (acc * 256 + b) bytes) (read_be-Leaves n (acc * 256 + b) bytes)

integer_argument-Leaves : (info : ℕ) (bytes : Bytes) → Leaves bytes (integer_argument info bytes)
unfolding integer_argument
integer_argument-Leaves info bytes =
    let P : Option (ℕ × Bytes) → Type 0 = λ o. Leaves bytes o in
    if_P P (ltb info 24) ([], refl)
      (if_P P (info == 24) (read_be-Leaves 1 0 bytes) (
        if_P P (info == 25) (read_be-Leaves 2 0 bytes) (
          if_P P (info == 26) (read_be-Leaves 4 0 bytes)
            (if_P P (info == 27) (read_be-Leaves 8 0 bytes) tt))))

decode_head-Leaves : (m : ℕ) (bytes : Bytes) → Leaves bytes (decode_head m bytes)
unfolding decode_head
decode_head-Leaves m [] = tt
decode_head-Leaves m (byte ∷ bytes) =
    if_P (λ (o : Option (ℕ × Bytes)). Leaves (byte ∷ bytes) o) (byte / 32 == m)
      (weaker byte bytes (integer_argument (byte % 32) bytes)
        (integer_argument-Leaves (byte % 32) bytes))
      tt

decode_string-Leaves : (m max : ℕ) (bytes : Bytes) → Leaves bytes (decode_string m max bytes)
unfolding decode_string
decode_string-Leaves m max bytes =
    bind-Leaves bytes bytes (decode_head m bytes) _ ([], refl) (decode_head-Leaves m bytes)
      λ n rest e.
        if_P (λ (o : Option (Bytes × Bytes)). Leaves bytes o) (ltb max n) tt
          (elim (Option-cases (take_exact n rest)) [
            | inl short ↦ rw short tt
            | inr ((s, after), taken) ↦
                rw taken
                  (EndsIn-trans bytes rest after e (s, (take_exact-split n rest s after taken).0))
          ])

decode_uvast-Leaves : (bytes : Bytes) → Leaves bytes (decode_uvast bytes)
unfolding decode_uvast
decode_uvast-Leaves bytes =
    bind-Leaves bytes bytes (decode_head 0 bytes) _ ([], refl) (decode_head-Leaves 0 bytes)
      λ v rest e. if_P (λ (o : Option (ℕ × Bytes)). Leaves bytes o) (ltb v (2 ^ 64)) e tt

pub cursor : IsCborCursor lib
cursor = record {
  decode_integer_rest = decode_uvast-Leaves;
  decode_byte_string_rest = decode_string-Leaves 2;
  decode_text_string_rest = decode_string-Leaves 3;
  decode_array_open_rest = decode_head-Leaves 4;
}

-- A digest of 32 equal bytes.
unfoldable pub sum : Bytes → ℕ
sum [] = 0
sum (b ∷ bytes) = (b + sum bytes) % 256

abbrev pub repeat : ℕ → ℕ → Bytes
repeat zero b = []
repeat (suc n) b = b ∷ repeat n b

abbrev pub hmac : HmacSha256
hmac key message = some (repeat 32 ((sum key + sum message) % 256))

pub sha : IsSha256 hmac
sha key message = (repeat 32 ((sum key + sum message) % 256), refl, refl)

-- Hundredths.
abbrev pub float : Float ℕ
float = record {
  of_uint = λ n. n;
  to_uint = λ c. c;
  add = λ a b. a + b;
  sub = λ a b. a - b;
  mul = λ a b. a;
  div = λ a b. a;
  less = ltb;
  half = 0;
  hundred = 100;
  tolerance = 0;
}

pub float-IsTolerant : IsTolerant float
float-IsTolerant c = (ground arith, ground arith)
