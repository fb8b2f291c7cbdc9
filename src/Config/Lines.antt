-- ===== src/Config/Lines.antt =====
-- The reading of one line of dtnex.conf: the key and the value that `loadConfig` takes out of it.
-- What `fgets`, `isspace`, `strtok` and `strchr` do is written out for the calls that are made.
use Prim.Native.Char.{code}
use Prim.Native.String.{String}
use dtnex_redesign.Base.{
  ℕ, ◌-◌, leb, ◌==◌, Bool, false, ◌&&◌, ◌||◌, Option, none, some, List, [], ◌∷◌, ◌++◌, Bytes,
  length, drop, take, if◌then◌else◌,
}
use dtnex_redesign.Cbor.{c_string}

abbrev pub codes : String → Bytes
codes String.[] = []
codes (String.◌∷◌ c s) = code c ∷ codes s

abbrev pub max_line_length : ℕ
max_line_length = 1024

unfoldable pub isspace : ℕ → Bool
isspace c = c == b' ' || (leb 9 c && leb c 13)

-- `fgets`: the bytes up to a newline, which is kept, or as many as there is room for.
unfoldable pub fgets_lines : ℕ → Bytes → Bytes → List Bytes
fgets_lines room [] [] = []
fgets_lines room (c ∷ line) [] = (c ∷ line) ∷ []
fgets_lines room line (b ∷ file) =
    let ended = (line ++ (b ∷ [])) ∷ fgets_lines (max_line_length - 1) [] file in
    let longer = fgets_lines (room - 1) (line ++ (b ∷ [])) file in
    if b == b'\n' || room == 1 then ended else longer

-- `while (*ptr && isspace(*ptr)) ptr++;`
unfoldable pub skip_blank : Bytes → Bytes
skip_blank [] = []
skip_blank (b ∷ text) = if isspace b then skip_blank text else b ∷ text

-- The bytes before the first `d`, and those from it on.
unfoldable pub before : ℕ → Bytes → Bytes
before d [] = []
before d (b ∷ text) = if b == d then [] else b ∷ before d text

unfoldable pub from_first : ℕ → Bytes → Bytes
from_first d [] = []
from_first d (b ∷ text) = if b == d then b ∷ text else from_first d text

-- The delimiters that `strtok` passes over before a token.
unfoldable pub skip_byte : ℕ → Bytes → Bytes
skip_byte d [] = []
skip_byte d (b ∷ text) = if b == d then skip_byte d text else b ∷ text

-- One call of `strtok` with one delimiter: the token, and where the next call goes on; `none` is
-- NULL.
unfoldable pub strtok : ℕ → Bytes → Option (Bytes × Bytes)
unfolding skip_byte before from_first
strtok d text = elim (skip_byte d text) [
  | [] ↦ none
  | b ∷ rest ↦ some (before d (b ∷ rest), drop 1 (from_first d (b ∷ rest)))
]

-- `while (end > text && isspace(*end)) *end-- = '\0';` never removes the first byte.
unfoldable pub trim_tail : Bytes → Bytes
trim_tail [] = []
trim_tail (b ∷ text) = elim (trim_tail text) [
  | [] ↦ if isspace b then [] else b ∷ []
  | c ∷ rest ↦ b ∷ c ∷ rest
]

unfoldable pub trim_end : Bytes → Bytes
unfolding trim_tail
trim_end [] = []
trim_end (b ∷ text) = b ∷ trim_tail text

unfoldable pub ends_with : ℕ → Bytes → Bool
ends_with d [] = false
ends_with d (b ∷ []) = b == d
ends_with d (b ∷ c ∷ text) = ends_with d (c ∷ text)

-- Both quotes are removed; of a single one nothing is left.
unfoldable pub unquote : Bytes → Bytes
unfolding ends_with
unquote [] = []
unquote (b ∷ text) =
    if b == b'"' && ends_with b'"' (b ∷ text) then take (length text - 1) text else b ∷ text

-- What the value becomes before it is assigned.
unfoldable pub clean_value : Bytes → Bytes
unfolding skip_blank before trim_end unquote
clean_value value = unquote (trim_end (before b'#' (skip_blank value)))

-- The key and the value of a line; `none` where the loop goes on to the next line.
unfoldable pub parse_pair : Bytes → Option (Bytes × Bytes)
unfolding strtok trim_end clean_value
parse_pair text = elim (strtok b'=' text) [
  | none ↦ none
  | some (key, rest) ↦ elim (strtok b'\n' rest) [
    | none ↦ none
    | some (value, after) ↦ some (trim_end key, clean_value value)
  ]
]

unfoldable pub parse_line : Bytes → Option (Bytes × Bytes)
unfolding skip_blank parse_pair c_string
parse_line line = elim (skip_blank (c_string line)) [
  | [] ↦ none
  | b ∷ text ↦ if b == b'#' then none else parse_pair (b ∷ text)
]
