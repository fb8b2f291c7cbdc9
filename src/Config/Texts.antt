-- ===== src/Config/Texts.antt =====
-- Everything that `parse_line` takes out of a line is a text.
use dtnex_redesign.Base.{
  ℕ, zero, suc, ◌-◌, Bool-cases, Option, none, some, [], ◌∷◌, Bytes, length, take, drop, inl, inr,
  arith, ◌==◌, if◌then◌else◌, ◌&&◌, if_P,
}
use dtnex_redesign.Cbor.{c_string}
use dtnex_redesign.Cbor.RoundTrip.{IsText}
use dtnex_redesign.Config.Lines.{
  isspace, skip_blank, before, from_first, skip_byte, strtok, trim_tail, trim_end, ends_with,
  unquote, clean_value, parse_pair, parse_line,
}

-- Parts of a text are texts.
pub take-IsText : (n : ℕ) (text : Bytes) → IsText text → IsText (take n text)
take-IsText zero text h = tt
take-IsText (suc n) [] h = tt
take-IsText (suc n) (b ∷ text) h = (h.0, take-IsText n text h.1)

drop-IsText : (n : ℕ) (text : Bytes) → IsText text → IsText (drop n text)
drop-IsText zero text h = h
drop-IsText (suc n) [] h = tt
drop-IsText (suc n) (b ∷ text) h = drop-IsText n text h.1

c_string-IsText : (text : Bytes) → IsText (c_string text)
unfolding c_string
c_string-IsText [] = tt
c_string-IsText (b ∷ text) = ground (arith, c_string-IsText text)

skip_blank-IsText : (text : Bytes) → IsText text → IsText (skip_blank text)
unfolding skip_blank
skip_blank-IsText [] h = tt
skip_blank-IsText (b ∷ text) h = elim (Bool-cases (isspace b)) [
  | inl e ↦ rw (e) (skip_blank-IsText text h.1)
  | inr e ↦ rw (e) h
]

before-IsText : (d : ℕ) (text : Bytes) → IsText text → IsText (before d text)
unfolding before
before-IsText d [] h = tt
before-IsText d (b ∷ text) h = elim (Bool-cases (b == d)) [
  | inl e ↦ rw (e) tt
  | inr e ↦ rw (e) (h.0, before-IsText d text h.1)
]

from_first-IsText : (d : ℕ) (text : Bytes) → IsText text → IsText (from_first d text)
unfolding from_first
from_first-IsText d [] h = tt
from_first-IsText d (b ∷ text) h = elim (Bool-cases (b == d)) [
  | inl e ↦ rw (e) h
  | inr e ↦ rw (e) (from_first-IsText d text h.1)
]

skip_byte-IsText : (d : ℕ) (text : Bytes) → IsText text → IsText (skip_byte d text)
unfolding skip_byte
skip_byte-IsText d [] h = tt
skip_byte-IsText d (b ∷ text) h = elim (Bool-cases (b == d)) [
  | inl e ↦ rw (e) (skip_byte-IsText d text h.1)
  | inr e ↦ rw (e) h
]

-- One step of `trim_tail`.
keep_before-IsText :
    (b : ℕ) (rest : Bytes)
    → IsText (b ∷ rest)
    → IsText (elim rest [ [] ↦ if isspace b then [] else b ∷ [] | c ∷ more ↦ b ∷ c ∷ more ])
keep_before-IsText b [] h = if_P IsText (isspace b) tt h
keep_before-IsText b (c ∷ rest) h = h

trim_tail-IsText : (text : Bytes) → IsText text → IsText (trim_tail text)
unfolding trim_tail
trim_tail-IsText [] h = tt
trim_tail-IsText (b ∷ text) h =
    keep_before-IsText b (trim_tail text) (h.0, trim_tail-IsText text h.1)

trim_end-IsText : (text : Bytes) → IsText text → IsText (trim_end text)
unfolding trim_end
trim_end-IsText [] h = tt
trim_end-IsText (b ∷ text) h = (h.0, trim_tail-IsText text h.1)

unquote-IsText : (text : Bytes) → IsText text → IsText (unquote text)
unfolding unquote
unquote-IsText [] h = tt
unquote-IsText (b ∷ text) h =
    if_P IsText (b == b'"' && ends_with b'"' (b ∷ text)) (take-IsText (length text - 1) text h.1) h

clean_value-IsText : (text : Bytes) → IsText text → IsText (clean_value text)
unfolding clean_value
clean_value-IsText text h = unquote-IsText (trim_end (before b'#' (skip_blank text))) (
    trim_end-IsText (before b'#' (skip_blank text))
      (before-IsText b'#' (skip_blank text) (skip_blank-IsText text h)))

-- Both texts of a pair, where there is one.
abbrev pub IsPair : Option (Bytes × Bytes) → Type 0
IsPair none = Unit
IsPair (some (key, value)) = IsText key × IsText value

from_nonempty-IsPair :
    (f : ℕ → Bytes → Option (Bytes × Bytes)) (text : Bytes)
    → IsText text
    → ((b : ℕ) (rest : Bytes) → IsText (b ∷ rest) → IsPair (f b rest))
    → IsPair (elim text [ [] ↦ none | b ∷ rest ↦ f b rest ])
from_nonempty-IsPair f [] h k = tt
from_nonempty-IsPair f (b ∷ text) h k = k b text h

bind-IsPair :
    (f : Bytes → Bytes → Option (Bytes × Bytes)) (o : Option (Bytes × Bytes))
    → IsPair o
    → ((key value : Bytes) → IsText key → IsText value → IsPair (f key value))
    → IsPair (elim o [ none ↦ none | some (key, value) ↦ f key value ])
bind-IsPair f none h k = tt
bind-IsPair f (some (key, value)) h k = k key value h.0 h.1

strtok-IsPair : (d : ℕ) (text : Bytes) → IsText text → IsPair (strtok d text)
unfolding strtok
strtok-IsPair d text h =
    from_nonempty-IsPair (λ b rest. some (before d (b ∷ rest), drop 1 (from_first d (b ∷ rest))))
      (skip_byte d text) (skip_byte-IsText d text h)
      (λ b rest i. (
        before-IsText d (b ∷ rest) i,
        drop-IsText 1 (from_first d (b ∷ rest)) (from_first-IsText d (b ∷ rest) i),
      ))

parse_pair-IsPair : (text : Bytes) → IsText text → IsPair (parse_pair text)
unfolding parse_pair
parse_pair-IsPair text h =
    bind-IsPair
      (λ key rest. elim (strtok b'\n' rest) [
        | none ↦ none
        | some (value, after) ↦ some (trim_end key, clean_value value)
      ])
      (strtok b'=' text) (strtok-IsPair b'=' text h)
      (λ key rest i j.
        bind-IsPair (λ value after. some (trim_end key, clean_value value)) (strtok b'\n' rest)
          (strtok-IsPair b'\n' rest j)
          (λ value after u v. (trim_end-IsText key i, clean_value-IsText value u)))

pub parse_line-IsPair : (line : Bytes) → IsPair (parse_line line)
unfolding parse_line
parse_line-IsPair line =
    from_nonempty-IsPair (λ b text. if b == b'#' then none else parse_pair (b ∷ text))
      (skip_blank (c_string line)) (skip_blank-IsText (c_string line) (c_string-IsText line))
      (λ b text i. if_P IsPair (b == b'#') tt (parse_pair-IsPair (b ∷ text) i))
