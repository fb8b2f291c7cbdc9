-- ===== src/Config/Quoted.antt =====
-- A dtnex.conf that is written with quoted values, one line a setting, and what `loadConfig` reads
-- out of it.
use dtnex_redesign.Base.{
  ℕ, ◌+◌, ◌-◌, ◌<◌, ◌≡◌, refl, ap, subst, ◌∙◌, ◌≢◌, ◌==◌, false, Option, none, some, List, [], ◌∷◌,
  ◌++◌, Bytes, length, take, All, arith, ==_ne, length-append, take-append, All-map, All-append,
}
use mathlib.Core.List.{append_assoc}
use dtnex_redesign.Types.{DtnexConfig}
use dtnex_redesign.Cbor.RoundTrip.{IsText, c_string-text}
use dtnex_redesign.Config.Lines.{
  max_line_length, isspace, fgets_lines, skip_blank, trim_end, unquote, clean_value, parse_pair,
  parse_line,
}
use dtnex_redesign.Config.Tokens.{
  before-absent, strtok-append, trim_tail-word, trim_tail-append, ends_with-append,
}
use dtnex_redesign.Config.Assign.{Key, assign_pair, assign_lines, default_config, load_config}

-- A byte of a name, and a byte of a quoted value.
pub record IsNameByte (b : ℕ) : Type 0 where
  pub positive : 0 < b
  pub visible : isspace b ≡ false
  pub not_equals : b ≢ b'='
  pub not_hash : b ≢ b'#'

pub record IsValueByte (b : ℕ) : Type 0 where
  pub positive : 0 < b
  pub not_newline : b ≢ b'\n'
  pub not_hash : b ≢ b'#'

-- A setting whose line `fgets` reads in one piece.
pub record IsSetting (s : Bytes × Bytes) : Type 0 where
  pub named : 0 < length s.0
  pub name_bytes : All IsNameByte s.0
  pub value_bytes : All IsValueByte s.1
  pub line_fits : length s.0 + length s.1 + 4 < max_line_length

abbrev quoted : Bytes → Bytes
quoted value = b'"' ∷ (value ++ b'"' ∷ [])

unfoldable quoted_line : Bytes × Bytes → Bytes
quoted_line (key, value) = key ++ b'=' ∷ (quoted value ++ b'\n' ∷ [])

unfoldable pub quoted_file : List (Bytes × Bytes) → Bytes
unfolding quoted_line
quoted_file [] = []
quoted_file (s ∷ settings) = quoted_line s ++ quoted_file settings

-- What the bytes of a setting are not.
name-no-equals : (xs : Bytes) → All IsNameByte xs → All (λ b. b ≢ b'=') xs
name-no-equals xs = All-map IsNameByte (λ b. b ≢ b'=') xs (λ b h. h.not_equals)

name-visible : (xs : Bytes) → All IsNameByte xs → All (λ b. isspace b ≡ false) xs
name-visible xs = All-map IsNameByte (λ b. isspace b ≡ false) xs (λ b h. h.visible)

name-no-newline : (b : ℕ) → IsNameByte b → b ≢ b'\n'
unfolding isspace
name-no-newline b h = ground (arith, h.visible)

value-no-hash : (xs : Bytes) → All IsValueByte xs → All (λ b. b ≢ b'#') (b'"' ∷ (xs ++ b'"' ∷ []))
value-no-hash xs h = (
  ground arith,
  All-append (λ b. b ≢ b'#') xs (b'"' ∷ [])
      (All-map IsValueByte (λ b. b ≢ b'#') xs (λ b i. i.not_hash) h) (ground arith, tt),
)

value-no-newline :
    (xs : Bytes) → All IsValueByte xs → All (λ b. b ≢ b'\n') (b'"' ∷ (xs ++ b'"' ∷ []))
value-no-newline xs h = (
  ground arith,
  All-append (λ b. b ≢ b'\n') xs (b'"' ∷ [])
      (All-map IsValueByte (λ b. b ≢ b'\n') xs (λ b i. i.not_newline) h) (ground arith, tt),
)

-- The two quotes go, and nothing else does.
clean_value-quoted : (xs : Bytes) → All IsValueByte xs → clean_value (b'"' ∷ (xs ++ b'"' ∷ [])) ≡ xs
unfolding clean_value skip_blank isspace trim_end unquote
clean_value-quoted xs h =
    rw
      (
        clean_value,
        before-absent b'#' (xs ++ b'"' ∷ []) (value-no-hash xs h).1,
        trim_tail-append xs,
        ends_with-append b'"' xs,
        length-append xs (b'"' ∷ []),
      )
      (take_whole xs)
  where
    take_whole : (xs : Bytes) → take (length xs + 1 - 1) (xs ++ b'"' ∷ []) ≡ xs
    take_whole xs =
        let e : length xs + 1 - 1 ≡ length xs = omega arith in rw (e) (take-append xs (b'"' ∷ []))

parse_pair-quoted :
    (x : ℕ) (key value : Bytes)
    → All IsNameByte (x ∷ key)
    → All IsValueByte value
    → parse_pair (x ∷ (key ++ b'=' ∷ (quoted value ++ b'\n' ∷ []))) ≡ some (x ∷ key, value)
unfolding parse_pair trim_end
parse_pair-quoted x key value h k =
    let assigned : Option (Bytes × Bytes) → Option (Bytes × Bytes) =
      λ o. elim o [ none ↦ none | some (v, after) ↦ some (trim_end (x ∷ key), clean_value v) ] in
    rw
      (
        parse_pair,
        strtok-append b'=' x key (quoted value ++ b'\n' ∷ []) (name-no-equals (x ∷ key) h),
      )
      (ap assigned (strtok-append b'\n' b'"' (value ++ b'"' ∷ []) [] (value-no-newline value k))
        ∙ rw (trim_tail-word key (name-visible key h.1), clean_value-quoted value k) refl)

quoted_line-IsText : (s : Bytes × Bytes) → IsSetting s → IsText (quoted_line s)
unfolding quoted_line
quoted_line-IsText (key, value) h =
    All-append (λ b. 0 < b) key (b'=' ∷ (quoted value ++ b'\n' ∷ []))
      (All-map IsNameByte (λ b. 0 < b) key (λ b i. i.positive) h.name_bytes)
      (
        ground arith,
        All-append (λ b. 0 < b) (quoted value) (b'\n' ∷ [])
            (
              ground arith,
              All-append (λ b. 0 < b) value (b'"' ∷ [])
                  (All-map IsValueByte (λ b. 0 < b) value (λ b i. i.positive) h.value_bytes)
                  (ground arith, tt),
            )
            (ground arith, tt),
      )

-- A line of a setting is read as the setting.
parse_line-quoted : (s : Bytes × Bytes) → IsSetting s → parse_line (quoted_line s) ≡ some s
unfolding parse_line skip_blank quoted_line
parse_line-quoted ([], value) h = absurd (omega (arith, h.named))
parse_line-quoted (x ∷ key, value) h =
    rw
      (
        parse_line,
        c_string-text (quoted_line (x ∷ key, value)) (quoted_line-IsText (x ∷ key, value) h),
        skip_blank,
        h.name_bytes.0.visible,
        ==_ne x b'#' h.name_bytes.0.not_hash,
      )
      (parse_pair-quoted x key value h.name_bytes h.value_bytes)

-- `fgets` stops behind the newline.
fgets_lines-line :
    (room : ℕ) (line xs file : Bytes)
    → All (λ b. b ≢ b'\n') xs
    → length xs < room
    → fgets_lines room line (xs ++ b'\n' ∷ file)
      ≡ (line ++ (xs ++ b'\n' ∷ [])) ∷ fgets_lines (max_line_length - 1) [] file
unfolding fgets_lines
fgets_lines-line room line [] file h k = refl
fgets_lines-line room line (x ∷ xs) file h k =
    let more : (room == 1) ≡ false = ==_ne room 1 (omega arith) in
    rw
      (
        ==_ne x b'\n' h.0,
        more,
        fgets_lines-line (room - 1) (line ++ x ∷ []) xs file h.1 (omega arith),
      )
      (ap (λ t. t ∷ fgets_lines (max_line_length - 1) [] file)
        (append_assoc line (x ∷ []) (xs ++ b'\n' ∷ [])))

fgets_lines-quoted :
    (s : Bytes × Bytes) (file : Bytes)
    → IsSetting s
    → fgets_lines (max_line_length - 1) [] (quoted_line s ++ file)
      ≡ quoted_line s ∷ fgets_lines (max_line_length - 1) [] file
unfolding quoted_line
fgets_lines-quoted (key, value) file h =
    let body : Bytes = key ++ b'=' ∷ quoted value in
    let whole : body ++ b'\n' ∷ [] ≡ quoted_line (key, value) =
      append_assoc key (b'=' ∷ quoted value) (b'\n' ∷ []) in
    let no_newline : All (λ b. b ≢ b'\n') body =
      All-append (λ b. b ≢ b'\n') key (b'=' ∷ quoted value)
        (All-map IsNameByte (λ b. b ≢ b'\n') key name-no-newline h.name_bytes)
        (ground arith, value-no-newline value h.value_bytes) in
    subst
      (λ l.
        fgets_lines (max_line_length - 1) [] (l ++ file)
        ≡ l ∷ fgets_lines (max_line_length - 1) [] file)
      whole
      (rw (append_assoc body (b'\n' ∷ []) file) (
        fgets_lines-line (max_line_length - 1) [] body file no_newline (
          omega (
            arith,
            h.line_fits,
            length-append key (b'=' ∷ quoted value),
            length-append value (b'"' ∷ []),
          ))))

module _ {D : Type 0} (atof : Bytes → D) (no_degrees : D) (beyond : Key → Bytes) where
  abbrev pub assign_all : List (Bytes × Bytes) → DtnexConfig D → DtnexConfig D
  assign_all [] c = c
  assign_all (s ∷ settings) c = assign_all settings (assign_pair atof no_degrees beyond s c)

  assign_lines-quoted :
      (settings : List (Bytes × Bytes)) (c : DtnexConfig D)
      → All IsSetting settings
      → assign_lines atof no_degrees beyond
          (fgets_lines (max_line_length - 1) [] (quoted_file settings))
          c
        ≡ assign_all settings c
  unfolding assign_lines quoted_file fgets_lines
  assign_lines-quoted [] c h = refl
  assign_lines-quoted (s ∷ settings) c h =
      rw (fgets_lines-quoted s (quoted_file settings) h.0, assign_lines, parse_line-quoted s h.0)
        (assign_lines-quoted settings (assign_pair atof no_degrees beyond s c) h.1)

  -- A file of settings with quoted values is read back: from the defaults, with the metadata of
  -- the node exchanged, each setting is assigned with the value between its quotes, in the order
  -- of the file. A name has no blank, `=` or `#`, a value no newline or `#`, and a line fits the
  -- buffer of `fgets`.
  pub load_config-quoted_file :
      (settings : List (Bytes × Bytes))
      → All IsSetting settings
      → load_config atof no_degrees beyond (some (quoted_file settings))
        ≡ assign_all settings
            (record (default_config atof no_degrees beyond) { no_metadata_exchange = false })
  unfolding load_config
  load_config-quoted_file settings h =
      assign_lines-quoted settings
        (record (default_config atof no_degrees beyond) { no_metadata_exchange = false }) h
