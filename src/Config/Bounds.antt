-- ===== src/Config/Bounds.antt =====
-- What `loadConfig` leaves in the fixed buffers of the configuration, whatever the file holds.
use dtnex_redesign.Base.{
  ℕ, ◌-◌, ◌^◌, ◌≤◌, ◌<◌, ◌≡◌, ltb, Bool-cases, Option-cases, none, some, List, [], ◌∷◌, Bytes,
  length, take, inl, inr, arith, length-take-le, beq, Option, false, subst, if_P,
}
use mathlib.Core.List.{append-nil}
use dtnex_redesign.Base.Int.{ℤ, pos_part, neg_part, to_int32, to_uvast}
use dtnex_redesign.Types.{DtnexConfig}
use dtnex_redesign.Cbor.RoundTrip.{IsText}
use dtnex_redesign.Metadata.{max_metadata_length}
use dtnex_redesign.Config.Lines.{codes, max_line_length, fgets_lines, parse_line}
use dtnex_redesign.Config.Texts.{take-IsText, IsPair, parse_line-IsPair}
use dtnex_redesign.Config.Assign.{
  Key, key_names, find_key, strncpy_open, strtol, atoi, is_set, assign, assign_pair, assign_lines,
  default_config, load_config,
}

-- A text of a buffer: it leaves room for the final zero and holds none itself.
abbrev FitsBuffer : ℕ → Bytes → Type 0
FitsBuffer size text = (length text < size) × IsText text

abbrev IsInt : ℤ → Type 0
IsInt z = (pos_part z < 2 ^ 31) × (neg_part z ≤ 2 ^ 31)

-- The numbers, then the texts in the order of the structure.
abbrev pub IsConfig : {D : Type 0} → DtnexConfig D → Type 0
IsConfig c =
    (IsInt c.update_interval × IsInt c.metadata_lifetime × IsInt c.bundle_ttl)
    × (FitsBuffer 64 c.pre_shared_network_key
        × FitsBuffer 16 c.service_nr
        × FitsBuffer 16 c.bpecho_service_nr
        × FitsBuffer max_metadata_length c.node_metadata
        × FitsBuffer 256 c.graph_file)

strncpy-FitsBuffer :
    (size : ℕ) (text : Bytes) → 0 < size → IsText text → FitsBuffer size (take (size - 1) text)
strncpy-FitsBuffer size text h t =
    (omega (arith, length-take-le (size - 1) text), take-IsText (size - 1) text t)

strncpy_open-FitsBuffer :
    (size : ℕ) (beyond text : Bytes)
    → 0 < size
    → beyond ≡ []
    → IsText text
    → FitsBuffer size (strncpy_open size beyond text)
unfolding strncpy_open
strncpy_open-FitsBuffer size beyond text h zero t =
    elim (Bool-cases (ltb (length text) (size - 1))) [
      | inl short ↦ rw (strncpy_open, short) (ground arith, t)
      | inr long ↦
          rw (strncpy_open, long, zero, append-nil (take (size - 1) text))
            (strncpy-FitsBuffer size text h t)
    ]

to_int32-IsInt : (v : ℕ) → IsInt (to_int32 v)
unfolding to_int32
to_int32-IsInt v = (ground arith, ground arith)

atoi-IsInt : (text : Bytes) → IsInt (atoi text)
unfolding atoi
atoi-IsInt text = to_int32-IsInt (to_uvast (strtol text))

module _ {D : Type 0} (atof : Bytes → D) (no_degrees : D) (beyond : Key → Bytes)
    (zeroed : (k : Key) → beyond k ≡ []) where
  assign-IsConfig :
      (k : Key) (value : Bytes) (c : DtnexConfig D)
      → IsText value
      → IsConfig c
      → IsConfig (assign atof no_degrees beyond k value c)
  unfolding assign
  assign-IsConfig Key.update_interval v c t h = ((atoi-IsInt v, h.0.1, h.0.2), h.1)
  assign-IsConfig Key.metadata_lifetime v c t h = ((h.0.0, atoi-IsInt v, h.0.2), h.1)
  assign-IsConfig Key.contact_lifetime v c t h = ((h.0.0, atoi-IsInt v, h.0.2), h.1)
  assign-IsConfig Key.bundle_ttl v c t h = ((h.0.0, h.0.1, atoi-IsInt v), h.1)
  assign-IsConfig Key.pre_shared_network_key v c t h = (
    h.0,
    (
      strncpy_open-FitsBuffer 64 (beyond Key.pre_shared_network_key) v (omega arith)
          (zeroed Key.pre_shared_network_key) t,
      h.1.1,
      h.1.2,
      h.1.3,
      h.1.4,
    ),
  )
  assign-IsConfig Key.service_nr v c t h = (
    h.0,
    (
      h.1.0,
      strncpy_open-FitsBuffer 16 (beyond Key.service_nr) v (omega arith) (zeroed Key.service_nr) t,
      h.1.2,
      h.1.3,
      h.1.4,
    ),
  )
  assign-IsConfig Key.bpecho_service_nr v c t h = (
    h.0,
    (
      h.1.0,
      h.1.1,
      strncpy_open-FitsBuffer 16 (beyond Key.bpecho_service_nr) v (omega arith)
          (zeroed Key.bpecho_service_nr) t,
      h.1.3,
      h.1.4,
    ),
  )
  assign-IsConfig Key.node_metadata v c t h =
      (h.0, (h.1.0, h.1.1, h.1.2, strncpy-FitsBuffer 512 v (omega arith) t, h.1.4))
  assign-IsConfig Key.create_graph v c t h = if_P IsConfig (is_set v) h h
  assign-IsConfig Key.graph_file v c t h = (
    h.0,
    (
      h.1.0,
      h.1.1,
      h.1.2,
      h.1.3,
      strncpy_open-FitsBuffer 256 (beyond Key.graph_file) v (omega arith) (zeroed Key.graph_file) t,
    ),
  )
  assign-IsConfig Key.no_metadata_exchange v c t h = if_P IsConfig (beq v (codes "true")) h h
  assign-IsConfig Key.debug_mode v c t h = h
  assign-IsConfig Key.service_mode v c t h = h
  assign-IsConfig Key.gps_latitude v c t h = h
  assign-IsConfig Key.gps_longitude v c t h = h

  assign_pair-IsConfig :
      (key value : Bytes) (c : DtnexConfig D)
      → IsText value
      → IsConfig c
      → IsConfig (assign_pair atof no_degrees beyond (key, value) c)
  unfolding assign_pair
  assign_pair-IsConfig key value c t h = elim (Option-cases (find_key key key_names)) [
    | inl e ↦ rw (assign_pair, e) h
    | inr (k, e) ↦ rw (assign_pair, e) (assign-IsConfig k value c t h)
  ]

  assign_lines-IsConfig :
      (lines : List Bytes) (c : DtnexConfig D)
      → IsConfig c
      → IsConfig (assign_lines atof no_degrees beyond lines c)
  unfolding assign_lines
  assign_lines-IsConfig [] c h = h
  assign_lines-IsConfig (line ∷ lines) c h = elim (Option-cases (parse_line line)) [
    | inl e ↦ rw (assign_lines, e) (assign_lines-IsConfig lines c h)
    | inr ((key, value), e) ↦
        let texts : IsPair (some (key, value)) = subst IsPair e (parse_line-IsPair line) in
        rw (assign_lines, e)
          (assign_lines-IsConfig lines (assign_pair atof no_degrees beyond (key, value) c)
            (assign_pair-IsConfig key value c texts.1 h))
  ]

  default_config-IsConfig : IsConfig (default_config atof no_degrees beyond)
  default_config-IsConfig = ground arith

  -- Whatever dtnex.conf holds, and without one, `loadConfig` leaves numbers that an `int` holds,
  -- and in every fixed buffer of the configuration a text that fits it with its final zero; if the
  -- last byte of each buffer, which `loadConfig` does not write, is zero before.
  pub load_config-IsConfig :
      (file : Option Bytes) → IsConfig (load_config atof no_degrees beyond file)
  unfolding load_config
  load_config-IsConfig none = default_config-IsConfig
  load_config-IsConfig (some file) =
      assign_lines-IsConfig (fgets_lines (max_line_length - 1) [] file)
        (record (default_config atof no_degrees beyond) { no_metadata_exchange = false })
        default_config-IsConfig
