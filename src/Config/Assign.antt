-- ===== src/Config/Assign.antt =====
-- `loadConfig` of dtnex.c: the defaults, and what each key of dtnex.conf assigns. `atof` and 0.0
-- of `double` are parameters; `atoi` is `(int) strtol`, as the C library documents it.
use dtnex_redesign.Base.{
  ℕ, ◌+◌, ◌-◌, ◌*◌, ◌^◌, leb, ◌==◌, Bool, true, false, ◌&&◌, ◌||◌, Option, none, some, List, [],
  ◌∷◌, ◌++◌, Bytes, beq, length, take, ltb, if◌then◌else◌,
}
use dtnex_redesign.Base.Int.{ℤ, pos, negsuc, to_int32, to_uvast}
use dtnex_redesign.Types.{DtnexConfig}
use dtnex_redesign.Metadata.{max_metadata_length, strncpy}
use dtnex_redesign.Config.Lines.{codes, max_line_length, fgets_lines, skip_blank, parse_line}

pub data Key : Type 0 where
  update_interval metadata_lifetime contact_lifetime bundle_ttl pre_shared_network_key : Key
  service_nr bpecho_service_nr node_metadata create_graph graph_file no_metadata_exchange : Key
  debug_mode service_mode gps_latitude gps_longitude : Key

-- The names, in the order of the comparisons.
abbrev pub key_names : List (Bytes × Key)
key_names =
    (codes "updateInterval", Key.update_interval)
    ∷ (codes "metadataLifetime", Key.metadata_lifetime)
    ∷ (codes "contactLifetime", Key.contact_lifetime)
    ∷ (codes "bundleTTL", Key.bundle_ttl)
    ∷ (codes "presSharedNetworkKey", Key.pre_shared_network_key)
    ∷ (codes "serviceNr", Key.service_nr)
    ∷ (codes "bpechoServiceNr", Key.bpecho_service_nr)
    ∷ (codes "nodemetadata", Key.node_metadata)
    ∷ (codes "createGraph", Key.create_graph)
    ∷ (codes "graphFile", Key.graph_file)
    ∷ (codes "noMetadataExchange", Key.no_metadata_exchange)
    ∷ (codes "debugMode", Key.debug_mode)
    ∷ (codes "serviceMode", Key.service_mode)
    ∷ (codes "gpsLatitude", Key.gps_latitude)
    ∷ (codes "gpsLongitude", Key.gps_longitude)
    ∷ []

-- The chain of `strcmp`.
unfoldable pub find_key : Bytes → List (Bytes × Key) → Option Key
find_key key [] = none
find_key key (name ∷ names) = if beq key name.0 then some name.1 else find_key key names

unfoldable digits : ℕ → Bytes → ℕ
digits value [] = value
digits value (b ∷ text) =
    let more = digits (value * 10 + (b - b'0')) text in
    if leb b'0' b && leb b b'9' then more else value

-- `strtol` stays at the ends of `long`.
unfoldable at_most : ℕ → ℕ → ℕ
at_most bound n = if leb n bound then n else bound

unfoldable minus : ℕ → ℤ
minus n = if n == 0 then pos 0 else negsuc (n - 1)

unfoldable pub strtol : Bytes → ℤ
unfolding skip_blank digits at_most minus
strtol text = elim (skip_blank text) [
  | [] ↦ pos 0
  | b ∷ rest ↦
      if b == b'-'
      then minus (at_most (2 ^ 63) (digits 0 rest))
      else if b == b'+'
      then pos (at_most (2 ^ 63 - 1) (digits 0 rest))
      else pos (at_most (2 ^ 63 - 1) (digits 0 (b ∷ rest)))
]

unfoldable pub atoi : Bytes → ℤ
unfolding strtol
atoi text = to_int32 (to_uvast (strtol text))

unfoldable pub is_set : Bytes → Bool
is_set value = beq value (codes "true") || beq value (codes "1")

-- `strncpy(buf, value, size - 1)` into a buffer whose last byte is not written: a value that is not
-- shorter than that runs on into the memory from that byte on, which holds the text `beyond`.
unfoldable pub strncpy_open : ℕ → Bytes → Bytes → Bytes
strncpy_open size beyond value =
    if ltb (length value) (size - 1) then value else take (size - 1) value ++ beyond

-- `beyond` is, for each key with a buffer, the text that stands from its last byte on: `main` does not
-- initialise the structure, and nothing else writes that byte. The buffer of the metadata is set to
-- zero before.
module _ {D : Type 0} (atof : Bytes → D) (no_degrees : D) (beyond : Key → Bytes) where
  unfoldable pub assign : Key → Bytes → DtnexConfig D → DtnexConfig D
  unfolding atoi is_set strncpy_open
  assign Key.update_interval value c = record c { update_interval = atoi value }
  assign Key.metadata_lifetime value c = record c { metadata_lifetime = atoi value }
  assign Key.contact_lifetime value c = record c { metadata_lifetime = atoi value }
  assign Key.bundle_ttl value c = record c { bundle_ttl = atoi value }
  assign Key.pre_shared_network_key value c = record c {
    pre_shared_network_key = strncpy_open 64 (beyond Key.pre_shared_network_key) value;
  }
  assign Key.service_nr value c = record c {
    service_nr = strncpy_open 16 (beyond Key.service_nr) value;
  }
  assign Key.bpecho_service_nr value c = record c {
    bpecho_service_nr = strncpy_open 16 (beyond Key.bpecho_service_nr) value;
  }
  assign Key.node_metadata value c = record c { node_metadata = strncpy max_metadata_length value }
  assign Key.create_graph value c = if is_set value then record c { create_graph = true } else c
  assign Key.graph_file value c = record c {
    graph_file = strncpy_open 256 (beyond Key.graph_file) value;
  }
  assign Key.no_metadata_exchange value c =
      if beq value (codes "true") then record c { no_metadata_exchange = true } else c
  assign Key.debug_mode value c = record c { debug_mode = is_set value }
  assign Key.service_mode value c = record c { service_mode = is_set value }
  assign Key.gps_latitude value c = record c {
    gps_latitude = atof value;
    has_gps_coordinates = true;
  }
  assign Key.gps_longitude value c = record c {
    gps_longitude = atof value;
    has_gps_coordinates = true;
  }

  -- A key that is not known is passed over.
  unfoldable pub assign_pair : Bytes × Bytes → DtnexConfig D → DtnexConfig D
  unfolding find_key assign
  assign_pair (key, value) c = elim (find_key key key_names) [
    | none ↦ c
    | some k ↦ assign k value c
  ]

  unfoldable pub assign_lines : List Bytes → DtnexConfig D → DtnexConfig D
  unfolding assign_pair parse_line
  assign_lines [] c = c
  assign_lines (line ∷ lines) c = elim (parse_line line) [
    | none ↦ assign_lines lines c
    | some pair ↦ assign_lines lines (assign_pair pair c)
  ]

  abbrev pub default_config : DtnexConfig D
  default_config = record {
    update_interval = pos 600;
    metadata_lifetime = pos 3600;
    bundle_ttl = pos 1800;
    pre_shared_network_key = codes "open";
    service_nr = codes "12160";
    bpecho_service_nr = codes "12161";
    node_id = 0;
    node_metadata = [];
    create_graph = false;
    graph_file = codes "contactGraph.gv";
    no_metadata_exchange = true;
    service_mode = false;
    debug_mode = false;
    gps_latitude = no_degrees;
    gps_longitude = no_degrees;
    has_gps_coordinates = false;
  }

  -- `none` is a file that does not open.
  unfoldable pub load_config : Option Bytes → DtnexConfig D
  unfolding fgets_lines assign_lines
  load_config none = default_config
  load_config (some file) =
      assign_lines (fgets_lines (max_line_length - 1) [] file)
        (record default_config { no_metadata_exchange = false })
