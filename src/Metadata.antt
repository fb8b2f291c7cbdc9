-- ===== src/Metadata.antt =====
-- The metadata of nodes in dtnex.c: `updateNodeMetadata` and `parseNodeMetadata`. The file that is
-- written for the graph is in Graph.
pub mod Store
use dtnex_redesign.Base.{
  ℕ, zero, suc, ◌-◌, ltb, ◌==◌, Bool, true, false, Option, none, some, List, [], ◌∷◌, ◌++◌, Bytes,
  length, take, if◌then◌else◌,
}
use dtnex_redesign.Types.{NodeMetadata, StructuredMetadata}
use dtnex_redesign.Plans.{max_plans}

abbrev pub max_metadata_length : ℕ
max_metadata_length = 512

-- `strncpy` into a buffer of `size` bytes, with the last byte set to zero.
abbrev pub strncpy : ℕ → Bytes → Bytes
strncpy size text = take (size - 1) text

-- The loop: the first entry of the node is replaced; `none` if there is none.
unfoldable pub replace_metadata : ℕ → Bytes → List NodeMetadata → Option (List NodeMetadata)
replace_metadata node text [] = none
replace_metadata node text (e ∷ entries) =
    if e.node_id == node
    then some (record e { metadata = strncpy max_metadata_length text } ∷ entries)
    else elim (replace_metadata node text entries) [ none ↦ none | some r ↦ some (e ∷ r) ]

unfoldable pub update_node_metadata : ℕ → Bytes → List NodeMetadata → List NodeMetadata
update_node_metadata node text entries = elim (replace_metadata node text entries) [
  | some replaced ↦ replaced
  | none ↦
      if ltb (length entries) max_plans
      then entries ++ (record { node_id = node; metadata = strncpy max_metadata_length text } ∷ [])
      else entries
]

-- `strtok` with ",": the fields between commas, of which empty ones are passed over.
unfoldable pub tokens : Bytes → Bytes → List Bytes
tokens [] [] = []
tokens (c ∷ current) [] = (c ∷ current) ∷ []
tokens [] (b ∷ text) =
    let passed_over = tokens [] text in
    let begun = tokens (b ∷ []) text in if b == b',' then passed_over else begun
tokens (c ∷ current) (b ∷ text) =
    let closed = (c ∷ current) ∷ tokens [] text in
    let longer = tokens ((c ∷ current) ++ (b ∷ [])) text in if b == b',' then closed else longer

-- `while (*token == ' ') token++;`
unfoldable pub skip_spaces : Bytes → Bytes
skip_spaces [] = []
skip_spaces (b ∷ text) = if b == b' ' then skip_spaces text else b ∷ text

unfoldable pub nth_field : ℕ → List Bytes → Bytes
nth_field n [] = []
nth_field zero (t ∷ rest) = skip_spaces t
nth_field (suc n) (t ∷ rest) = nth_field n rest

-- The node number and the coordinates are kept.
unfoldable pub parse_node_metadata : Bytes → StructuredMetadata → StructuredMetadata
parse_node_metadata raw m =
    let fields = tokens [] (strncpy max_metadata_length raw) in
    record m {
      name = strncpy 64 (nth_field 0 fields);
      contact = strncpy 128 (nth_field 1 fields);
      location = strncpy 64 (nth_field 2 fields);
    }
