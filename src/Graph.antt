-- ===== src/Graph.antt =====
-- The files that `createGraph` of dtnex.c writes: the Graphviz source and the list of metadata; and
-- the one that `updateNodeMetadata` writes beside its list.
-- A label is whole here, also where the code writes it behind the end of its buffer. `show` is
-- "%lu". What the command on `ionadmin` prints is given.
pub mod Files
pub mod Escape
use dtnex_redesign.Base.{
  ℕ, zero, suc, ◌+◌, ◌-◌, ltb, ◌==◌, Bool, true, false, not, ◌&&◌, Option, none, some, List, [],
  ◌∷◌, ◌++◌, Bytes, length, take, drop, beq, if◌then◌else◌,
}
use dtnex_redesign.Base.Int.{to_uvast}
use dtnex_redesign.Cbor.{c_string}
use dtnex_redesign.Types.{DtnexConfig, NodeMetadata}
use dtnex_redesign.Metadata.{strncpy, update_node_metadata}
use dtnex_redesign.Config.Lines.{codes, max_line_length, fgets_lines, before, strtok}
use dtnex_redesign.Config.Assign.{strtol}

-- The escaping of the labels.
unfoldable pub escape_byte : ℕ → Bytes
escape_byte b =
    if b == b'@'
    then codes "&#64;"
    else if b == b'.'
    then codes "&#46;"
    else if b == b','
    then codes "<br/>"
    else b ∷ []

unfoldable pub escape : Bytes → Bytes
unfolding escape_byte
escape [] = []
escape (b ∷ text) = escape_byte b ++ escape text

-- The name of the image: a trailing ".gv" is replaced, ".png" is appended to any other name.
unfoldable pub image_file : Bytes → Bytes
image_file file =
    if ltb 3 (length file) && beq (drop (length file - 3) file) (codes ".gv")
    then take (length file - 3) file ++ codes ".png"
    else file ++ codes ".png"

-- Up to the last slash and with it; nothing if there is none.
unfoldable pub directory : Bytes → Bytes
directory [] = []
directory (b ∷ path) = elim (directory path) [
  | [] ↦ if b == b'/' then b ∷ [] else []
  | c ∷ rest ↦ b ∷ c ∷ rest
]

unfoldable pub metadata_file : Bytes → Bytes
unfolding directory
metadata_file file = directory file ++ codes "metadata_list.txt"

-- The words of a line, so many at most.
unfoldable words : ℕ → Bytes → List Bytes
words zero line = []
words (suc room) line = elim (strtok b' ' line) [
  | none ↦ []
  | some (word, rest) ↦ word ∷ words room rest
]

unfoldable nth_word : ℕ → List Bytes → Option Bytes
nth_word n [] = none
nth_word zero (w ∷ ws) = some w
nth_word (suc n) (w ∷ ws) = nth_word n ws

-- The two nodes of a line of `ionadmin`: its words 8 and 11.
unfoldable pub read_edge : Bytes → Option (ℕ × ℕ)
unfolding words nth_word
read_edge line =
    let ws = words 20 (before b'\n' (c_string line)) in
    elim (nth_word 8 ws) [
      | none ↦ none
      | some from_word ↦ elim (nth_word 11 ws) [
        | none ↦ none
        | some to_word ↦
            let from = to_uvast (strtol from_word) in
            let to = to_uvast (strtol to_word) in
            if ltb 0 from && ltb 0 to then some (from, to) else none
      ]
    ]

unfoldable read_edges : List Bytes → List (ℕ × ℕ)
unfolding read_edge
read_edges [] = []
read_edges (line ∷ lines) = elim (read_edge line) [
  | none ↦ read_edges lines
  | some edge ↦ edge ∷ read_edges lines
]

-- "%-10lu".
unfoldable padded : Bytes → Bytes
padded text = text ++ spaces (10 - length text)
  where
    spaces : ℕ → Bytes
    spaces zero = []
    spaces (suc n) = b' ' ∷ spaces n

-- What is given to one call: whether the two files open, the time as text, and the output of the
-- command (`none` if it does not run).
pub record GraphInputs : Type 0 where
  pub graph_opens : Bool
  pub list_opens : Bool
  pub time_text : Bytes
  pub ionadmin : Option Bytes

module _ (show : ℕ → Bytes) where
  unfoldable metadata_lines : List NodeMetadata → Bytes
  metadata_lines [] = []
  metadata_lines (e ∷ entries) =
      show e.node_id ++ b':' ∷ (e.metadata ++ b'\n' ∷ []) ++ metadata_lines entries

  -- The file nodesmetadata.txt as `updateNodeMetadata` leaves it; `none` if it is not written.
  unfoldable nodes_metadata_file : Bool → Bool → ℕ → Bytes → List NodeMetadata → Option Bytes
  unfolding metadata_lines
  nodes_metadata_file creates_graph opens node text entries =
      if creates_graph && opens
      then some (metadata_lines (update_node_metadata node text entries))
      else none

  unfoldable graph_header : Bytes → Bytes
  unfolding image_file
  graph_header file =
      codes "// DTN Contact Graph generated by DTNEXC\n"
      ++ codes "// To generate an image from this file, run:\n"
      ++ codes "// dot -Tpng "
      ++ file
      ++ codes " -o "
      ++ image_file file
      ++ codes "\n"
      ++ codes "// You can also use other formats like: -Tsvg, -Tpdf, -Tjpg\n\n"
      ++ codes "digraph G { layout=neato; overlap=false;\n"

  unfoldable node_line : ℕ → Bytes → Bytes
  unfolding escape
  node_line node metadata =
      codes "\"ipn:"
      ++ show node
      ++ codes "\" [label=< <FONT POINT-SIZE=\"14\" FACE=\"Arial\" COLOR=\"darkred\"><B>ipn:"
      ++ show node
      ++ codes "</B></FONT><BR/><FONT POINT-SIZE=\"10\" FACE=\"Arial\" COLOR=\"blue\">"
      ++ escape metadata
      ++ codes "</FONT>>];\n"

  unfoldable node_lines : List NodeMetadata → Bytes
  unfolding node_line
  node_lines [] = []
  node_lines (e ∷ entries) = node_line e.node_id e.metadata ++ node_lines entries

  unfoldable edge_lines : List (ℕ × ℕ) → Bytes
  edge_lines [] = []
  edge_lines ((from, to) ∷ edges) =
      codes "\"ipn:"
      ++ show from
      ++ codes "\" -> \"ipn:"
      ++ show to
      ++ codes "\"\n"
      ++ edge_lines edges

  unfoldable list_lines : ℕ → List NodeMetadata → Bytes
  unfolding padded
  list_lines own [] = []
  list_lines own (e ∷ entries) =
      if e.node_id == own
      then list_lines own entries
      else padded (show e.node_id)
        ++ codes " | "
        ++ e.metadata
        ++ codes "\n"
        ++ list_lines own entries

  module _ {D : Type 0} (config : DtnexConfig D) (entries : List NodeMetadata) where
    unfoldable graph_content : GraphInputs → Bytes → Bytes
    unfolding graph_header node_lines edge_lines read_edges fgets_lines
    graph_content i file =
        let edges : Bytes = elim i.ionadmin [
          | none ↦ []
          | some output ↦ edge_lines (read_edges (fgets_lines (max_line_length - 1) [] output))
        ] in
        graph_header file
        ++ node_lines entries
        ++ node_line config.node_id config.node_metadata
        ++ edges
        ++ codes "labelloc=\"t\"; label=\"IPNSIG's DTN Network Graph, Updated:"
        ++ i.time_text
        ++ codes "\"}\n"

    unfoldable list_content : GraphInputs → Bytes
    unfolding list_lines padded
    list_content i =
        codes "# DTN Metadata List - Generated by DTNEXC on "
        ++ i.time_text
        ++ codes "\n\n"
        ++ codes "NODE ID    | METADATA\n"
        ++ codes "------------------------------------------------------------\n"
        ++ padded (show config.node_id)
        ++ codes " | "
        ++ config.node_metadata
        ++ codes " (LOCAL NODE)\n"
        ++ list_lines config.node_id entries
        ++ codes "\n# Total nodes: "
        ++ show (length entries + 1)
        ++ codes "\n"

    -- The files that are written, each with its content.
    unfoldable pub create_graph : GraphInputs → List (Bytes × Bytes)
    unfolding graph_content list_content metadata_file
    create_graph i =
        let file = strncpy 256 config.graph_file in
        let listed : List (Bytes × Bytes) =
          if i.list_opens then (metadata_file file, list_content i) ∷ [] else [] in
        if not config.create_graph
        then []
        else if not i.graph_opens
        then []
        else (file, graph_content i file) ∷ listed
