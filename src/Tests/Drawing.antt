-- ===== src/Tests/Drawing.antt =====
-- A graph of two nodes and the names of its files.
use dtnex_redesign.Base.{
  ◌+◌, ◌*◌, ◌≡◌, ◌≢◌, ◌<◌, ◌↔◌, refl, true, some, [], ◌++◌, Bytes, length, All, beq,
}
use dtnex_redesign.Base.Int.{to_uvast}
use dtnex_redesign.Metadata.{max_metadata_length}
use dtnex_redesign.Config.Lines.{codes, isspace, strtok}
use dtnex_redesign.Cbor.{c_string}
use dtnex_redesign.Config.Assign.{strtol}
use dtnex_redesign.Graph.{escape, image_file, metadata_file, read_edge, create_graph}
use dtnex_redesign.Graph.Escape.{IsPlain, specials, escape-fits_iff}
use dtnex_redesign.Graph.Files.{IsSplit, graph_files_lem}
use dtnex_redesign.Tests.World.{config_of}

escape_text : escape (codes "a@b.c,d") ≡ codes "a&#64;b&#46;c<br/>d"
unfolding escape
escape_text = refl

escape-fits_iff_example :
    All IsPlain (escape (codes "me@node.org"))
    × ((length (escape (codes "me@node.org")) < 2 * max_metadata_length) ↔ (
        length (codes "me@node.org") + 4 * specials (codes "me@node.org")
        < 2 * max_metadata_length))
escape-fits_iff_example = escape-fits_iff (codes "me@node.org")

image_file_gv : image_file (codes "out/net.gv") ≡ codes "out/net.png"
unfolding image_file beq
image_file_gv = refl

read_edge_line : read_edge (codes " 1 2 3 4 5 6 7 8 12 10 11 13 end\n") ≡ some (12, 13)
unfolding read_edge isspace to_uvast strtok c_string strtol
read_edge_line = refl

graph_files_lem_example :
    (image_file (codes "out/net.gv") ≢ codes "out/net.gv")
    × (dir : Bytes) × (metadata_file (codes "out/net.gv") ≡ dir ++ codes "metadata_list.txt")
    × IsSplit (codes "out/net.gv") dir
graph_files_lem_example = graph_files_lem (codes "out/net.gv")

-- Nothing is written of a configuration without a graph.
create_graph_off :
    create_graph
      (λ n. [])
      (config_of 2)
      []
      (record { graph_opens = true; list_opens = true; time_text = []; ionadmin = some [] })
    ≡ []
unfolding create_graph
create_graph_off = refl
