-- ===== src/Graph/Files.antt =====
-- The names of the files beside the graph.
use dtnex_redesign.Base.{
  ℕ, ◌-◌, ◌≡◌, ◌≢◌, ◌⊎◌, refl, ap, subst, ◌==◌, ltb, Bool-cases, [], ◌∷◌, ◌++◌, Bytes, length,
  length-append, length-take-eq, take, drop, beq, All, arith, inl, inr, ◌<◌,
}
use dtnex_redesign.Config.Lines.{codes}
use dtnex_redesign.Graph.{image_file, directory, metadata_file}

image_file-longer : (file : Bytes) → length file < length (image_file file)
unfolding image_file
image_file-longer file = elim (Bool-cases (ltb 3 (length file))) [
  | inl long ↦ elim (Bool-cases (beq (drop (length file - 3) file) (codes ".gv"))) [
    | inl gv ↦
        rw (image_file, long, gv)
          (omega (
            arith,
            length-append (take (length file - 3) file) (codes ".png"),
            length-take-eq (length file - 3) file (omega arith),
          ))
    | inr other ↦ rw (image_file, long, other) (omega (arith, length-append file (codes ".png")))
  ]
  | inr short ↦ rw (image_file, short) (omega (arith, length-append file (codes ".png")))
]

List-cases : (xs : Bytes) → (xs ≡ []) ⊎ ((c : ℕ) × (rest : Bytes) × (xs ≡ c ∷ rest))
List-cases [] = inl refl
List-cases (c ∷ rest) = inr (c, rest, refl)

-- A path is a directory and a name without a slash.
abbrev pub IsSplit : Bytes → Bytes → Type 0
IsSplit path dir =
    (path ≡ dir ++ drop (length dir) path) × All (λ b. b ≢ b'/') (drop (length dir) path)

directory-IsSplit : (path : Bytes) → IsSplit path (directory path)
unfolding directory
directory-IsSplit [] = (refl, tt)
directory-IsSplit (b ∷ path) =
    let rest : IsSplit path (directory path) = directory-IsSplit path in
    elim (List-cases (directory path)) [
      | inl e ↦
          let plain : IsSplit path [] = subst (IsSplit path) e rest in
          elim (Bool-cases (b == b'/')) [
            | inl slash ↦ rw (directory, e, slash) (refl, plain.1)
            | inr other ↦
                let no_slash : b ≢ b'/' = ground (arith, other) in
                rw (directory, e, other) (refl, (no_slash, plain.1))
          ]
      | inr (c, more, e) ↦
          let inner : IsSplit path (c ∷ more) = subst (IsSplit path) e rest in
          rw (directory, e) (ap (◌∷◌ b) inner.0, inner.1)
    ]

-- The image never has the name of the graph that it is made from; and the list of metadata is
-- put into the directory of the graph, the part of its name up to the last slash.
pub graph_files_lem :
    (file : Bytes)
    → (image_file file ≢ file)
      × (dir : Bytes) × (metadata_file file ≡ dir ++ codes "metadata_list.txt")
      × IsSplit file dir
unfolding metadata_file
graph_files_lem file = (
  (λ e. absurd (omega (arith, image_file-longer file, ap length e))),
  directory file,
  refl,
  directory-IsSplit file,
)
