-- ===== src/Metadata/Store.antt =====
-- The address book of node metadata as a bounded map.
use dtnex_redesign.Base.{
  ℕ, ◌-◌, ◌≡◌, refl, ◌≤◌, ◌<◌, ltb, ◌==◌, Option, none, some, List, [], ◌∷◌, ◌++◌, Bytes, length,
  length-append, length-take-le, arith, if◌then◌else◌, Option-cases, Bool-cases, subst, sym, All,
  ==_iff, inl, inr,
}
use dtnex_redesign.Types.{NodeMetadata}
use dtnex_redesign.Plans.{max_plans}
use dtnex_redesign.Metadata.{max_metadata_length, strncpy, replace_metadata, update_node_metadata}

unfoldable lookup_metadata : ℕ → List NodeMetadata → Option Bytes
lookup_metadata node [] = none
lookup_metadata node (e ∷ entries) =
    if e.node_id == node then some e.metadata else lookup_metadata node entries

-- A book that `updateNodeMetadata` has filled: no more entries than the array has room for, and
-- texts that fit theirs.
abbrev pub IsBook : List NodeMetadata → Type 0
IsBook entries =
    All (λ (e : NodeMetadata). length e.metadata < max_metadata_length) entries
    × (length entries ≤ max_plans)

module _ (node : ℕ) (text : Bytes) where
  replace_absent :
      (entries : List NodeMetadata)
      → lookup_metadata node entries ≡ none
      → replace_metadata node text entries ≡ none
  unfolding lookup_metadata replace_metadata
  replace_absent [] h = refl
  replace_absent (e ∷ entries) h = ground (arith, replace_absent entries)

  replace_present :
      (entries : List NodeMetadata) (old : Bytes)
      → lookup_metadata node entries ≡ some old
      → (r : List NodeMetadata) × (replace_metadata node text entries ≡ some r)
        × (length r ≡ length entries)
        × ((j : ℕ)
            → lookup_metadata j r ≡ (
                if node == j
                then some (strncpy max_metadata_length text)
                else lookup_metadata j entries))
  unfolding lookup_metadata replace_metadata
  replace_present [] old h = cc
  replace_present (e ∷ entries) old h = elim (Bool-cases (e.node_id == node)) [
    | inl here ↦ (
      record e { metadata = strncpy max_metadata_length text } ∷ entries,
      rw here,
      omega arith,
      λ j. ground arith,
    )
    | inr there ↦
        let (r, replaced, size, reads) = replace_present entries old (ground arith) in
        (e ∷ r, rw (there, replaced) refl, omega arith, λ j. ground (arith, reads j))
  ]

  lookup_metadata-snoc :
      (j : ℕ) (v : Bytes) (entries : List NodeMetadata)
      → lookup_metadata j (entries ++ (record { node_id = node; metadata = v } ∷ []))
        ≡ elim (lookup_metadata j entries) [
          | some w ↦ some w
          | none ↦ if node == j then some v else none
        ]
  unfolding lookup_metadata
  lookup_metadata-snoc j v [] = ground arith
  lookup_metadata-snoc j v (e ∷ entries) = ground (arith, lookup_metadata-snoc j v entries)

  -- After an update the node has the new text, cut to the size of its buffer, and every other node
  -- has what it had. Only a new node that finds the book full is left out.
  lookup_metadata-update :
      (j : ℕ) (entries : List NodeMetadata)
      → lookup_metadata j (update_node_metadata node text entries) ≡ (
          if node == j
          then elim (lookup_metadata node entries) [
            | some old ↦ some (strncpy max_metadata_length text)
            | none ↦
                if ltb (length entries) max_plans
                then some (strncpy max_metadata_length text)
                else none
          ]
          else lookup_metadata j entries)
  unfolding update_node_metadata
  lookup_metadata-update j entries = elim (Option-cases (lookup_metadata node entries)) [
    | inl absent ↦ ground (
      arith,
      absent,
      replace_absent entries absent,
      lookup_metadata-snoc j (strncpy max_metadata_length text) entries,
      ==_iff node j,
    )
    | inr (old, present) ↦
        let (r, replaced, size, reads) = replace_present entries old present in
        ground (arith, present, replaced, reads j)
  ]

strncpy-lt : (text : Bytes) → length (strncpy max_metadata_length text) < max_metadata_length
strncpy-lt text = omega (arith, length-take-le (max_metadata_length - 1) text)

replace_metadata-All :
    (node : ℕ) (text : Bytes) (entries r : List NodeMetadata)
    → All (λ (e : NodeMetadata). length e.metadata < max_metadata_length) entries
    → replace_metadata node text entries ≡ some r
    → All (λ (e : NodeMetadata). length e.metadata < max_metadata_length) r
      × (length r ≡ length entries)
unfolding replace_metadata
replace_metadata-All node text [] r h e = cc
replace_metadata-All node text (x ∷ entries) r h e = elim (Bool-cases (x.node_id == node)) [
  | inl here ↦ ground (arith, here, strncpy-lt text)
  | inr there ↦ elim (Option-cases (replace_metadata node text entries)) [
    | inl absent ↦ absurd (ground arith)
    | inr (r', replaced) ↦
        ground (arith, there, replaced, replace_metadata-All node text entries r' h.1 replaced)
  ]
]

All-snoc :
    (e : NodeMetadata) (entries : List NodeMetadata)
    → All (λ (e : NodeMetadata). length e.metadata < max_metadata_length) entries
    → length e.metadata < max_metadata_length
    → All (λ (e : NodeMetadata). length e.metadata < max_metadata_length) (entries ++ (e ∷ []))
All-snoc e [] h k = ground arith
All-snoc e (x ∷ entries) h k = (h.0, All-snoc e entries h.1 k)

-- No update takes the book out of its bounds.
pub update_node_metadata-IsBook :
    (node : ℕ) (text : Bytes) (entries : List NodeMetadata)
    → IsBook entries
    → IsBook (update_node_metadata node text entries)
unfolding update_node_metadata
update_node_metadata-IsBook node text entries h =
    let e : NodeMetadata = record { node_id = node; metadata = strncpy max_metadata_length text } in
    elim (Option-cases (replace_metadata node text entries)) [
      | inl absent ↦ elim (Bool-cases (ltb (length entries) max_plans)) [
        | inl room ↦
            let added : update_node_metadata node text entries ≡ entries ++ (e ∷ []) =
              ground arith in
            subst IsBook (sym added) (
              All-snoc e entries h.0 (strncpy-lt text),
              ground (arith, length-append entries (e ∷ [])),
            )
        | inr full ↦
            let kept : update_node_metadata node text entries ≡ entries = ground arith in
            subst IsBook (sym kept) h
      ]
      | inr (r, replaced) ↦
          let (fits, size) = replace_metadata-All node text entries r h.0 replaced in
          let same : update_node_metadata node text entries ≡ r = ground arith in
          subst IsBook (sym same) (fits, omega arith)
    ]
