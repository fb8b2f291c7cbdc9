-- ===== src/Node/Replay.antt =====
-- The replay protection through any sequence of received messages.
use dtnex_redesign.Base.{
  ℕ, ◌≡◌, refl, sym, ap, ◌∙◌, ◌≤◌, ◌<◌, ltb, true, Option, none, some, List, [], ◌∷◌, ◌++◌, Bytes,
  length, length-append, arith, Bool-cases, Option-cases, inl, inr,
}
use dtnex_redesign.Nonce.{
  NonceCache, max_hash_cache, is_nonce_duplicate, add_nonce, add_nonce_to_cache,
}
use dtnex_redesign.Nonce.History.{last_n, remember, remember-duplicate}
use dtnex_redesign.Decode.{Envelope, Payload, parse_message, decode_envelope}
use dtnex_redesign.Node.{System, Node, Times}
use dtnex_redesign.Node.Forward.{forward}
use dtnex_redesign.Node.Rule.{dispatch_P}
use dtnex_redesign.Node.Process.{dispatch, decode_cbor_message, process_cbor_message}
use dtnex_redesign.Node.Policy.{parsed_by, process_refused}

remember-append :
    (limit : ℕ) (cache xs ys : List NonceCache)
    → remember limit cache (xs ++ ys) ≡ remember limit (remember limit cache xs) ys
unfolding remember
remember-append limit cache [] ys = refl
remember-append limit cache (x ∷ xs) ys = remember-append limit (add_nonce limit x cache) xs ys

module _ {D F S : Type 0} (sys : System D F S) where
  open sys use {lib, hmac, config}

  -- A sequence of bundles, each with the times at which it is handled.
  unfoldable pub process_all : List (Times × Bytes) → Node S → Node S
  process_all [] node = node
  process_all ((t, buffer) ∷ bundles) node =
      process_all bundles (process_cbor_message sys t buffer node)

  pub dispatch-nonce_cache :
      (t : Times) (e : Envelope) (payload : Option Payload) (node : Node S)
      → (dispatch sys t e payload node).1.nonce_cache ≡ node.nonce_cache
  unfolding forward
  dispatch-nonce_cache t e payload node =
      dispatch_P sys (λ n. n.nonce_cache ≡ node.nonce_cache) t e node payload
        (record { by_contact = λ c s. refl; by_range = λ r s. refl; by_metadata = λ m. refl }) refl

  abbrev entry : Times → Envelope → NonceCache
  entry t e = record { nonce = e.nonce; origin = e.origin; timestamp = t.cached }

  accepted-nonce_cache :
      (t : Times) (buffer : Bytes) (node : Node S) (e : Envelope) (payload : Option Payload)
      → 0 < length buffer
      → parsed_by sys t buffer node ≡ some (e, payload)
      → (process_cbor_message sys t buffer node).nonce_cache
        ≡ remember max_hash_cache node.nonce_cache (entry t e ∷ [])
  unfolding process_cbor_message decode_cbor_message remember add_nonce_to_cache
  accepted-nonce_cache t buffer node e payload bytes parsed =
      let some_bytes : ltb 0 (length buffer) ≡ true = ground arith in
      rw (process_cbor_message, some_bytes, decode_cbor_message, parsed)
        (dispatch-nonce_cache t e payload (record node {
          nonce_cache = add_nonce_to_cache e.nonce e.origin t.cached node.nonce_cache;
        }))

  -- One bundle adds at most one nonce.
  step-nonce_cache :
      (t : Times) (buffer : Bytes) (node : Node S)
      → (es : List NonceCache) × (length es ≤ 1)
        × ((process_cbor_message sys t buffer node).nonce_cache
            ≡ remember max_hash_cache node.nonce_cache es)
  unfolding remember process_cbor_message
  step-nonce_cache t buffer node = elim (Option-cases (parsed_by sys t buffer node)) [
    | inl refused ↦ (
      [],
      omega arith,
      ap (λ (n : Node S). n.nonce_cache) (process_refused sys t buffer node refused),
    )
    | inr ((e, payload), parsed) ↦ elim (Bool-cases (ltb 0 (length buffer))) [
      | inl bytes ↦ (
        entry t e ∷ [],
        omega arith,
        accepted-nonce_cache t buffer node e payload (ground arith) parsed,
      )
      | inr empty ↦ ([], omega arith, rw (process_cbor_message, empty) refl)
    ]
  ]

  run-nonce_cache :
      (bundles : List (Times × Bytes)) (node : Node S)
      → (es : List NonceCache) × (length es ≤ length bundles)
        × ((process_all bundles node).nonce_cache ≡ remember max_hash_cache node.nonce_cache es)
  unfolding process_all remember
  run-nonce_cache [] node = ([], omega arith, refl)
  run-nonce_cache ((t, buffer) ∷ bundles) node =
      let (es, small, now) = step-nonce_cache t buffer node in
      let (fs, few, later) = run-nonce_cache bundles (process_cbor_message sys t buffer node) in
      (
        es ++ fs,
        omega (arith, length-append es fs),
        later
            ∙ ap (λ c. remember max_hash_cache c fs) now
            ∙ sym (remember-append max_hash_cache node.nonce_cache es fs),
      )

  known_refused :
      (t : Times) (buffer : Bytes) (node : Node S) (e : Envelope) (rest : Bytes)
      → decode_envelope lib t.decoded buffer ≡ some (e, rest)
      → is_nonce_duplicate e.nonce e.origin node.nonce_cache ≡ true
      → parsed_by sys t buffer node ≡ none
  unfolding parse_message
  known_refused t buffer node e rest envelope known = ground (arith, envelope, known)

  -- In a node whose cache is the end of its history: after a message was accepted, and fewer than
  -- five thousand further bundles came, every bundle with the same nonce and origin is ignored,
  -- whoever sends it and whatever else it says.
  pub process_all_replay :
      (history : List NonceCache) (node : Node S)
      → node.nonce_cache ≡ last_n max_hash_cache history
      → (t : Times) (buffer : Bytes) (e : Envelope) (payload : Option Payload) → 0 < length buffer
      → parsed_by sys t buffer node ≡ some (e, payload)
      → (bundles : List (Times × Bytes)) → length bundles < max_hash_cache
      → (again : Times) (copy rest : Bytes) (f : Envelope)
      → decode_envelope lib again.decoded copy ≡ some (f, rest)
      → f.nonce ≡ e.nonce
      → f.origin ≡ e.origin
      → process_cbor_message sys again copy (process_all ((t, buffer) ∷ bundles) node)
        ≡ process_all ((t, buffer) ∷ bundles) node
  unfolding process_all remember
  process_all_replay history node start t buffer e payload bytes parsed bundles few again copy rest
        f envelope same_nonce same_origin =
      let first = accepted-nonce_cache t buffer node e payload bytes parsed in
      let (es, small, later) = run-nonce_cache bundles (process_cbor_message sys t buffer node) in
      let run = process_all bundles (process_cbor_message sys t buffer node) in
      let cache : run.nonce_cache
          ≡ remember max_hash_cache (last_n max_hash_cache history) (entry t e ∷ es) =
        later
        ∙ ap (λ c. remember max_hash_cache c es) first
        ∙ ap (λ c. remember max_hash_cache c (entry t e ∷ es)) start in
      let known : is_nonce_duplicate f.nonce f.origin run.nonce_cache ≡ true =
        rw (cache, same_nonce, same_origin)
          (remember-duplicate max_hash_cache history (entry t e) es (omega arith)) in
      process_refused sys again copy run (known_refused again copy run f rest envelope known)
