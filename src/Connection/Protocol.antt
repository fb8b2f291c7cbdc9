-- ===== src/Connection/Protocol.antt =====
-- The calls of `tryConnectToIon` against what ION expects of its clients.
use dtnex_redesign.Base.{
  ℕ, ltb, not, ◌&&◌, length, if_P, ◌≡◌, ◌≢◌, Bool, true, Option, none, some, List, [], ◌∷◌, Bytes,
  ◌==◌, arith, if◌then◌else◌, ◌>>=◌,
}
use dtnex_redesign.Base.Int.{pos, ltb_ℤ}
use dtnex_redesign.Types.{DtnexConfig, NodeMetadata, StructuredMetadata}
use dtnex_redesign.Metadata.{parse_node_metadata}
use dtnex_redesign.Metadata.Store.{IsBook, update_node_metadata-IsBook}
use dtnex_redesign.Connection.{
  ConnectAnswers, IonCall, Attempt, sap_after, own_metadata_text, add_own_metadata, open_endpoint,
  try_connect_to_ion,
}

-- A client: detached, attached, inside a transaction, or attached with an open endpoint.
pub data Client : Type 0 where
  detached attached in_transaction : Client
  ready : ℕ → Bytes → Client

-- What ION lets a client do: `none` is a call out of place. 0 is no node number.
abbrev client_step : IonCall → Client → Option Client
client_step (IonCall.bp_attach rc) Client.detached =
    some (if ltb_ℤ rc (pos 0) then Client.detached else Client.attached)
client_step (IonCall.sdr_begin_xn rc) Client.attached =
    some (if ltb_ℤ (pos 0) rc then Client.in_transaction else Client.attached)
client_step IonCall.sdr_read Client.in_transaction = some Client.in_transaction
client_step IonCall.sdr_exit_xn Client.in_transaction = some Client.attached
client_step (IonCall.add_endpoint node service) Client.attached = some Client.attached
client_step (IonCall.bp_open node service rc) Client.attached =
    if node == 0
    then none
    else some (if ltb_ℤ rc (pos 0) then Client.attached else Client.ready node service)
client_step IonCall.bp_detach Client.attached = some Client.detached
client_step _ _ = none

abbrev pub client_run : List IonCall → Client → Option Client
client_run [] c = some c
client_run (call ∷ calls) c = client_step call c >>= client_run calls

abbrev pub outcome_of : {D : Type 0} → Attempt D → Client
outcome_of attempt =
    if attempt.connected
    then Client.ready attempt.config.node_id attempt.config.service_nr
    else Client.detached

module _ {D : Type 0} (format_degrees : D → Bytes) where
  -- Every attempt keeps to what ION expects, on each of its error paths: a failed one ends
  -- detached and outside any transaction, a successful one attached, with the endpoint of the node
  -- number read and of the configured service open; if `sdr_begin_xn` does not give 0.
  pub try_connect_to_ion-client_run :
      (a : ConnectAnswers) (uninitialised : StructuredMetadata) (config : DtnexConfig D)
      (entries : List NodeMetadata)
      → a.begin_xn ≢ pos 0
      → client_run
          (try_connect_to_ion format_degrees a uninitialised config entries).calls
          Client.detached
        ≡ some (outcome_of (try_connect_to_ion format_degrees a uninitialised config entries))
  unfolding try_connect_to_ion open_endpoint
  try_connect_to_ion-client_run a uninitialised config entries h = ground arith

  -- An attempt changes nothing of the configuration but the node number.
  pub try_connect_to_ion-service_nr :
      (a : ConnectAnswers) (uninitialised : StructuredMetadata) (config : DtnexConfig D)
      (entries : List NodeMetadata)
      → (try_connect_to_ion format_degrees a uninitialised config entries).config.service_nr
        ≡ config.service_nr
  unfolding try_connect_to_ion open_endpoint
  try_connect_to_ion-service_nr a uninitialised config entries = ground arith

  add_own_metadata-IsBook :
      (config : DtnexConfig D) (uninitialised : StructuredMetadata) (entries : List NodeMetadata)
      → IsBook entries
      → IsBook (add_own_metadata format_degrees config uninitialised entries)
  unfolding add_own_metadata
  add_own_metadata-IsBook config uninitialised entries h =
      if_P IsBook (not config.no_metadata_exchange && ltb 0 (length config.node_metadata))
        (update_node_metadata-IsBook config.node_id
          (own_metadata_text format_degrees config
            (parse_node_metadata config.node_metadata uninitialised))
          entries h)
        h

  -- The own metadata that an attempt adds leave the address book within its bounds.
  pub try_connect_to_ion-IsBook :
      (a : ConnectAnswers) (uninitialised : StructuredMetadata) (config : DtnexConfig D)
      (entries : List NodeMetadata)
      → IsBook entries
      → IsBook (try_connect_to_ion format_degrees a uninitialised config entries).metadata_list
  unfolding try_connect_to_ion open_endpoint
  try_connect_to_ion-IsBook a uninitialised config entries h =
      let P : Attempt D → Type 0 = λ attempt. IsBook attempt.metadata_list in
      let own =
        add_own_metadata-IsBook (record config { node_id = a.own_node_nbr }) uninitialised entries
          h in
      if_P P (ltb_ℤ a.bp_attach (pos 0)) h (
        if_P P (not a.ionsdr) h (
          if_P P (ltb_ℤ a.begin_xn (pos 0)) h (
            if_P P (not a.iondb) h (
              if_P P (a.own_node_nbr == 0) h
                (if_P P (not a.bp_sdr) h (if_P P (ltb_ℤ a.bp_open (pos 0)) h own))))))

  -- A connected attempt has opened the endpoint.
  pub try_connect_to_ion-sap :
      (a : ConnectAnswers) (uninitialised : StructuredMetadata) (config : DtnexConfig D)
      (entries : List NodeMetadata) (left sap : Bool)
      → (try_connect_to_ion format_degrees a uninitialised config entries).connected ≡ true
      → sap_after left (try_connect_to_ion format_degrees a uninitialised config entries).calls sap
        ≡ true
  unfolding try_connect_to_ion open_endpoint sap_after
  try_connect_to_ion-sap a uninitialised config entries left sap h = ground arith

  pub try_connect_to_ion-node_id :
      (a : ConnectAnswers) (uninitialised : StructuredMetadata) (config : DtnexConfig D)
      (entries : List NodeMetadata)
      → (try_connect_to_ion format_degrees a uninitialised config entries).connected ≡ true
      → (try_connect_to_ion format_degrees a uninitialised config entries).config.node_id ≢ 0
  unfolding try_connect_to_ion open_endpoint
  try_connect_to_ion-node_id a uninitialised config entries h = ground arith
