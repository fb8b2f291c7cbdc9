-- ===== src/Connection.antt =====
-- The connection of dtnex.c with ION: `tryConnectToIon` and `init`. What the calls of ION answer is
-- given, and the calls that are made are recorded in their order.
pub mod Protocol
pub mod Startup
pub mod Send
use dtnex_redesign.Base.{
  ℕ, ltb, ◌==◌, Bool, true, false, not, ◌&&◌, List, [], ◌∷◌, ◌++◌, Bytes, length, if◌then◌else◌,
}
use dtnex_redesign.Base.Int.{ℤ, pos, ltb_ℤ}
use dtnex_redesign.Types.{DtnexConfig, NodeMetadata, StructuredMetadata}
use dtnex_redesign.Metadata.{
  max_metadata_length, strncpy, update_node_metadata, parse_node_metadata,
}

-- What the calls of one attempt return: `getIonsdr`, `getIonDbObject` and `bp_get_sdr` give an
-- object or NULL, and `sdr_read` the node number.
pub record ConnectAnswers : Type 0 where
  pub bp_attach : ℤ
  pub ionsdr : Bool
  pub begin_xn : ℤ
  pub iondb : Bool
  pub own_node_nbr : ℕ
  pub bp_sdr : Bool
  pub add_endpoint : ℤ
  pub bp_open : ℤ

-- A call of ION, with the result that decides what it does. An endpoint "ipn:%lu.%s" is its two
-- parts.
pub data IonCall : Type 0 where
  bp_attach : ℤ → IonCall
  bp_detach : IonCall
  sdr_begin_xn : ℤ → IonCall
  sdr_read : IonCall
  sdr_exit_xn : IonCall
  add_endpoint : ℕ → Bytes → IonCall
  bp_open : ℕ → Bytes → ℤ → IonCall

-- The result 0 is `connected`.
pub record Attempt (D : Type 0) : Type 0 where
  pub connected : Bool
  pub config : DtnexConfig D
  pub metadata_list : List NodeMetadata
  pub calls : List IonCall

-- The global `sap` behind these calls: a `bp_open` sets it, and no other one writes it. `left` is what
-- a `bp_open` that fails leaves there.
unfoldable pub sap_after : Bool → List IonCall → Bool → Bool
sap_after left [] sap = sap
sap_after left (IonCall.bp_open node service rc ∷ calls) sap =
    sap_after left calls (if ltb_ℤ rc (pos 0) then left else true)
sap_after left (_ ∷ calls) sap = sap_after left calls sap

module _ {D : Type 0} (format_degrees : D → Bytes) where
  -- The text that stands for the own node: `snprintf` cuts it to the buffer.
  -- `format_degrees` is "%.6f".
  unfoldable pub own_metadata_text : DtnexConfig D → StructuredMetadata → Bytes
  own_metadata_text config m =
      let start : Bytes = m.name ++ b',' ∷ m.contact in
      strncpy max_metadata_length (
        if config.has_gps_coordinates
        then start
          ++ b','
            ∷ (format_degrees config.gps_latitude ++ b',' ∷ format_degrees config.gps_longitude)
        else if ltb 0 (length m.location)
        then start ++ b',' ∷ m.location
        else start)

  unfoldable pub add_own_metadata :
      DtnexConfig D → StructuredMetadata → List NodeMetadata → List NodeMetadata
  unfolding own_metadata_text
  add_own_metadata config uninitialised entries =
      if not config.no_metadata_exchange && ltb 0 (length config.node_metadata)
      then update_node_metadata config.node_id
          (own_metadata_text config (parse_node_metadata config.node_metadata uninitialised))
          entries
      else entries

  -- From the node number on: the endpoint, and the own metadata. `uninitialised` is what the
  -- variable `metadata` holds before it is written.
  unfoldable pub open_endpoint :
      ConnectAnswers
      → StructuredMetadata
      → DtnexConfig D
      → List NodeMetadata
      → List IonCall
      → Attempt D
  unfolding add_own_metadata
  open_endpoint a uninitialised config entries calls =
      let fail : List IonCall → Attempt D = λ made. record {
        connected = false;
        config = config;
        metadata_list = entries;
        calls = calls ++ made ++ IonCall.bp_detach ∷ [];
      } in
      let added : IonCall = IonCall.add_endpoint config.node_id config.service_nr in
      let opened : IonCall = IonCall.bp_open config.node_id config.service_nr a.bp_open in
      if config.node_id == 0
      then fail []
      else if not a.bp_sdr
      then fail []
      else if ltb_ℤ a.bp_open (pos 0)
      then fail (added ∷ opened ∷ [])
      else record {
        connected = true;
        config = config;
        metadata_list = add_own_metadata config uninitialised entries;
        calls = calls ++ added ∷ opened ∷ [];
      }

  unfoldable pub try_connect_to_ion :
      ConnectAnswers → StructuredMetadata → DtnexConfig D → List NodeMetadata → Attempt D
  unfolding open_endpoint
  try_connect_to_ion a uninitialised config entries =
      let fail : List IonCall → Attempt D = λ made. record {
        connected = false;
        config = config;
        metadata_list = entries;
        calls = made;
      } in
      let attached : IonCall = IonCall.bp_attach a.bp_attach in
      let begun : IonCall = IonCall.sdr_begin_xn a.begin_xn in
      if ltb_ℤ a.bp_attach (pos 0)
      then fail (attached ∷ [])
      else if not a.ionsdr
      then fail (attached ∷ IonCall.bp_detach ∷ [])
      else if ltb_ℤ a.begin_xn (pos 0)
      then fail (attached ∷ begun ∷ IonCall.bp_detach ∷ [])
      else if not a.iondb
      then fail (attached ∷ begun ∷ IonCall.sdr_exit_xn ∷ IonCall.bp_detach ∷ [])
      else open_endpoint a uninitialised (record config { node_id = a.own_node_nbr }) entries
          (attached ∷ begun ∷ IonCall.sdr_read ∷ IonCall.sdr_exit_xn ∷ [])
