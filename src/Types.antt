-- ===== src/Types.antt =====
-- The structures of dtnex.h and ion_contacts.h that the parts share.
-- `D` is the C type `double`, whose operations are parameters where they are used.
use dtnex_redesign.Base.{ℕ, ◌<◌, ◌^◌, Bool, Bytes}
use dtnex_redesign.Base.Int.{ℤ, IsTime}

pub record DtnexConfig (D : Type 0) : Type 0 where
  pub update_interval : ℤ
  pub metadata_lifetime : ℤ
  pub bundle_ttl : ℤ
  pub pre_shared_network_key : Bytes
  pub service_nr : Bytes
  pub bpecho_service_nr : Bytes
  pub node_id : ℕ
  pub node_metadata : Bytes
  pub create_graph : Bool
  pub graph_file : Bytes
  pub no_metadata_exchange : Bool
  pub service_mode : Bool
  pub debug_mode : Bool
  pub gps_latitude : D
  pub gps_longitude : D
  pub has_gps_coordinates : Bool

pub record ContactRecord : Type 0 where
  pub region_nbr : ℕ
  pub from_node : ℕ
  pub to_node : ℕ
  pub from_time : ℤ
  pub to_time : ℤ
  pub xmit_rate : ℕ
  pub confidence : ℕ

pub record RangeRecord : Type 0 where
  pub from_node : ℕ
  pub to_node : ℕ
  pub from_time : ℤ
  pub to_time : ℤ
  pub owlt : ℕ

-- The texts are C strings: the bytes before the terminating zero.
pub record StructuredMetadata : Type 0 where
  pub node_id : ℕ
  pub name : Bytes
  pub contact : Bytes
  pub location : Bytes
  pub latitude : ℤ
  pub longitude : ℤ

pub record Plan : Type 0 where
  pub plan_id : ℕ
  pub timestamp : ℕ

pub record NodeMetadata : Type 0 where
  pub node_id : ℕ
  pub metadata : Bytes

-- What one call of `sendCborBundle` is given; the EID "ipn:%lu.%s" is its two parts.
pub record Bundle : Type 0 where
  pub dest_node : ℕ
  pub dest_service : Bytes
  pub cbor_data : Bytes
  pub ttl : ℤ

-- Values that the C fields hold.
pub record IsContactRecord (c : ContactRecord) : Type 0 where
  pub region_fits : c.region_nbr < 2 ^ 32
  pub from_node_fits : c.from_node < 2 ^ 64
  pub to_node_fits : c.to_node < 2 ^ 64
  pub from_time_fits : IsTime c.from_time
  pub to_time_fits : IsTime c.to_time
  pub rate_fits : c.xmit_rate < 2 ^ 64
  pub confidence_fits : c.confidence < 2 ^ 32

pub record IsRangeRecord (r : RangeRecord) : Type 0 where
  pub from_node_fits : r.from_node < 2 ^ 64
  pub to_node_fits : r.to_node < 2 ^ 64
  pub from_time_fits : IsTime r.from_time
  pub to_time_fits : IsTime r.to_time
  pub owlt_fits : r.owlt < 2 ^ 32
