-- ===== src/Tracking/Types.antt =====
-- engines/tracking/types.ts. `C` is the type of a coordinate (a float there), `D` that of the
-- free-form details. Times are milliseconds since the epoch.
use pilots_hq.Prelude.{ℕ, String, Option, Bool}

pub data EventType : Type 0 where
  created allocated in_transit location_updated out_for_delivery : EventType
  delivered failed_delivery exception cancelled : EventType

pub EventType-discrete : Discrete EventType
EventType-discrete = hlevel

pub record TrackingEvent (C D : Type 0) : Type 0 where
  pub id : String
  pub shipment_id : String
  pub event_type : EventType
  pub event_status : Option String
  pub lat : Option C
  pub lon : Option C
  pub details : Option D
  pub created_at : ℕ
  pub event_hash : Option String

pub record ShipmentState (C : Type 0) : Type 0 where
  pub shipment_id : String
  pub status : EventType
  pub last_lat : Option C
  pub last_lon : Option C
  pub last_updated_at : ℕ
  pub event_count : ℕ
  pub is_late : Bool
  pub is_exception : Bool
  pub delivered_at : Option ℕ
