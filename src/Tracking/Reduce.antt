-- ===== src/Tracking/Reduce.antt =====
-- engines/tracking/state-machine.ts: `reduceEvents`.
pub mod Spec
use pilots_hq.Prelude.{
  ℕ, ◌+◌, String, Bool, true, false, ◌&&◌, not, Option, none, some, List, [], ◌∷◌, ltb,
  if◌then◌else◌,
}
use pilots_hq.Tracking.Types.{
  EventType, created, allocated, in_transit, location_updated, out_for_delivery, delivered,
  failed_delivery, exception, cancelled, TrackingEvent, ShipmentState,
}

-- `if (event.lat != null) state.lastLat = event.lat`
abbrev pub set_if_some {ℓ} : {A : Type ℓ} → Option A → Option A → Option A
set_if_some none old = old
set_if_some (some a) old = some a

abbrev pub two_hours_ms : ℕ
two_hours_ms = 7200000

-- `status !== 'delivered' && status !== 'cancelled'`
abbrev pub is_open : EventType → Bool
is_open delivered = false
is_open cancelled = false
is_open created = true
is_open allocated = true
is_open in_transit = true
is_open location_updated = true
is_open out_for_delivery = true
is_open failed_delivery = true
is_open exception = true

module _ {C : Type 0} where
  unfoldable pub initial : String → ShipmentState C
  initial shipment = record {
    shipment_id = shipment;
    status = created;
    last_lat = none;
    last_lon = none;
    last_updated_at = 0;
    event_count = 0;
    is_late = false;
    is_exception = false;
    delivered_at = none;
  }

  -- late detection after the loop; `now - t > d` on milliseconds is `t + d < now`
  unfoldable pub detect_late : ℕ → ShipmentState C → ShipmentState C
  detect_late now s = record s {
    is_late =
        if is_open s.status && ltb (s.last_updated_at + two_hours_ms) now then true else s.is_late;
  }

module _ {C D : Type 0} where
  -- the `switch` in the loop
  pub by_type : EventType → TrackingEvent C D → ShipmentState C → ShipmentState C
  by_type location_updated e s = record s {
    last_lat = set_if_some e.lat s.last_lat;
    last_lon = set_if_some e.lon s.last_lon;
  }
  by_type delivered e s = record s { delivered_at = some e.created_at }
  by_type exception e s = record s { is_exception = true }
  by_type created e s = s
  by_type allocated e s = s
  by_type in_transit e s = s
  by_type out_for_delivery e s = s
  by_type failed_delivery e s = s
  by_type cancelled e s = s

  -- the body of the loop
  unfoldable pub apply_event : ShipmentState C → TrackingEvent C D → ShipmentState C
  unfolding by_type
  apply_event s e = by_type e.event_type e (record s {
    status = e.event_type;
    last_updated_at = e.created_at;
    event_count = s.event_count + 1;
  })

  unfoldable pub apply_events : ShipmentState C → List (TrackingEvent C D) → ShipmentState C
  apply_events s [] = s
  apply_events s (e ∷ es) = apply_events (apply_event s e) es

  unfoldable pub reduce_events : String → List (TrackingEvent C D) → ℕ → ShipmentState C
  unfolding initial apply_events detect_late apply_event
  reduce_events shipment events now = detect_late now (apply_events (initial shipment) events)
