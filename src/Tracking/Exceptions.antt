-- ===== src/Tracking/Exceptions.antt =====
-- engines/tracking/exception-detector.ts: `detectExceptions`. The texts of an item follow from its
-- reason; `is_jump` is the test `haversineKm(…) > 50` on two positions, on floats there.
pub mod Causes
pub mod Jumps
pub mod Detect
use pilots_hq.Prelude.{
  ℕ, ◌+◌, ◌<◌, Bool, true, false, ◌&&◌, Option, none, some, List, [], ◌∷◌, ◌++◌, reverse, ltb, max,
  if◌then◌else◌,
}
use pilots_hq.Tracking.Types.{
  EventType, created, allocated, in_transit, location_updated, out_for_delivery, delivered,
  failed_delivery, exception, cancelled, TrackingEvent, ShipmentState,
}
use pilots_hq.Tracking.Reduce.{is_open, two_hours_ms}

pub data Reason : Type 0 where
  overdue stale_location location_anomaly : Reason

abbrev pub severity_of : Reason → ℕ
severity_of overdue = 3
severity_of stale_location = 2
severity_of location_anomaly = 3

pub record ExceptionItem : Type 0 where
  pub reason : Reason
  pub severity : ℕ

pub record ExceptionResult : Type 0 where
  pub is_exception : Bool
  pub reasons : List Reason
  pub items : List ExceptionItem
  pub highest_severity : ℕ

abbrev pub stale_ms : ℕ
stale_ms = 2700000

abbrev pub jump_ms : ℕ
jump_ms = 600000

abbrev pub is_location : EventType → Bool
is_location location_updated = true
is_location created = false
is_location allocated = false
is_location in_transit = false
is_location out_for_delivery = false
is_location delivered = false
is_location failed_delivery = false
is_location exception = false
is_location cancelled = false

unfoldable pub item : Reason → ExceptionItem
item r = record { reason = r; severity = severity_of r }

-- `items.push` under a test
unfoldable pub push_if : Bool → Reason → List ExceptionItem → List ExceptionItem
unfolding item
push_if b r items = if b then items ++ item r ∷ [] else items

unfoldable pub max_severity : List ExceptionItem → ℕ
max_severity [] = 0
max_severity (x ∷ xs) = max x.severity (max_severity xs)

unfoldable pub reasons_of : List ExceptionItem → List Reason
reasons_of [] = []
reasons_of (x ∷ xs) = x.reason ∷ reasons_of xs

-- the three checks in turn, each with its test's answer
unfoldable pub found_items : Bool → Bool → Bool → List ExceptionItem
unfolding push_if
found_items is_overdue is_stale is_anomaly =
    let first = push_if is_overdue overdue [] in
    let second = push_if is_stale stale_location first in push_if is_anomaly location_anomaly second

unfoldable pub result_of : List ExceptionItem → ExceptionResult
unfolding max_severity reasons_of
result_of items = record {
  is_exception = elim items [ [] ↦ false | x ∷ xs ↦ true ];
  reasons = reasons_of items;
  items = items;
  highest_severity = elim items [ [] ↦ 0 | x ∷ xs ↦ max_severity (x ∷ xs) ];
}

module _ {C : Type 0} where
  unfoldable pub is_overdue : ShipmentState C → ℕ → Bool
  is_overdue s now =
      is_open s.status && (ltb 0 s.last_updated_at && ltb (s.last_updated_at + two_hours_ms) now)

module _ {C D : Type 0} where
  -- `events.find(e => e.eventType === 'location_updated')`
  unfoldable pub find_location : List (TrackingEvent C D) → Option (TrackingEvent C D)
  find_location [] = none
  find_location (e ∷ es) =
      let rest = find_location es in if is_location e.event_type then some e else rest

  unfoldable pub is_stale : List (TrackingEvent C D) → ℕ → Bool
  unfolding find_location
  is_stale events now = elim (find_location (reverse events)) [
    | none ↦ false
    | some e ↦ ltb (e.created_at + stale_ms) now
  ]

  -- the `location_updated` events with a position: their times and positions
  unfoldable pub positions : List (TrackingEvent C D) → List (ℕ × C × C)
  positions [] = []
  positions (e ∷ es) = elim e.lat [
    | none ↦ positions es
    | some lat ↦ elim e.lon [
      | none ↦ positions es
      | some lon ↦
          if is_location e.event_type then (e.created_at, lat, lon) ∷ positions es else positions es
    ]
  ]

module _ {C : Type 0} (is_jump : C × C → C × C → Bool) where
  -- the test of check 3 on the last two positions; `curr - prev < d` is `curr < prev + d`
  unfoldable pub is_anomaly : List (ℕ × C × C) → Bool
  is_anomaly [] = false
  is_anomaly (p ∷ []) = false
  is_anomaly ((t, lat, lon) ∷ (t', lat', lon') ∷ []) =
      is_jump (lat, lon) (lat', lon') && ltb t' (t + jump_ms)
  is_anomaly (p ∷ q ∷ r ∷ ps) = is_anomaly (q ∷ r ∷ ps)

  unfoldable pub detect_exceptions :
      {D : Type 0} → ShipmentState C → List (TrackingEvent C D) → ℕ → ExceptionResult
  detect_exceptions state events now =
      result_of
        (found_items (is_overdue state now) (is_stale events now) (is_anomaly (positions events)))
