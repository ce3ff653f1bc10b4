-- ===== src/Samples/State.antt =====
-- Reduced states, the cache and the exception report at small inputs (engines/tracking).
use pilots_hq.Prelude.{
  ℕ, ◌+◌, ◌≡◌, refl, String, Bool, true, Option, none, some, List, [], ◌∷◌, arith, length, empty,
  insert, ◌⊎◌, ◌↔◌, ◌||◌, ltb, if◌then◌else◌,
}
use pilots_hq.Tracking.Types.{
  EventType, created, in_transit, location_updated, delivered, TrackingEvent, ShipmentState,
}
use pilots_hq.Tracking.Reduce.{reduce_events}
use pilots_hq.Tracking.Reduce.Spec.{reduce_events-Describes, Describes}
use pilots_hq.Tracking.Log.{replay_events, rows_of}
use pilots_hq.Tracking.Cache.{Store, record_event, get_current_state}
use pilots_hq.Tracking.Cache.Coherent.{IsCoherent, record_event-IsCoherent, read_own_write}
use pilots_hq.Tracking.Exceptions.{overdue, stale_location, location_anomaly, detect_exceptions}
use pilots_hq.Tracking.Exceptions.Detect.{reports, detect_exceptions_causes}
use pilots_hq.Tracking.Exceptions.Causes.{IsOverdue, IsStale}
use pilots_hq.Tracking.Exceptions.Jumps.{IsJump}
use pilots_hq.Samples.Log.{digest, no_payload, table}

abbrev event : String → ℕ → EventType → TrackingEvent ℕ String
event id time type = record {
  id = id;
  shipment_id = "s";
  event_type = type;
  event_status = none;
  lat = none;
  lon = none;
  details = none;
  created_at = time;
  event_hash = none;
}

abbrev events : List (TrackingEvent ℕ String)
events = event "a" 10 created ∷ event "b" 20 in_transit ∷ []

reduce_events-Describes_example : Describes "s" events 8000000 (reduce_events "s" events 8000000)
reduce_events-Describes_example = reduce_events-Describes "s" events 8000000

abbrev encode : ShipmentState ℕ → String
encode s = s.shipment_id

-- reads every text as no state at all
abbrev decode : String → Option (ShipmentState ℕ)
decode text = none

abbrev store : Store ℕ String
store = record { table = table; cache = empty }

-- reads every text as the state of "t" at 5
abbrev read_idle : String → Option (ShipmentState ℕ)
read_idle text = some (reduce_events "t" (replay_events table "t") 5)

-- entries of both shipments
abbrev both : Store ℕ String
both = record { table = table; cache = insert "s" "of s" (insert "t" "of t" empty) }

both-IsCoherent : IsCoherent {C = ℕ} {D = String} encode read_idle "t" both
both-IsCoherent text there = (5, refl)

record_event-IsCoherent_example :
    let st' = (record_event digest true both "c" 30 "s" delivered no_payload).0 in
    (st'.cache "s" ≡ none)
    × ((◌≡◌ {A = String} "s" "t") ⊎ (replay_events st'.table "t" ≡ replay_events both.table "t"))
    × IsCoherent encode read_idle "t" st'
record_event-IsCoherent_example =
    record_event-IsCoherent digest encode read_idle both "c" 30 "s" "t" delivered no_payload
      (refl, (refl, tt)) both-IsCoherent

abbrev SecondIsCurrent : Type 0
SecondIsCurrent =
    (state : ShipmentState ℕ) × ((get_current_state encode decode true true 40 "s"
        (record_event digest true store "c" 30 "s" delivered no_payload).0).1
      ≡ some state)
    × (state.status ≡ delivered)
    × (state.last_updated_at ≡ 30)
    × (state.event_count ≡ length (replay_events table "s") + 1)

read_own_write_example : SecondIsCurrent
unfolding rows_of
read_own_write_example =
    read_own_write digest encode decode store "c" 30 "s" delivered no_payload true true 40
      (omega arith, (tt, tt)) (omega arith, (omega arith, tt)) (refl, (refl, tt))

abbrev late_state : ShipmentState ℕ
late_state = reduce_events "s" events 8000000

abbrev move : String → ℕ → ℕ → TrackingEvent ℕ String
move id time place = record (event id time location_updated) { lat = some place; lon = some 0 }

-- three positions, of which the last two are far apart
abbrev moves : List (TrackingEvent ℕ String)
moves = move "a" 10 1 ∷ event "b" 20 in_transit ∷ move "c" 30 1 ∷ move "d" 40 9 ∷ []

abbrev is_far : ℕ × ℕ → ℕ × ℕ → Bool
is_far p q = ltb (p.0 + 5) q.0

abbrev ReportsThree : Type 0
ReportsThree =
    let r = detect_exceptions is_far late_state moves 8000000 in
    let critical = reports overdue r.reasons || reports location_anomaly r.reasons in
    ((reports overdue r.reasons ≡ true) ↔ IsOverdue late_state 8000000)
    × ((reports stale_location r.reasons ≡ true) ↔ IsStale moves 8000000)
    × ((reports location_anomaly r.reasons ≡ true) ↔ IsJump is_far moves)
    × (r.is_exception ≡ (critical || reports stale_location r.reasons))
    × (r.highest_severity
        ≡ (if critical then 3 else if reports stale_location r.reasons then 2 else 0))

detect_exceptions_causes_example : ReportsThree
detect_exceptions_causes_example = detect_exceptions_causes is_far late_state moves 8000000
