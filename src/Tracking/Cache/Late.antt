-- ===== src/Tracking/Cache/Late.antt =====
-- `findLateShipments` of engines/tracking/queries.ts against the late detection of `reduceEvents`.
use pilots_hq.Prelude.{
  ℕ, ◌+◌, ◌≤◌, ◌≡◌, refl, String, Bool, true, false, ◌&&◌, List, [], ◌∷◌, map, arith, ltb,
  if◌then◌else◌,
}
use pilots_hq.Tracking.Types.{created, TrackingEvent}
use pilots_hq.Tracking.Reduce.{reduce_events, is_open, two_hours_ms}
use pilots_hq.Tracking.Reduce.Spec.{last_or, reduce_events-Describes}
use pilots_hq.Tracking.Log.{EventRow, get_last?, row_to_event, rows_of, replay_events}
use pilots_hq.Tracking.Log.Append.{IsRising, order_by_time-IsRising}
use pilots_hq.Tracking.Cache.{max_time, newest_is_open, has_late_rows, find_late_shipments}

-- The selection that a test makes.
abbrev pub select : (String → Bool) → List String → List String
select f [] = []
select f (s ∷ ss) = if f s then s ∷ select f ss else select f ss

and_comm : (a b : Bool) → (a && b) ≡ (b && a)
and_comm true true = refl
and_comm true false = refl
and_comm false true = refl
and_comm false false = refl

module _ {C D : Type 0} where
  abbrev pub is_nonempty : List (TrackingEvent C D) → Bool
  is_nonempty [] = false
  is_nonempty (e ∷ es) = true

  max_time-last_or :
      (r : EventRow C D) (rs : List (EventRow C D))
      → IsRising (r ∷ rs)
      → (max_time (r ∷ rs) ≡ last_or (λ e. e.created_at) 0 (map row_to_event (r ∷ rs)))
        × (r.created_at ≤ max_time (r ∷ rs))
  unfolding max_time row_to_event
  max_time-last_or r [] h = (omega arith, omega arith)
  max_time-last_or r (x ∷ rs) h =
      let (a, b) = max_time-last_or x rs h.1 in (omega arith, omega arith)

  newest-last_or :
      (r : EventRow C D) (rs : List (EventRow C D))
      → newest_is_open (get_last? (r ∷ rs))
        ≡ is_open (last_or (λ e. e.event_type) created (map row_to_event (r ∷ rs)))
  unfolding newest_is_open row_to_event
  newest-last_or r [] = refl
  newest-last_or r (x ∷ rs) = newest-last_or x rs

  has_late_rows-late :
      (now : ℕ) (s : String) (rs : List (EventRow C D))
      → IsRising rs
      → has_late_rows now rs
        ≡ (is_nonempty (map row_to_event rs) && (reduce_events s (map row_to_event rs) now).is_late)
  unfolding has_late_rows
  has_late_rows-late now s [] h = refl
  has_late_rows-late now s (r ∷ rs) h =
      rw
        (
          order_by_time-IsRising (r ∷ rs) h,
          newest-last_or r rs,
          (max_time-last_or r rs h).0,
          (reduce_events-Describes s (map row_to_event (r ∷ rs)) now).late,
        )
        (and_comm
          (ltb (last_or (λ e. e.created_at) 0 (map row_to_event (r ∷ rs)) + two_hours_ms) now)
          (is_open (last_or (λ e. e.event_type) created (map row_to_event (r ∷ rs)))))

  abbrev pub AllRising : List String → List (EventRow C D) → Type 0
  AllRising [] table = Unit
  AllRising (s ∷ ss) table = IsRising (rows_of s table) × AllRising ss table

  -- The query for late shipments and the reduction of the log agree: the query selects just the
  -- shipments that have an event and whose reduced state is late at the same time.
  pub find_late_shipments-is_late :
      (now : ℕ) (ss : List String) (table : List (EventRow C D))
      → AllRising ss table
      → find_late_shipments now ss table
        ≡ select
            (λ s.
              is_nonempty (replay_events table s)
              && (reduce_events s (replay_events table s) now).is_late)
            ss
  unfolding find_late_shipments replay_events
  find_late_shipments-is_late now [] table h = refl
  find_late_shipments-is_late now (s ∷ ss) table h =
      rw
        (
          order_by_time-IsRising (rows_of s table) h.0,
          ← has_late_rows-late now s (rows_of s table) h.0,
          find_late_shipments-is_late now ss table h.1,
        )
        refl
