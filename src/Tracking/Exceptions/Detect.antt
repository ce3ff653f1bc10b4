-- ===== src/Tracking/Exceptions/Detect.antt =====
-- What `detectExceptions` reports (engines/tracking/exception-detector.ts).
use pilots_hq.Prelude.{
  ℕ, ◌↔◌, sym, String, ◌∙◌, ◌<◌, ◌≡◌, Bool, true, false, ◌||◌, List, [], ◌∷◌, arith, if◌then◌else◌,
}
use pilots_hq.Tracking.Types.{TrackingEvent, ShipmentState}
use pilots_hq.Tracking.Reduce.{reduce_events}
use pilots_hq.Tracking.Reduce.Spec.{reduce_events-Describes}
use pilots_hq.Tracking.Exceptions.Causes.{
  IsOverdue, IsStale, is_overdue-IsOverdue, IsOverdue-is_overdue, is_stale-IsStale,
  IsStale-is_stale,
}
use pilots_hq.Tracking.Exceptions.Jumps.{IsJump, anomaly-IsJump, IsJump-anomaly}
use pilots_hq.Tracking.Exceptions.{
  Reason, overdue, stale_location, location_anomaly, ExceptionResult, is_overdue, found_items,
  result_of, is_stale, positions, is_anomaly, detect_exceptions,
}

-- Whether a reason is among those reported.
abbrev pub same_reason : Reason → Reason → Bool
same_reason overdue overdue = true
same_reason stale_location stale_location = true
same_reason location_anomaly location_anomaly = true
same_reason _ _ = false

abbrev pub reports : Reason → List Reason → Bool
reports r [] = false
reports r (x ∷ xs) = same_reason r x || reports r xs

-- Which reasons are reported, whether any is, and the highest severity.
abbrev pub IsReport : Bool → Bool → Bool → ExceptionResult → Type 0
IsReport late stale jump r =
    (reports overdue r.reasons ≡ late)
    × (reports stale_location r.reasons ≡ stale)
    × (reports location_anomaly r.reasons ≡ jump)
    × (r.is_exception ≡ ((late || jump) || stale))
    × (r.highest_severity ≡ (if late || jump then 3 else if stale then 2 else 0))

result-IsReport : (a b c : Bool) → IsReport a b c (result_of (found_items a b c))
unfolding result_of found_items
result-IsReport true true true = ground arith
result-IsReport true true false = ground arith
result-IsReport true false true = ground arith
result-IsReport true false false = ground arith
result-IsReport false true true = ground arith
result-IsReport false true false = ground arith
result-IsReport false false true = ground arith
result-IsReport false false false = ground arith

module _ {C D : Type 0} (is_jump : C × C → C × C → Bool) where
  pub detect_exceptions-IsReport :
      (s : ShipmentState C) (es : List (TrackingEvent C D)) (now : ℕ)
      → IsReport
          (is_overdue s now)
          (is_stale es now)
          (is_anomaly is_jump (positions es))
          (detect_exceptions is_jump s es now)
  unfolding detect_exceptions
  detect_exceptions-IsReport s es now =
      result-IsReport (is_overdue s now) (is_stale es now) (is_anomaly is_jump (positions es))

  -- `detectExceptions` reports lateness exactly where the state is neither delivered nor cancelled and
  -- its `lastUpdatedAt` is after the epoch and more than two hours ago; a stale location exactly
  -- where the last event of type `location_updated` is more than 45 minutes old; and an anomaly exactly
  -- where the last two such events with a position are a jump apart and less than ten minutes. The
  -- flag tells whether there is any, and the severity is 3 where lateness or an anomaly is reported,
  -- 2 where only staleness is, and 0 where none is.
  pub detect_exceptions_causes :
      (s : ShipmentState C) (es : List (TrackingEvent C D)) (now : ℕ)
      → let r = detect_exceptions is_jump s es now in
        let critical = reports overdue r.reasons || reports location_anomaly r.reasons in
        ((reports overdue r.reasons ≡ true) ↔ IsOverdue s now)
        × ((reports stale_location r.reasons ≡ true) ↔ IsStale es now)
        × ((reports location_anomaly r.reasons ≡ true) ↔ IsJump is_jump es)
        × (r.is_exception ≡ (critical || reports stale_location r.reasons))
        × (r.highest_severity
            ≡ (if critical then 3 else if reports stale_location r.reasons then 2 else 0))
  detect_exceptions_causes s es now =
      let (late, stale, jump, flag, severity) = detect_exceptions-IsReport s es now in
      (
        (λ e. is_overdue-IsOverdue s now (sym late ∙ e), λ c. late ∙ IsOverdue-is_overdue s now c),
        (λ e. is_stale-IsStale es now (sym stale ∙ e), λ c. stale ∙ IsStale-is_stale es now c),
        (λ e. anomaly-IsJump is_jump es (sym jump ∙ e), λ c. jump ∙ IsJump-anomaly is_jump es c),
        rw (late, stale, jump) flag,
        rw (late, stale, jump) severity,
      )

  -- On the state that `reduceEvents` gives for the same events and time, the overdue check agrees
  -- with its late detection, where the newest event has a time after the epoch.
  pub overdue_iff_late :
      (shipment : String) (es : List (TrackingEvent C D)) (now : ℕ)
      → 0 < (reduce_events shipment es now).last_updated_at
      → let s = reduce_events shipment es now in
        reports overdue (detect_exceptions is_jump s es now).reasons ≡ s.is_late
  unfolding is_overdue
  overdue_iff_late shipment es now h =
      let s = reduce_events shipment es now in
      (detect_exceptions-IsReport s es now).0
      ∙ ground (arith, reduce_events-Describes shipment es now)
