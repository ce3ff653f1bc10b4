-- ===== src/Tracking/Reduce/Spec.antt =====
-- What each field of a reduced state says of the events (engines/tracking/state-machine.ts).
use pilots_hq.Prelude.{
  ℕ, ◌+◌, ◌≤◌, ◌≡◌, refl, String, Bool, true, false, ◌||◌, ◌&&◌, Option, none, some, List, [], ◌∷◌,
  ◌++◌, arith, length, ltb,
}
use pilots_hq.Tracking.Types.{
  EventType, created, allocated, in_transit, location_updated, out_for_delivery, delivered,
  failed_delivery, exception, cancelled, TrackingEvent, ShipmentState,
}
use pilots_hq.Tracking.Reduce.{
  set_if_some, two_hours_ms, is_open, initial, apply_event, apply_events, detect_late,
  reduce_events,
}

abbrev pub when_delivered {ℓ} : {A : Type ℓ} → EventType → A → Option A
when_delivered delivered a = some a
when_delivered created a = none
when_delivered allocated a = none
when_delivered in_transit a = none
when_delivered location_updated a = none
when_delivered out_for_delivery a = none
when_delivered failed_delivery a = none
when_delivered exception a = none
when_delivered cancelled a = none

abbrev pub when_location {ℓ} : {A : Type ℓ} → EventType → Option A → Option A
when_location location_updated a = a
when_location delivered a = none
when_location created a = none
when_location allocated a = none
when_location in_transit a = none
when_location out_for_delivery a = none
when_location failed_delivery a = none
when_location exception a = none
when_location cancelled a = none

abbrev pub is_exception_type : EventType → Bool
is_exception_type exception = true
is_exception_type location_updated = false
is_exception_type delivered = false
is_exception_type created = false
is_exception_type allocated = false
is_exception_type in_transit = false
is_exception_type out_for_delivery = false
is_exception_type failed_delivery = false
is_exception_type cancelled = false

set_if_some_assoc {ℓ} :
    {A : Type ℓ} (a b c : Option A)
    → set_if_some a (set_if_some b c) ≡ set_if_some (set_if_some a b) c
set_if_some_assoc none b c = refl
set_if_some_assoc (some a) b c = refl

set_if_some-none {ℓ} : {A : Type ℓ} (a : Option A) → set_if_some a none ≡ a
set_if_some-none none = refl
set_if_some-none (some a) = refl

or_false : (b : Bool) → (b || false) ≡ b
or_false true = refl
or_false false = refl

module _ {C D : Type 0} where
  -- The value that the last event with one supplies.
  abbrev pub latest {ℓ} :
      {A : Type ℓ} → (TrackingEvent C D → Option A) → List (TrackingEvent C D) → Option A
  latest f [] = none
  latest f (e ∷ es) = set_if_some (latest f es) (f e)

  -- The value that the last event of all supplies.
  abbrev pub last_or {ℓ} : {A : Type ℓ} → (TrackingEvent C D → A) → A → List (TrackingEvent C D) → A
  last_or f a [] = a
  last_or f a (e ∷ es) = last_or f (f e) es

  pub last_or_append {ℓ} :
      {A : Type ℓ} (f : TrackingEvent C D → A) (a : A) (es : List (TrackingEvent C D))
      (e : TrackingEvent C D)
      → last_or f a (es ++ e ∷ []) ≡ f e
  last_or_append f a [] e = refl
  last_or_append f a (x ∷ es) e = last_or_append f (f x) es e

  abbrev pub any_exception : List (TrackingEvent C D) → Bool
  any_exception [] = false
  any_exception (e ∷ es) = is_exception_type e.event_type || any_exception es

  -- The state that results from a state and more events, without the late detection.
  pub record Extends (s : ShipmentState C) (es : List (TrackingEvent C D)) (t : ShipmentState C)
      : Type 0 where
    pub same_shipment : t.shipment_id ≡ s.shipment_id
    pub counted : t.event_count ≡ s.event_count + length es
    pub last_status : t.status ≡ last_or (λ e. e.event_type) s.status es
    pub last_time : t.last_updated_at ≡ last_or (λ e. e.created_at) s.last_updated_at es
    pub last_position :
        (t.last_lat ≡ set_if_some (latest (λ e. when_location e.event_type e.lat) es) s.last_lat)
        × (t.last_lon ≡ set_if_some (latest (λ e. when_location e.event_type e.lon) es) s.last_lon)
    pub last_delivery :
        t.delivered_at
        ≡ set_if_some (latest (λ e. when_delivered e.event_type e.created_at) es) s.delivered_at
    pub exception_seen : t.is_exception ≡ (any_exception es || s.is_exception)
    pub late_kept : t.is_late ≡ s.is_late

  apply_event-Extends :
      (s : ShipmentState C) (e : TrackingEvent C D) → Extends s (e ∷ []) (apply_event s e)
  unfolding apply_event
  apply_event-Extends s e = ground arith

  Extends-cons :
      (s t u : ShipmentState C) (e : TrackingEvent C D) (es : List (TrackingEvent C D))
      → Extends s (e ∷ []) t
      → Extends t es u
      → Extends s (e ∷ es) u
  Extends-cons s t u e es h k = ground (
    arith,
    set_if_some_assoc (latest (λ e. when_location e.event_type e.lat) es)
        (when_location e.event_type e.lat) s.last_lat,
    set_if_some_assoc (latest (λ e. when_location e.event_type e.lon) es)
        (when_location e.event_type e.lon) s.last_lon,
    set_if_some_assoc (latest (λ e. when_delivered e.event_type e.created_at) es)
        (when_delivered e.event_type e.created_at) s.delivered_at,
  )

  apply_events-Extends :
      (s : ShipmentState C) (es : List (TrackingEvent C D)) → Extends s es (apply_events s es)
  unfolding apply_events
  apply_events-Extends s [] = ground arith
  apply_events-Extends s (e ∷ es) =
      Extends-cons s (apply_event s e) _ e es (apply_event-Extends s e)
        (apply_events-Extends (apply_event s e) es)

  -- An account of a reduced state that mentions no intermediate state.
  pub record Describes (shipment : String) (es : List (TrackingEvent C D)) (now : ℕ)
      (t : ShipmentState C) : Type 0 where
    pub same_shipment : t.shipment_id ≡ shipment
    pub counted : t.event_count ≡ length es
    pub last_status : t.status ≡ last_or (λ e. e.event_type) created es
    pub last_time : t.last_updated_at ≡ last_or (λ e. e.created_at) 0 es
    pub last_position :
        (t.last_lat ≡ latest (λ e. when_location e.event_type e.lat) es)
        × (t.last_lon ≡ latest (λ e. when_location e.event_type e.lon) es)
    pub last_delivery : t.delivered_at ≡ latest (λ e. when_delivered e.event_type e.created_at) es
    pub exception_seen : t.is_exception ≡ any_exception es
    pub late : t.is_late ≡ (
        is_open (last_or (λ e. e.event_type) created es)
        && ltb (last_or (λ e. e.created_at) 0 es + two_hours_ms) now)

  -- The reduced state of any events: their number, the type and time of the last one, the last
  -- position and delivery that an event reports, whether an exception is among them, and lateness:
  -- the last event neither delivers nor cancels, and is over two hours older than `now`.
  pub reduce_events-Describes :
      (shipment : String) (es : List (TrackingEvent C D)) (now : ℕ)
      → Describes shipment es now (reduce_events shipment es now)
  unfolding initial detect_late reduce_events
  reduce_events-Describes shipment es now = ground (
    arith,
    apply_events-Extends (initial shipment) es,
    set_if_some-none (latest (λ e. when_location e.event_type e.lat) es),
    set_if_some-none (latest (λ e. when_location e.event_type e.lon) es),
    set_if_some-none (latest (λ e. when_delivered e.event_type e.created_at) es),
    or_false (any_exception es),
  )

  -- Reducing is incremental: the events may be applied in two batches.
  pub apply_events-append :
      (s : ShipmentState C) (xs ys : List (TrackingEvent C D))
      → apply_events s (xs ++ ys) ≡ apply_events (apply_events s xs) ys
  unfolding apply_events
  apply_events-append s [] ys = refl
  apply_events-append s (x ∷ xs) ys = apply_events-append (apply_event s x) xs ys

  -- Later detection only adds lateness, whatever the events: a shipment that is late stays late
  -- until its next event.
  pub reduce_events-late_mono :
      (shipment : String) (es : List (TrackingEvent C D)) (now later : ℕ)
      → now ≤ later
      → (reduce_events shipment es now).is_late ≡ true
      → (reduce_events shipment es later).is_late ≡ true
  reduce_events-late_mono shipment es now later h late =
      ground
        (arith, reduce_events-Describes shipment es now, reduce_events-Describes shipment es later)
