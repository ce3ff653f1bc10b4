-- ===== src/Tracking/Exceptions/Causes.antt =====
-- What the three checks look for, said of the events (engines/tracking/exception-detector.ts).
use pilots_hq.Prelude.{
  ℕ, ◌+◌, ◌<◌, ◌≡◌, ◌≢◌, inl, inr, refl, sym, ap, ◌∙◌, true, false, Option, none, some, List, [],
  ◌∷◌, ◌++◌, reverse, arith, Bool-cases, Option-cases, if◌then◌else◌,
}
use mathlib.Core.List.{reverse_aux}
use pilots_hq.Tracking.Types.{
  EventType, location_updated, delivered, cancelled, TrackingEvent, ShipmentState,
}
use pilots_hq.Tracking.Exceptions.{is_location, find_location, is_overdue, is_stale}

pub is_location-true : (t : EventType) → is_location t ≡ true → t ≡ location_updated
is_location-true t e = ground (arith, e)

pub is_location-false : (t : EventType) → is_location t ≡ false → t ≢ location_updated
is_location-false t e = ground (arith, e)

module _ {C : Type 0} where
  -- the state is open and its last event more than two hours old
  abbrev pub IsOverdue : ShipmentState C → ℕ → Type 0
  IsOverdue s now =
      (s.status ≢ delivered)
      × (s.status ≢ cancelled)
      × (0 < s.last_updated_at)
      × (s.last_updated_at + 7200000 < now)

  pub is_overdue-IsOverdue :
      (s : ShipmentState C) (now : ℕ) → is_overdue s now ≡ true → IsOverdue s now
  unfolding is_overdue
  is_overdue-IsOverdue s now e = ground (arith, e)

  pub IsOverdue-is_overdue :
      (s : ShipmentState C) (now : ℕ) → IsOverdue s now → is_overdue s now ≡ true
  unfolding is_overdue
  IsOverdue-is_overdue s now e = ground (arith, e)

module _ {C D : Type 0} where
  -- the last event of a list that has a location
  abbrev pub NoLocation : List (TrackingEvent C D) → Type 0
  NoLocation [] = Unit
  NoLocation (e ∷ es) = (e.event_type ≢ location_updated) × NoLocation es

  pub record LatestLocation (es : List (TrackingEvent C D)) (e : TrackingEvent C D) : Type 0 where
    pub before : List (TrackingEvent C D)
    pub after : List (TrackingEvent C D)
    pub is_split : es ≡ before ++ e ∷ after
    pub located : e.event_type ≡ location_updated
    pub none_after : NoLocation after

  or_else : Option (TrackingEvent C D) → Option (TrackingEvent C D) → Option (TrackingEvent C D)
  or_else none y = y
  or_else (some x) y = some x

  or_else_assoc :
      (x y z : Option (TrackingEvent C D)) → or_else (or_else x y) z ≡ or_else x (or_else y z)
  unfolding or_else
  or_else_assoc none y z = refl
  or_else_assoc (some x) y z = refl

  or_else-none : (x : Option (TrackingEvent C D)) → or_else x none ≡ x
  unfolding or_else
  or_else-none none = refl
  or_else-none (some x) = refl

  only : TrackingEvent C D → Option (TrackingEvent C D)
  only e = if is_location e.event_type then some e else none

  -- the last event with a location, from the front
  last_location : List (TrackingEvent C D) → Option (TrackingEvent C D)
  last_location [] = none
  last_location (e ∷ es) = or_else (last_location es) (only e)

  find_location-cons :
      (e : TrackingEvent C D) (es : List (TrackingEvent C D))
      → find_location (e ∷ es) ≡ or_else (only e) (find_location es)
  unfolding find_location or_else only
  find_location-cons e es = ground arith

  find_location-reverse_aux :
      (xs r : List (TrackingEvent C D))
      → find_location (reverse_aux xs r) ≡ or_else (last_location xs) (find_location r)
  unfolding last_location or_else
  find_location-reverse_aux [] r = refl
  find_location-reverse_aux (x ∷ xs) r =
      find_location-reverse_aux xs (x ∷ r)
      ∙ ap (or_else (last_location xs)) (find_location-cons x r)
      ∙ sym (or_else_assoc (last_location xs) (only x) (find_location r))

  find_location-reverse :
      (xs : List (TrackingEvent C D)) → find_location (reverse xs) ≡ last_location xs
  unfolding find_location
  find_location-reverse xs = find_location-reverse_aux xs [] ∙ or_else-none (last_location xs)

  last_location-none : (es : List (TrackingEvent C D)) → last_location es ≡ none → NoLocation es
  unfolding last_location or_else only
  last_location-none [] h = tt
  last_location-none (e ∷ es) h = elim (Option-cases (last_location es)) [
    | inl n ↦ (is_location-false e.event_type (ground (arith, h, n)), last_location-none es n)
    | inr (x, there) ↦ absurd (ground (arith, h, there))
  ]

  NoLocation-last : (es : List (TrackingEvent C D)) → NoLocation es → last_location es ≡ none
  unfolding last_location or_else only
  NoLocation-last [] h = refl
  NoLocation-last (e ∷ es) h = elim (Bool-cases (is_location e.event_type)) [
    | inl here ↦ absurd (h.0 (is_location-true e.event_type here))
    | inr other ↦ rw (NoLocation-last es h.1, other) refl
  ]

  last_location-Latest :
      (es : List (TrackingEvent C D)) (x : TrackingEvent C D)
      → last_location es ≡ some x
      → LatestLocation es x
  unfolding last_location or_else only
  last_location-Latest [] x h = absurd (ground (arith, h))
  last_location-Latest (e ∷ es) x h = elim (Option-cases (last_location es)) [
    | inr (y, there) ↦
        let l = last_location-Latest es x (ground (arith, h, there)) in
        record {
          before = e ∷ l.before;
          after = l.after;
          is_split = ap (λ t. e ∷ t) l.is_split;
          located = l.located;
          none_after = l.none_after;
        }
    | inl n ↦ elim (Bool-cases (is_location e.event_type)) [
      | inl here ↦
          let same : e ≡ x = ground (arith, h, n, here) in
          record {
            before = [];
            after = es;
            is_split = ap (λ t. t ∷ es) same;
            located = rw (← same) (is_location-true e.event_type here);
            none_after = last_location-none es n;
          }
      | inr other ↦ absurd (ground (arith, h, n, other))
    ]
  ]

  last_location-split :
      (before after : List (TrackingEvent C D)) (x : TrackingEvent C D)
      → x.event_type ≡ location_updated
      → NoLocation after
      → last_location (before ++ x ∷ after) ≡ some x
  unfolding last_location or_else only
  last_location-split [] after x here none_after = rw (NoLocation-last after none_after, here) refl
  last_location-split (e ∷ before) after x here none_after =
      rw (last_location-split before after x here none_after) refl

  -- the last event with a location is more than 45 minutes old
  pub record IsStale (es : List (TrackingEvent C D)) (now : ℕ) : Type 0 where
    pub latest : TrackingEvent C D
    pub is_latest : LatestLocation es latest
    pub is_old : latest.created_at + 2700000 < now

  pub is_stale-IsStale :
      (es : List (TrackingEvent C D)) (now : ℕ) → is_stale es now ≡ true → IsStale es now
  unfolding is_stale
  is_stale-IsStale es now h = elim (Option-cases (find_location (reverse es))) [
    | inl n ↦ absurd (ground (arith, h, n))
    | inr (x, there) ↦ record {
      latest = x;
      is_latest = last_location-Latest es x (sym (find_location-reverse es) ∙ there);
      is_old = ground (arith, h, there);
    }
  ]

  pub IsStale-is_stale :
      (es : List (TrackingEvent C D)) (now : ℕ) → IsStale es now → is_stale es now ≡ true
  unfolding is_stale
  IsStale-is_stale es now h =
      let l = h.is_latest in
      let there : find_location (reverse es) ≡ some h.latest =
        find_location-reverse es
        ∙ ap last_location l.is_split
        ∙ last_location-split l.before l.after h.latest l.located l.none_after in
      rw (is_stale, there) (ground (arith, h.is_old))
