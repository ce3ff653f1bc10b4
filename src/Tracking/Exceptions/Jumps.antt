-- ===== src/Tracking/Exceptions/Jumps.antt =====
-- What the location check looks for, said of the events (engines/tracking/exception-detector.ts).
use pilots_hq.Prelude.{
  ℕ, ◌+◌, ◌<◌, ◌≡◌, ◌≢◌, ◌⊎◌, inl, inr, refl, sym, ap, subst, ◌∙◌, Bool, true, none, some, List, [],
  ◌∷◌, ◌++◌, arith, Bool-cases, Option-cases,
}
use pilots_hq.Tracking.Types.{location_updated, TrackingEvent}
use pilots_hq.Tracking.Exceptions.{is_location, positions, is_anomaly}
use pilots_hq.Tracking.Exceptions.Causes.{is_location-true, is_location-false}

cons-inj : {A : Type 0} {x y : A} {xs ys : List A} → x ∷ xs ≡ y ∷ ys → (x ≡ y) × (xs ≡ ys)
cons-inj {A} {x} {y} {xs} {ys} e =
    (ap (λ l. elim l [ [] ↦ x | z ∷ zs ↦ z ]) e, ap (λ l. elim l [ [] ↦ xs | z ∷ zs ↦ zs ]) e)

module _ {C D : Type 0} where
  -- an event with a location that has this position
  abbrev pub IsAt : TrackingEvent C D → ℕ × C × C → Type 0
  IsAt e (t, a, b) =
      (e.event_type ≡ location_updated) × (e.lat ≡ some a) × (e.lon ≡ some b) × (e.created_at ≡ t)

  -- an event that has no location, or not all of its position
  abbrev pub IsNowhere : TrackingEvent C D → Type 0
  IsNowhere e = (e.event_type ≢ location_updated) ⊎ (e.lat ≡ none) ⊎ (e.lon ≡ none)

  abbrev pub AllNowhere : List (TrackingEvent C D) → Type 0
  AllNowhere [] = Unit
  AllNowhere (e ∷ es) = IsNowhere e × AllNowhere es

  IsAt-cases : (e : TrackingEvent C D) → IsNowhere e ⊎ ((p : ℕ × C × C) × IsAt e p)
  IsAt-cases e = elim (Bool-cases (is_location e.event_type)) [
    | inr other ↦ inl (inl (is_location-false e.event_type other))
    | inl here ↦ elim (Option-cases e.lat) [
      | inl n ↦ inl (inr (inl n))
      | inr (a, la) ↦ elim (Option-cases e.lon) [
        | inl n ↦ inl (inr (inr n))
        | inr (b, lb) ↦
            inr ((e.created_at, a, b), (is_location-true e.event_type here, la, lb, refl))
      ]
    ]
  ]

  positions-nowhere :
      (e : TrackingEvent C D) (es : List (TrackingEvent C D))
      → IsNowhere e
      → positions (e ∷ es) ≡ positions es
  unfolding positions
  positions-nowhere e es (inl other) = elim (Bool-cases (is_location e.event_type)) [
    | inl here ↦ absurd (other (is_location-true e.event_type here))
    | inr none_here ↦ ground (arith, none_here)
  ]
  positions-nowhere e es (inr (inl n)) = rw (positions, n) refl
  positions-nowhere e es (inr (inr n)) = ground (arith, n)

  positions-at :
      (e : TrackingEvent C D) (p : ℕ × C × C) (es : List (TrackingEvent C D))
      → IsAt e p
      → positions (e ∷ es) ≡ p ∷ positions es
  unfolding positions
  positions-at e (t, a, b) es (here, la, lb, time) =
      rw (positions, la) (rw lb (rw here (ap (λ t. (t, a, b) ∷ positions es) time)))

  positions-none : (es : List (TrackingEvent C D)) → AllNowhere es → positions es ≡ []
  unfolding positions
  positions-none [] h = refl
  positions-none (e ∷ es) h = positions-nowhere e es h.0 ∙ positions-none es h.1

  AllNowhere-positions : (es : List (TrackingEvent C D)) → positions es ≡ [] → AllNowhere es
  AllNowhere-positions [] h = tt
  AllNowhere-positions (e ∷ es) h = elim (IsAt-cases e) [
    | inl n ↦ (n, AllNowhere-positions es (sym (positions-nowhere e es n) ∙ h))
    | inr (p, at) ↦ absurd (ground (arith, sym (positions-at e p es at) ∙ h))
  ]

  positions-append :
      (xs ys : List (TrackingEvent C D)) → positions (xs ++ ys) ≡ positions xs ++ positions ys
  positions-append [] ys = unfold positions in refl
  positions-append (e ∷ xs) ys = elim (IsAt-cases e) [
    | inl n ↦
        positions-nowhere e (xs ++ ys) n
        ∙ positions-append xs ys
        ∙ ap (λ t. t ++ positions ys) (sym (positions-nowhere e xs n))
    | inr (p, at) ↦
        positions-at e p (xs ++ ys) at
        ∙ ap (λ t. p ∷ t) (positions-append xs ys)
        ∙ ap (λ t. t ++ positions ys) (sym (positions-at e p xs at))
  ]

  -- where a position comes from
  record Source (es : List (TrackingEvent C D)) (ps : List (ℕ × C × C)) (p : ℕ × C × C)
      (qs : List (ℕ × C × C)) : Type 0 where
    before : List (TrackingEvent C D)
    event : TrackingEvent C D
    after : List (TrackingEvent C D)
    is_split : es ≡ before ++ event ∷ after
    at : IsAt event p
    positions_before : positions before ≡ ps
    positions_after : positions after ≡ qs

  Source-cons :
      (e : TrackingEvent C D) (es : List (TrackingEvent C D)) (ps ps' : List (ℕ × C × C))
      (p : ℕ × C × C) (qs : List (ℕ × C × C))
      → ((xs : List (TrackingEvent C D)) → positions xs ≡ ps → positions (e ∷ xs) ≡ ps')
      → Source es ps p qs
      → Source (e ∷ es) ps' p qs
  Source-cons e es ps ps' p qs longer s = record {
    before = e ∷ s.before;
    event = s.event;
    after = s.after;
    is_split = ap (λ t. e ∷ t) s.is_split;
    at = s.at;
    positions_before = longer s.before s.positions_before;
    positions_after = s.positions_after;
  }

  positions-Source :
      (es : List (TrackingEvent C D)) (ps : List (ℕ × C × C)) (p : ℕ × C × C)
      (qs : List (ℕ × C × C))
      → positions es ≡ ps ++ p ∷ qs
      → Source es ps p qs
  positions-Source [] [] p qs h = absurd (unfold positions in ground (arith, h))
  positions-Source [] (x ∷ ps) p qs h = absurd (unfold positions in ground (arith, h))
  positions-Source (e ∷ es) [] p qs h = elim (IsAt-cases e) [
    | inl n ↦
        Source-cons e es [] [] p qs (λ xs k. positions-nowhere e xs n ∙ k)
          (positions-Source es [] p qs (sym (positions-nowhere e es n) ∙ h))
    | inr (x, at) ↦
        let (same, rest) = cons-inj (sym (positions-at e x es at) ∙ h) in
        record {
          before = [];
          event = e;
          after = es;
          is_split = refl;
          at = subst (IsAt e) same at;
          positions_before = unfold positions in refl;
          positions_after = rest;
        }
  ]
  positions-Source (e ∷ es) (y ∷ ps) p qs h = elim (IsAt-cases e) [
    | inl n ↦
        Source-cons e es (y ∷ ps) (y ∷ ps) p qs (λ xs k. positions-nowhere e xs n ∙ k)
          (positions-Source es (y ∷ ps) p qs (sym (positions-nowhere e es n) ∙ h))
    | inr (x, at) ↦
        let (same, rest) = cons-inj (sym (positions-at e x es at) ∙ h) in
        Source-cons e es ps (y ∷ ps) p qs
          (λ xs k. positions-at e x xs at ∙ ap (λ t. x ∷ t) k ∙ ap (λ t. t ∷ ps) same)
          (positions-Source es ps p qs rest)
  ]

module _ {C : Type 0} (is_jump : C × C → C × C → Bool) where
  abbrev LastTwo : List (ℕ × C × C) → Type 0
  LastTwo ps =
      (xs : List (ℕ × C × C)) × (p : ℕ × C × C) × (q : ℕ × C × C) × (ps ≡ xs ++ p ∷ q ∷ [])
      × (is_jump (p.1, p.2) (q.1, q.2) ≡ true)
      × (q.0 < p.0 + 600000)

  is_anomaly-LastTwo : (ps : List (ℕ × C × C)) → is_anomaly is_jump ps ≡ true → LastTwo ps
  unfolding is_anomaly
  is_anomaly-LastTwo [] h = absurd (ground (arith, h))
  is_anomaly-LastTwo (p ∷ []) h = absurd (ground (arith, h))
  is_anomaly-LastTwo ((t, a, b) ∷ (t', a', b') ∷ []) h =
      ([], (t, a, b), (t', a', b'), refl, ground (arith, h), ground (arith, h))
  is_anomaly-LastTwo (p ∷ q ∷ r ∷ ps) h =
      let (xs, x, y, e, far, soon) = is_anomaly-LastTwo (q ∷ r ∷ ps) h in
      (p ∷ xs, x, y, ap (λ t. p ∷ t) e, far, soon)

  is_anomaly-last :
      (xs : List (ℕ × C × C)) (p q : ℕ × C × C)
      → is_jump (p.1, p.2) (q.1, q.2) ≡ true
      → q.0 < p.0 + 600000
      → is_anomaly is_jump (xs ++ p ∷ q ∷ []) ≡ true
  unfolding is_anomaly
  is_anomaly-last [] (t, a, b) (t', a', b') far soon = ground (arith, far, soon)
  is_anomaly-last (x ∷ []) p q far soon = is_anomaly-last [] p q far soon
  is_anomaly-last (x ∷ y ∷ []) p q far soon = is_anomaly-last (y ∷ []) p q far soon
  is_anomaly-last (x ∷ y ∷ z ∷ xs) p q far soon = is_anomaly-last (y ∷ z ∷ xs) p q far soon

module _ {C D : Type 0} (is_jump : C × C → C × C → Bool) where
  -- the last two positions are a jump apart, and less than ten minutes
  pub record IsJump (es : List (TrackingEvent C D)) : Type 0 where
    pub before : List (TrackingEvent C D)
    pub between : List (TrackingEvent C D)
    pub after : List (TrackingEvent C D)
    pub first : TrackingEvent C D
    pub second : TrackingEvent C D
    pub first_place : ℕ × C × C
    pub second_place : ℕ × C × C
    pub is_split : es ≡ before ++ first ∷ (between ++ second ∷ after)
    pub first_at : IsAt first first_place
    pub second_at : IsAt second second_place
    pub none_between : AllNowhere between
    pub none_after : AllNowhere after
    pub is_far : is_jump (first_place.1, first_place.2) (second_place.1, second_place.2) ≡ true
    pub is_soon : second_place.0 < first_place.0 + 600000

  pub anomaly-IsJump :
      (es : List (TrackingEvent C D)) → is_anomaly is_jump (positions es) ≡ true → IsJump es
  anomaly-IsJump es h =
      let (xs, p, q, e, far, soon) = is_anomaly-LastTwo is_jump (positions es) h in
      let s = positions-Source es xs p (q ∷ []) e in
      let u = positions-Source s.after [] q [] s.positions_after in
      record {
        before = s.before;
        between = u.before;
        after = u.after;
        first = s.event;
        second = u.event;
        first_place = p;
        second_place = q;
        is_split = s.is_split ∙ ap (λ t. s.before ++ s.event ∷ t) u.is_split;
        first_at = s.at;
        second_at = u.at;
        none_between = AllNowhere-positions u.before u.positions_before;
        none_after = AllNowhere-positions u.after u.positions_after;
        is_far = far;
        is_soon = soon;
      }

  pub IsJump-anomaly :
      (es : List (TrackingEvent C D)) → IsJump es → is_anomaly is_jump (positions es) ≡ true
  IsJump-anomaly es j =
      let tail : positions (j.between ++ j.second ∷ j.after) ≡ j.second_place ∷ [] =
        positions-append j.between (j.second ∷ j.after)
        ∙ ap (λ t. t ++ positions (j.second ∷ j.after)) (positions-none j.between j.none_between)
        ∙ positions-at j.second j.second_place j.after j.second_at
        ∙ ap (λ t. j.second_place ∷ t) (positions-none j.after j.none_after) in
      let all : positions es ≡ positions j.before ++ j.first_place ∷ j.second_place ∷ [] =
        ap positions j.is_split
        ∙ positions-append j.before (j.first ∷ (j.between ++ j.second ∷ j.after))
        ∙ ap (λ t. positions j.before ++ t)
            (positions-at j.first j.first_place (j.between ++ j.second ∷ j.after) j.first_at
              ∙ ap (λ t. j.first_place ∷ t) tail) in
      rw all (
        is_anomaly-last is_jump (positions j.before) j.first_place j.second_place j.is_far
          j.is_soon)
