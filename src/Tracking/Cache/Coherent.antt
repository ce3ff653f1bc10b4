-- ===== src/Tracking/Cache/Coherent.antt =====
-- What readers of the cache see (engines/tracking/commands.ts and queries.ts).
use pilots_hq.Prelude.{
  ℕ, ◌+◌, ◌≡◌, ◌⊎◌, inl, inr, refl, ap, ◌∙◌, String, Bool, true, false, Option, none, some, List,
  [], ◌∷◌, ◌++◌, arith, length, str_eq, eq_iff, Option-cases, Bool-cases, length-append,
}
use pilots_hq.Tracking.Types.{created, EventType, TrackingEvent, ShipmentState}
use pilots_hq.Tracking.Reduce.{reduce_events}
use pilots_hq.Tracking.Log.{rows_of, row_to_event, new_row, Content, Payload, replay_events}
use pilots_hq.Tracking.Reduce.Spec.{reduce_events-Describes, last_or_append}
use pilots_hq.Tracking.Log.Append.{
  IsFresh, IsRising, AllBefore, appended, replay_events-appended, replay_events-append_other,
}
use pilots_hq.Tracking.Cache.{Store, record_event, read_cache, from_log, get_current_state}

module _ {C D : Type 0} (encode : ShipmentState C → String)
    (decode : String → Option (ShipmentState C)) where
  -- What is cached for `s` reads as its log reduced, at some time.
  abbrev pub IsCoherent : String → Store C D → Type 0
  IsCoherent s st =
      (text : String)
      → st.cache s ≡ some text
      → (t : ℕ) × (decode text ≡ some (reduce_events s (replay_events st.table s) t))

  abbrev pub IsCurrent : String → Store C D → Option (ShipmentState C) → Type 0
  IsCurrent s st r =
      ((r ≡ none) × (replay_events st.table s ≡ []))
      ⊎ ((t : ℕ) × (r ≡ some (reduce_events s (replay_events st.table s) t)))

  read_cache-hit :
      (up : Bool) (s : String) (st : Store C D) (state : ShipmentState C)
      → IsCoherent s st
      → read_cache encode decode up s st ≡ some state
      → (t : ℕ) × (state ≡ reduce_events s (replay_events st.table s) t)
  unfolding read_cache
  read_cache-hit false s st state c hit = absurd (cc hit)
  read_cache-hit true s st state c hit = elim (Option-cases (st.cache s)) [
    | inl none_there ↦ absurd (ground arith)
    | inr (text, there) ↦ let (t, e) = c text there in (t, ground arith)
  ]

  read_cache-miss :
      (up : Bool) (s : String) (st : Store C D)
      → st.cache s ≡ none
      → read_cache encode decode up s st ≡ none
  unfolding read_cache
  read_cache-miss false s st e = refl
  read_cache-miss true s st e = rw e

  from_log-append :
      (up : Bool) (now : ℕ) (s : String) (es : List (TrackingEvent C D)) (e : TrackingEvent C D)
      (st : Store C D)
      → (from_log encode decode up now s (es ++ e ∷ []) st).1
        ≡ some (reduce_events s (es ++ e ∷ []) now)
  unfolding from_log
  from_log-append up now s [] e st = refl
  from_log-append up now s (x ∷ es) e st = refl

  from_log-IsCurrent :
      (up : Bool) (now : ℕ) (s : String) (es : List (TrackingEvent C D)) (st : Store C D)
      → replay_events st.table s ≡ es
      → IsCurrent s st (from_log encode decode up now s es st).1
  unfolding from_log
  from_log-IsCurrent up now s [] st e = inl (refl, e)
  from_log-IsCurrent up now s (x ∷ es) st e = inr (now, rw e)

  from_log-IsCoherent :
      (up : Bool) (now : ℕ) (s o : String) (es : List (TrackingEvent C D)) (st : Store C D)
      → replay_events st.table s ≡ es
      → ((x : ShipmentState C) → decode (encode x) ≡ some x)
      → IsCoherent o st
      → IsCoherent o (from_log encode decode up now s es st).0
  unfolding from_log
  from_log-IsCoherent up now s o [] st e round_trip c = c
  from_log-IsCoherent false now s o (x ∷ es) st e round_trip c = c
  from_log-IsCoherent true now s o (x ∷ es) st e round_trip c = λ text there.
      elim (Bool-cases (str_eq s o)) [
        | inl same ↦ (now, ground (arith, eq_iff s o, round_trip (reduce_events s (x ∷ es) now)))
        | inr other ↦ c text (ground arith)
      ]

  -- Where the cache is coherent, a reader gets the reduction of the whole log at some time, or
  -- nothing where the log is empty, whether Redis answers or not.
  pub get_current_state-IsCurrent :
      (up up' : Bool) (now : ℕ) (s : String) (st : Store C D)
      → IsCoherent s st
      → IsCurrent s st (get_current_state encode decode up up' now s st).1
  unfolding get_current_state
  get_current_state-IsCurrent up up' now s st c =
      elim (Option-cases (read_cache encode decode up s st)) [
        | inl miss ↦
            rw (miss, get_current_state)
              (from_log-IsCurrent up' now s (replay_events st.table s) st refl)
        | inr (state, hit) ↦
            rw (hit, get_current_state)
              (let (t, e) = read_cache-hit up s st state c hit in inr (t, ap some e))
      ]

  -- Reading keeps the cache coherent, for every shipment.
  pub get_current_state-IsCoherent :
      (up up' : Bool) (now : ℕ) (s o : String) (st : Store C D)
      → ((x : ShipmentState C) → decode (encode x) ≡ some x)
      → IsCoherent o st
      → IsCoherent o (get_current_state encode decode up up' now s st).0
  unfolding get_current_state
  get_current_state-IsCoherent up up' now s o st round_trip c =
      elim (Option-cases (read_cache encode decode up s st)) [
        | inl miss ↦
            rw (miss, get_current_state)
              (from_log-IsCoherent up' now s o (replay_events st.table s) st refl round_trip c)
        | inr (state, hit) ↦ rw (hit, get_current_state) c
      ]

  get_current_state-miss :
      (up up' : Bool) (now : ℕ) (s : String) (st : Store C D) (es : List (TrackingEvent C D))
      (e : TrackingEvent C D)
      → st.cache s ≡ none
      → replay_events st.table s ≡ es ++ e ∷ []
      → (get_current_state encode decode up up' now s st).1
        ≡ some (reduce_events s (es ++ e ∷ []) now)
  unfolding get_current_state
  get_current_state-miss up up' now s st es e miss log =
      rw (read_cache-miss up s st miss, get_current_state)
        (rw log (from_log-append up' now s es e st))

module _ {C D : Type 0} (digest : Content C D → String) (encode : ShipmentState C → String)
    (decode : String → Option (ShipmentState C)) where
  record_event-keeps :
      (st : Store C D) (id : String) (now : ℕ) (s o : String) (type : EventType) (p : Payload C D)
      → IsFresh id st.table
      → IsCoherent encode decode o st
      → IsCoherent encode decode o (record_event digest true st id now s type p).0
  unfolding record_event
  record_event-keeps st id now s o type p fresh c text there = elim (Bool-cases (str_eq s o)) [
    | inl same ↦ absurd (ground arith)
    | inr other ↦
        rw
          (replay_events-append_other digest st.table id now s o type p fresh
            (λ e. ground (arith, eq_iff s o)))
          (c text (ground arith))
  ]

  -- Recording an event with a fresh id, while Redis answers, takes the shipment's entry out of the
  -- cache and leaves the logs of the other shipments as they are; so a cache that was coherent for a
  -- shipment, this one or another, is coherent for it afterwards.
  pub record_event-IsCoherent :
      (st : Store C D) (id : String) (now : ℕ) (s o : String) (type : EventType) (p : Payload C D)
      → IsFresh id st.table
      → IsCoherent encode decode o st
      → let st' = (record_event digest true st id now s type p).0 in
        (st'.cache s ≡ none)
        × ((s ≡ o) ⊎ (replay_events st'.table o ≡ replay_events st.table o))
        × IsCoherent encode decode o st'
  unfolding record_event
  record_event-IsCoherent st id now s o type p fresh c = (
    ground (arith, eq_iff s s),
    elim (Bool-cases (str_eq s o)) [
      | inl same ↦ inl (ground (arith, eq_iff s o))
      | inr other ↦ inr (
          replay_events-append_other digest st.table id now s o type p fresh
            (λ e. ground (arith, eq_iff s o)))
    ],
    record_event-keeps st id now s o type p fresh c,
  )

  -- A reader that comes after a writer, with Redis answering the writer, gets a state with the new
  -- event, where the times of the shipment's rows rise strictly in the order of the table, the
  -- writer's clock is after all of them and the id is fresh: the event's type is the status, its time
  -- the last one, and all events up to it are counted.
  pub read_own_write :
      (st : Store C D) (id : String) (now : ℕ) (s : String) (type : EventType) (p : Payload C D)
      (up up' : Bool) (later : ℕ)
      → IsRising (rows_of s st.table)
      → AllBefore now (rows_of s st.table)
      → IsFresh id st.table
      → let st' = (record_event digest true st id now s type p).0 in
        (state : ShipmentState C) × ((get_current_state encode decode up up' later s st').1
          ≡ some state)
        × (state.status ≡ type)
        × (state.last_updated_at ≡ now)
        × (state.event_count ≡ length (replay_events st.table s) + 1)
  unfolding record_event row_to_event new_row
  read_own_write st id now s type p up up' later rising before fresh =
      let es = replay_events st.table s in
      let e = row_to_event (appended digest st.table id now s type p) in
      let d = reduce_events-Describes s (es ++ e ∷ []) later in
      (
        reduce_events s (es ++ e ∷ []) later,
        get_current_state-miss encode decode up up' later s _ es e (ground (arith, eq_iff s s))
            (replay_events-appended digest st.table id now s type p rising before fresh),
        d.last_status ∙ last_or_append (λ x. x.event_type) created es e,
        d.last_time ∙ last_or_append (λ x. x.created_at) 0 es e,
        d.counted ∙ length-append es (e ∷ []),
      )
