-- ===== src/Tracking/Log/Append.antt =====
-- `appendEvent` extends the chain (engines/tracking/event-log.ts).
use mathlib.Core.List.{map-append}
use pilots_hq.Prelude.{
  ℕ, ◌+◌, ◌<◌, ◌≡◌, ◌≢◌, refl, ap, ◌∙◌, String, false, some, List, [], ◌∷◌, ◌++◌, map, arith,
  str_eq, eq_iff, if◌then◌else◌, length-append, append-nil,
}
use pilots_hq.Tracking.Types.{EventType}
use pilots_hq.Tracking.Log.{
  content, EventRow, Content, Payload, valid, genesis, get_last?, row_to_event, rows_of,
  order_by_time, read_previous, new_row, write_hash, find_row, replay_events, hash_or_genesis,
  compute_event_hash, append_event, verify_event_chain,
}
use pilots_hq.Tracking.Log.Chain.{
  IsChain, chain_end, IsChain-append, verify_from-IsChain, verify_from-valid,
}

module _ {C D : Type 0} where
  -- Every row is older than `now`.
  abbrev pub AllBefore : ℕ → List (EventRow C D) → Type 0
  AllBefore now [] = Unit
  AllBefore now (r ∷ rs) = (r.created_at < now) × AllBefore now rs

  abbrev pub StartsAfter : ℕ → List (EventRow C D) → Type 0
  StartsAfter t [] = Unit
  StartsAfter t (r ∷ rs) = t < r.created_at

  -- The times rise from row to row.
  abbrev pub IsRising : List (EventRow C D) → Type 0
  IsRising [] = Unit
  IsRising (r ∷ rs) = StartsAfter r.created_at rs × IsRising rs

  -- No row has the id.
  abbrev pub IsFresh : String → List (EventRow C D) → Type 0
  IsFresh id [] = Unit
  IsFresh id (r ∷ rs) = (str_eq r.id id ≡ false) × IsFresh id rs

  pub order_by_time-IsRising : (rs : List (EventRow C D)) → IsRising rs → order_by_time rs ≡ rs
  unfolding order_by_time
  order_by_time-IsRising [] h = refl
  order_by_time-IsRising (r ∷ []) h = refl
  order_by_time-IsRising (r ∷ x ∷ rs) h = rw (order_by_time-IsRising (x ∷ rs) h.1) (ground arith)

  pub IsRising-append :
      (rs : List (EventRow C D)) (r : EventRow C D)
      → IsRising rs
      → AllBefore r.created_at rs
      → IsRising (rs ++ r ∷ [])
  IsRising-append [] r h b = (tt, tt)
  IsRising-append (x ∷ []) r h b = ground arith
  IsRising-append (x ∷ y ∷ rs) r h b = (h.0, IsRising-append (y ∷ rs) r h.1 b.1)

  pub rows_of-append :
      (s : String) (rs qs : List (EventRow C D))
      → rows_of s (rs ++ qs) ≡ rows_of s rs ++ rows_of s qs
  unfolding rows_of
  rows_of-append s [] qs = refl
  rows_of-append s (r ∷ rs) qs = ground (arith, rows_of-append s rs qs)

  pub write_hash-IsFresh :
      (h id : String) (rs : List (EventRow C D)) (r : EventRow C D)
      → IsFresh id rs
      → r.id ≡ id
      → write_hash h id (rs ++ r ∷ []) ≡ rs ++ record r { event_hash = some h } ∷ []
  unfolding write_hash
  write_hash-IsFresh h id [] r f e = ground (arith, eq_iff r.id id)
  write_hash-IsFresh h id (x ∷ rs) r f e = ground (arith, write_hash-IsFresh h id rs r f.1 e)

  pub find_row-IsFresh :
      (id : String) (rs : List (EventRow C D)) (r : EventRow C D)
      → IsFresh id rs
      → r.id ≡ id
      → find_row id (rs ++ r ∷ []) ≡ some r
  unfolding find_row
  find_row-IsFresh id [] r f e = ground (arith, eq_iff r.id id)
  find_row-IsFresh id (x ∷ rs) r f e = ground (arith, find_row-IsFresh id rs r f.1 e)

module _ {C D : Type 0} (digest : Content C D → String) where
  newest_hash :
      (p : String) (r : EventRow C D) (rs : List (EventRow C D))
      → IsChain digest p (map row_to_event (r ∷ rs))
      → (q : EventRow C D) × (get_last? (r ∷ rs) ≡ some q)
        × (q.event_hash ≡ some (chain_end digest p (map row_to_event (r ∷ rs))))
  unfolding row_to_event
  newest_hash p r [] c = (r, refl, c.0)
  newest_hash p r (x ∷ rs) c = newest_hash (compute_event_hash digest (row_to_event r) p) x rs c.1

  pub read_rows :
      (s : String) (table rs : List (EventRow C D))
      → order_by_time (rows_of s table) ≡ rs
      → IsChain digest genesis (map row_to_event rs)
      → read_previous table s ≡ chain_end digest genesis (map row_to_event rs)
  unfolding read_previous
  read_rows s table [] o c = rw o refl
  read_rows s table (r ∷ rs) o c =
      let (q, last, hash) = newest_hash genesis r rs c in
      rw (o, last) (rw (hash, hash_or_genesis) refl)

  -- The row that `appendEvent` leaves at the end of the table.
  abbrev pub appended :
      List (EventRow C D) → String → ℕ → String → EventType → Payload C D → EventRow C D
  appended table id now s type p =
      let r = new_row id now s type p in
      record r {
        event_hash = some (compute_event_hash digest (row_to_event r) (read_previous table s));
      }

  append_event-IsFresh :
      (table : List (EventRow C D)) (id : String) (now : ℕ) (s : String) (type : EventType)
      (p : Payload C D)
      → IsFresh id table
      → append_event digest table id now s type p ≡ (
        table ++ appended table id now s type p ∷ [],
        some (row_to_event (appended table id now s type p)),
      )
  unfolding append_event
  append_event-IsFresh table id now s type p f =
      let r = new_row id now s type p in
      let h = compute_event_hash digest (row_to_event r) (read_previous table s) in
      rw (
        write_hash-IsFresh h id table r f (unfold new_row in refl),
        find_row-IsFresh id table (appended table id now s type p) f (unfold new_row in refl),
      )

  rows_of-appended :
      (table : List (EventRow C D)) (id : String) (now : ℕ) (s o : String) (type : EventType)
      (p : Payload C D)
      → IsFresh id table
      → rows_of o (append_event digest table id now s type p).0
        ≡ rows_of o table ++ (if str_eq s o then appended table id now s type p ∷ [] else [])
  rows_of-appended table id now s o type p f =
      rw
        (
          append_event-IsFresh table id now s type p f,
          rows_of-append o table (appended table id now s type p ∷ []),
        )
        (unfold rows_of new_row in refl)

  -- Appending to one shipment leaves the events of every other as they were.
  pub replay_events-append_other :
      (table : List (EventRow C D)) (id : String) (now : ℕ) (s o : String) (type : EventType)
      (p : Payload C D)
      → IsFresh id table
      → s ≢ o
      → replay_events (append_event digest table id now s type p).0 o ≡ replay_events table o
  unfolding replay_events
  replay_events-append_other table id now s o type p f d =
      ground (
        arith,
        rows_of-appended table id now s o type p f,
        eq_iff s o,
        append-nil (rows_of o table),
      )

  pub replay_events-appended :
      (table : List (EventRow C D)) (id : String) (now : ℕ) (s : String) (type : EventType)
      (p : Payload C D)
      → IsRising (rows_of s table)
      → AllBefore now (rows_of s table)
      → IsFresh id table
      → replay_events (append_event digest table id now s type p).0 s
        ≡ replay_events table s ++ row_to_event (appended table id now s type p) ∷ []
  unfolding replay_events
  replay_events-appended table id now s type p rising before f =
      let r = appended table id now s type p in
      let at_end : rows_of s (append_event digest table id now s type p).0
          ≡ rows_of s table ++ r ∷ [] =
        ground (arith, rows_of-appended table id now s s type p f, eq_iff s s) in
      let sorted : order_by_time (rows_of s table ++ r ∷ []) ≡ rows_of s table ++ r ∷ [] =
        order_by_time-IsRising _
          (IsRising-append (rows_of s table) r rising (unfold new_row in before)) in
      rw (at_end, sorted, order_by_time-IsRising (rows_of s table) rising)
        (map-append _ (rows_of s table) (r ∷ []))

  appended-hash :
      (table : List (EventRow C D)) (id : String) (now : ℕ) (s : String) (type : EventType)
      (p : Payload C D)
      → IsChain digest genesis (replay_events table s)
      → (row_to_event (appended table id now s type p)).event_hash
        ≡ some (
            compute_event_hash digest
              (row_to_event (appended table id now s type p))
              (chain_end digest genesis (replay_events table s)))
  unfolding replay_events row_to_event compute_event_hash
  appended-hash table id now s type p c =
      ap (λ h. some (digest (content (row_to_event (new_row id now s type p)) h)))
        (read_rows s table (order_by_time (rows_of s table)) refl c)

  -- Appending keeps a log that verifies: where the times of the shipment's rows rise strictly in the
  -- order of the table, the id is fresh and the time is after those of these rows, the new log
  -- verifies too, with one event more.
  pub verify_event_chain-append_event :
      (table : List (EventRow C D)) (id : String) (now : ℕ) (s : String) (type : EventType)
      (p : Payload C D) (n : ℕ)
      → IsRising (rows_of s table)
      → AllBefore now (rows_of s table)
      → IsFresh id table
      → verify_event_chain digest table s ≡ valid n
      → verify_event_chain digest (append_event digest table id now s type p).0 s ≡ valid (n + 1)
  unfolding verify_event_chain
  verify_event_chain-append_event table id now s type p n rising before f v =
      let es = replay_events table s in
      let e = row_to_event (appended table id now s type p) in
      let (c, count) = verify_from-valid digest genesis 0 n es v in
      let longer =
        IsChain-append digest genesis es (e ∷ []) c (appended-hash table id now s type p c, tt) in
      rw (replay_events-appended table id now s type p rising before f) (
        verify_from-IsChain digest genesis 0 (es ++ e ∷ []) longer
        ∙ ap valid (omega (arith, length-append es (e ∷ []))))
