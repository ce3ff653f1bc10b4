-- ===== src/Tracking/Log/Race.antt =====
-- Two calls of `appendEvent` for one shipment, interleaved at their database statements
-- (engines/tracking/event-log.ts): nothing there makes the three statements one transaction.
use pilots_hq.Prelude.{
  ℕ, ◌+◌, ◌<◌, ◌≡◌, ◌≢◌, refl, sym, ap, ◌∙◌, String, Option, some, List, [], ◌∷◌, ◌++◌, arith,
  length, eq_iff, append_assoc, length-append,
}
use mathlib.Core.List.{map-append}
use mathlib.Core.Option.{some-injective}
use pilots_hq.Tracking.Types.{EventType, TrackingEvent}
use pilots_hq.Tracking.Log.{
  EventRow, Content, Payload, valid, tampered, genesis, row_to_event, rows_of, order_by_time,
  read_previous, new_row, write_hash, replay_events, compute_event_hash, verify_event_chain,
}
use pilots_hq.Tracking.Log.Chain.{
  IsChain, chain_end, IsChain-append, chain_end-append, verify_from-valid,
}
use pilots_hq.Tracking.Log.Tamper.{stops_at}
use pilots_hq.Tracking.Log.Append.{
  IsRising, AllBefore, IsFresh, order_by_time-IsRising, rows_of-append, read_rows,
}

-- What one call is given, and what the database gives to its row.
pub record Append (C D : Type 0) : Type 0 where
  pub id : String
  pub now : ℕ
  pub type : EventType
  pub payload : Payload C D

module _ {C D : Type 0} (digest : Content C D → String) where
  abbrev pub row_of : String → Append C D → EventRow C D
  row_of s a = new_row a.id a.now s a.type a.payload

  -- both read the newest hash, then both insert, then both write their hashes
  pub append_interleaved :
      List (EventRow C D) → String → Append C D → Append C D → List (EventRow C D)
  append_interleaved table s a b =
      let previous = read_previous table s in
      let hash_a = compute_event_hash digest (row_to_event (row_of s a)) previous in
      let hash_b = compute_event_hash digest (row_to_event (row_of s b)) previous in
      let inserted = table ++ row_of s a ∷ row_of s b ∷ [] in
      write_hash hash_b b.id (write_hash hash_a a.id inserted)

  write_hash-append :
      (h id : String) (rs qs : List (EventRow C D))
      → IsFresh id rs
      → write_hash h id (rs ++ qs) ≡ rs ++ write_hash h id qs
  unfolding write_hash
  write_hash-append h id [] qs f = refl
  write_hash-append h id (x ∷ rs) qs f = ground (arith, write_hash-append h id rs qs f.1)

  abbrev hashed : EventRow C D → String → EventRow C D
  hashed r previous = record r {
    event_hash = some (compute_event_hash digest (row_to_event r) previous);
  }

  write_both :
      (s h k : String) (a b : Append C D)
      → a.id ≢ b.id
      → write_hash k b.id (write_hash h a.id (row_of s a ∷ row_of s b ∷ []))
        ≡ record (row_of s a) { event_hash = some h }
          ∷ record (row_of s b) { event_hash = some k }
          ∷ []
  unfolding write_hash new_row
  write_both s h k a b d =
      ground (arith, eq_iff a.id b.id, eq_iff b.id a.id, eq_iff a.id a.id, eq_iff b.id b.id)

  append_interleaved-rows :
      (table : List (EventRow C D)) (s : String) (a b : Append C D)
      → IsFresh a.id table
      → IsFresh b.id table
      → a.id ≢ b.id
      → append_interleaved table s a b
        ≡ table
          ++ hashed (row_of s a) (read_previous table s)
            ∷ hashed (row_of s b) (read_previous table s)
            ∷ []
  unfolding append_interleaved
  append_interleaved-rows table s a b fa fb d =
      rw (write_hash-append _ a.id table _ fa, write_hash-append _ b.id table _ fb)
        (ap (◌++◌ table) (write_both s _ _ a b d))

  rows_of-both :
      (table : List (EventRow C D)) (s : String) (a b : Append C D) (h k : String)
      → rows_of s (
          table
          ++ record (row_of s a) { event_hash = some h }
            ∷ record (row_of s b) { event_hash = some k }
            ∷ [])
        ≡ rows_of s table
          ++ record (row_of s a) { event_hash = some h }
            ∷ record (row_of s b) { event_hash = some k }
            ∷ []
  unfolding rows_of new_row
  rows_of-both table s a b h k = rw (rows_of-append s table _) (ground (arith, eq_iff s s))

  IsRising-both :
      (rs : List (EventRow C D)) (s : String) (a b : Append C D) (h k : String)
      → IsRising rs
      → AllBefore a.now rs
      → a.now < b.now
      → IsRising (
          rs
          ++ record (row_of s a) { event_hash = some h }
            ∷ record (row_of s b) { event_hash = some k }
            ∷ [])
  unfolding new_row
  IsRising-both [] s a b h k r before lt = (lt, (tt, tt))
  IsRising-both (x ∷ []) s a b h k r before lt = ground arith
  IsRising-both (x ∷ y ∷ rs) s a b h k r before lt =
      (r.0, IsRising-both (y ∷ rs) s a b h k r.1 before.1 lt)

  replay_events-both :
      (table : List (EventRow C D)) (s : String) (a b : Append C D)
      → IsRising (rows_of s table)
      → AllBefore a.now (rows_of s table)
      → a.now < b.now
      → IsFresh a.id table
      → IsFresh b.id table
      → a.id ≢ b.id
      → replay_events (append_interleaved table s a b) s
        ≡ replay_events table s
          ++ row_to_event (hashed (row_of s a) (read_previous table s))
            ∷ row_to_event (hashed (row_of s b) (read_previous table s))
            ∷ []
  unfolding replay_events
  replay_events-both table s a b rising before lt fa fb d =
      let p = read_previous table s in
      let h = compute_event_hash digest (row_to_event (row_of s a)) p in
      let k = compute_event_hash digest (row_to_event (row_of s b)) p in
      rw (append_interleaved-rows table s a b fa fb d) (
        rw (rows_of-both table s a b h k) (
          rw (order_by_time-IsRising _ (IsRising-both (rows_of s table) s a b h k rising before lt))
            (rw (order_by_time-IsRising (rows_of s table) rising) (
              map-append row_to_event (rows_of s table)
                (hashed (row_of s a) p ∷ hashed (row_of s b) p ∷ [])))))

  -- Two appends that interleave break the chain: after them a log of n events that verified is
  -- reported as tampered with at the second of the new events, though nobody changed it, unless
  -- that event has the same digest after the old and after the new hash.
  pub append_interleaved-tampered :
      (table : List (EventRow C D)) (s : String) (a b : Append C D) (n : ℕ)
      → IsRising (rows_of s table)
      → AllBefore a.now (rows_of s table)
      → a.now < b.now
      → IsFresh a.id table
      → IsFresh b.id table
      → a.id ≢ b.id
      → verify_event_chain digest table s ≡ valid n
      → (let p = read_previous table s in
          compute_event_hash digest (row_to_event (row_of s b)) p
          ≢ compute_event_hash digest
              (row_to_event (row_of s b))
              (compute_event_hash digest (row_to_event (row_of s a)) p))
      → verify_event_chain digest (append_interleaved table s a b) s ≡ tampered b.id (n + 1)
  unfolding verify_event_chain replay_events row_to_event new_row compute_event_hash
  append_interleaved-tampered table s a b n rising before lt fa fb d v differs =
      stops_at digest _ s (es ++ ea ∷ []) [] eb
        (replay_events-both table s a b rising before lt fa fb d
          ∙ sym (append_assoc es (ea ∷ []) (eb ∷ [])))
        (IsChain-append digest genesis es (ea ∷ []) valid_before.0 (ap after linked, tt)) broken
      ∙ ap (tampered b.id) (omega (arith, length-append es (ea ∷ []), valid_before.1))
    where
      rs : List (EventRow C D)
      rs = rows_of s table

      p : String
      p = read_previous table s

      a' : EventRow C D
      a' = hashed (row_of s a) p

      b' : EventRow C D
      b' = hashed (row_of s b) p

      es : List (TrackingEvent C D)
      es = replay_events table s

      ea : TrackingEvent C D
      ea = row_to_event a'

      eb : TrackingEvent C D
      eb = row_to_event b'

      valid_before : IsChain digest genesis es × (n ≡ 0 + length es)
      valid_before = verify_from-valid digest genesis 0 n es v

      linked : p ≡ chain_end digest genesis es
      linked = read_rows digest s table (order_by_time rs) refl valid_before.0

      after : String → Option String
      after h = some (compute_event_hash digest ea h)

      broken :
          eb.event_hash
          ≢ some (compute_event_hash digest eb (chain_end digest genesis (es ++ ea ∷ [])))
      broken h = differs (
          some-injective _ _ h
          ∙ ap (compute_event_hash digest eb) (
              chain_end-append digest genesis es (ea ∷ [])
              ∙ ap (compute_event_hash digest ea) (sym linked)))
