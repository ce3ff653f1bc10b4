-- ===== src/Tracking/Log/Tamper.antt =====
-- Which changes of a stored log `verifyEventChain` notices (engines/tracking/event-log.ts). The
-- changed table is any table whose rows for the shipment replay as described.
use pilots_hq.Prelude.{
  ℕ, ◌+◌, ◌≡◌, ◌≢◌, refl, ap, ◌∙◌, String, Option, some, List, [], ◌∷◌, ◌++◌, map, arith, length,
  Option-cases, inl, inr,
}
use pilots_hq.Tracking.Types.{TrackingEvent}
use pilots_hq.Tracking.Log.{
  EventRow, Content, valid, tampered, genesis, row_to_event, rows_of, insert_by_time, order_by_time,
  replay_events, compute_event_hash, verify_from, verify_event_chain,
}
use pilots_hq.Tracking.Log.Chain.{
  IsChain, chain_end, verify_from-append, verify_from-valid, verify_from-broken,
  verify_from-IsChain, VerdictExplained, verify_from-VerdictExplained,
}

module _ {C D : Type 0} (digest : Content C D → String) where
  -- The verdict explained: `valid n` means that each of the shipment's n events, in the order of
  -- their times, stores the digest of its content and of the hash before it; `tampered id n` means
  -- that the first n events do, and that the next one is `id` and does not.
  pub verify_event_chain-VerdictExplained :
      (table : List (EventRow C D)) (s : String)
      → VerdictExplained digest (verify_event_chain digest table s) (replay_events table s)
  unfolding verify_event_chain
  verify_event_chain-VerdictExplained table s =
      verify_from-VerdictExplained digest (replay_events table s)

  pub IsChain-split :
      (p : String) (xs ys : List (TrackingEvent C D))
      → IsChain digest p (xs ++ ys)
      → IsChain digest p xs × IsChain digest (chain_end digest p xs) ys
  IsChain-split p [] ys c = (tt, c)
  IsChain-split p (e ∷ xs) ys c =
      let (a, b) = IsChain-split (compute_event_hash digest e p) xs ys c.1 in ((c.0, a), b)

  pub valid_split :
      (table : List (EventRow C D)) (s : String) (n : ℕ) (xs ys : List (TrackingEvent C D))
      → verify_event_chain digest table s ≡ valid n
      → replay_events table s ≡ xs ++ ys
      → IsChain digest genesis xs × IsChain digest (chain_end digest genesis xs) ys
  unfolding verify_event_chain
  valid_split table s n xs ys v e =
      IsChain-split genesis xs ys (verify_from-valid digest genesis 0 n (xs ++ ys) (rw (← e) v)).0

  pub stops_at :
      (table : List (EventRow C D)) (s : String) (xs ys : List (TrackingEvent C D))
      (e : TrackingEvent C D)
      → replay_events table s ≡ xs ++ e ∷ ys
      → IsChain digest genesis xs
      → e.event_hash ≢ some (compute_event_hash digest e (chain_end digest genesis xs))
      → verify_event_chain digest table s ≡ tampered e.id (length xs)
  unfolding verify_event_chain
  stops_at table s xs ys e split c broken =
      rw (split, verify_from-append digest genesis 0 xs (e ∷ ys) c)
        (verify_from-broken digest (chain_end digest genesis xs) (0 + length xs) e ys broken
          ∙ ap (tampered e.id) (omega arith))

  -- An event whose hashed content was changed, its stored hash left as it was, is the one that the
  -- verdict names, unless the old and the new content have one digest.
  pub changed_event_found :
      (table changed : List (EventRow C D)) (s : String) (n : ℕ)
      (xs ys zs : List (TrackingEvent C D)) (e e' : TrackingEvent C D)
      → verify_event_chain digest table s ≡ valid n
      → replay_events table s ≡ xs ++ e ∷ ys
      → replay_events changed s ≡ xs ++ e' ∷ zs
      → e'.event_hash ≡ e.event_hash
      → compute_event_hash digest e' (chain_end digest genesis xs)
        ≢ compute_event_hash digest e (chain_end digest genesis xs)
      → verify_event_chain digest changed s ≡ tampered e'.id (length xs)
  changed_event_found table changed s n xs ys zs e e' v split split' kept differs =
      let (c, d) = valid_split table s n xs (e ∷ ys) v split in
      stops_at changed s xs zs e' split' c (λ h. differs (ground (arith, h, d.0)))

  -- Removing an event from before another is noticed at the event after it, unless that one has
  -- the same digest after either hash.
  pub removed_event_found :
      (table changed : List (EventRow C D)) (s : String) (n : ℕ) (xs ys : List (TrackingEvent C D))
      (e f : TrackingEvent C D)
      → verify_event_chain digest table s ≡ valid n
      → replay_events table s ≡ xs ++ e ∷ f ∷ ys
      → replay_events changed s ≡ xs ++ f ∷ ys
      → compute_event_hash digest f (chain_end digest genesis xs)
        ≢ compute_event_hash digest f (compute_event_hash digest e (chain_end digest genesis xs))
      → verify_event_chain digest changed s ≡ tampered f.id (length xs)
  removed_event_found table changed s n xs ys e f v split split' differs =
      let (c, d) = valid_split table s n xs (e ∷ f ∷ ys) v split in
      stops_at changed s xs ys f split' c (λ h. differs (ground (arith, h, d)))

  -- Removing the newest events is not noticed: what is left of a log that verifies verifies.
  pub truncation_unnoticed :
      (table changed : List (EventRow C D)) (s : String) (n : ℕ) (xs ys : List (TrackingEvent C D))
      → verify_event_chain digest table s ≡ valid n
      → replay_events table s ≡ xs ++ ys
      → replay_events changed s ≡ xs
      → verify_event_chain digest changed s ≡ valid (length xs)
  unfolding verify_event_chain
  truncation_unnoticed table changed s n xs ys v split left = rw left (
      verify_from-IsChain digest genesis 0 xs (valid_split table s n xs ys v split).0
      ∙ ap valid (omega arith))

module _ {C D : Type 0} where
  -- New statuses for all rows, each chosen from the row.
  abbrev pub with_status : (EventRow C D → Option String) → EventRow C D → EventRow C D
  with_status f r = record r { event_status = f r }

  rows_of-with_status :
      (f : EventRow C D → Option String) (s : String) (rs : List (EventRow C D))
      → rows_of s (map (with_status f) rs) ≡ map (with_status f) (rows_of s rs)
  unfolding rows_of
  rows_of-with_status f s [] = refl
  rows_of-with_status f s (r ∷ rs) = ground (arith, rows_of-with_status f s rs)

  insert_by_time-with_status :
      (f : EventRow C D → Option String) (r : EventRow C D) (rs : List (EventRow C D))
      → insert_by_time (with_status f r) (map (with_status f) rs)
        ≡ map (with_status f) (insert_by_time r rs)
  unfolding insert_by_time
  insert_by_time-with_status f r [] = refl
  insert_by_time-with_status f r (x ∷ rs) = ground (arith, insert_by_time-with_status f r rs)

  order_by_time-with_status :
      (f : EventRow C D → Option String) (rs : List (EventRow C D))
      → order_by_time (map (with_status f) rs) ≡ map (with_status f) (order_by_time rs)
  unfolding order_by_time
  order_by_time-with_status f [] = refl
  order_by_time-with_status f (r ∷ rs) =
      rw (order_by_time-with_status f rs) (insert_by_time-with_status f r (order_by_time rs))

module _ {C D : Type 0} (digest : Content C D → String) where
  verify_from-with_status :
      (f : EventRow C D → Option String) (p : String) (i : ℕ) (rs : List (EventRow C D))
      → verify_from digest p i (map row_to_event (map (with_status f) rs))
        ≡ verify_from digest p i (map row_to_event rs)
  unfolding verify_from row_to_event
  verify_from-with_status f p i [] = refl
  verify_from-with_status f p i (r ∷ rs) = elim (Option-cases r.event_hash) [
    | inl h ↦ rw (h, verify_from)
    | inr (h, q) ↦ rw (q, verify_from) (rw (verify_from-with_status f h (i + 1) rs))
  ]

  -- The column `event_status` is not part of the chain: whatever is written to it, in all rows, the
  -- verdict stays.
  pub status_change_unnoticed :
      (f : EventRow C D → Option String) (table : List (EventRow C D)) (s : String)
      → verify_event_chain digest (map (with_status f) table) s ≡ verify_event_chain digest table s
  unfolding verify_event_chain replay_events
  status_change_unnoticed f table s =
      rw (rows_of-with_status f s table, order_by_time-with_status f (rows_of s table))
        (verify_from-with_status f genesis 0 (order_by_time (rows_of s table)))
