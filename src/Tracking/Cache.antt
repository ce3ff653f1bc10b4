-- ===== src/Tracking/Cache.antt =====
-- engines/tracking/commands.ts and queries.ts: the cache of reduced states in front of the log.
-- Redis holds one text per shipment. Each call of it is told whether Redis answers, since both
-- files go on without it; `encode` and `decode` are `JSON.stringify`, and `JSON.parse` followed by
-- `hydrateState`. `late_shipments` is the query of `findLateShipments`.
pub mod Coherent
pub mod Late
use pilots_hq.Prelude.{
  ℕ, ◌+◌, ◌<◌, String, Bool, true, false, ◌&&◌, Option, none, some, List, [], ◌∷◌, ltb, str_eq,
  if◌then◌else◌, insert, erase, max,
}
use pilots_hq.Tracking.Types.{EventType, TrackingEvent, ShipmentState}
use pilots_hq.Tracking.Reduce.{reduce_events, is_open, two_hours_ms}
use pilots_hq.Tracking.Log.{
  EventRow, Content, Payload, append_event, replay_events, rows_of, order_by_time, get_last?,
}

pub record Store (C D : Type 0) : Type 0 where
  pub table : List (EventRow C D)
  pub cache : String → Option String

module _ {C D : Type 0} where
  -- `redis.del(cacheKey(shipmentId))`; a failure is logged
  unfoldable pub invalidate : Bool → String → Store C D → Store C D
  invalidate up s st = if up then record st { cache = erase s st.cache } else st

  -- the key expires after 60 seconds
  unfoldable pub expire : String → Store C D → Store C D
  expire s st = record st { cache = erase s st.cache }

  -- `getEventLog`
  unfoldable pub get_event_log : String → Store C D → List (TrackingEvent C D)
  get_event_log s st = replay_events st.table s

module _ {C D : Type 0} (digest : Content C D → String) where
  -- `recordEvent`; `up` tells whether Redis answers
  unfoldable pub record_event :
      Bool
      → Store C D
      → String
      → ℕ
      → String
      → EventType
      → Payload C D
      → Store C D × Option (TrackingEvent C D)
  unfolding invalidate
  record_event up st id now s type p =
      let (table, event) = append_event digest st.table id now s type p in
      (invalidate up s (record st { table = table }), event)

module _ {C D : Type 0} (encode : ShipmentState C → String)
    (decode : String → Option (ShipmentState C)) where
  -- the first step of `getCurrentState`: what a cached text is read as, if there is one
  pub read_cache : Bool → String → Store C D → Option (ShipmentState C)
  read_cache up s st =
      if up then elim (st.cache s) [ none ↦ none | some text ↦ decode text ] else none

  -- the third step
  pub populate : Bool → String → ShipmentState C → Store C D → Store C D
  populate up s state st = if up then record st { cache = insert s (encode state) st.cache } else st

  -- the second and third step
  pub from_log :
      Bool
      → ℕ
      → String
      → List (TrackingEvent C D)
      → Store C D
      → Store C D × Option (ShipmentState C)
  unfolding populate
  from_log up now s [] st = (st, none)
  from_log up now s (e ∷ es) st =
      let state = reduce_events s (e ∷ es) now in (populate up s state st, some state)

  -- `getCurrentState`; `up` tells whether Redis answers the read, `up'` the write
  unfoldable pub get_current_state :
      Bool → Bool → ℕ → String → Store C D → Store C D × Option (ShipmentState C)
  unfolding read_cache from_log
  get_current_state up up' now s st = elim (read_cache up s st) [
    | some state ↦ (st, some state)
    | none ↦ from_log up' now s (replay_events st.table s) st
  ]

module _ {C D : Type 0} where
  pub max_time : List (EventRow C D) → ℕ
  max_time [] = 0
  max_time (r ∷ rs) = max r.created_at (max_time rs)

  pub newest_is_open : Option (EventRow C D) → Bool
  newest_is_open none = false
  newest_is_open (some r) = is_open r.event_type

  -- the `HAVING` of `findLateShipments` over the rows of one shipment; a group is never empty
  unfoldable pub has_late_rows : ℕ → List (EventRow C D) → Bool
  has_late_rows now [] = false
  has_late_rows now (r ∷ rs) =
      ltb (max_time (r ∷ rs) + two_hours_ms) now
      && newest_is_open (get_last? (order_by_time (r ∷ rs)))

  -- `findLateShipments`, over the ids of the organisation's shipments
  unfoldable pub find_late_shipments : ℕ → List String → List (EventRow C D) → List String
  find_late_shipments now [] table = []
  find_late_shipments now (s ∷ ss) table =
      let rest = find_late_shipments now ss table in
      if has_late_rows now (rows_of s table) then s ∷ rest else rest
