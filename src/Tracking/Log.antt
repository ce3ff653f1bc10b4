-- ===== src/Tracking/Log.antt =====
-- engines/tracking/event-log.ts: the table `tracking_events` and its statements, the hash chain
-- that `appendEvent` builds, and `verifyEventChain`. The table is the list of its rows in the order
-- of insertion; the database gives an inserted row its id and time, which are arguments here.
-- `digest` is SHA-256 of the content's JSON text, in hexadecimal.
pub mod Chain
pub mod Append
pub mod Tamper
pub mod Race
use pilots_hq.Prelude.{
  ℕ, ◌+◌, String, Bool, Option, none, some, List, [], ◌∷◌, ◌++◌, map, leb, str_eq, if◌then◌else◌,
}
use pilots_hq.Tracking.Types.{EventType, TrackingEvent}

pub record EventRow (C D : Type 0) : Type 0 where
  pub id : String
  pub shipment_id : String
  pub event_type : EventType
  pub event_status : Option String
  pub lat : Option C
  pub lon : Option C
  pub details : Option D
  pub created_at : ℕ
  pub event_hash : Option String

-- What `computeEventHash` writes as JSON; a field that is absent is left out there.
pub record Content (C D : Type 0) : Type 0 where
  pub id : String
  pub shipment_id : String
  pub event_type : EventType
  pub lat : Option C
  pub lon : Option C
  pub payload : Option D
  pub created_at : ℕ
  pub previous_hash : String

pub record Payload (C D : Type 0) : Type 0 where
  pub event_status : Option String
  pub lat : Option C
  pub lon : Option C
  pub details : Option D

pub data Verdict : Type 0 where
  valid : ℕ → Verdict
  tampered : String → ℕ → Verdict

abbrev pub genesis : String
genesis = "genesis"

abbrev pub get_last? {ℓ} : {A : Type ℓ} → List A → Option A
get_last? [] = none
get_last? (x ∷ []) = some x
get_last? (x ∷ y ∷ xs) = get_last? (y ∷ xs)

module _ {C D : Type 0} where
  -- A null column is an absent field.
  unfoldable pub row_to_event : EventRow C D → TrackingEvent C D
  row_to_event r = record {
    id = r.id;
    shipment_id = r.shipment_id;
    event_type = r.event_type;
    event_status = r.event_status;
    lat = r.lat;
    lon = r.lon;
    details = r.details;
    created_at = r.created_at;
    event_hash = r.event_hash;
  }

  unfoldable pub content : TrackingEvent C D → String → Content C D
  content e previous = record {
    id = e.id;
    shipment_id = e.shipment_id;
    event_type = e.event_type;
    lat = e.lat;
    lon = e.lon;
    payload = e.details;
    created_at = e.created_at;
    previous_hash = previous;
  }

  -- `WHERE shipment_id = $1`
  unfoldable pub rows_of : String → List (EventRow C D) → List (EventRow C D)
  rows_of s [] = []
  rows_of s (r ∷ rs) = if str_eq r.shipment_id s then r ∷ rows_of s rs else rows_of s rs

  pub insert_by_time : EventRow C D → List (EventRow C D) → List (EventRow C D)
  insert_by_time r [] = r ∷ []
  insert_by_time r (x ∷ xs) =
      if leb r.created_at x.created_at then r ∷ x ∷ xs else x ∷ insert_by_time r xs

  -- `ORDER BY created_at`; rows of one time stay in the order of insertion
  unfoldable pub order_by_time : List (EventRow C D) → List (EventRow C D)
  unfolding insert_by_time
  order_by_time [] = []
  order_by_time (r ∷ rs) = insert_by_time r (order_by_time rs)

  hash_or_genesis : Option (EventRow C D) → String
  hash_or_genesis none = genesis
  hash_or_genesis (some r) = elim r.event_hash [ none ↦ genesis | some h ↦ h ]

  -- the first query of `appendEvent`: the hash of the newest row
  unfoldable pub read_previous : List (EventRow C D) → String → String
  unfolding hash_or_genesis rows_of order_by_time
  read_previous table s = hash_or_genesis (get_last? (order_by_time (rows_of s table)))

  unfoldable pub new_row : String → ℕ → String → EventType → Payload C D → EventRow C D
  new_row id now s type p = record {
    id = id;
    shipment_id = s;
    event_type = type;
    event_status = p.event_status;
    lat = p.lat;
    lon = p.lon;
    details = p.details;
    created_at = now;
    event_hash = none;
  }

  -- `UPDATE tracking_events SET event_hash = $1 WHERE id = $2`
  unfoldable pub write_hash : String → String → List (EventRow C D) → List (EventRow C D)
  write_hash h id [] = []
  write_hash h id (r ∷ rs) =
      (if str_eq r.id id then record r { event_hash = some h } else r) ∷ write_hash h id rs

  -- the row that a statement with `WHERE id = $2` returns
  unfoldable pub find_row : String → List (EventRow C D) → Option (EventRow C D)
  find_row id [] = none
  find_row id (r ∷ rs) = if str_eq r.id id then some r else find_row id rs

  -- `replayEvents`
  unfoldable pub replay_events : List (EventRow C D) → String → List (TrackingEvent C D)
  unfolding rows_of order_by_time row_to_event
  replay_events table s = map row_to_event (order_by_time (rows_of s table))

module _ {C D : Type 0} (digest : Content C D → String) where
  unfoldable pub compute_event_hash : TrackingEvent C D → String → String
  unfolding content
  compute_event_hash e previous = digest (content e previous)

  -- The three statements of `appendEvent`, one after the other: the new table, and the event that
  -- the last statement returns.
  unfoldable pub append_event :
      List (EventRow C D)
      → String
      → ℕ
      → String
      → EventType
      → Payload C D
      → List (EventRow C D) × Option (TrackingEvent C D)
  append_event table id now s type p =
      let previous = read_previous table s in
      let row = new_row id now s type p in
      let hash = compute_event_hash (row_to_event row) previous in
      let updated = write_hash hash id (table ++ row ∷ []) in
      (updated, elim (find_row id updated) [ none ↦ none | some r ↦ some (row_to_event r) ])

  -- the loop of `verifyEventChain`
  unfoldable pub verify_from : String → ℕ → List (TrackingEvent C D) → Verdict
  unfolding compute_event_hash
  verify_from previous i [] = valid i
  verify_from previous i (e ∷ es) = elim e.event_hash [
    | none ↦ tampered e.id i
    | some stored ↦
        let rest = verify_from stored (i + 1) es in
        if str_eq (compute_event_hash e previous) stored then rest else tampered e.id i
  ]

  unfoldable pub verify_event_chain : List (EventRow C D) → String → Verdict
  verify_event_chain table s = verify_from genesis 0 (replay_events table s)
