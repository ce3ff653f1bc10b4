-- ===== src/Samples/Log.antt =====
-- The event log on a shipment with two events (engines/tracking/event-log.ts), with a readable
-- text in place of SHA-256.
use Prim.Native.String.{◌++◌ as ◌++ₜ◌}
use pilots_hq.Prelude.{
  ℕ, ◌≡◌, ◌≢◌, refl, String, false, Option, none, some, List, [], ◌∷◌, arith, str_eq, eq_iff,
}
use pilots_hq.Tracking.Types.{EventType, created, in_transit, delivered, TrackingEvent}
use pilots_hq.Tracking.Log.{
  EventRow, Content, Payload, valid, tampered, row_to_event, content, rows_of, order_by_time,
  replay_events, compute_event_hash, verify_from, verify_event_chain, append_event, read_previous,
  new_row,
}
use pilots_hq.Tracking.Log.Append.{verify_event_chain-append_event}
use pilots_hq.Tracking.Log.Tamper.{changed_event_found, removed_event_found}
use pilots_hq.Tracking.Log.Race.{Append, append_interleaved, append_interleaved-tampered}

pub apart : (a b : String) → str_eq a b ≡ false → a ≢ b
apart a b h e = ground (arith, eq_iff a b)

abbrev pub digest : Content ℕ String → String
digest c = c.previous_hash ++ₜ "+" ++ₜ c.id ++ₜ elim c.payload [ none ↦ "" | some d ↦ d ]

abbrev pub row : String → ℕ → EventType → Option String → String → EventRow ℕ String
row id time type details hash = record {
  id = id;
  shipment_id = "s";
  event_type = type;
  event_status = none;
  lat = none;
  lon = none;
  details = details;
  created_at = time;
  event_hash = some hash;
}

abbrev pub no_payload : Payload ℕ String
no_payload = record { event_status = none; lat = none; lon = none; details = none }

abbrev pub first : EventRow ℕ String
first = row "a" 10 created none "genesis+a"

abbrev pub second : EventRow ℕ String
second = row "b" 20 in_transit none "genesis+a+b"

-- the second row, with other details and the old hash
abbrev forged : EventRow ℕ String
forged = row "b" 20 in_transit (some "x") "genesis+a+b"

abbrev pub table : List (EventRow ℕ String)
table = first ∷ second ∷ []

abbrev event : EventRow ℕ String → TrackingEvent ℕ String
event r = record {
  id = r.id;
  shipment_id = r.shipment_id;
  event_type = r.event_type;
  event_status = r.event_status;
  lat = r.lat;
  lon = r.lon;
  details = r.details;
  created_at = r.created_at;
  event_hash = r.event_hash;
}

table_valid : verify_event_chain digest table "s" ≡ valid 2
unfolding verify_event_chain verify_from replay_events rows_of order_by_time row_to_event
    compute_event_hash content
table_valid = refl

verify_event_chain-append_event_example :
    verify_event_chain digest (append_event digest table "c" 30 "s" delivered no_payload).0 "s"
    ≡ valid 3
unfolding rows_of
verify_event_chain-append_event_example =
    verify_event_chain-append_event digest table "c" 30 "s" delivered no_payload 2
      (omega arith, (tt, tt)) (omega arith, (omega arith, tt)) (refl, (refl, tt)) table_valid

changed_event_found_example : verify_event_chain digest (first ∷ forged ∷ []) "s" ≡ tampered "b" 1
unfolding replay_events rows_of order_by_time row_to_event compute_event_hash content
changed_event_found_example =
    changed_event_found digest table (first ∷ forged ∷ []) "s" 2 (event first ∷ []) [] []
      (event second) (event forged) table_valid refl refl refl (apart _ _ refl)

removed_event_found_example : verify_event_chain digest (second ∷ []) "s" ≡ tampered "b" 0
unfolding replay_events rows_of order_by_time row_to_event compute_event_hash content
removed_event_found_example =
    removed_event_found digest table (second ∷ []) "s" 2 [] [] (event first) (event second)
      table_valid refl refl (apart _ _ refl)

abbrev one : Append ℕ String
one = record { id = "c"; now = 30; type = in_transit; payload = no_payload }

abbrev other : Append ℕ String
other = record { id = "d"; now = 31; type = delivered; payload = no_payload }

append_interleaved-tampered_example :
    verify_event_chain digest (append_interleaved digest table "s" one other) "s" ≡ tampered "d" 3
unfolding rows_of read_previous order_by_time row_to_event new_row compute_event_hash content
append_interleaved-tampered_example =
    append_interleaved-tampered digest table "s" one other 2 (omega arith, (tt, tt))
      (omega arith, (omega arith, tt)) (omega arith) (refl, (refl, tt)) (refl, (refl, tt))
      (apart _ _ refl) table_valid (apart _ _ refl)
