-- ===== src/Samples/Fleet.antt =====
-- The telemetry queue with three rows (clients/truck/src/queue.ts), and a route's life
-- (api/services/route.service.ts).
use pilots_hq.Prelude.{
  str_eq, none, ◌-◌, ◌==◌, insert, empty, ℕ, ◌≡◌, refl, String, Bool, true, false, some, List, [],
  ◌∷◌, ◌++◌, arith,
}
use pilots_hq.Api.RouteService.{planned, RouteRow, Database, Floats}
use pilots_hq.Truck.{QueuedRow, TelemetryQueue, get_unsynced, mark_synced, select_unsynced}
use pilots_hq.Truck.Batches.{ids_of, unsynced, get_unsynced-mark_synced}

abbrev row : ℕ → Bool → QueuedRow String
row id synced = record {
  id = id;
  vehicle_id = "v";
  telemetry = "t";
  created_at = 5;
  synced = synced;
}

abbrev queue : TelemetryQueue String
queue = record {
  initialized = true;
  rows = row 1 true ∷ row 2 false ∷ row 3 false ∷ [];
  last_id = 3;
}

abbrev copy : String → String
copy t = t

first_of_two : get_unsynced 1 queue ≡ some (row 2 false ∷ [])
unfolding get_unsynced select_unsynced
first_of_two = refl

get_unsynced-mark_synced_example :
    (batch : List (QueuedRow String)) × (q' : TelemetryQueue String) × (get_unsynced 1 queue
      ≡ some batch)
    × (mark_synced (ids_of batch) queue ≡ some q')
    × (batch ++ unsynced q'.rows ≡ unsynced queue.rows)
    × (q'.last_id ≡ queue.last_id)
get_unsynced-mark_synced_example =
    get_unsynced-mark_synced 1 queue refl (omega arith, (omega arith, (omega arith, omega arith)))

-- natural numbers in place of floats
abbrev numbers : Floats ℕ
numbers = record { is_not_positive = λ n. n == 0; minus = λ a b. a - b; nought = 0; round = λ n. n }

abbrev route : RouteRow ℕ
route = record {
  id = "r";
  org_id = "org";
  status = planned;
  driver_id = none;
  vehicle_id = some "v";
  stops = 4 ∷ 6 ∷ [];
  started_at = none;
  actual_duration = none;
}

abbrev database : Database ℕ
database = record {
  routes = insert "r" route empty;
  users = insert "d" "org" empty;
  vehicles = empty;
  drivers = λ id. str_eq id "d";
  observed = [];
}
