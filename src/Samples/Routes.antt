-- ===== src/Samples/Routes.antt =====
-- Route planning at a small input (engines/route-optimizer): places on a line, distances in whole
-- numbers.
use pilots_hq.Prelude.{ℕ, ◌+◌, ◌-◌, ◌*◌, ◌/◌, ◌≡◌, refl, true, [], ◌∷◌, ltb, min, arith}
use pilots_hq.Routing.Types.{Metric, Stop, Vehicle, SolverInput, SolverResult}
use pilots_hq.Routing.Search.{
  branch_and_bound, loop, visit, children, in_routes, at_positions, in_new_route, insert_stop,
  insert_at, recompute, sum_legs, new_slot, find_vehicle, is_used, fits, insertion_delta, around,
  lower_bound, sum_min, min_distance, anchors, last_place, routes_of,
}
use pilots_hq.Routing.Search.Best.{IsSound, branch_and_bound-IsSound}

abbrev line : Metric ℕ ℕ
line = record {
  nought = 0;
  infinity = 1000000;
  add = λ a b. a + b;
  subtract = λ a b. a - b;
  less = ltb;
  distance = λ a b. (a - b) + (b - a);
  minutes = λ d. d * 60 / 40;
}

abbrev near : Stop ℕ
near = record { order_id = "near"; place = 5; weight = 3; volume = 1 }

abbrev far : Stop ℕ
far = record { order_id = "far"; place = 9; weight = 4; volume = 1 }

abbrev van : Vehicle
van = record { id = "van"; capacity_kg = 8; capacity_cbm = 4 }

abbrev day : SolverInput ℕ
day = record { warehouse = 1; vehicles = van ∷ []; stops = far ∷ near ∷ [] }

abbrev slow_plan : SolverResult ℕ ℕ
slow_plan = record { routes = []; total_distance = 20 }

less_trans : (a b c : ℕ) → ltb a b ≡ true → ltb b c ≡ true → ltb a c ≡ true
less_trans a b c ab bc = ground arith

-- The far stop is planned first and the near one is put in before it: 8 in place of 20.
abbrev found : ℕ
found = 8

found_lem : (branch_and_bound line 10 day slow_plan).total_distance ≡ found
unfolding branch_and_bound loop visit children in_routes at_positions in_new_route insert_stop
    insert_at recompute sum_legs new_slot find_vehicle is_used fits insertion_delta around
    lower_bound sum_min min_distance anchors last_place routes_of
found_lem = refl

branch_and_bound-IsSound_example :
    IsSound line day slow_plan (branch_and_bound line 10 day slow_plan)
branch_and_bound-IsSound_example = branch_and_bound-IsSound line day slow_plan 10 less_trans

-- distances below a thousand, so that none is infinite
abbrev short : Metric ℕ ℕ
short = record line { distance = λ a b. min ((a - b) + (b - a)) 999 }

-- the van has room for one of the two stops
abbrev half : ℕ → ℕ
half n = n / 2
