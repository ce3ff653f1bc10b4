-- ===== src/Routing/Search.antt =====
-- engines/route-optimizer/branch-and-bound.ts. The stack has its top at the head; a route stands with
-- what its vehicle can still carry, which the code keeps in two lists parallel to the routes. The time
-- limit is the number of nodes that are looked at before it is over.
pub mod Plans
pub mod Children
pub mod NewRoutes
pub mod Best
pub mod Ending
use pilots_hq.Prelude.{
  ℕ, zero, suc, ◌+◌, ◌-◌, String, Bool, true, false, not, ◌&&◌, ◌||◌, Option, none, some, List, [],
  ◌∷◌, ◌++◌, length, reverse, str_eq, leb, if◌then◌else◌,
}
use pilots_hq.Routing.Types.{
  Metric, Stop, Vehicle, RouteStop, SolverRoute, SolverInput, SolverResult,
}

pub record Slot (F Place : Type 0) : Type 0 where
  pub route : SolverRoute F Place
  pub remaining_kg : ℕ
  pub remaining_cbm : ℕ

-- `BnBState`
pub record State (F Place : Type 0) : Type 0 where
  pub slots : List (Slot F Place)
  pub unserved : List (Stop Place)
  pub cost : F

-- `stops.splice(pos, 0, stop)`
unfoldable pub insert_at : {A : Type 0} → ℕ → A → List A → List A
insert_at zero x xs = x ∷ xs
insert_at (suc n) x [] = x ∷ []
insert_at (suc n) x (y ∷ xs) = y ∷ insert_at n x xs

unfoldable pub fits : {Place : Type 0} → Stop Place → ℕ → ℕ → Bool
fits stop kg cbm = leb stop.weight kg && leb stop.volume cbm

module _ {F Place : Type 0} where
  -- the place of the last stop, for a route that has one
  unfoldable pub last_place : Place → List (RouteStop F Place) → Place
  last_place from [] = from
  last_place from (s ∷ ss) = last_place s.place ss

  -- the places on both sides of a position: the first is that of the stop before, or the warehouse
  unfoldable pub around : Place → ℕ → List (RouteStop F Place) → Place × Option Place
  around from pos [] = (from, none)
  around from zero (s ∷ ss) = (from, some s.place)
  around from (suc n) (s ∷ ss) = around s.place n ss

  unfoldable pub anchors : Place → List (Slot F Place) → List Place
  anchors warehouse [] = warehouse ∷ []
  anchors warehouse (s ∷ []) = last_place warehouse s.route.stops ∷ []
  anchors warehouse (s ∷ t ∷ ss) = last_place warehouse s.route.stops ∷ anchors warehouse (t ∷ ss)

  unfoldable pub is_used : String → List (Slot F Place) → Bool
  is_used id [] = false
  is_used id (s ∷ ss) = str_eq s.route.vehicle_id id || is_used id ss

  -- the first vehicle that has no route yet and can carry the stop
  unfoldable pub find_vehicle : Stop Place → List (Slot F Place) → List Vehicle → Option Vehicle
  find_vehicle stop slots [] = none
  find_vehicle stop slots (v ∷ vs) =
      let others = find_vehicle stop slots vs in
      if not (is_used v.id slots) && fits stop v.capacity_kg v.capacity_cbm then some v else others

  -- the routes of a state
  unfoldable pub routes_of : List (Slot F Place) → List (SolverRoute F Place)
  routes_of [] = []
  routes_of (s ∷ ss) = s.route ∷ routes_of ss

module _ {F Place : Type 0} (m : Metric F Place) where
  unfoldable pub min_distance : F → Place → List Place → F
  min_distance best place [] = best
  min_distance best place (a ∷ rest) =
      let d = m.distance a place in min_distance (if m.less d best then d else best) place rest

  unfoldable pub sum_min : F → List Place → List (Stop Place) → F
  sum_min total from [] = total
  sum_min total from (s ∷ ss) = sum_min (m.add total (min_distance m.infinity s.place from)) from ss

  -- `nearestInsertionLowerBound`
  unfoldable pub lower_bound : Place → List (Stop Place) → List (Slot F Place) → F
  lower_bound warehouse [] slots = m.nought
  lower_bound warehouse (s ∷ ss) slots = sum_min m.nought (anchors warehouse slots) (s ∷ ss)

  -- `insertionCostDelta`
  unfoldable pub insertion_delta : Place → ℕ → Place → List (RouteStop F Place) → F
  insertion_delta warehouse pos new stops =
      let (before, after) = around warehouse pos stops in
      elim after [
        | none ↦ m.distance before new
        | some next ↦
            m.subtract (m.add (m.distance before new) (m.distance new next))
              (m.distance before next)
      ]

  unfoldable pub recompute : Place → F → List (RouteStop F Place) → List (RouteStop F Place)
  recompute from elapsed [] = []
  recompute from elapsed (s ∷ ss) =
      let d = m.distance from s.place in
      let now = m.add elapsed (m.minutes d) in
      record s { arrival = now; from_previous = d } ∷ recompute s.place now ss

  unfoldable pub sum_legs : F → List (RouteStop F Place) → F
  sum_legs total [] = total
  sum_legs total (s ∷ ss) = sum_legs (m.add total s.from_previous) ss

  abbrev pub new_stop : Stop Place → F → F → RouteStop F Place
  new_stop s arrival d = record {
    order_id = s.order_id;
    place = s.place;
    arrival = arrival;
    from_previous = d;
  }

  -- a route with a stop put in at a position
  unfoldable pub insert_stop : Place → ℕ → Stop Place → Slot F Place → Slot F Place
  insert_stop warehouse pos stop slot =
      let stops =
        recompute warehouse m.nought
          (insert_at pos (new_stop stop m.nought m.nought) slot.route.stops) in
      record {
        route = record slot.route {
          stops = stops;
          total_distance = sum_legs m.nought stops;
          total_weight = slot.route.total_weight + stop.weight;
          total_volume = slot.route.total_volume + stop.volume;
        };
        remaining_kg = slot.remaining_kg - stop.weight;
        remaining_cbm = slot.remaining_cbm - stop.volume;
      }

  -- Branch A for one route, at each of `n` positions from `pos` on; `before` and `after` are the
  -- other routes, `rest` the stops that stay unserved.
  unfoldable pub at_positions :
      Place
      → F
      → F
      → Stop Place
      → List (Stop Place)
      → List (Slot F Place)
      → Slot F Place
      → List (Slot F Place)
      → ℕ
      → ℕ
      → List (State F Place)
  at_positions warehouse best cost stop rest before slot after pos zero = []
  at_positions warehouse best cost stop rest before slot after pos (suc n) =
      let new_cost = m.add cost (insertion_delta warehouse pos stop.place slot.route.stops) in
      let others = at_positions warehouse best cost stop rest before slot after (suc pos) n in
      let child : State F Place = record {
        slots = before ++ insert_stop warehouse pos stop slot ∷ after;
        unserved = rest;
        cost = new_cost;
      } in
      if m.less new_cost best then child ∷ others else others

  -- Branch A for each route
  unfoldable pub in_routes :
      Place
      → F
      → F
      → Stop Place
      → List (Stop Place)
      → List (Slot F Place)
      → List (Slot F Place)
      → List (State F Place)
  in_routes warehouse best cost stop rest before [] = []
  in_routes warehouse best cost stop rest before (slot ∷ after) =
      let here =
        at_positions warehouse best cost stop rest before slot after 0
          (suc (length slot.route.stops)) in
      let others = in_routes warehouse best cost stop rest (before ++ slot ∷ []) after in
      (if fits stop slot.remaining_kg slot.remaining_cbm then here else []) ++ others

  unfoldable pub new_slot : Place → Stop Place → Vehicle → Slot F Place
  new_slot warehouse stop v =
      let d = m.distance warehouse stop.place in
      record {
        route = record {
          vehicle_id = v.id;
          stops = new_stop stop (m.minutes d) d ∷ [];
          total_distance = d;
          total_weight = stop.weight;
          total_volume = stop.volume;
        };
        remaining_kg = v.capacity_kg - stop.weight;
        remaining_cbm = v.capacity_cbm - stop.volume;
      }

  -- Branch B
  unfoldable pub in_new_route :
      SolverInput Place
      → F
      → F
      → Stop Place
      → List (Stop Place)
      → List (Slot F Place)
      → List (State F Place)
  in_new_route input best cost stop rest slots = elim (find_vehicle stop slots input.vehicles) [
    | none ↦ []
    | some v ↦
        let new_cost = m.add cost (m.distance input.warehouse stop.place) in
        if m.less new_cost best
        then record {
          slots = slots ++ new_slot input.warehouse stop v ∷ [];
          unserved = rest;
          cost = new_cost;
        }
          ∷ []
        else []
  ]

  -- The states that a node pushes, in their order.
  unfoldable pub children :
      SolverInput Place → F → Stop Place → List (Stop Place) → State F Place → List (State F Place)
  children input best stop rest st =
      in_routes input.warehouse best st.cost stop rest [] st.slots
      ++ in_new_route input best st.cost stop rest st.slots

  -- One round of the loop on the state that was popped: the best so far, and what is pushed.
  unfoldable pub visit :
      SolverInput Place
      → SolverResult F Place
      → State F Place
      → SolverResult F Place × List (State F Place)
  visit input best st = elim st.unserved [
    | [] ↦ (
      if m.less st.cost best.total_distance
          then record { routes = routes_of st.slots; total_distance = st.cost }
          else best,
      [],
    )
    | stop ∷ rest ↦ (
      best,
      if m.less (m.add st.cost (lower_bound input.warehouse (stop ∷ rest) st.slots))
            best.total_distance
          then children input best.total_distance stop rest st
          else [],
    )
  ]

  unfoldable pub loop :
      ℕ → SolverInput Place → SolverResult F Place → List (State F Place) → SolverResult F Place
  loop zero input best stack = best
  loop (suc n) input best [] = best
  loop (suc n) input best (st ∷ stack) =
      let (best', pushed) = visit input best st in loop n input best' (reverse pushed ++ stack)

  unfoldable pub branch_and_bound :
      ℕ → SolverInput Place → SolverResult F Place → SolverResult F Place
  branch_and_bound nodes input initial =
      loop nodes input initial (record { slots = []; unserved = input.stops; cost = m.nought } ∷ [])
