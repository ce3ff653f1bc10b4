-- ===== src/Routing/Greedy.antt =====
-- engines/route-optimizer/greedy-init.ts. The set of the stops that are not served is a list in its
-- order, and a stop is named by its place in it. `usable` is what the buffer leaves of a capacity, in
-- whole units; the time that the solver takes is left out.
pub mod Partial
pub mod Result
use pilots_hq.Prelude.{
  ℕ, zero, suc, ◌+◌, ◌-◌, Bool, true, false, Option, none, some, List, [], ◌∷◌, ◌++◌, length,
  get_elem?, set, if◌then◌else◌,
}
use pilots_hq.Routing.Types.{
  Metric, Stop, Vehicle, RouteStop, SolverRoute, SolverInput, SolverResult,
}
use pilots_hq.Routing.Search.{Slot, fits}

-- `VehicleState`
pub record Cart (F Place : Type 0) : Type 0 where
  pub slot : Slot F Place
  pub place : Place
  pub elapsed : F

pub record Choice (F : Type 0) : Type 0 where
  pub vehicle_idx : ℕ
  pub stop_idx : ℕ
  pub dist : F

unfoldable pub remove_at : {A : Type 0} → ℕ → List A → List A
remove_at n [] = []
remove_at zero (x ∷ xs) = xs
remove_at (suc n) (x ∷ xs) = x ∷ remove_at n xs

module _ {F Place : Type 0} (m : Metric F Place) where
  unfoldable pub best_cost : Option (Choice F) → F
  best_cost none = m.infinity
  best_cost (some c) = c.dist

  -- the inner loop, from the stop at an index on
  unfoldable pub scan_stops :
      ℕ → Cart F Place → ℕ → List (Stop Place) → Option (Choice F) → Option (Choice F)
  scan_stops vi cart si [] best = best
  scan_stops vi cart si (stop ∷ stops) best =
      let dist = m.distance cart.place stop.place in
      let choice : Choice F = record { vehicle_idx = vi; stop_idx = si; dist = dist } in
      let skipped = scan_stops vi cart (suc si) stops best in
      let taken = scan_stops vi cart (suc si) stops (some choice) in
      if fits stop cart.slot.remaining_kg cart.slot.remaining_cbm
      then (if m.less dist (best_cost best) then taken else skipped)
      else skipped

  -- the outer loop, from the vehicle at an index on
  unfoldable pub scan_carts :
      ℕ → List (Cart F Place) → List (Stop Place) → Option (Choice F) → Option (Choice F)
  scan_carts vi [] stops best = best
  scan_carts vi (cart ∷ carts) stops best =
      scan_carts (suc vi) carts stops (scan_stops vi cart 0 stops best)

  unfoldable pub take_stop : Cart F Place → Stop Place → F → Cart F Place
  take_stop cart stop dist =
      let elapsed = m.add cart.elapsed (m.minutes dist) in
      let route = cart.slot.route in
      record {
        slot = record {
          route = record route {
            stops =
                route.stops
                ++ record {
                  order_id = stop.order_id;
                  place = stop.place;
                  arrival = elapsed;
                  from_previous = dist;
                }
                  ∷ [];
            total_distance = m.add route.total_distance dist;
            total_weight = route.total_weight + stop.weight;
            total_volume = route.total_volume + stop.volume;
          };
          remaining_kg = cart.slot.remaining_kg - stop.weight;
          remaining_cbm = cart.slot.remaining_cbm - stop.volume;
        };
        place = stop.place;
        elapsed = elapsed;
      }

  -- The assignment of a choice; an index out of range, which the loops never give, changes nothing.
  unfoldable pub commit :
      Choice F → List (Cart F Place) → List (Stop Place) → List (Cart F Place) × List (Stop Place)
  commit c carts stops = elim (get_elem? carts c.vehicle_idx) [
    | none ↦ (carts, stops)
    | some cart ↦ elim (get_elem? stops c.stop_idx) [
      | none ↦ (carts, stops)
      | some stop ↦
          (set carts c.vehicle_idx (take_stop cart stop c.dist), remove_at c.stop_idx stops)
    ]
  ]

  -- the main loop: each round but the last serves a stop
  unfoldable pub serve :
      ℕ → List (Cart F Place) → List (Stop Place) → List (Cart F Place) × List (Stop Place)
  serve zero carts stops = (carts, stops)
  serve (suc n) carts stops = elim (scan_carts 0 carts stops none) [
    | none ↦ (carts, stops)
    | some c ↦ let (carts', stops') = commit c carts stops in serve n carts' stops'
  ]

  unfoldable pub empty_cart : (ℕ → ℕ) → Place → Vehicle → Cart F Place
  empty_cart usable warehouse v = record {
    slot = record {
      route = record {
        vehicle_id = v.id;
        stops = [];
        total_distance = m.nought;
        total_weight = 0;
        total_volume = 0;
      };
      remaining_kg = usable v.capacity_kg;
      remaining_cbm = usable v.capacity_cbm;
    };
    place = warehouse;
    elapsed = m.nought;
  }

  unfoldable pub empty_carts : (ℕ → ℕ) → Place → List Vehicle → List (Cart F Place)
  empty_carts usable warehouse [] = []
  empty_carts usable warehouse (v ∷ vs) =
      empty_cart usable warehouse v ∷ empty_carts usable warehouse vs

  -- the vehicles with a stop
  unfoldable pub used_routes : List (Cart F Place) → List (SolverRoute F Place)
  used_routes [] = []
  used_routes (c ∷ cs) =
      let rest = used_routes cs in
      elim c.slot.route.stops [ [] ↦ rest | s ∷ ss ↦ c.slot.route ∷ rest ]

  unfoldable pub sum_routes : F → List (SolverRoute F Place) → F
  sum_routes total [] = total
  sum_routes total (r ∷ rs) = sum_routes (m.add total r.total_distance) rs

  unfoldable pub greedy_init : (ℕ → ℕ) → SolverInput Place → SolverResult F Place
  greedy_init usable input =
      let (carts, left) =
        serve (length input.stops) (empty_carts usable input.warehouse input.vehicles)
          input.stops in
      let routes = used_routes carts in
      record { routes = routes; total_distance = sum_routes m.nought routes }
