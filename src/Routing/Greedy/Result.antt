-- ===== src/Routing/Greedy/Result.antt =====
-- What the greedy start returns (engines/route-optimizer/greedy-init.ts).
use pilots_hq.Prelude.{ℕ, ◌+◌, ◌≡◌, Bool, false, ◌||◌, List, [], ◌∷◌}
use pilots_hq.Routing.Types.{Stop, Vehicle}
use pilots_hq.Routing.Search.{Slot, fits}
use pilots_hq.Routing.Search.Plans.{tally, tally_all, AreLoaded}
use pilots_hq.Routing.Greedy.{Cart}
use pilots_hq.Routing.Greedy.Partial.{slots_of}

unfoldable pub usable_vehicles : (ℕ → ℕ) → List Vehicle → List Vehicle
usable_vehicles usable [] = []
usable_vehicles usable (v ∷ vs) =
    record v { capacity_kg = usable v.capacity_kg; capacity_cbm = usable v.capacity_cbm }
    ∷ usable_vehicles usable vs

module _ {F Place : Type 0} where
  -- each stop is served once or left, and no vehicle carries more than is usable
  pub record IsPartial (vs : List Vehicle) (all : List (Stop Place)) (carts : List (Cart F Place))
      (left : List (Stop Place)) : Type 0 where
    pub plans : List (List (Stop Place))
    pub loaded : AreLoaded vs (slots_of carts) plans
    pub all_stops : (q : Stop Place → Bool) → tally_all q plans + tally q left ≡ tally q all

  -- whether a vehicle can carry one of the stops
  unfoldable pub can_take : Slot F Place → List (Stop Place) → Bool
  can_take slot [] = false
  can_take slot (s ∷ ss) = fits s slot.remaining_kg slot.remaining_cbm || can_take slot ss

  unfoldable pub some_can_take : List (Cart F Place) → List (Stop Place) → Bool
  some_can_take [] stops = false
  some_can_take (c ∷ cs) stops = can_take c.slot stops || some_can_take cs stops
