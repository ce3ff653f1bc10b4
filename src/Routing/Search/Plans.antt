-- ===== src/Routing/Search/Plans.antt =====
-- What the states of engines/route-optimizer/branch-and-bound.ts have in common: each stop is still to
-- be served or stands once in the plan of one route, and each route fits its own vehicle.
use mathlib.Core.Path.{ap₂}
use mathlib.Core.List.{head-eq_of_cons-eq, tail-eq_of_cons-eq}
use pilots_hq.Prelude.{
  ℕ, zero, suc, ◌+◌, ◌≤◌, ◌≡◌, refl, ap, ◌∙◌, String, Bool, true, false, not, ◌&&◌, ◌||◌, List, [],
  ◌∷◌, ◌++◌, str_eq, if◌then◌else◌, arith,
}
use pilots_hq.Routing.Types.{Metric, Stop, Vehicle, RouteStop, SolverInput}
use pilots_hq.Routing.Search.{Slot, insert_at, fits, recompute, new_stop, insert_stop}

unfoldable pub is_among : String → List String → Bool
is_among x [] = false
is_among x (y ∷ ys) = str_eq y x || is_among x ys

unfoldable pub are_distinct : List String → Bool
are_distinct [] = true
are_distinct (x ∷ xs) = not (is_among x xs) && are_distinct xs

module _ {Place : Type 0} where
  -- how many stops pass a test: two lists with the same numbers have the same stops
  unfoldable pub tally : (Stop Place → Bool) → List (Stop Place) → ℕ
  tally q [] = 0
  tally q (s ∷ ss) = (if q s then 1 else 0) + tally q ss

  unfoldable pub tally_all : (Stop Place → Bool) → List (List (Stop Place)) → ℕ
  tally_all q [] = 0
  tally_all q (p ∷ ps) = tally q p + tally_all q ps

  unfoldable pub sum_weight : List (Stop Place) → ℕ
  sum_weight [] = 0
  sum_weight (s ∷ ss) = s.weight + sum_weight ss

  unfoldable pub sum_volume : List (Stop Place) → ℕ
  sum_volume [] = 0
  sum_volume (s ∷ ss) = s.volume + sum_volume ss

  abbrev pub order_ids : List (Stop Place) → List String
  order_ids [] = []
  order_ids (s ∷ ss) = s.order_id ∷ order_ids ss

  pub tally-insert_at :
      (q : Stop Place → Bool) (n : ℕ) (s : Stop Place) (ss : List (Stop Place))
      → tally q (insert_at n s ss) ≡ tally q (s ∷ ss)
  unfolding tally insert_at
  tally-insert_at q zero s ss = refl
  tally-insert_at q (suc n) s [] = refl
  tally-insert_at q (suc n) s (t ∷ ss) = rw (tally-insert_at q n s ss) (omega arith)

  pub sums-insert_at :
      (n : ℕ) (s : Stop Place) (ss : List (Stop Place))
      → (sum_weight (insert_at n s ss) ≡ sum_weight ss + s.weight)
        × (sum_volume (insert_at n s ss) ≡ sum_volume ss + s.volume)
  unfolding sum_weight sum_volume insert_at
  sums-insert_at zero s ss = (omega arith, omega arith)
  sums-insert_at (suc n) s [] = (omega arith, omega arith)
  sums-insert_at (suc n) s (t ∷ ss) =
      let (w, v) = sums-insert_at n s ss in (omega (arith, w), omega (arith, v))

module _ {F Place : Type 0} where
  abbrev pub stop_ids : List (RouteStop F Place) → List String
  stop_ids [] = []
  stop_ids (s ∷ ss) = s.order_id ∷ stop_ids ss

  abbrev pub vehicle_ids : List (Slot F Place) → List String
  vehicle_ids [] = []
  vehicle_ids (s ∷ ss) = s.route.vehicle_id ∷ vehicle_ids ss

  -- a route with the stops that it serves: they are in its order, their weights and volumes are those
  -- that it notes, and with what is left they are the capacity of one of the vehicles
  pub record IsLoaded (vehicles : List Vehicle) (slot : Slot F Place) (plan : List (Stop Place))
      : Type 0 where
    pub in_order : stop_ids slot.route.stops ≡ order_ids plan
    pub weighs : slot.route.total_weight ≡ sum_weight plan
    pub measures : slot.route.total_volume ≡ sum_volume plan
    pub vehicle : Vehicle
    pub earlier : List Vehicle
    pub later : List Vehicle
    pub is_ours : vehicles ≡ earlier ++ vehicle ∷ later
    pub is_its : slot.route.vehicle_id ≡ vehicle.id
    pub kg_kept : slot.route.total_weight + slot.remaining_kg ≡ vehicle.capacity_kg
    pub cbm_kept : slot.route.total_volume + slot.remaining_cbm ≡ vehicle.capacity_cbm

  unfoldable pub AreLoaded : List Vehicle → List (Slot F Place) → List (List (Stop Place)) → Type 0
  AreLoaded vs [] [] = Unit
  AreLoaded vs [] (p ∷ ps) = ⊥
  AreLoaded vs (s ∷ ss) [] = ⊥
  AreLoaded vs (s ∷ ss) (p ∷ ps) = IsLoaded vs s p × AreLoaded vs ss ps

  -- The routes serve, together with the stops that are left, each stop of the input once.
  pub record IsPlanned (input : SolverInput Place) (slots : List (Slot F Place))
      (unserved : List (Stop Place)) : Type 0 where
    pub plans : List (List (Stop Place))
    pub loaded : AreLoaded input.vehicles slots plans
    pub all_stops :
        (q : Stop Place → Bool) → tally_all q plans + tally q unserved ≡ tally q input.stops
    pub own_vehicles : are_distinct (vehicle_ids slots) ≡ true

  stop_ids-insert_at :
      (n : ℕ) (r : RouteStop F Place) (s : Stop Place) (rs : List (RouteStop F Place))
      (ss : List (Stop Place))
      → r.order_id ≡ s.order_id
      → stop_ids rs ≡ order_ids ss
      → stop_ids (insert_at n r rs) ≡ order_ids (insert_at n s ss)
  unfolding insert_at
  stop_ids-insert_at zero r s rs ss e es = rw (e, es) refl
  stop_ids-insert_at (suc n) r s [] [] e es = rw e refl
  stop_ids-insert_at (suc n) r s [] (t ∷ ss) e es = absurd (cc es)
  stop_ids-insert_at (suc n) r s (t ∷ rs) [] e es = absurd (cc es)
  stop_ids-insert_at (suc n) r s (t ∷ rs) (u ∷ ss) e es =
      ap₂ (λ x xs. x ∷ xs) (head-eq_of_cons-eq es)
        (stop_ids-insert_at n r s rs ss e (tail-eq_of_cons-eq es))

  module _ (m : Metric F Place) where
    stop_ids-recompute :
        (from : Place) (elapsed : F) (rs : List (RouteStop F Place))
        → stop_ids (recompute m from elapsed rs) ≡ stop_ids rs
    unfolding recompute
    stop_ids-recompute from elapsed [] = refl
    stop_ids-recompute from elapsed (r ∷ rs) =
        ap (λ xs. r.order_id ∷ xs) (stop_ids-recompute r.place _ rs)

    pub insert_stop-IsLoaded :
        (vs : List Vehicle) (warehouse : Place) (pos : ℕ) (stop : Stop Place) (slot : Slot F Place)
        (plan : List (Stop Place))
        → fits stop slot.remaining_kg slot.remaining_cbm ≡ true
        → IsLoaded vs slot plan
        → IsLoaded vs (insert_stop m warehouse pos stop slot) (insert_at pos stop plan)
    unfolding insert_stop fits
    insert_stop-IsLoaded vs warehouse pos stop slot plan fit l =
        let (w, v) = sums-insert_at pos stop plan in
        let kg : stop.weight ≤ slot.remaining_kg = ground (arith, fit) in
        let cbm : stop.volume ≤ slot.remaining_cbm = ground (arith, fit) in
        record {
          in_order =
              stop_ids-recompute warehouse m.nought _
              ∙ stop_ids-insert_at pos (new_stop m stop m.nought m.nought) stop slot.route.stops
                  plan refl l.in_order;
          weighs = rw w (ap (λ n. n + stop.weight) l.weighs);
          measures = rw v (ap (λ n. n + stop.volume) l.measures);
          vehicle = l.vehicle;
          earlier = l.earlier;
          later = l.later;
          is_ours = l.is_ours;
          is_its = l.is_its;
          kg_kept = omega (arith, l.kg_kept);
          cbm_kept = omega (arith, l.cbm_kept);
        }
