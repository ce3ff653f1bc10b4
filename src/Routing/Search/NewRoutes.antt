-- ===== src/Routing/Search/NewRoutes.antt =====
-- A route for a vehicle that has none (engines/route-optimizer/branch-and-bound.ts).
use pilots_hq.Prelude.{
  ◌+◌, ◌≤◌, ◌≡◌, refl, sym, ap, subst, ◌∙◌, String, Bool, true, false, not, ◌&&◌, some, List, [],
  ◌∷◌, ◌++◌, str_eq, eq_iff, Bool-cases, Option-cases, inl, inr, arith,
}
use pilots_hq.Routing.Types.{Metric, Stop, Vehicle, SolverInput}
use pilots_hq.Routing.Search.{
  Slot, State, fits, is_used, find_vehicle, new_slot, in_new_route, children,
}
use pilots_hq.Routing.Search.Plans.{
  tally, tally_all, sum_weight, sum_volume, vehicle_ids, is_among, are_distinct, IsLoaded,
  AreLoaded, IsPlanned,
}
use pilots_hq.Routing.Search.Children.{All, All-append, Planned, in_routes-Planned}

-- What is known of the vehicle that is found.
record IsFree {F Place : Type 0} (stop : Stop Place) (slots : List (Slot F Place))
    (vs : List Vehicle) (v : Vehicle) : Type 0 where
  pub earlier : List Vehicle
  pub later : List Vehicle
  pub is_ours : vs ≡ earlier ++ v ∷ later
  pub unused : is_used v.id slots ≡ false
  pub fitting : fits stop v.capacity_kg v.capacity_cbm ≡ true

module _ {F Place : Type 0} where
  find_vehicle-IsFree :
      (stop : Stop Place) (slots : List (Slot F Place)) (vs : List Vehicle) (v : Vehicle)
      → find_vehicle stop slots vs ≡ some v
      → IsFree stop slots vs v
  unfolding find_vehicle
  find_vehicle-IsFree stop slots [] v e = absurd (cc e)
  find_vehicle-IsFree stop slots (w ∷ vs) v e =
      elim (Bool-cases (not (is_used w.id slots) && fits stop w.capacity_kg w.capacity_cbm)) [
        | inl free ↦
            let same : w ≡ v = ground (arith, e, free) in
            subst (IsFree stop slots (w ∷ vs)) same (record {
              earlier = [];
              later = vs;
              is_ours = refl;
              unused = ground (arith, free);
              fitting = ground (arith, free);
            })
        | inr other ↦
            let f = find_vehicle-IsFree stop slots vs v (ground (arith, e, other)) in
            record {
              earlier = w ∷ f.earlier;
              later = f.later;
              is_ours = ap (λ us. w ∷ us) f.is_ours;
              unused = f.unused;
              fitting = f.fitting;
            }
      ]

  is_used-is_among :
      (id : String) (slots : List (Slot F Place))
      → is_used id slots ≡ is_among id (vehicle_ids slots)
  unfolding is_used is_among
  is_used-is_among id [] = refl
  is_used-is_among id (s ∷ ss) = rw (is_used-is_among id ss) refl

  vehicle_ids-append :
      (ss : List (Slot F Place)) (s : Slot F Place)
      → vehicle_ids (ss ++ s ∷ []) ≡ vehicle_ids ss ++ s.route.vehicle_id ∷ []
  vehicle_ids-append [] s = refl
  vehicle_ids-append (t ∷ ss) s = ap (λ ids. t.route.vehicle_id ∷ ids) (vehicle_ids-append ss s)

  AreLoaded-append :
      (vs : List Vehicle) (ss : List (Slot F Place)) (ps : List (List (Stop Place)))
      (s : Slot F Place) (p : List (Stop Place))
      → AreLoaded vs ss ps
      → IsLoaded vs s p
      → AreLoaded vs (ss ++ s ∷ []) (ps ++ p ∷ [])
  unfolding AreLoaded
  AreLoaded-append vs [] [] s p ls l = (l, tt)
  AreLoaded-append vs [] (q ∷ ps) s p ls l = absurd ls
  AreLoaded-append vs (t ∷ ss) [] s p ls l = absurd ls
  AreLoaded-append vs (t ∷ ss) (q ∷ ps) s p (k, ls) l = (k, AreLoaded-append vs ss ps s p ls l)

is_among-append :
    (x y : String) (xs : List String)
    → is_among x xs ≡ false
    → str_eq y x ≡ false
    → is_among x (xs ++ y ∷ []) ≡ false
unfolding is_among
is_among-append x y [] e ne = ground (arith, ne)
is_among-append x y (z ∷ xs) e ne = ground (arith, e, is_among-append x y xs (ground (arith, e)) ne)

are_distinct-append :
    (y : String) (xs : List String)
    → are_distinct xs ≡ true
    → is_among y xs ≡ false
    → are_distinct (xs ++ y ∷ []) ≡ true
unfolding are_distinct is_among
are_distinct-append y [] d e = refl
are_distinct-append y (x ∷ xs) d e =
    let rest = are_distinct-append y xs (ground (arith, d)) (ground (arith, e)) in
    let apart : str_eq y x ≡ false = ground (arith, e, eq_iff x y, eq_iff y x) in
    ground (arith, rest, is_among-append x y xs (ground (arith, d)) apart)

tally_all-append :
    {Place : Type 0} (q : Stop Place → Bool) (ps : List (List (Stop Place))) (p : List (Stop Place))
    → tally_all q (ps ++ p ∷ []) ≡ tally_all q ps + tally q p
unfolding tally_all
tally_all-append q [] p = omega arith
tally_all-append q (r ∷ ps) p = omega (arith, tally_all-append q ps p)

module _ {F Place : Type 0} (m : Metric F Place) (input : SolverInput Place) where
  new_slot-IsLoaded :
      (stop : Stop Place) (slots : List (Slot F Place)) (v : Vehicle)
      → IsFree stop slots input.vehicles v
      → IsLoaded input.vehicles (new_slot m input.warehouse stop v) (stop ∷ [])
  unfolding new_slot fits sum_weight sum_volume
  new_slot-IsLoaded stop slots v f =
      let kg : stop.weight ≤ v.capacity_kg = ground (arith, f.fitting) in
      let cbm : stop.volume ≤ v.capacity_cbm = ground (arith, f.fitting) in
      record {
        in_order = refl;
        weighs = omega arith;
        measures = omega arith;
        vehicle = v;
        earlier = f.earlier;
        later = f.later;
        is_ours = f.is_ours;
        is_its = refl;
        kg_kept = omega arith;
        cbm_kept = omega arith;
      }

  new_slot-IsPlanned :
      (stop : Stop Place) (rest : List (Stop Place)) (slots : List (Slot F Place)) (v : Vehicle)
      → IsFree stop slots input.vehicles v
      → IsPlanned input slots (stop ∷ rest)
      → IsPlanned input (slots ++ new_slot m input.warehouse stop v ∷ []) rest
  unfolding tally new_slot
  new_slot-IsPlanned stop rest slots v f p =
      let slot = new_slot m input.warehouse stop v in
      let unused = sym (is_used-is_among v.id slots) ∙ f.unused in
      record {
        plans = p.plans ++ (stop ∷ []) ∷ [];
        loaded =
            AreLoaded-append input.vehicles slots p.plans slot (stop ∷ []) p.loaded
              (new_slot-IsLoaded stop slots v f);
        all_stops = λ q. omega (arith, tally_all-append q p.plans (stop ∷ []), p.all_stops q);
        own_vehicles =
            rw (vehicle_ids-append slots slot)
              (are_distinct-append v.id (vehicle_ids slots) p.own_vehicles unused);
      }

  -- What a node pushes is planned.
  pub children-Planned :
      (best : F) (stop : Stop Place) (rest : List (Stop Place)) (st : State F Place)
      → IsPlanned input st.slots (stop ∷ rest)
      → All (Planned m input) (children m input best stop rest st)
  unfolding children in_new_route All
  children-Planned best stop rest st p =
      All-append (Planned m input) _ _
        (in_routes-Planned m input best st.cost stop rest [] st.slots p)
        (elim (Option-cases (find_vehicle stop st.slots input.vehicles)) [
          | inl e ↦ rw (in_new_route, e) tt
          | inr (v, e) ↦
              let planned =
                new_slot-IsPlanned stop rest st.slots v
                  (find_vehicle-IsFree stop st.slots input.vehicles v e) p in
              elim (Bool-cases
                (m.less (m.add st.cost (m.distance input.warehouse stop.place)) best)) [
                  | inl cheap ↦ rw (in_new_route, e) (rw cheap (planned, tt))
                  | inr dear ↦ rw (in_new_route, e) (rw dear tt)
                ]
        ])
