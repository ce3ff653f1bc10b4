-- ===== src/Routing/Search/Children.antt =====
-- The states that a node pushes are planned as the node is (engines/route-optimizer/branch-and-bound.ts).
use pilots_hq.Prelude.{
  ℕ, zero, suc, ◌+◌, ◌≡◌, refl, sym, ap, subst, Bool, true, List, [], ◌∷◌, ◌++◌, Bool-cases,
  append_assoc, inl, inr, arith,
}
use pilots_hq.Routing.Types.{Metric, Stop, SolverInput}
use pilots_hq.Routing.Search.{
  Slot, State, insert_at, fits, insertion_delta, insert_stop, at_positions, in_routes,
}
use pilots_hq.Routing.Search.Plans.{
  tally, tally_all, tally-insert_at, vehicle_ids, AreLoaded, IsPlanned, insert_stop-IsLoaded,
}

-- what a list of states has in common
unfoldable pub All {ℓ} : {A : Type ℓ} → (A → Type 0) → List A → Type 0
All P [] = Unit
All P (x ∷ xs) = P x × All P xs

pub All-append :
    {A : Type 0} (P : A → Type 0) (xs ys : List A) → All P xs → All P ys → All P (xs ++ ys)
unfolding All
All-append P [] ys a b = b
All-append P (x ∷ xs) ys (p, a) b = (p, All-append P xs ys a b)

module _ {F Place : Type 0} (m : Metric F Place) (input : SolverInput Place) where
  -- one more stop in the plan of one route
  AreLoaded-insert_stop :
      (pos : ℕ) (stop : Stop Place) (slot : Slot F Place) (before after : List (Slot F Place))
      (plans : List (List (Stop Place)))
      → fits stop slot.remaining_kg slot.remaining_cbm ≡ true
      → AreLoaded input.vehicles (before ++ slot ∷ after) plans
      → (plans' : List (List (Stop Place))) × AreLoaded input.vehicles
          (before ++ insert_stop m input.warehouse pos stop slot ∷ after)
          plans'
        × ((q : Stop Place → Bool) → tally_all q plans' ≡ tally q (stop ∷ []) + tally_all q plans)
  unfolding AreLoaded tally_all tally
  AreLoaded-insert_stop pos stop slot [] after [] fit l = absurd l
  AreLoaded-insert_stop pos stop slot [] after (p ∷ ps) fit (l, ls) = (
    insert_at pos stop p ∷ ps,
    (insert_stop-IsLoaded m input.vehicles input.warehouse pos stop slot p fit l, ls),
    λ q. omega (arith, tally-insert_at q pos stop p),
  )
  AreLoaded-insert_stop pos stop slot (b ∷ before) after [] fit l = absurd l
  AreLoaded-insert_stop pos stop slot (b ∷ before) after (p ∷ ps) fit (l, ls) =
      let (ps', ls', same) = AreLoaded-insert_stop pos stop slot before after ps fit ls in
      (p ∷ ps', (l, ls'), λ q. omega (arith, same q))

  vehicle_ids-insert_stop :
      (pos : ℕ) (stop : Stop Place) (slot : Slot F Place) (before after : List (Slot F Place))
      → vehicle_ids (before ++ insert_stop m input.warehouse pos stop slot ∷ after)
        ≡ vehicle_ids (before ++ slot ∷ after)
  unfolding insert_stop
  vehicle_ids-insert_stop pos stop slot [] after = refl
  vehicle_ids-insert_stop pos stop slot (b ∷ before) after =
      ap (λ ids. b.route.vehicle_id ∷ ids) (vehicle_ids-insert_stop pos stop slot before after)

  insert_stop-IsPlanned :
      (pos : ℕ) (stop : Stop Place) (rest : List (Stop Place)) (slot : Slot F Place)
      (before after : List (Slot F Place))
      → fits stop slot.remaining_kg slot.remaining_cbm ≡ true
      → IsPlanned input (before ++ slot ∷ after) (stop ∷ rest)
      → IsPlanned input (before ++ insert_stop m input.warehouse pos stop slot ∷ after) rest
  unfolding tally
  insert_stop-IsPlanned pos stop rest slot before after fit p =
      let (plans', loaded, one_more) =
        AreLoaded-insert_stop pos stop slot before after p.plans fit p.loaded in
      record {
        plans = plans';
        loaded = loaded;
        all_stops = λ q. omega (arith, one_more q, p.all_stops q);
        own_vehicles = rw (vehicle_ids-insert_stop pos stop slot before after) p.own_vehicles;
      }

  abbrev pub Planned : State F Place → Type 0
  Planned st = IsPlanned input st.slots st.unserved

  at_positions-Planned :
      (best cost : F) (stop : Stop Place) (rest : List (Stop Place)) (before : List (Slot F Place))
      (slot : Slot F Place) (after : List (Slot F Place)) (pos n : ℕ)
      → fits stop slot.remaining_kg slot.remaining_cbm ≡ true
      → IsPlanned input (before ++ slot ∷ after) (stop ∷ rest)
      → All Planned (at_positions m input.warehouse best cost stop rest before slot after pos n)
  unfolding at_positions All
  at_positions-Planned best cost stop rest before slot after pos zero fit p = tt
  at_positions-Planned best cost stop rest before slot after pos (suc n) fit p =
      let others = at_positions-Planned best cost stop rest before slot after (suc pos) n fit p in
      let new_cost =
        m.add cost (insertion_delta m input.warehouse pos stop.place slot.route.stops) in
      elim (Bool-cases (m.less new_cost best)) [
        | inl cheap ↦ rw cheap (insert_stop-IsPlanned pos stop rest slot before after fit p, others)
        | inr dear ↦ rw dear others
      ]

  pub in_routes-Planned :
      (best cost : F) (stop : Stop Place) (rest : List (Stop Place))
      (before after : List (Slot F Place))
      → IsPlanned input (before ++ after) (stop ∷ rest)
      → All Planned (in_routes m input.warehouse best cost stop rest before after)
  unfolding in_routes All
  in_routes-Planned best cost stop rest before [] p = tt
  in_routes-Planned best cost stop rest before (slot ∷ after) p =
      let others = in_routes-Planned best cost stop rest (before ++ slot ∷ []) after (
        subst (λ ss. IsPlanned input ss (stop ∷ rest)) (sym (append_assoc before (slot ∷ []) after))
          p) in
      elim (Bool-cases (fits stop slot.remaining_kg slot.remaining_cbm)) [
        | inl fit ↦ rw fit (
            All-append Planned _ _
              (at_positions-Planned best cost stop rest before slot after 0 _ fit p) others)
        | inr full ↦ rw full others
      ]
