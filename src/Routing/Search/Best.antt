-- ===== src/Routing/Search/Best.antt =====
-- What the search returns (engines/route-optimizer/branch-and-bound.ts).
use mathlib.Core.List.{reverse-cons}
use pilots_hq.Prelude.{
  ℕ, zero, suc, ◌≡◌, ◌⊎◌, refl, sym, subst, true, List, [], ◌∷◌, reverse, Bool-cases, inl, inr,
  arith,
}
use pilots_hq.Routing.Types.{Metric, Stop, SolverInput, SolverResult}
use pilots_hq.Routing.Search.{Slot, State, lower_bound, routes_of, visit, loop, branch_and_bound}
use pilots_hq.Routing.Search.Plans.{tally_all, are_distinct, AreLoaded, IsPlanned}
use pilots_hq.Routing.Search.Children.{All, All-append, Planned}
use pilots_hq.Routing.Search.NewRoutes.{children-Planned}

pub All-reverse : {A : Type 0} (P : A → Type 0) (xs : List A) → All P xs → All P (reverse xs)
unfolding All
All-reverse P [] a = tt
All-reverse P (x ∷ xs) (p, a) =
    subst (All P) (sym (reverse-cons x xs))
      (All-append P (reverse xs) (x ∷ []) (All-reverse P xs a) (p, tt))

module _ {F Place : Type 0} (m : Metric F Place) (input : SolverInput Place)
    (initial : SolverResult F Place) where
  -- routes that serve each stop of the input once, each within the capacity of a vehicle of its own,
  -- with a distance below that of the solution at the start
  pub record IsBetter (r : SolverResult F Place) : Type 0 where
    pub slots : List (Slot F Place)
    pub planned : IsPlanned input slots []
    pub its_routes : r.routes ≡ routes_of slots
    pub is_less : m.less r.total_distance initial.total_distance ≡ true

  abbrev pub IsSound : SolverResult F Place → Type 0
  IsSound r = (r ≡ initial) ⊎ IsBetter r

  new_best :
      (st : State F Place) (best : SolverResult F Place)
      → ((a b c : F) → m.less a b ≡ true → m.less b c ≡ true → m.less a c ≡ true)
      → IsPlanned input st.slots []
      → m.less st.cost best.total_distance ≡ true
      → IsSound best
      → IsSound (record { routes = routes_of st.slots; total_distance = st.cost })
  new_best st best trans p less (inl same) = inr (record {
    slots = st.slots;
    planned = p;
    its_routes = refl;
    is_less = subst (λ r. m.less st.cost r.total_distance ≡ true) same less;
  })
  new_best st best trans p less (inr b) = inr (record {
    slots = st.slots;
    planned = p;
    its_routes = refl;
    is_less = trans st.cost best.total_distance initial.total_distance less b.is_less;
  })

  -- By the stops that a state has left.
  visit-IsSound :
      (slots : List (Slot F Place)) (unserved : List (Stop Place)) (cost : F)
      (best : SolverResult F Place)
      → ((a b c : F) → m.less a b ≡ true → m.less b c ≡ true → m.less a c ≡ true)
      → IsPlanned input slots unserved
      → IsSound best
      → let v = visit m input best (record { slots = slots; unserved = unserved; cost = cost }) in
        IsSound v.0 × All (Planned m input) v.1
  unfolding visit All
  visit-IsSound slots [] cost best trans p s =
      let st : State F Place = record { slots = slots; unserved = []; cost = cost } in
      elim (Bool-cases (m.less cost best.total_distance)) [
        | inl less ↦ rw less (new_best st best trans p less s, tt)
        | inr not_less ↦ rw not_less (s, tt)
      ]
  visit-IsSound slots (stop ∷ rest) cost best trans p s =
      let st : State F Place = record { slots = slots; unserved = stop ∷ rest; cost = cost } in
      let bound = m.add cost (lower_bound m input.warehouse (stop ∷ rest) slots) in
      elim (Bool-cases (m.less bound best.total_distance)) [
        | inl less ↦ rw less (s, children-Planned m input best.total_distance stop rest st p)
        | inr not_less ↦ rw not_less (s, tt)
      ]

  loop-IsSound :
      (n : ℕ) (best : SolverResult F Place) (stack : List (State F Place))
      → ((a b c : F) → m.less a b ≡ true → m.less b c ≡ true → m.less a c ≡ true)
      → All (Planned m input) stack
      → IsSound best
      → IsSound (loop m n input best stack)
  unfolding loop All
  loop-IsSound zero best stack trans a s = s
  loop-IsSound (suc n) best [] trans a s = s
  loop-IsSound (suc n) best (st ∷ stack) trans (p, a) s =
      let (s', pushed) = visit-IsSound st.slots st.unserved st.cost best trans p s in
      loop-IsSound n _ _ trans
        (All-append (Planned m input) _ stack (All-reverse (Planned m input) _ pushed) a) s'

  start-IsPlanned : IsPlanned {F = F} input [] input.stops
  unfolding AreLoaded tally_all are_distinct
  start-IsPlanned = record {
    plans = [];
    loaded = tt;
    all_stops = λ q. omega arith;
    own_vehicles = refl;
  }

  -- However many nodes are looked at, what the search returns is the solution at the start, or routes
  -- with a distance below it that serve each stop of the input exactly once, each route within the
  -- capacity of a vehicle that no other route has.
  pub branch_and_bound-IsSound :
      (nodes : ℕ)
      → ((a b c : F) → m.less a b ≡ true → m.less b c ≡ true → m.less a c ≡ true)
      → IsSound (branch_and_bound m nodes input initial)
  unfolding branch_and_bound All
  branch_and_bound-IsSound nodes trans =
      loop-IsSound nodes initial _ trans (start-IsPlanned, tt) (inl refl)
