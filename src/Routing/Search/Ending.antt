-- ===== src/Routing/Search/Ending.antt =====
-- The search comes to an end (engines/route-optimizer/branch-and-bound.ts).
use pilots_hq.Prelude.{ℕ, ◌+◌, ◌≡◌, List}
use pilots_hq.Routing.Types.{Metric, Stop, SolverInput, SolverResult}
use pilots_hq.Routing.Search.{State, loop}

module _ {F Place : Type 0} (m : Metric F Place) (input : SolverInput Place) where
  -- a state that has these stops left
  abbrev Leaves : List (Stop Place) → State F Place → Type 0
  Leaves rest st = st.unserved ≡ rest

  -- With some number of nodes the stack is done with: more of them change nothing.
  abbrev pub Ends : List (State F Place) → Type 0
  Ends stack =
      (best : SolverResult F Place)
      → (n : ℕ) × ((more : ℕ) → loop m (n + more) input best stack ≡ loop m n input best stack)
