-- ===== src/Routing/Types.antt =====
-- engines/route-optimizer/types.ts. Places and distances are those of floats: a `Metric` gives what the
-- planners compute with them. Weights and volumes are whole numbers of some unit.
use pilots_hq.Prelude.{ℕ, String, Bool, List}

-- `distance` is haversineKm, `minutes` is `x / 40 * 60`
pub record Metric (F Place : Type 0) : Type 0 where
  pub nought : F
  pub infinity : F
  pub add : F → F → F
  pub subtract : F → F → F
  pub less : F → F → Bool
  pub distance : Place → Place → F
  pub minutes : F → F

pub record Stop (Place : Type 0) : Type 0 where
  pub order_id : String
  pub place : Place
  pub weight : ℕ
  pub volume : ℕ

pub record Vehicle : Type 0 where
  pub id : String
  pub capacity_kg : ℕ
  pub capacity_cbm : ℕ

pub record RouteStop (F Place : Type 0) : Type 0 where
  pub order_id : String
  pub place : Place
  pub arrival : F
  pub from_previous : F

pub record SolverRoute (F Place : Type 0) : Type 0 where
  pub vehicle_id : String
  pub stops : List (RouteStop F Place)
  pub total_distance : F
  pub total_weight : ℕ
  pub total_volume : ℕ

pub record SolverInput (Place : Type 0) : Type 0 where
  pub warehouse : Place
  pub vehicles : List Vehicle
  pub stops : List (Stop Place)

pub record SolverResult (F Place : Type 0) : Type 0 where
  pub routes : List (SolverRoute F Place)
  pub total_distance : F
