-- ===== src/Api/RouteService.antt =====
-- api/services/route.service.ts: `getRoute`, `confirmRoute`, `reassignRoute`, `completeRoute` over
-- the tables that they touch. `F` is the type of floats, with the operations that the code uses of
-- them; `observe` stands for the calls of `updateSpeedProfile`, kept in order. A write that breaks the
-- schema (db/migrations/010_routes.sql) is a database error: a driver's id that is not in `drivers`, an
-- empty id, NaN for an integer. Ids are UUIDs and durations in the range of INT.
pub mod Final
use pilots_hq.Prelude.{
  ℕ, String, Bool, true, false, not, ◌||◌, ◌&&◌, Option, none, some, List, [], ◌∷◌, ◌++◌, ◌==◌,
  length, str_eq, if◌then◌else◌, insert,
}

pub data RouteStatus : Type 0 where
  planned confirmed completed : RouteStatus
  other_status : String → RouteStatus  -- the column is any text

pub data RouteError : Type 0 where
  route_not_found invalid_route_status driver_not_found vehicle_not_found validation_error :
      RouteError
  database_error : RouteError

pub data Result (A : Type 0) : Type 0 where
  ok : A → Result A
  fail : RouteError → Result A

pub record RouteRow (F : Type 0) : Type 0 where
  pub id : String
  pub org_id : String
  pub status : RouteStatus
  pub driver_id : Option String
  pub vehicle_id : Option String
  pub stops : List F  -- the `distanceFromPrevKm` of each
  pub started_at : Option String
  pub actual_duration : Option F

-- `updateSpeedProfile` for a leg: when it departs, in minutes from the start, its length and time
pub record Observation (F : Type 0) : Type 0 where
  pub started_at : String
  pub departure : F
  pub distance : F
  pub minutes : F

-- Users and vehicles are known by their organisation; `drivers` tells the ids of that table.
pub record Database (F : Type 0) : Type 0 where
  pub routes : String → Option (RouteRow F)
  pub users : String → Option String
  pub vehicles : String → Option String
  pub drivers : String → Bool
  pub observed : List (Observation F)

-- What the code does with floats: `x <= 0`, `x - y`, 0 and `Math.round`.
pub record Floats (F : Type 0) : Type 0 where
  pub is_not_positive : F → Bool
  pub minus : F → F → F
  pub nought : F
  pub round : F → F

-- `WHERE id = $1 AND org_id = $2`
unfoldable pub belongs : String → String → (String → Option String) → Bool
belongs org id table = elim (table id) [ none ↦ false | some o ↦ str_eq o org ]

-- a check that is skipped where there is no id, or an empty one
unfoldable pub belongs_if_given : String → Option String → (String → Option String) → Bool
belongs_if_given org none table = true
belongs_if_given org (some id) table = str_eq id "" || belongs org id table

-- what a foreign key asks of a new value, which may be NULL
unfoldable pub is_referenced : Option String → (String → Bool) → Bool
is_referenced none table = true
is_referenced (some id) table = table id

unfoldable pub is_there : (String → Option String) → String → Bool
is_there table id = elim (table id) [ none ↦ false | some o ↦ true ]

-- `COALESCE($1, old)`
abbrev pub coalesce {ℓ} : {A : Type ℓ} → Option A → Option A → Option A
coalesce none old = old
coalesce (some a) old = some a

unfoldable pub is_planned : RouteStatus → Bool
is_planned planned = true
is_planned confirmed = false
is_planned completed = false
is_planned (other_status s) = false

unfoldable pub is_confirmed : RouteStatus → Bool
is_confirmed planned = false
is_confirmed confirmed = true
is_confirmed completed = false
is_confirmed (other_status s) = false

module _ {F : Type 0} where
  unfoldable pub get_route : String → String → Database F → Option (RouteRow F)
  get_route org id db = elim (db.routes id) [
    | none ↦ none
    | some r ↦ if str_eq r.org_id org then some r else none
  ]

  unfoldable pub write_route : String → RouteRow F → Database F → Database F
  write_route id r db = record db { routes = insert id r db.routes }

  unfoldable pub confirm_row :
      String → String → String → RouteRow F → Database F → Result (Database F)
  unfolding write_route
  confirm_row org id driver route db =
      if is_planned route.status
      then (if belongs org driver db.users
          then (if db.drivers driver
              then ok
                  (write_route id (record route { status = confirmed; driver_id = some driver }) db)
              else fail database_error)
          else fail driver_not_found)
      else fail invalid_route_status

  unfoldable pub confirm_route : String → String → String → Database F → Result (Database F)
  confirm_route org id driver db = elim (get_route org id db) [
    | none ↦ fail route_not_found
    | some route ↦ confirm_row org id driver route db
  ]

  unfoldable pub reassign_route :
      String → String → Option String → Option String → Database F → Result (Database F)
  unfolding write_route
  reassign_route org id driver vehicle db = elim (get_route org id db) [
    | none ↦ fail route_not_found
    | some route ↦
        if belongs_if_given org driver db.users
        then (if belongs_if_given org vehicle db.vehicles
            then (if is_referenced driver db.drivers && is_referenced vehicle (is_there db.vehicles)
                then ok (
                    write_route id
                      (record route {
                        driver_id = coalesce driver route.driver_id;
                        vehicle_id = coalesce vehicle route.vehicle_id;
                      })
                      db)
                else fail database_error)
            else fail vehicle_not_found)
        else fail driver_not_found
  ]

  -- the loop over the legs: each departs when the one before arrives
  unfoldable pub observe : Floats F → String → F → List F → List F → List (Observation F)
  observe f started departure [] arrivals = []
  observe f started departure (d ∷ ds) [] = []
  observe f started departure (d ∷ ds) (a ∷ arrivals) =
      let rest = observe f started a ds arrivals in
      if f.is_not_positive d || f.is_not_positive (f.minus a departure)
      then rest
      else record {
        started_at = started;
        departure = departure;
        distance = d;
        minutes = f.minus a departure;
      }
        ∷ rest

  -- of no arrival it is NaN, nothing here
  unfoldable pub last_rounded : Floats F → List F → Option F
  last_rounded f [] = none
  last_rounded f (a ∷ []) = some (f.round a)
  last_rounded f (a ∷ b ∷ bs) = last_rounded f (b ∷ bs)

  unfoldable pub complete_row :
      Floats F → String → String → List F → RouteRow F → Database F → Result (Database F)
  unfolding write_route
  complete_row f id started arrivals route db =
      if is_confirmed route.status
      then (if length arrivals == length route.stops
          then elim (last_rounded f arrivals) [
            | none ↦ fail database_error
            | some minutes ↦ ok (
                write_route id
                  (record route {
                    status = completed;
                    started_at = some started;
                    actual_duration = some minutes;
                  })
                  (record db {
                    observed = db.observed ++ observe f started f.nought route.stops arrivals;
                  }))
          ]
          else fail validation_error)
      else fail invalid_route_status

  unfoldable pub complete_route :
      Floats F → String → String → String → List F → Database F → Result (Database F)
  complete_route f org id started arrivals db = elim (get_route org id db) [
    | none ↦ fail route_not_found
    | some route ↦ complete_row f id started arrivals route db
  ]
