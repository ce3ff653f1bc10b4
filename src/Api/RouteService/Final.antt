-- ===== src/Api/RouteService/Final.antt =====
-- A route moves from planned to confirmed to completed (api/services/route.service.ts).
use pilots_hq.Prelude.{◌≡◌, String, true, false, some, [], arith}
use pilots_hq.Api.RouteService.{
  confirmed, completed, database_error, fail, RouteRow, Database, Floats, belongs, is_planned,
  is_confirmed, get_route, confirm_row, confirm_route, last_rounded, complete_row, complete_route,
}

module _ {F : Type 0} where
  abbrev confirmed_row : String → RouteRow F → RouteRow F
  confirmed_row driver r = record r { status = confirmed; driver_id = some driver }

  abbrev completed_row : String → F → RouteRow F → RouteRow F
  completed_row started minutes r = record r {
    status = completed;
    started_at = some started;
    actual_duration = some minutes;
  }

  -- A user of the organisation whose id is not in `drivers` cannot be the driver of a route.
  pub confirm_route-no_driver :
      (org id driver : String) (r : RouteRow F) (db : Database F)
      → get_route org id db ≡ some r
      → is_planned r.status ≡ true
      → belongs org driver db.users ≡ true
      → db.drivers driver ≡ false
      → confirm_route org id driver db ≡ fail database_error
  unfolding confirm_route confirm_row
  confirm_route-no_driver org id driver r db g p b k =
      rw (confirm_route, g) (ground (arith, p, b, k))

  -- A route without stops cannot be completed: the last arrival is then undefined.
  pub complete_route-no_stops :
      (f : Floats F) (org id started : String) (r : RouteRow F) (db : Database F)
      → get_route org id db ≡ some r
      → is_confirmed r.status ≡ true
      → r.stops ≡ []
      → complete_route f org id started [] db ≡ fail database_error
  unfolding complete_route complete_row last_rounded
  complete_route-no_stops f org id started r db g c e =
      rw (complete_route, g) (ground (arith, c, e))
