-- ===== src/Core/Router.antt =====
-- core/http/router.ts. `upper` is `toUpperCase`; the parameters of a path are a map from their names.
pub mod Segments
pub mod Mounting
use Prim.Native.Char.{Char, char, code}
use Prim.Native.String.{[] as no_text, ◌∷◌ as ◌∷ₜ◌, ◌++◌ as ◌++ₜ◌}
use pilots_hq.Prelude.{
  ℕ, zero, suc, String, Bool, true, false, not, ◌&&◌, Option, none, some, List, [], ◌∷◌, ◌++◌,
  length, drop, str_eq, ◌==◌, leb, if◌then◌else◌, split, join, insert, empty,
}

pub record RouteEntry (H : Type 0) : Type 0 where
  pub method : String
  pub segments : List String
  pub handler : H

-- a router with its own routes, and the routers that are mounted below a prefix
mutual
  pub data Router (H : Type 0) : Type 0 where
    router : List (RouteEntry H) → Mounts H → Router H

  pub data Mounts (H : Type 0) : Type 0 where
    no_more : Mounts H
    mount : String → Router H → Mounts H → Mounts H

pub record Match (H : Type 0) : Type 0 where
  pub handler : H
  pub params : String → Option String

abbrev pub slash : Char
slash = char 47 tt

-- the first result that there is
unfoldable pub or_else : {A : Type 0} → Option A → Option A → Option A
or_else none other = other
or_else (some a) other = some a

-- `filter(Boolean)`
unfoldable pub non_empty : List String → List String
non_empty [] = []
non_empty (w ∷ ws) = let rest = non_empty ws in if str_eq w "" then rest else w ∷ rest

-- `path.split('/').filter(Boolean)`
unfoldable pub segments_of : String → List String
segments_of path = non_empty (split 47 path)

-- every segment of a prefix is that of the path
unfoldable pub starts : List String → List String → Bool
starts [] incoming = true
starts (p ∷ ps) [] = false
starts (p ∷ ps) (s ∷ ss) = str_eq p s && starts ps ss

unfoldable pub remaining_path : ℕ → List String → String
remaining_path n incoming = slash ∷ₜ join slash (drop n incoming)

-- the name of a segment that starts with a colon
unfoldable pub param_name : String → Option String
param_name no_text = none
param_name (c ∷ₜ s) = if code c == 58 then some s else none

-- the loop over the segments of a route, once their number is that of the path
unfoldable pub match_segments :
    List String → List String → (String → Option String) → Option (String → Option String)
match_segments [] incoming params = some params
match_segments (r ∷ rs) [] params = none
match_segments (r ∷ rs) (s ∷ ss) params = elim (param_name r) [
  | some name ↦ match_segments rs ss (insert name s params)
  | none ↦ if str_eq r s then match_segments rs ss params else none
]

module _ {H : Type 0} (upper : String → String) where
  unfoldable pub add_route : String → String → H → Router H → Router H
  add_route method path handler (router routes mounts) =
      let entry : RouteEntry H = record {
        method = upper method;
        segments = segments_of path;
        handler = handler;
      } in
      router (routes ++ entry ∷ []) mounts

  unfoldable pub match_route : String → List String → RouteEntry H → Option (Match H)
  match_route method incoming route =
      if str_eq route.method (upper method) && (length route.segments == length incoming)
      then elim (match_segments route.segments incoming empty) [
        | none ↦ none
        | some params ↦ some (record { handler = route.handler; params = params })
      ]
      else none

  unfoldable pub match_own : String → List String → List (RouteEntry H) → Option (Match H)
  match_own method incoming [] = none
  match_own method incoming (route ∷ routes) =
      let rest = match_own method incoming routes in
      elim (match_route method incoming route) [ none ↦ rest | some found ↦ some found ]

  -- the routers below first, then the own routes
  unfoldable mutual
    pub match_path : String → String → Router H → Option (Match H)
    match_path method path (router routes mounts) =
        or_else (match_mounts method (segments_of path) mounts)
          (match_own method (segments_of path) routes)

    pub match_mounts : String → List String → Mounts H → Option (Match H)
    match_mounts method incoming no_more = none
    match_mounts method incoming (mount prefix sub more) =
        let there = match_path method (remaining_path (length (segments_of prefix)) incoming) sub in
        let rest = match_mounts method incoming more in
        if starts (segments_of prefix) incoming then or_else there rest else rest

-- `use`: the routers that are mounted stand in their order
module _ {H : Type 0} where
  unfoldable pub mount_last : String → Router H → Mounts H → Mounts H
  mount_last prefix sub no_more = mount prefix sub no_more
  mount_last prefix sub (mount p r more) = mount p r (mount_last prefix sub more)

  unfoldable pub use_router : String → Router H → Router H → Router H
  use_router prefix sub (router routes mounts) = router routes (mount_last prefix sub mounts)
