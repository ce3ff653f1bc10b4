-- ===== src/Core/Router/Mounting.antt =====
-- A router below a prefix sees the rest of the path (core/http/router.ts).
use mathlib.Core.Path.{ap₂}
use pilots_hq.Prelude.{◌≡◌, refl, ap, ◌∙◌, String, Option, none, List, length, drop, if◌then◌else◌}
use pilots_hq.Core.Router.{
  Router, router, Mounts, no_more, mount, Match, or_else, segments_of, starts, remaining_path,
  match_own, match_path, match_mounts,
}
use pilots_hq.Core.Router.Segments.{segments_of-remaining_path}

module _ {H : Type 0} (upper : String → String) where
  -- Matching on the segments alone: no path is put together and split again.
  unfoldable mutual
    pub match_list : String → List String → Router H → Option (Match H)
    match_list method incoming (router routes mounts) =
        or_else (match_below method incoming mounts) (match_own upper method incoming routes)

    pub match_below : String → List String → Mounts H → Option (Match H)
    match_below method incoming no_more = none
    match_below method incoming (mount prefix sub more) =
        let there = match_list method (drop (length (segments_of prefix)) incoming) sub in
        let rest = match_below method incoming more in
        if starts (segments_of prefix) incoming then or_else there rest else rest

  mutual
    unfolding match_path match_list

    path_lem :
        (method path : String) (r : Router H)
        → match_path upper method path r ≡ match_list method (segments_of path) r
    path_lem method path (router routes mounts) =
        ap (λ o. or_else o (match_own upper method (segments_of path) routes))
          (mounts_lem method path mounts)

    mounts_lem :
        (method path : String) (mounts : Mounts H)
        → match_mounts upper method (segments_of path) mounts
          ≡ match_below method (segments_of path) mounts
    mounts_lem method path no_more = refl
    mounts_lem method path (mount prefix sub more) =
        let n = length (segments_of prefix) in
        let there =
          path_lem method (remaining_path n (segments_of path)) sub
          ∙ ap (λ ss. match_list method ss sub) (segments_of-remaining_path n path) in
        let rest = mounts_lem method path more in
        ap₂ (λ a b. if starts (segments_of prefix) (segments_of path) then or_else a b else b) there
          rest

  -- Matching a path is matching its segments: a router that is mounted below a prefix, and one that
  -- is mounted in that, see exactly the segments that are left of the path.
  pub match_path-match_list :
      (method path : String) (r : Router H)
      → match_path upper method path r ≡ match_list method (segments_of path) r
  match_path-match_list method path r = path_lem method path r
