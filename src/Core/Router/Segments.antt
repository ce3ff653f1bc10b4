-- ===== src/Core/Router/Segments.antt =====
-- Segments that are joined and split again (core/http/router.ts).
use Prim.Native.String.{◌∷◌ as ◌∷ₜ◌}
use pilots_hq.Prelude.{
  ℕ, zero, suc, ◌≡◌, refl, ap, ◌∙◌, String, Bool, true, false, not, ◌&&◌, List, [], ◌∷◌, drop,
  str_eq, arith, split, join, has, split-lacks, split-append, all_lack, split-all_lack,
}
use pilots_hq.Core.Router.{slash, non_empty, segments_of, remaining_path}

-- words that are not empty
unfoldable pub are_segments : List String → Bool
are_segments [] = true
are_segments (w ∷ ws) = (not (has 47 w) && not (str_eq w "")) && are_segments ws

non_empty-are_segments :
    (ws : List String) → all_lack 47 ws ≡ true → are_segments (non_empty ws) ≡ true
unfolding non_empty all_lack are_segments
non_empty-are_segments [] e = refl
non_empty-are_segments (w ∷ ws) e = ground (arith, e, non_empty-are_segments ws (ground (arith, e)))

pub segments_of-are_segments : (s : String) → are_segments (segments_of s) ≡ true
unfolding segments_of
segments_of-are_segments s = non_empty-are_segments (split 47 s) (split-all_lack 47 s)

drop-are_segments :
    (n : ℕ) (ws : List String) → are_segments ws ≡ true → are_segments (drop n ws) ≡ true
unfolding are_segments
drop-are_segments zero ws e = e
drop-are_segments (suc n) [] e = refl
drop-are_segments (suc n) (w ∷ ws) e = drop-are_segments n ws (ground (arith, e))

non_empty-are_kept : (ws : List String) → are_segments ws ≡ true → non_empty ws ≡ ws
unfolding non_empty are_segments
non_empty-are_kept [] e = refl
non_empty-are_kept (w ∷ ws) e =
    let there : str_eq w "" ≡ false = ground (arith, e) in
    rw (there, non_empty-are_kept ws (ground (arith, e))) refl

split-join :
    (w : String) (ws : List String)
    → are_segments (w ∷ ws) ≡ true
    → split 47 (join slash (w ∷ ws)) ≡ w ∷ ws
unfolding join are_segments
split-join w [] e = split-lacks 47 w (ground (arith, e))
split-join w (v ∷ ws) e =
    split-append 47 slash w (join slash (v ∷ ws)) refl (ground (arith, e))
    ∙ ap (λ l. w ∷ l) (split-join v ws (ground (arith, e)))

split-slash : (t : String) → split 47 (slash ∷ₜ t) ≡ "" ∷ split 47 t
unfolding split
split-slash t = refl

segments_of-joined :
    (ws : List String) → are_segments ws ≡ true → segments_of (slash ∷ₜ join slash ws) ≡ ws
unfolding segments_of non_empty join split
segments_of-joined [] e = refl
segments_of-joined (w ∷ ws) e =
    ap non_empty (split-slash (join slash (w ∷ ws)))
    ∙ ap non_empty (split-join w ws e)
    ∙ non_empty-are_kept (w ∷ ws) e

-- The path that is handed to a router below has the segments that are left.
pub segments_of-remaining_path :
    (n : ℕ) (path : String)
    → segments_of (remaining_path n (segments_of path)) ≡ drop n (segments_of path)
unfolding remaining_path
segments_of-remaining_path n path =
    segments_of-joined (drop n (segments_of path))
      (drop-are_segments n (segments_of path) (segments_of-are_segments path))
