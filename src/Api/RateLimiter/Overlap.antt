-- ===== src/Api/RateLimiter/Overlap.antt =====
-- The calls of Redis that a request awaits one by one, and two requests whose calls overlap
-- (api/middleware/rate-limiter.ts).
use pilots_hq.Prelude.{
  ℕ, ◌+◌, ◌≤◌, ◌≡◌, inl, inr, refl, ap, ◌∙◌, Bool, true, false, not, List, [], ◌∷◌, length, leb,
  if◌then◌else◌, arith, Bool-cases,
}
use pilots_hq.Api.RateLimiter.{
  RateLimitConfig, Answer, passed, refused, ScoreSet, live, trim, zadd, retry_after, check_limit,
}
use pilots_hq.Api.RateLimiter.Counts.{length-zadd}

-- `zremrangebyscore`
unfoldable pub remove_old : RateLimitConfig → ℕ → ScoreSet → ScoreSet
remove_old limit now s = record s { scores = trim limit.window_ms now (live now s) }

-- `zcard`, and its test
unfoldable pub is_full : RateLimitConfig → ℕ → ScoreSet → Bool
is_full limit now s = leb limit.max_requests (length (live now s))

-- `zadd` and `pexpire` in one transaction
unfoldable pub add_score : RateLimitConfig → ℕ → ScoreSet → ScoreSet
add_score limit now s = record {
  scores = zadd now (live now s);
  expires_at = now + limit.window_ms;
}

unfoldable pub add_if_room : Bool → RateLimitConfig → ℕ → ScoreSet → ScoreSet
add_if_room full limit now s = if full then s else add_score limit now s

-- the three calls with nothing in between
unfoldable pub one_by_one : RateLimitConfig → ℕ → ScoreSet → ScoreSet × Answer
unfolding remove_old is_full add_score
one_by_one limit now s =
    let cleared = remove_old limit now s in
    if is_full limit now cleared
    then (cleared, refused (retry_after limit.window_ms now (live now cleared)))
    else (add_score limit now cleared, passed)

-- Two requests at one time, of which the second counts before the first adds; and whether each
-- passes.
unfoldable pub two_at_once : RateLimitConfig → ℕ → ScoreSet → ScoreSet × Bool × Bool
unfolding remove_old is_full add_if_room
two_at_once limit now s =
    let cleared = remove_old limit now s in
    let first_full = is_full limit now cleared in
    let cleared_again = remove_old limit now cleared in
    let second_full = is_full limit now cleared_again in
    (
      add_if_room second_full limit now (add_if_room first_full limit now cleared_again),
      not first_full,
      not second_full,
    )

live-trim :
    (w now : ℕ) (s : ScoreSet)
    → live now (record s { scores = trim w now (live now s) }) ≡ trim w now (live now s)
unfolding live
live-trim w now s = elim (Bool-cases (leb s.expires_at now)) [
  | inl gone ↦ rw gone (unfold trim in refl)
  | inr there ↦ rw there refl
]

trim-trim : (w now : ℕ) (xs : List ℕ) → trim w now (trim w now xs) ≡ trim w now xs
unfolding trim
trim-trim w now [] = refl
trim-trim w now (x ∷ xs) = ground (arith, trim-trim w now xs)

-- Without an overlap the calls make the handler.
pub check_limit-one_by_one :
    (limit : RateLimitConfig) (now : ℕ) (s : ScoreSet)
    → check_limit true limit now s ≡ one_by_one limit now s
unfolding check_limit one_by_one remove_old is_full add_score
check_limit-one_by_one limit now s = rw (live-trim limit.window_ms now s) refl

has_room :
    (limit : RateLimitConfig) (now : ℕ) (s : ScoreSet) (k : List ℕ)
    → live now s ≡ k
    → length k + 1 ≡ limit.max_requests
    → is_full limit now s ≡ false
unfolding is_full
has_room limit now s k e few = rw e (ground arith)

live-remove_old :
    (limit : RateLimitConfig) (now : ℕ) (s : ScoreSet)
    → live now (remove_old limit now s) ≡ trim limit.window_ms now (live now s)
unfolding remove_old
live-remove_old limit now s = live-trim limit.window_ms now s

live-add_score :
    (limit : RateLimitConfig) (now : ℕ) (s : ScoreSet) (k : List ℕ)
    → 1 ≤ limit.window_ms
    → live now s ≡ k
    → live now (add_score limit now s) ≡ zadd now k
unfolding add_score live
live-add_score limit now s k long e = ground (arith, e)

-- Two requests of one key that come at one time where one place is left in the window both pass, if
-- the second counts before the first adds, and the window then holds one score more than
-- `maxRequests`.
pub two_at_once_lem :
    (limit : RateLimitConfig) (now : ℕ) (s : ScoreSet)
    → 1 ≤ limit.window_ms
    → length (trim limit.window_ms now (live now s)) + 1 ≡ limit.max_requests
    → ((two_at_once limit now s).1 ≡ true)
      × ((two_at_once limit now s).2 ≡ true)
      × (length (live now (two_at_once limit now s).0) ≡ limit.max_requests + 1)
unfolding two_at_once add_if_room
two_at_once_lem limit now s long few =
    let w = limit.window_ms in
    let k = trim w now (live now s) in
    let s1 = remove_old limit now s in
    let s2 = remove_old limit now s1 in
    let e1 : live now s1 ≡ k = live-remove_old limit now s in
    let e2 : live now s2 ≡ k =
      live-remove_old limit now s1 ∙ rw e1 (trim-trim w now (live now s)) in
    let f1 = has_room limit now s1 k e1 few in
    let f2 = has_room limit now s2 k e2 few in
    let e3 = live-add_score limit now s2 k long e2 in
    let e4 = live-add_score limit now (add_score limit now s2) (zadd now k) long e3 in
    rw (f1, f2)
      (
        refl,
        refl,
        ap length e4 ∙ omega (arith, length-zadd now (zadd now k), length-zadd now k, few),
      )
