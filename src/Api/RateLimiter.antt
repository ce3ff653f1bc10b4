-- ===== src/Api/RateLimiter.antt =====
-- api/middleware/rate-limiter.ts: the sliding window that Redis keeps for a key, and the limits of
-- the tiers. A set of Redis is the list of its scores in rising order (the members differ by random
-- bytes), with the time at which the key expires. Requests whose calls of Redis overlap are in
-- Overlap. The tier is read from the token elsewhere.
pub mod Counts
pub mod Window
pub mod Overlap
use pilots_hq.Prelude.{
  ℕ, zero, suc, ◌+◌, ◌-◌, ◌*◌, ◌/◌, String, Bool, true, false, ◌&&◌, ◌||◌, Option, none, some, List,
  [], ◌∷◌, length, leb, ltb, str_eq, if◌then◌else◌,
}

pub record RateLimitConfig : Type 0 where
  pub window_ms : ℕ
  pub max_requests : ℕ

pub data Answer : Type 0 where
  passed : Answer
  refused : ℕ → Answer

pub record ScoreSet : Type 0 where
  pub scores : List ℕ
  pub expires_at : ℕ

unfoldable pub no_scores : ScoreSet
no_scores = record { scores = []; expires_at = 0 }

abbrev minute : ℕ
minute = 60000

per_minute : ℕ → RateLimitConfig
per_minute n = record { window_ms = minute; max_requests = n }

abbrev login : String
login = "POST /api/v1/auth/login"

abbrev orders : String
orders = "POST /api/v1/orders"

-- `TIER_LIMITS[tier] ?? TIER_LIMITS['starter']`, then `[routeKey] ?? ['default']`
unfoldable pub tier_limit : String → String → RateLimitConfig
unfolding per_minute
tier_limit tier route =
    if str_eq tier "enterprise"
    then (if str_eq route login
        then per_minute 20
        else if str_eq route orders
        then per_minute 300
        else per_minute 600)
    else if str_eq tier "growth"
    then (if str_eq route login
        then per_minute 10
        else if str_eq route orders
        then per_minute 60
        else per_minute 120)
    else (if str_eq route login
        then per_minute 5
        else if str_eq route orders
        then per_minute 10
        else per_minute 30)

unfoldable pub get_tier : Option String → String
get_tier none = "starter"
get_tier (some t) = t

unfoldable pub is_high_priority : Option String → Option String → Bool
unfolding get_tier
is_high_priority priority tier =
    elim priority [ none ↦ false | some p ↦ str_eq p "high" ] && str_eq (get_tier tier) "enterprise"

-- A config that is passed in is used as it is; else the tier decides.
unfoldable pub effective_limit :
    Option RateLimitConfig → Option String → Option String → String → RateLimitConfig
unfolding tier_limit get_tier is_high_priority
effective_limit (some config) tier priority route = config
effective_limit none tier priority route =
    let l = tier_limit (get_tier tier) route in
    if is_high_priority priority tier then record l { max_requests = l.max_requests * 2 } else l

unfoldable pub key_prefix : Option RateLimitConfig → Option String → Option String → String
unfolding is_high_priority
key_prefix (some config) tier priority = "rl:"
key_prefix none tier priority = if is_high_priority priority tier then "rl:hp:" else "rl:"

-- The scores that Redis still has: an expired key has none.
unfoldable pub live : ℕ → ScoreSet → List ℕ
live now s = if leb s.expires_at now then [] else s.scores

-- `zremrangebyscore(key, '-inf', now - windowMs)`
unfoldable pub trim : ℕ → ℕ → List ℕ → List ℕ
trim window now [] = []
trim window now (x ∷ xs) =
    let rest = trim window now xs in if leb (x + window) now then rest else x ∷ rest

-- `zadd`: after the scores that are not greater
unfoldable pub zadd : ℕ → List ℕ → List ℕ
zadd now [] = now ∷ []
zadd now (x ∷ xs) = if ltb now x then now ∷ x ∷ xs else x ∷ zadd now xs

unfoldable pub ceil_seconds : ℕ → ℕ
ceil_seconds ms = (ms + 999) / 1000

unfoldable pub retry_after : ℕ → ℕ → List ℕ → ℕ
unfolding ceil_seconds
retry_after window now [] = ceil_seconds window
retry_after window now (oldest ∷ rest) = ceil_seconds (oldest + window - now)

-- The handler between its key and `next()`, with no other request of the key in between; where Redis
-- does not answer, the request passes.
unfoldable pub check_limit : Bool → RateLimitConfig → ℕ → ScoreSet → ScoreSet × Answer
unfolding live trim zadd retry_after
check_limit false limit now s = (s, passed)
check_limit true limit now s =
    let kept = trim limit.window_ms now (live now s) in
    if leb limit.max_requests (length kept)
    then (record s { scores = kept }, refused (retry_after limit.window_ms now kept))
    else (record { scores = zadd now kept; expires_at = now + limit.window_ms }, passed)
