-- ===== src/Api/RateLimiter/Counts.antt =====
-- How many scores a window holds (api/middleware/rate-limiter.ts).
use pilots_hq.Prelude.{
  ℕ, suc, ◌+◌, ◌≤◌, ◌≡◌, inl, inr, refl, sym, true, ◌&&◌, List, [], ◌∷◌, length, leb, ltb,
  if◌then◌else◌, arith, Bool-cases,
}
use pilots_hq.Api.RateLimiter.{
  RateLimitConfig, passed, refused, ScoreSet, live, trim, zadd, check_limit,
}

-- How many of the times are in the window that ends at `t`: at most `t`, and later than
-- `t - window`.
unfoldable pub count_in : ℕ → ℕ → List ℕ → ℕ
count_in window t [] = 0
count_in window t (x ∷ xs) =
    let rest = count_in window t xs in if leb x t && ltb t (x + window) then suc rest else rest

-- The times of the requests that pass, of those that come at the given times and are handled one
-- after another, each to its end.
unfoldable pub passed_times : RateLimitConfig → List ℕ → ScoreSet → List ℕ
passed_times limit [] s = []
passed_times limit (now ∷ times) s =
    let (s', answer) = check_limit true limit now s in
    let rest = passed_times limit times s' in elim answer [ passed ↦ now ∷ rest | refused n ↦ rest ]

-- The clock does not go back.
abbrev pub NotBefore : ℕ → List ℕ → Type 0
NotBefore last [] = Unit
NotBefore last (t ∷ ts) = (last ≤ t) × NotBefore t ts

-- No score is of the future, and the key expires after the window of each.
abbrev pub AllKept : ℕ → ℕ → ℕ → List ℕ → Type 0
AllKept window last expiry [] = Unit
AllKept window last expiry (x ∷ xs) =
    (x ≤ last) × (x + window ≤ expiry) × AllKept window last expiry xs

pub length-trim : (w now : ℕ) (xs : List ℕ) → length (trim w now xs) ≤ length xs
unfolding trim
length-trim w now [] = omega arith
length-trim w now (x ∷ xs) = ground (arith, length-trim w now xs)

pub length-zadd : (now : ℕ) (xs : List ℕ) → length (zadd now xs) ≡ suc (length xs)
unfolding zadd
length-zadd now [] = refl
length-zadd now (x ∷ xs) = ground (arith, length-zadd now xs)

pub count_in-zadd :
    (w t now : ℕ) (xs : List ℕ) → count_in w t (zadd now xs) ≡ count_in w t (now ∷ xs)
unfolding zadd count_in
count_in-zadd w t now [] = refl
count_in-zadd w t now (x ∷ xs) = ground (arith, count_in-zadd w t now xs)

pub count_in-trim :
    (w t now : ℕ) (xs : List ℕ) → now ≤ t → count_in w t (trim w now xs) ≡ count_in w t xs
unfolding trim count_in
count_in-trim w t now [] h = refl
count_in-trim w t now (x ∷ xs) h = ground (arith, count_in-trim w t now xs h)

pub count_in-length : (w t : ℕ) (xs : List ℕ) → count_in w t xs ≤ length xs
unfolding count_in
count_in-length w t [] = omega arith
count_in-length w t (x ∷ xs) = ground (arith, count_in-length w t xs)

-- What has expired is in no window that ends later.
count_in-expired :
    (w t last expiry : ℕ) (xs : List ℕ)
    → AllKept w last expiry xs
    → expiry ≤ t
    → count_in w t xs ≡ 0
unfolding count_in
count_in-expired w t last expiry [] k h = refl
count_in-expired w t last expiry (x ∷ xs) k h =
    ground (arith, count_in-expired w t last expiry xs k.2 h, k.1)

pub count_in-live :
    (w t now last : ℕ) (s : ScoreSet)
    → AllKept w last s.expires_at s.scores
    → now ≤ t
    → count_in w t (live now s) ≡ count_in w t s.scores
unfolding live count_in
count_in-live w t now last s k h = elim (Bool-cases (leb s.expires_at now)) [
  | inl e ↦ rw e (sym (count_in-expired w t last s.expires_at s.scores k (ground arith)))
  | inr e ↦ rw e refl
]

pub AllKept-trim :
    (w now last expiry : ℕ) (xs : List ℕ)
    → AllKept w last expiry xs
    → AllKept w last expiry (trim w now xs)
unfolding trim
AllKept-trim w now last expiry [] k = tt
AllKept-trim w now last expiry (x ∷ xs) k = ground (arith, AllKept-trim w now last expiry xs k.2)

pub AllKept-later :
    (w last now expiry : ℕ) (xs : List ℕ)
    → AllKept w last expiry xs
    → last ≤ now
    → AllKept w now (now + w) xs × AllKept w now expiry xs
AllKept-later w last now expiry [] k h = (tt, tt)
AllKept-later w last now expiry (x ∷ xs) k h =
    let (a, b) = AllKept-later w last now expiry xs k.2 h in
    ((omega (arith, k.0), omega (arith, k.0), a), (omega (arith, k.0), k.1, b))

pub AllKept-zadd :
    (w now : ℕ) (xs : List ℕ) → AllKept w now (now + w) xs → AllKept w now (now + w) (zadd now xs)
unfolding zadd
AllKept-zadd w now [] k = (omega arith, omega arith, tt)
AllKept-zadd w now (x ∷ xs) k = ground (arith, AllKept-zadd w now xs k.2)

pub live-length : (w now : ℕ) (s : ScoreSet) → length (live now s) ≤ length s.scores
unfolding live
live-length w now s = ground arith

pub live-AllKept :
    (w now last : ℕ) (s : ScoreSet)
    → AllKept w last s.expires_at s.scores
    → AllKept w last s.expires_at (live now s) × (length (live now s) ≤ length s.scores)
unfolding live
live-AllKept w now last s k = ground arith
