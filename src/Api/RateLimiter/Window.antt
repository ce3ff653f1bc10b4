-- ===== src/Api/RateLimiter/Window.antt =====
-- One request after another: no window holds more than the limit, and who waits is served (api/middleware/rate-limiter.ts).
use pilots_hq.Prelude.{
  ℕ, ◌+◌, ◌-◌, ◌*◌, ◌≤◌, ◌<◌, ◌≡◌, ◌⊎◌, inl, inr, refl, sym, ◌∙◌, ap, true, List, [], ◌∷◌, length,
  leb, ltb, arith, Bool-cases,
}
use pilots_hq.Api.RateLimiter.{
  RateLimitConfig, passed, refused, ScoreSet, no_scores, live, trim, zadd, ceil_seconds,
  retry_after, check_limit,
}
use pilots_hq.Api.RateLimiter.Counts.{
  count_in, passed_times, NotBefore, AllKept, length-trim, length-zadd, count_in-zadd,
  count_in-trim, count_in-length, count_in-live, AllKept-trim, AllKept-later, AllKept-zadd,
  live-length, live-AllKept,
}

-- What is left of the scores when a request comes.
abbrev kept : RateLimitConfig → ℕ → ScoreSet → List ℕ
kept limit now s = trim limit.window_ms now (live now s)

-- The two things that a request may meet where Redis answers.
check_limit-cases :
    (limit : RateLimitConfig) (now : ℕ) (s : ScoreSet)
    → ((limit.max_requests ≤ length (kept limit now s))
        × (check_limit true limit now s ≡ (
          record s { scores = kept limit now s },
          refused (retry_after limit.window_ms now (kept limit now s)),
        )))
      ⊎ ((length (kept limit now s) < limit.max_requests)
          × (check_limit true limit now s ≡ (
            record { scores = zadd now (kept limit now s); expires_at = now + limit.window_ms },
            passed,
          )))
unfolding check_limit
check_limit-cases limit now s =
    elim (Bool-cases (leb limit.max_requests (length (kept limit now s)))) [
      | inl e ↦ inl (ground arith, rw e refl)
      | inr e ↦ inr (ground arith, rw e refl)
    ]

count_in-passed_times :
    (limit : RateLimitConfig) (times : List ℕ) (s : ScoreSet) (t last : ℕ)
    → NotBefore last times
    → t < last
    → count_in limit.window_ms t (passed_times limit times s) ≡ 0
unfolding passed_times count_in
count_in-passed_times limit [] s t last n h = refl
count_in-passed_times limit (now ∷ times) s t last n h = elim (check_limit-cases limit now s) [
  | inl (_, e) ↦
      rw (passed_times, e, e) (count_in-passed_times limit times _ t now n.1 (omega (arith, n.0)))
  | inr (_, e) ↦
      rw (passed_times, e, e)
        (ground (
          arith,
          n.0,
          count_in-passed_times limit times
              (record { scores = zadd now (kept limit now s); expires_at = now + limit.window_ms })
              t now n.1 (omega (arith, n.0)),
        ))
]

count_in-cons :
    (w t x : ℕ) (xs : List ℕ) → count_in w t (x ∷ xs) ≡ count_in w t (x ∷ []) + count_in w t xs
unfolding count_in
count_in-cons w t x xs = ground arith

count_in-future : (w t x : ℕ) (xs : List ℕ) → t < x → count_in w t (x ∷ xs) ≡ count_in w t xs
unfolding count_in
count_in-future w t x xs h = ground arith

-- Before the next request, nothing that passes counts.
early_window :
    (limit : RateLimitConfig) (times : List ℕ) (s : ScoreSet) (xs : List ℕ) (t now : ℕ)
    → length xs ≤ limit.max_requests
    → NotBefore now times
    → t < now
    → count_in limit.window_ms t xs + count_in limit.window_ms t (passed_times limit times s)
      ≤ limit.max_requests
early_window limit times s xs t now few n h =
    omega
      (arith, count_in-length limit.window_ms t xs, count_in-passed_times limit times s t now n h)

-- What is left at `now` is kept, is no more than before, and counts the same in later windows.
kept_lem :
    (limit : RateLimitConfig) (now last : ℕ) (s : ScoreSet)
    → AllKept limit.window_ms last s.expires_at s.scores
    → last ≤ now
    → AllKept limit.window_ms now (now + limit.window_ms) (kept limit now s)
      × AllKept limit.window_ms now s.expires_at (kept limit now s)
      × (length (kept limit now s) ≤ length s.scores)
      × ((t : ℕ)
          → now ≤ t
          → count_in limit.window_ms t (kept limit now s) ≡ count_in limit.window_ms t s.scores)
kept_lem limit now last s k h =
    let w = limit.window_ms in
    let (k', few) = live-AllKept w now last s k in
    let (renewed, same) =
      AllKept-later w last now s.expires_at (kept limit now s)
        (AllKept-trim w now last s.expires_at (live now s) k') h in
    (
      renewed,
      same,
      omega (arith, length-trim w now (live now s), few),
      λ t later. count_in-trim w t now (live now s) later ∙ count_in-live w t now last s k later,
    )

at_most_limit :
    (limit : RateLimitConfig) (times : List ℕ) (s : ScoreSet) (t last : ℕ)
    → AllKept limit.window_ms last s.expires_at s.scores
    → length s.scores ≤ limit.max_requests
    → NotBefore last times
    → count_in limit.window_ms t s.scores + count_in limit.window_ms t (passed_times limit times s)
      ≤ limit.max_requests
unfolding passed_times
at_most_limit limit [] s t last k few n =
    unfold count_in in omega (arith, count_in-length limit.window_ms t s.scores)
at_most_limit limit (now ∷ times) s t last k few n =
    let w = limit.window_ms in
    let (renewed, same, fewer, count) = kept_lem limit now last s k n.0 in
    elim (check_limit-cases limit now s) [
      | inl (full, e) ↦
          rw (passed_times, e, e)
            (elim (Bool-cases (ltb t now)) [
              | inl h ↦ early_window limit times _ s.scores t now few n.1 (ground arith)
              | inr h ↦
                  let s' : ScoreSet = record s { scores = kept limit now s } in
                  let later : now ≤ t = ground arith in
                  omega (
                    arith,
                    at_most_limit limit times s' t now same (omega (arith, fewer, few)) n.1,
                    count t later,
                  )
            ])
      | inr (room, e) ↦
          let s' : ScoreSet = record {
            scores = zadd now (kept limit now s);
            expires_at = now + w;
          } in
          rw (passed_times, e, e)
            (elim (Bool-cases (ltb t now)) [
              | inl h ↦ omega (
                arith,
                early_window limit times s' s.scores t now few n.1 (ground arith),
                count_in-future w t now (passed_times limit times s') (ground arith),
              )
              | inr h ↦
                  let later : now ≤ t = ground arith in
                  omega (
                    arith,
                    at_most_limit limit times s' t now (AllKept-zadd w now _ renewed)
                        (omega (arith, room, length-zadd now (kept limit now s))) n.1,
                    count t later,
                    count_in-zadd w t now (kept limit now s),
                    count_in-cons w t now (kept limit now s),
                    count_in-cons w t now (passed_times limit times s'),
                  )
            ])
    ]

-- Of the requests of one key that are handled one after another, each to its end before the next one
-- begins, no window of `windowMs` has more that pass than `maxRequests`, where Redis answers and the
-- clock does not go back.
pub passed_times-bound :
    (limit : RateLimitConfig) (times : List ℕ) (t : ℕ)
    → NotBefore 0 times
    → count_in limit.window_ms t (passed_times limit times no_scores) ≤ limit.max_requests
unfolding no_scores
passed_times-bound limit times t n = omega (
  arith,
  at_most_limit limit times no_scores t 0 (unfold no_scores in tt) (unfold no_scores in omega arith)
      n,
)

passes_below :
    (limit : RateLimitConfig) (now : ℕ) (s : ScoreSet)
    → length (kept limit now s) < limit.max_requests
    → (check_limit true limit now s).1 ≡ passed
passes_below limit now s below = elim (check_limit-cases limit now s) [
  | inl (full, e) ↦ absurd (omega (arith, full, below))
  | inr (room, e) ↦ rw e refl
]

-- Once the oldest score is out of the window, fewer are left.
fewer_later :
    (limit : RateLimitConfig) (later x : ℕ) (xs : List ℕ) (s : ScoreSet)
    → s.scores ≡ x ∷ xs
    → x + limit.window_ms ≤ later
    → length (kept limit later s) ≤ length xs
unfolding live
fewer_later limit later x xs s e h = elim (Bool-cases (leb s.expires_at later)) [
  | inl gone ↦ rw (live, gone) (unfold trim in omega arith)
  | inr there ↦
      rw (live, there, e) (unfold trim in ground (arith, length-trim limit.window_ms later xs))
]

waited_enough :
    (x w now later : ℕ) → now + ceil_seconds (x + w - now) * 1000 ≤ later → x + w ≤ later
unfolding ceil_seconds
waited_enough x w now later h = omega arith

retry_oldest :
    (limit : RateLimitConfig) (now later : ℕ) (s : ScoreSet) (r : List ℕ)
    → kept limit now s ≡ r
    → 1 ≤ limit.max_requests
    → limit.max_requests ≤ length r
    → length r ≤ limit.max_requests
    → now + retry_after limit.window_ms now r * 1000 ≤ later
    → (check_limit true limit later (record s { scores = r })).1 ≡ passed
unfolding retry_after
retry_oldest limit now later s [] e some_pass full few waited = absurd (omega arith)
retry_oldest limit now later s (x ∷ xs) e some_pass full few waited = passes_below limit later _ (
    omega (
      arith,
      few,
      fewer_later limit later x xs (record s { scores = x ∷ xs }) refl
          (waited_enough x limit.window_ms now later waited),
    ))

refused-injective : {m n : ℕ} → refused m ≡ refused n → m ≡ n
refused-injective e = ground arith

-- Who is refused passes after the seconds of `Retry-After`, where nobody else came in between: the
-- set then held no more than the limit, and its oldest score is the first.
pub retry_after_enough :
    (limit : RateLimitConfig) (now later n : ℕ) (s : ScoreSet)
    → 1 ≤ limit.max_requests
    → length s.scores ≤ limit.max_requests
    → (check_limit true limit now s).1 ≡ refused n
    → now + n * 1000 ≤ later
    → (check_limit true limit later (check_limit true limit now s).0).1 ≡ passed
retry_after_enough limit now later n s some_pass few answer waited =
    elim (check_limit-cases limit now s) [
      | inl (full, e) ↦
          let same = refused-injective (sym (ap (λ r. r.1) e) ∙ answer) in
          let shorter = live-length limit.window_ms now s in
          rw e (
            retry_oldest limit now later s (kept limit now s) refl some_pass full
              (omega (arith, few, shorter, length-trim limit.window_ms now (live now s)))
              (omega (arith, waited, same)))
      | inr (room, e) ↦ absurd (cc (answer, ap (λ r. r.1) e))
    ]
