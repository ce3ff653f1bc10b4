-- ===== src/Queue/Worker/Loop.antt =====
-- The loop of `startFullWorker` and its `stop` (core/queue/worker.ts): how many jobs run at once.
use pilots_hq.Prelude.{
  ℕ, ◌+◌, ◌-◌, ◌≤◌, ◌≡◌, ◌⊎◌, Bool, true, false, ◌&&◌, ◌||◌, not, Option, none, some, List, [], ◌∷◌,
  arith, min, max, ltb, leb, ◌==◌, if◌then◌else◌,
}

pub record Worker : Type 0 where
  pub concurrency : ℕ
  pub running : Bool
  pub active_count : ℕ
  pub polling : Bool  -- the loop waits for `tryDequeue`
  pub calls : ℕ  -- how often `stop` was called; the promise of the n-th call has the number n
  pub drain_resolve : Option ℕ  -- the promise that `drainResolve` resolves
  pub resolved : List ℕ  -- the promises that are resolved

abbrev pub max_concurrency : ℕ
max_concurrency = 20

-- The loop gives way at `await tryDequeue()`, so a round is two events.
pub data Event : Type 0 where
  poll : Event  -- a round begins
  answer : Bool → Event  -- `tryDequeue` answers, with a job or without
  settle : Event  -- one `processJob` ends, however it ends
  stop : Event

unfoldable pub start : Option ℕ → Worker
start requested = record {
  concurrency = max 1 (min (elim requested [ none ↦ 1 | some n ↦ n ]) max_concurrency);
  running = true;
  active_count = 0;
  polling = false;
  calls = 0;
  drain_resolve = none;
  resolved = [];
}

-- `activeCount < concurrency && running` is tested before the wait
unfoldable pub begin_round : Worker → Worker
begin_round w =
    if not w.polling && (w.running && ltb w.active_count w.concurrency)
    then record w { polling = true }
    else w

-- after it the count goes up for a job that was found, with no test
unfoldable pub end_round : Bool → Worker → Worker
end_round found w =
    if w.polling
    then record w {
      polling = false;
      active_count = if found then w.active_count + 1 else w.active_count;
    }
    else w

-- `if (drainResolve) drainResolve()`
abbrev pub call_resolve : Option ℕ → List ℕ → List ℕ
call_resolve none done = done
call_resolve (some n) done = n ∷ done

-- the `finally` block; a count of 0 has no job to end
unfoldable pub settle_one : Worker → Worker
settle_one w =
    let n = w.active_count - 1 in
    if w.active_count == 0
    then w
    else if not w.running && n == 0
    then record w { active_count = n; resolved = call_resolve w.drain_resolve w.resolved }
    else record w { active_count = n }

-- the new promise is resolved at once, or takes the place of the one that waits
unfoldable pub request_stop : Worker → Worker
request_stop w =
    let n = w.calls + 1 in
    if w.active_count == 0
    then record w { running = false; calls = n; resolved = n ∷ w.resolved }
    else record w { running = false; calls = n; drain_resolve = some n }

unfoldable pub step : Worker → Event → Worker
unfolding begin_round end_round settle_one request_stop
step w poll = begin_round w
step w (answer found) = end_round found w
step w settle = settle_one w
step w stop = request_stop w

unfoldable pub run : Worker → List Event → Worker
run w [] = w
run w (e ∷ es) = run (step w e) es

abbrev pub in_flight : Bool → ℕ
in_flight true = 1
in_flight false = 0

abbrev pub is_in : ℕ → List ℕ → Bool
is_in n [] = false
is_in n (m ∷ ms) = (n == m) || is_in n ms

-- What holds between two events.
pub record Inv (w : Worker) : Type 0 where
  pub allowed : (1 ≤ w.concurrency) × (w.concurrency ≤ max_concurrency)
  pub bounded : w.active_count + in_flight w.polling ≤ w.concurrency
  pub answered : w.running ≡ false → w.active_count ≡ 0 → is_in w.calls w.resolved ≡ true
  pub waiting :
      w.running ≡ false → (w.drain_resolve ≡ some w.calls) ⊎ (is_in w.calls w.resolved ≡ true)
  pub after_stop : (n : ℕ) → is_in n w.resolved ≡ true → w.running ≡ false
  pub last_job : (n : ℕ) → is_in n w.resolved ≡ true → w.active_count + in_flight w.polling ≤ 1

start-Inv : (requested : Option ℕ) → Inv (start requested)
unfolding start
start-Inv requested = ground arith

step-Inv : (w : Worker) (e : Event) → Inv w → Inv (step w e)
unfolding step
step-Inv w poll v = ground arith
step-Inv w (answer found) v = ground arith
step-Inv w settle v = ground arith
step-Inv w stop v = ground arith

run-Inv : (w : Worker) (es : List Event) → Inv w → Inv (run w es)
unfolding run
run-Inv w [] v = v
run-Inv w (e ∷ es) v = run-Inv (step w e) es (step-Inv w e v)

-- After any events from the start, with any requested concurrency: the jobs that run and the one
-- that is being dequeued are at most `concurrency`, which lies between 1 and 20; where `stop` was
-- called and no job runs, the promise of its last call is resolved; and once the promise of any call
-- is resolved, the worker was told to stop and at most one job runs.
pub run-start_lem :
    (requested : Option ℕ) (es : List Event) (n : ℕ)
    → let w = run (start requested) es in
      (w.active_count + in_flight w.polling ≤ w.concurrency)
      × (1 ≤ w.concurrency)
      × (w.concurrency ≤ 20)
      × ((w.running || (ltb 0 w.active_count || is_in w.calls w.resolved)) ≡ true)
      × ((not (is_in n w.resolved) || (not w.running && leb w.active_count 1)) ≡ true)
run-start_lem requested es n =
    let v = run-Inv (start requested) es (start-Inv requested) in
    (
      v.bounded,
      v.allowed.0,
      v.allowed.1,
      ground (arith, v.answered),
      ground (arith, v.after_stop n, v.last_job n),
    )
