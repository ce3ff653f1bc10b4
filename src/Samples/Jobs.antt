-- ===== src/Samples/Jobs.antt =====
-- A job queue with one job (core/queue).
use pilots_hq.Prelude.{
  ℕ, ◌+◌, ◌≤◌, ◌≡◌, refl, String, true, false, ◌&&◌, ◌||◌, not, ltb, leb, Option, none, some, List,
  [], ◌∷◌, ◌++◌, arith, length, empty, insert,
}
use pilots_hq.Queue.Types.{high, normal, pending, failed, JobOptions, FullJob, Redis}
use pilots_hq.Queue.Ops.{new_job, enqueue_full, move_to_dlq, rpush}
use pilots_hq.Queue.Worker.{throws, race, try_dequeue}
use pilots_hq.Queue.Retry.{
  Holds, Attempt, Fails, backoffs, delays, with_dead, process_all, process_all-retried,
  process_all-exhausted,
}
use pilots_hq.Queue.Dlq.{IsPushed}
use pilots_hq.Queue.Order.{Served, try_dequeue_lem}
use pilots_hq.Queue.Worker.Loop.{
  Worker, Event, poll, answer, settle, stop, start, begin_round, end_round, settle_one,
  request_stop, step, run, in_flight, run-start_lem, is_in,
}
use pilots_hq.Queue.Worker.Stops.{stop_too_early, first_stop_lost}
use pilots_hq.Samples.Log.{apart}

abbrev options : JobOptions
options = record { priority = some high; max_retries = some 2; timeout_ms = some 5000 }

abbrev job : FullJob ℕ
job = new_job "q" "j" 100 7 7 options

abbrev redis : Redis ℕ
redis = record { jobs = insert "j" job empty; lists = λ q p. []; dlq = λ q. []; timers = [] }

abbrev timeout_text : ℕ → String
timeout_text n = "timed out"

abbrev throwing : Attempt ℕ
throwing = record { now = 200; duration = 10; outcome = throws "no" }

throwing-Fails : Fails timeout_text "q" "j" 5000 throwing
unfolding race
throwing-Fails = ("no", refl)

job_held : Holds "j" pending 0 2 5000 redis job
unfolding new_job
job_held = record {
  found = refl;
  own_id = refl;
  has_status = refl;
  has_attempts = refl;
  has_max_retries = refl;
  has_timeout = refl;
}

abbrev RetriedOnce : Type 0
RetriedOnce =
    let r' = process_all timeout_text "q" "j" (throwing ∷ []) redis in
    (j' : FullJob ℕ) × Holds "j" pending 1 2 5000 r' j'
    × (r'.dlq ≡ redis.dlq)
    × (r'.lists ≡ redis.lists)
    × (delays r'.timers ≡ delays redis.timers ++ backoffs 0 1)

process_all-retried_example : RetriedOnce
process_all-retried_example =
    process_all-retried timeout_text "q" "j" 0 2 5000 redis job (throwing ∷ []) job_held
      (throwing-Fails, tt) (omega arith)

abbrev Exhausted : Type 0
Exhausted =
    let r' = process_all timeout_text "q" "j" (throwing ∷ throwing ∷ throwing ∷ []) redis in
    (j' : FullJob ℕ) × Holds "j" failed 2 2 5000 r' j'
    × (r'.dlq ≡ with_dead "q" "j" redis.dlq)
    × (r'.lists ≡ redis.lists)
    × (delays r'.timers ≡ delays redis.timers ++ backoffs 0 2)

process_all-exhausted_example : Exhausted
process_all-exhausted_example =
    process_all-exhausted timeout_text "q" "j" 0 2 5000 redis job (throwing ∷ throwing ∷ [])
      throwing job_held (throwing-Fails, (throwing-Fails, tt)) throwing-Fails (omega arith)

abbrev MovedOne : Type 0
MovedOne =
    let d = (move_to_dlq "j" "q" redis).dlq in
    (length (d "q") ≤ 1000)
    × ((dropped : List String) × (dropped ++ d "q" ≡ "j" ∷ []) × (length dropped ≡ 0))
    × (d "o" ≡ [])

abbrev copy : ℕ → Option ℕ
copy n = some n

abbrev EnqueuedOne : Type 0
EnqueuedOne =
    let j = new_job "q" "k" 100 7 7 options in
    (r' : Redis ℕ) × (enqueue_full copy "q" "k" 100 7 options redis ≡ some r')
    × (r'.jobs "k" ≡ some j)
    × ((j.max_retries ≤ 10) × (1000 ≤ j.timeout_ms) × (j.timeout_ms ≤ 300000))
    × IsPushed copy "q" j.priority "k" redis r'
    × (r'.jobs "j" ≡ redis.jobs "j")
    × (r'.dlq ≡ redis.dlq)
    × (r'.timers ≡ redis.timers)

try_dequeue_lem_example :
    Served "q" "o" (rpush "q" normal "j" redis) (try_dequeue "q" (rpush "q" normal "j" redis))
try_dequeue_lem_example = try_dequeue_lem "q" "o" (rpush "q" normal "j" redis) (apart _ _ refl)

abbrev trace : List Event
trace = poll ∷ answer true ∷ poll ∷ answer true ∷ settle ∷ stop ∷ settle ∷ []

two_jobs_stop : is_in 1 (run (start (some 2)) trace).resolved ≡ true
unfolding run step start begin_round end_round settle_one request_stop
two_jobs_stop = refl

abbrev polling_worker : Worker
polling_worker = record {
  concurrency = 1;
  running = true;
  active_count = 0;
  polling = true;
  calls = 0;
  drain_resolve = none;
  resolved = [];
}

stop_too_early_example :
    (is_in 1 (run polling_worker (stop ∷ [])).resolved ≡ true)
    × ((run polling_worker (stop ∷ answer true ∷ [])).active_count ≡ 1)
stop_too_early_example = stop_too_early polling_worker refl refl

abbrev WithinLimit : Type 0
WithinLimit =
    let w = run (start (some 2)) trace in
    (w.active_count + in_flight w.polling ≤ w.concurrency)
    × (1 ≤ w.concurrency)
    × (w.concurrency ≤ 20)
    × ((w.running || (ltb 0 w.active_count || is_in w.calls w.resolved)) ≡ true)
    × ((not (is_in 1 w.resolved) || (not w.running && leb w.active_count 1)) ≡ true)

run-start_lem_example : WithinLimit
run-start_lem_example = run-start_lem (some 2) trace 1

first_stop_lost_example :
    is_in 1
      (run (run (start (some 1)) (poll ∷ answer true ∷ [])) (stop ∷ stop ∷ settle ∷ [])).resolved
    ≡ false
unfolding run step start begin_round end_round
first_stop_lost_example =
    first_stop_lost (some 1) (poll ∷ answer true ∷ []) (settle ∷ []) (omega arith)
