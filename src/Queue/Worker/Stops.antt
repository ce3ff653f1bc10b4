-- ===== src/Queue/Worker/Stops.antt =====
-- What the calls of `stop` come to (core/queue/worker.ts).
use pilots_hq.Prelude.{
  ℕ, ◌+◌, ◌≤◌, ◌≡◌, refl, inl, inr, Bool-cases, Bool, true, false, Option, none, some, List, [],
  ◌∷◌, arith, ◌==◌,
}
use pilots_hq.Queue.Worker.Loop.{
  Worker, Event, poll, answer, settle, stop, start, begin_round, end_round, call_resolve,
  settle_one, request_stop, step, run, in_flight, is_in,
}

step_stopped :
    (w : Worker) (e : Event)
    → w.running ≡ false
    → ((step w e).running ≡ false)
      × ((step w e).active_count + in_flight (step w e).polling
          ≤ w.active_count + in_flight w.polling)
unfolding step
step_stopped w poll h = ground arith
step_stopped w (answer found) h = ground arith
step_stopped w settle h = ground arith
step_stopped w stop h = ground arith

-- A worker that was told to stop takes no job but the one that is being dequeued.
pub stopped_takes_none :
    (w : Worker) (es : List Event)
    → w.running ≡ false
    → (run w es).active_count + in_flight (run w es).polling ≤ w.active_count + in_flight w.polling
unfolding run
stopped_takes_none w [] h = omega arith
stopped_takes_none w (e ∷ es) h =
    let (still, fewer) = step_stopped w e h in omega (arith, stopped_takes_none (step w e) es still)

-- `stop` may report too early: where it is called while no job runs and the loop waits for a job,
-- its promise is resolved at once, and the job that is then found runs all the same.
pub stop_too_early :
    (w : Worker)
    → w.active_count ≡ 0
    → w.polling ≡ true
    → (is_in (w.calls + 1) (run w (stop ∷ [])).resolved ≡ true)
      × ((run w (stop ∷ answer true ∷ [])).active_count ≡ 1)
unfolding run step
stop_too_early w h p = ground arith

-- No promise of a call that is still to come is resolved or waits.
abbrev AreMade : ℕ → List ℕ → Type 0
AreMade calls [] = Unit
AreMade calls (n ∷ ns) = (n ≤ calls) × AreMade calls ns

abbrev IsMade : ℕ → Option ℕ → Type 0
IsMade calls none = Unit
IsMade calls (some n) = n ≤ calls

AreMade-suc : (calls : ℕ) (ns : List ℕ) → AreMade calls ns → AreMade (calls + 1) ns
AreMade-suc calls [] h = tt
AreMade-suc calls (n ∷ ns) h = (omega (arith, h.0), AreMade-suc calls ns h.1)

IsMade-suc : (calls : ℕ) (o : Option ℕ) → IsMade calls o → IsMade (calls + 1) o
IsMade-suc calls none h = tt
IsMade-suc calls (some n) h = omega (arith, h)

AreMade-call_resolve :
    (calls : ℕ) (o : Option ℕ) (ns : List ℕ)
    → IsMade calls o
    → AreMade calls ns
    → AreMade calls (call_resolve o ns)
AreMade-call_resolve calls none ns m h = h
AreMade-call_resolve calls (some n) ns m h = (m, h)

AreMade-fresh : (calls : ℕ) (ns : List ℕ) → AreMade calls ns → is_in (calls + 1) ns ≡ false
AreMade-fresh calls [] h = refl
AreMade-fresh calls (n ∷ ns) h = ground (arith, h.0, AreMade-fresh calls ns h.1)

abbrev AllMade : Worker → Type 0
AllMade w = AreMade w.calls w.resolved × IsMade w.calls w.drain_resolve

settle_one-AllMade : (w : Worker) → AllMade w → AllMade (settle_one w)
unfolding settle_one
settle_one-AllMade w m =
    let now = AreMade-call_resolve w.calls w.drain_resolve w.resolved m.1 m.0 in
    ground (arith, m, now)

request_stop-AllMade : (w : Worker) → AllMade w → AllMade (request_stop w)
unfolding request_stop
request_stop-AllMade w m =
    let done = AreMade-suc w.calls w.resolved m.0 in
    let waits = IsMade-suc w.calls w.drain_resolve m.1 in
    elim (Bool-cases (w.active_count == 0)) [
      | inl e ↦ rw e ((omega arith, done), waits)
      | inr e ↦ rw e (done, omega arith)
    ]

step-AllMade : (w : Worker) (e : Event) → AllMade w → AllMade (step w e)
unfolding step begin_round end_round
step-AllMade w poll m = ground (arith, m)
step-AllMade w (answer found) m = ground (arith, m)
step-AllMade w settle m = settle_one-AllMade w m
step-AllMade w stop m = request_stop-AllMade w m

run-AllMade : (w : Worker) (es : List Event) → AllMade w → AllMade (run w es)
unfolding run
run-AllMade w [] m = m
run-AllMade w (e ∷ es) m = run-AllMade (step w e) es (step-AllMade w e m)

abbrev waits_for : ℕ → Option ℕ → Bool
waits_for n none = false
waits_for n (some m) = n == m

-- An earlier promise that is not resolved, and that nothing will resolve.
record Lost (n : ℕ) (w : Worker) : Type 0 where
  made : n ≤ w.calls
  not_done : is_in n w.resolved ≡ false
  not_waiting : waits_for n w.drain_resolve ≡ false

step-Lost : (n : ℕ) (w : Worker) (e : Event) → Lost n w → Lost n (step w e)
unfolding step
step-Lost n w poll l = ground arith
step-Lost n w (answer found) l = ground arith
step-Lost n w settle l = ground arith
step-Lost n w stop l = ground arith

run-Lost : (n : ℕ) (w : Worker) (es : List Event) → Lost n w → Lost n (run w es)
unfolding run
run-Lost n w [] l = l
run-Lost n w (e ∷ es) l = run-Lost n (step w e) es (step-Lost n w e l)

stopped_twice :
    (w : Worker)
    → AllMade w
    → 1 ≤ w.active_count
    → Lost (w.calls + 1) (request_stop (request_stop w))
unfolding request_stop
stopped_twice w m busy = ground (arith, AreMade-fresh w.calls w.resolved m.0)

-- Where a job runs and `stop` is called twice, one call directly after the other, the promise of the
-- first call is never resolved, whatever came before and whatever comes afterwards.
pub first_stop_lost :
    (requested : Option ℕ) (before after : List Event)
    → 1 ≤ (run (start requested) before).active_count
    → let w = run (start requested) before in
      is_in (w.calls + 1) (run w (stop ∷ stop ∷ after)).resolved ≡ false
unfolding run step start
first_stop_lost requested before after busy =
    let w = run (start requested) before in
    let made = run-AllMade (start requested) before (tt, tt) in
    (run-Lost (w.calls + 1) _ after (stopped_twice w made busy)).not_done
