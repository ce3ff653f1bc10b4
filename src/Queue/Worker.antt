-- ===== src/Queue/Worker.antt =====
-- core/queue/worker.ts: one job's processing, the choice of the next job, and the loop with its
-- limit on concurrent jobs. A handler's run is given by its outcome and duration; `timeout_text` is
-- the message of the timeout error. A job's hash does not expire while it is processed.
pub mod Loop
pub mod Stops
use pilots_hq.Prelude.{
  ℕ, ◌+◌, ◌*◌, ◌^◌, ◌-◌, String, Bool, true, false, Option, none, some, List, [], ◌∷◌, ltb, leb,
  if◌then◌else◌, insert,
}
use pilots_hq.Queue.Types.{
  Priority, high, normal, low, Status, pending, running, done, failed, FullJob, Redis,
}
use pilots_hq.Queue.Ops.{
  stored_error, write_job, get_full_job, requeue_job, move_to_dlq, push_list, same_key,
}

pub data Outcome (P : Type 0) : Type 0 where
  returns : P → Outcome P
  throws : String → Outcome P

module _ {P : Type 0} where
  -- `updateJobStatus` on the hash of a job that is there
  unfoldable pub update_job_status :
      String → Status → ℕ → Option P → Option String → Redis P → Redis P
  unfolding get_full_job write_job
  update_job_status id status now result error r = elim (get_full_job id r) [
    | none ↦ r
    | some j ↦
        write_job
          (record j {
            status = status;
            updated_at = now;
            result = elim result [ none ↦ j.result | some v ↦ some v ];
            error = elim error [ none ↦ j.error | some e ↦ some e ];
          })
          r
  ]

  -- `Promise.race` of the handler and the timeout
  unfoldable pub race : (ℕ → String) → ℕ → ℕ → Outcome P → Outcome P
  race timeout_text timeout duration outcome =
      if ltb duration timeout then outcome else throws (timeout_text timeout)

  -- the `catch` block
  unfoldable pub handle_failure : String → FullJob P → ℕ → String → Redis P → Redis P
  handle_failure q j now message r =
      if leb (j.attempts + 1) j.max_retries
      then requeue_job j.id q (1000 * 2 ^ j.attempts) now
          (update_job_status j.id pending now none (some message) r)
      else move_to_dlq j.id q (update_job_status j.id failed now none (some message) r)

  unfoldable pub finish : String → FullJob P → ℕ → Outcome P → Redis P → Redis P
  unfolding handle_failure
  finish q j now (returns v) r = update_job_status j.id done now (some v) none r
  finish q j now (throws message) r = handle_failure q j now message r

  -- `processJob`
  unfoldable pub process_job :
      (ℕ → String) → String → String → ℕ → ℕ → Outcome P → Redis P → Redis P
  unfolding get_full_job
  process_job timeout_text q id now duration outcome r = elim (get_full_job id r) [
    | none ↦ r
    | some j ↦
        finish q j (now + duration) (race timeout_text j.timeout_ms duration outcome)
          (update_job_status j.id running now none none r)
  ]

  unfoldable pub set_list : String → Priority → List String → Redis P → Redis P
  unfolding same_key
  set_list q p ids r = record r {
    lists = λ q' p'. if same_key q p q' p' then ids else r.lists q' p';
  }

  -- `tryDequeue`: `blpop` of the three lists in turn
  unfoldable pub pop_in_order : String → List Priority → Redis P → Redis P × Option String
  unfolding set_list
  pop_in_order q [] r = (r, none)
  pop_in_order q (p ∷ ps) r =
      let rest = pop_in_order q ps r in
      elim (r.lists q p) [ [] ↦ rest | id ∷ ids ↦ (set_list q p ids r, some id) ]

  unfoldable pub try_dequeue : String → Redis P → Redis P × Option String
  unfolding pop_in_order
  try_dequeue q r = pop_in_order q (high ∷ normal ∷ low ∷ []) r
