-- ===== src/Queue/Ops.antt =====
-- The operations of core/queue/queue.ts. `copy` is what a value reads as after `JSON.stringify` and
-- `JSON.parse`, and nothing where one of them throws; ids and times are arguments.
use pilots_hq.Prelude.{
  ℕ, zero, suc, ◌+◌, ◌-◌, String, Bool, ◌&&◌, Option, none, some, List, [], ◌∷◌, ◌++◌, length, drop,
  min, max, str_eq, if◌then◌else◌, insert,
}
use pilots_hq.Queue.Types.{
  AttemptRecord, Priority, normal, pending, JobOptions, FullJob, Timer, Redis, same_priority,
}

abbrev pub max_retries_cap : ℕ
max_retries_cap = 10

abbrev pub min_timeout_ms : ℕ
min_timeout_ms = 1000

abbrev pub max_timeout_ms : ℕ
max_timeout_ms = 300000

abbrev pub dlq_max_size : ℕ
dlq_max_size = 1000

-- `value ?? default`
abbrev pub get_or {ℓ} : {A : Type ℓ} → Option A → A → A
get_or none d = d
get_or (some a) d = a

-- `error ?? ''` is written, and an empty text reads as no error
abbrev pub stored_error : Option String → Option String
stored_error none = none
stored_error (some e) = if str_eq e "" then none else some e

-- `ltrim(key, -n, -1)`
unfoldable pub keep_last : ℕ → List String → List String
keep_last n xs = drop (length xs - n) xs

-- whether two list keys are one
unfoldable pub same_key : String → Priority → String → Priority → Bool
same_key q p q' p' = str_eq q q' && same_priority p p'

-- `rpush` to a list
unfoldable pub push_list :
    String → Priority → String → (String → Priority → List String) → String → Priority → List String
unfolding same_key
push_list q p id lists q' p' = if same_key q p q' p' then lists q' p' ++ id ∷ [] else lists q' p'

module _ {P : Type 0} where
  unfoldable pub rpush : String → Priority → String → Redis P → Redis P
  unfolding push_list
  rpush q p id r = record r { lists = push_list q p id r.lists }

  -- `getFullJob` where Redis answers
  unfoldable pub get_full_job : String → Redis P → Option (FullJob P)
  get_full_job id r = r.jobs id

  unfoldable pub write_job : FullJob P → Redis P → Redis P
  write_job j r = record r { jobs = insert j.id (record j { error = stored_error j.error }) r.jobs }

  -- `requeueJob`: a job that is gone is left alone; the push waits for its timer
  unfoldable pub requeue_job : String → String → ℕ → ℕ → Redis P → Redis P
  unfolding write_job get_full_job
  requeue_job id q delay now r = elim (get_full_job id r) [
    | none ↦ r
    | some j ↦
        let j' = record j { attempts = j.attempts + 1; status = pending; updated_at = now } in
        let r' = write_job j' r in
        let t : Timer = record { queue = q; priority = j.priority; id = id; delay_ms = delay } in
        record r' { timers = r'.timers ++ t ∷ [] }
  ]

  -- the callback of that timer
  unfoldable pub fire : Timer → Redis P → Redis P
  unfolding rpush
  fire t r = rpush t.queue t.priority t.id r

  -- `getJobTrace`
  unfoldable pub get_job_trace : String → Redis P → List AttemptRecord
  unfolding get_full_job
  get_job_trace id r = elim (get_full_job id r) [ none ↦ [] | some j ↦ j.execution_trace ]

  -- `moveToDlq`
  unfoldable pub move_to_dlq : String → String → Redis P → Redis P
  unfolding keep_last
  move_to_dlq id q r = record r {
    dlq = λ q'. if str_eq q q' then keep_last dlq_max_size (r.dlq q' ++ id ∷ []) else r.dlq q';
  }

  present : List String → Redis P → List (FullJob P)
  unfolding get_full_job
  present [] r = []
  present (id ∷ ids) r = elim (get_full_job id r) [
    | none ↦ present ids r
    | some j ↦ j ∷ present ids r
  ]

  -- `getDlqJobs`; `lrange(key, -limit, -1)` reads the whole list for the limit 0
  unfoldable pub get_dlq_jobs : String → ℕ → Redis P → List (FullJob P)
  unfolding present keep_last
  get_dlq_jobs q limit r =
      present (elim limit [ zero ↦ r.dlq q | suc n ↦ keep_last (suc n) (r.dlq q) ]) r

  -- the job that `enqueueFull` builds from a payload and its copy
  unfoldable pub new_job : String → String → ℕ → P → P → JobOptions → FullJob P
  new_job q id now payload snapshot opts = record {
    id = id;
    queue = q;
    payload = payload;
    input_snapshot = snapshot;
    status = pending;
    priority = get_or opts.priority normal;
    attempts = 0;
    max_retries = min (get_or opts.max_retries 3) max_retries_cap;
    timeout_ms = max min_timeout_ms (min (get_or opts.timeout_ms 30000) max_timeout_ms);
    result = none;
    error = none;
    execution_trace = [];
    created_at = now;
    updated_at = now;
  }

module _ {P : Type 0} (copy : P → Option P) where
  -- the values of a job as they are read back after a write
  unfoldable pub copy_job : FullJob P → Option (FullJob P)
  copy_job j = elim (copy j.payload) [
    | none ↦ none
    | some p ↦ elim (copy j.input_snapshot) [
      | none ↦ none
      | some s ↦ elim j.result [
        | none ↦ some (record j { payload = p; input_snapshot = s })
        | some v ↦ elim (copy v) [
          | none ↦ none
          | some w ↦ some (record j { payload = p; input_snapshot = s; result = some w })
        ]
      ]
    ]
  ]

  -- `saveFullJob`
  unfoldable pub save_full_job : FullJob P → Redis P → Option (Redis P)
  unfolding copy_job write_job
  save_full_job j r = elim (copy_job j) [ none ↦ none | some j' ↦ some (write_job j' r) ]

  -- `enqueueFull`; nothing where the payload is no JSON value
  unfoldable pub enqueue_full : String → String → ℕ → P → JobOptions → Redis P → Option (Redis P)
  unfolding new_job save_full_job rpush
  enqueue_full q id now payload opts r = elim (copy payload) [
    | none ↦ none
    | some snapshot ↦
        let j = new_job q id now payload snapshot opts in
        elim (save_full_job j r) [ none ↦ none | some r' ↦ some (rpush q j.priority id r') ]
  ]

  -- `replayDlqJob`; nothing where the job is not found
  unfoldable pub replay_dlq_job : String → String → String → ℕ → Redis P → Option (Redis P)
  unfolding get_full_job save_full_job rpush
  replay_dlq_job id q new_id now r = elim (get_full_job id r) [
    | none ↦ none
    | some original ↦
        let j : FullJob P = record original {
          id = new_id;
          status = pending;
          attempts = 0;
          execution_trace = [];
          result = none;
          error = none;
          created_at = now;
          updated_at = now;
          payload = original.input_snapshot;
        } in
        elim (save_full_job j r) [ none ↦ none | some r' ↦ some (rpush q j.priority new_id r') ]
  ]
