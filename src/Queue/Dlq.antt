-- ===== src/Queue/Dlq.antt =====
-- The dead-letter list and the limits on a job's options (core/queue/queue.ts).
use pilots_hq.Prelude.{
  ℕ, ◌+◌, ◌-◌, ◌≤◌, ◌≡◌, ◌≢◌, refl, String, Option, none, some, List, [], ◌∷◌, ◌++◌, take, arith,
  length, length-append, length-drop, length-take, take-append-drop, eq_iff, if◌then◌else◌,
}
use pilots_hq.Queue.Types.{Priority, pending, JobOptions, FullJob, Redis}
use pilots_hq.Queue.Ops.{
  write_job, rpush, move_to_dlq, keep_last, new_job, enqueue_full, replay_dlq_job, same_key,
}

length-keep_last : (n : ℕ) (xs : List String) → length (keep_last n xs) ≤ n
unfolding keep_last
length-keep_last n xs = omega (arith, length-drop (length xs - n) xs)

take-keep_last : (n : ℕ) (xs : List String) → take (length xs - n) xs ++ keep_last n xs ≡ xs
unfolding keep_last
take-keep_last n xs = take-append-drop (length xs - n) xs

module _ {P : Type 0} where
  -- Moving a job to the dead-letter list of its queue: the list then has at most 1000 ids, the
  -- newest of them the job's; what is dropped is the oldest part, just as much as there is no room
  -- for; the lists of other queues stay.
  pub move_to_dlq_lem :
      (id q o : String) (r : Redis P)
      → q ≢ o
      → let d = (move_to_dlq id q r).dlq in
        (length (d q) ≤ 1000)
        × ((dropped : List String) × (dropped ++ d q ≡ r.dlq q ++ id ∷ [])
            × (length dropped ≡ length (r.dlq q) + 1 - 1000))
        × (d o ≡ r.dlq o)
  unfolding move_to_dlq
  move_to_dlq_lem id q o r other =
      let all = r.dlq q ++ id ∷ [] in
      (
        ground (arith, eq_iff q q, length-keep_last 1000 all),
        (
          take (length all - 1000) all,
          ground (arith, eq_iff q q, take-keep_last 1000 all),
          omega (arith, length-append (r.dlq q) (id ∷ []), length-take (length all - 1000) all),
        ),
        ground (arith, eq_iff q o),
      )

module _ {P : Type 0} (copy : P → Option P) where
  -- The lists after one push.
  abbrev pub IsPushed : String → Priority → String → Redis P → Redis P → Type 0
  IsPushed q p id r r' =
      (q' : String) (p' : Priority)
      → r'.lists q' p' ≡ (if same_key q p q' p' then r.lists q' p' ++ id ∷ [] else r.lists q' p')

  -- A job that is enqueued is stored as new and pending, with the copy of the payload as payload
  -- and snapshot, waits at the end of the list of its queue and priority, and its limits are at
  -- most 10 retries and a timeout from 1000 to 300000 ms. No other job, no
  -- dead-letter list and no timer changes.
  pub enqueue_full_lem :
      (q id o : String) (now : ℕ) (payload snapshot : P) (opts : JobOptions) (r : Redis P)
      → copy payload ≡ some snapshot
      → copy snapshot ≡ some snapshot
      → id ≢ o
      → let j = new_job q id now snapshot snapshot opts in
        (r' : Redis P) × (enqueue_full copy q id now payload opts r ≡ some r')
        × (r'.jobs id ≡ some j)
        × ((j.max_retries ≤ 10) × (1000 ≤ j.timeout_ms) × (j.timeout_ms ≤ 300000))
        × IsPushed q j.priority id r r'
        × (r'.jobs o ≡ r.jobs o)
        × (r'.dlq ≡ r.dlq)
        × (r'.timers ≡ r.timers)
  unfolding enqueue_full
  enqueue_full_lem q id o now payload snapshot opts r c d other =
      let j = new_job q id now snapshot snapshot opts in
      (
        rpush q j.priority id (write_job j r),
        ground arith,
        ground (arith, eq_iff id id),
        ground arith,
        λ q' p'. ground arith,
        ground (arith, eq_iff id o),
        refl,
        refl,
      )

  -- A payload that is no JSON value is refused, and nothing is written.
  enqueue_full_refused :
      (q id : String) (now : ℕ) (payload : P) (opts : JobOptions) (r : Redis P)
      → copy payload ≡ none
      → enqueue_full copy q id now payload opts r ≡ none
  unfolding enqueue_full
  enqueue_full_refused q id now payload opts r c = ground arith

  -- Replaying a job writes a new one: pending, with no attempt and no trace, its payload the
  -- original's snapshot, at the end of the list of the original's priority. The original stays as
  -- it is, and so does every dead-letter list: the job can be replayed again.
  pub replay_dlq_job_lem :
      (id q new_id : String) (now : ℕ) (r : Redis P) (original : FullJob P)
      → r.jobs id ≡ some original
      → copy original.input_snapshot ≡ some original.input_snapshot
      → id ≢ new_id
      → (r' : Redis P) × (fresh : FullJob P) × (replay_dlq_job copy id q new_id now r ≡ some r')
        × (r'.jobs new_id ≡ some fresh)
        × ((fresh.id ≡ new_id)
            × (fresh.status ≡ pending)
            × (fresh.attempts ≡ 0)
            × (fresh.execution_trace ≡ [])
            × (fresh.result ≡ none)
            × (fresh.error ≡ none)
            × (fresh.payload ≡ original.input_snapshot)
            × (fresh.input_snapshot ≡ original.input_snapshot)
            × (fresh.max_retries ≡ original.max_retries)
            × (fresh.timeout_ms ≡ original.timeout_ms))
        × IsPushed q original.priority new_id r r'
        × (r'.jobs id ≡ some original)
        × (r'.dlq ≡ r.dlq)
  unfolding replay_dlq_job
  replay_dlq_job_lem id q new_id now r original found c other =
      let fresh : FullJob P = record original {
        id = new_id;
        status = pending;
        attempts = 0;
        execution_trace = [];
        result = none;
        error = none;
        created_at = now;
        updated_at = now;
        payload = original.input_snapshot;
      } in
      (
        rpush q original.priority new_id (write_job fresh r),
        fresh,
        ground arith,
        ground (arith, eq_iff new_id new_id),
        ground arith,
        λ q' p'. ground arith,
        ground (arith, eq_iff new_id id),
        refl,
      )
