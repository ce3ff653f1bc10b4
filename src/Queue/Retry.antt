-- ===== src/Queue/Retry.antt =====
-- How often a job runs (core/queue/worker.ts with requeueJob and moveToDlq of core/queue/queue.ts).
use native.Mathlib.Nat.{add-zero}
use pilots_hq.Prelude.{
  ℕ, zero, suc, ◌+◌, ◌*◌, ◌^◌, ◌≤◌, ◌≡◌, refl, sym, ap, ◌∙◌, String, Option, none, some, List, [],
  ◌∷◌, ◌++◌, arith, length, append-nil, append_assoc, str_eq, eq_iff, if◌then◌else◌,
}
use pilots_hq.Queue.Types.{Status, pending, running, failed, FullJob, Timer, Redis}
use pilots_hq.Queue.Ops.{stored_error, requeue_job, move_to_dlq, keep_last, dlq_max_size}
use pilots_hq.Queue.Worker.{
  Outcome, throws, update_job_status, race, handle_failure, finish, process_job,
}

-- A run of the handler: when it starts, how long it takes, and how it ends.
pub record Attempt (P : Type 0) : Type 0 where
  pub now : ℕ
  pub duration : ℕ
  pub outcome : Outcome P

abbrev pub delays : List Timer → List ℕ
delays [] = []
delays (t ∷ ts) = t.delay_ms ∷ delays ts

delays-append : (xs ys : List Timer) → delays (xs ++ ys) ≡ delays xs ++ delays ys
delays-append [] ys = refl
delays-append (x ∷ xs) ys = ap (◌∷◌ x.delay_ms) (delays-append xs ys)

-- `n` delays that double, from the one after `a` attempts
abbrev pub backoffs : ℕ → ℕ → List ℕ
backoffs a zero = []
backoffs a (suc n) = 1000 * 2 ^ a ∷ backoffs (a + 1) n

abbrev pub with_dead : String → String → (String → List String) → String → List String
with_dead q id dlq q' = if str_eq q q' then keep_last dlq_max_size (dlq q' ++ id ∷ []) else dlq q'

module _ {P : Type 0} where
  -- The hash of `id` holds a job of that id, with these fields.
  pub record Holds (id : String) (status : Status) (attempts max_retries timeout_ms : ℕ)
      (r : Redis P) (j : FullJob P) : Type 0 where
    pub found : r.jobs id ≡ some j
    pub own_id : j.id ≡ id
    pub has_status : j.status ≡ status
    pub has_attempts : j.attempts ≡ attempts
    pub has_max_retries : j.max_retries ≡ max_retries
    pub has_timeout : j.timeout_ms ≡ timeout_ms

  abbrev updated : FullJob P → Status → ℕ → Option P → Option String → FullJob P
  updated j status now result error = record j {
    status = status;
    updated_at = now;
    result = elim result [ none ↦ j.result | some v ↦ some v ];
    error = stored_error (elim error [ none ↦ j.error | some e ↦ some e ]);
  }

  update-Holds :
      (id : String) (old new : Status) (a m t now : ℕ) (result : Option P) (error : Option String)
      (r : Redis P) (j : FullJob P)
      → Holds id old a m t r j
      → Holds id new a m t
          (update_job_status id new now result error r)
          (updated j new now result error)
  unfolding update_job_status
  update-Holds id old new a m t now result error r j h = ground (arith, eq_iff j.id id)

  -- Only the hash of the job changes.
  update-lists :
      (id : String) (new : Status) (now : ℕ) (result : Option P) (error : Option String)
      (r : Redis P)
      → ((update_job_status id new now result error r).dlq ≡ r.dlq)
        × ((update_job_status id new now result error r).timers ≡ r.timers)
        × ((update_job_status id new now result error r).lists ≡ r.lists)
  unfolding update_job_status
  update-lists id new now result error r = ground arith

  requeued : FullJob P → ℕ → FullJob P
  requeued j now = record j {
    attempts = j.attempts + 1;
    status = pending;
    updated_at = now;
    error = stored_error j.error;
  }

  requeue-Holds :
      (id q : String) (old : Status) (a m t delay now : ℕ) (r : Redis P) (j : FullJob P)
      → Holds id old a m t r j
      → Holds id pending (a + 1) m t (requeue_job id q delay now r) (requeued j now)
        × ((requeue_job id q delay now r).dlq ≡ r.dlq)
        × ((requeue_job id q delay now r).lists ≡ r.lists)
        × ((requeue_job id q delay now r).timers
            ≡ r.timers
              ++ record { queue = q; priority = j.priority; id = id; delay_ms = delay } ∷ [])
  unfolding requeue_job requeued
  requeue-Holds id q old a m t delay now r j h = ground (arith, eq_iff j.id id)

module _ {P : Type 0} (timeout_text : ℕ → String) (q id : String) where
  unfoldable pub process_all : List (Attempt P) → Redis P → Redis P
  process_all [] r = r
  process_all (x ∷ xs) r =
      process_all xs (process_job timeout_text q id x.now x.duration x.outcome r)

  -- The handler throws, or takes too long.
  abbrev pub Fails : ℕ → Attempt P → Type 0
  Fails t x = (m : String) × (race timeout_text t x.duration x.outcome ≡ throws m)

  abbrev pub AllFail : ℕ → List (Attempt P) → Type 0
  AllFail t [] = Unit
  AllFail t (x ∷ xs) = Fails t x × AllFail t xs

  -- What a failed run does to the store, the hash once marked as running.
  failed_run :
      (old : Status) (a m t : ℕ) (r : Redis P) (j : FullJob P) (x : Attempt P) (msg : String)
      → Holds id old a m t r j
      → race timeout_text t x.duration x.outcome ≡ throws msg
      → process_job timeout_text q id x.now x.duration x.outcome r
        ≡ handle_failure q j
            (x.now + x.duration)
            msg
            (update_job_status id running x.now none none r)
  unfolding process_job finish
  failed_run old a m t r j x msg h fails = ground (arith)

  handled_retry :
      (old : Status) (a m t now : ℕ) (r r' : Redis P) (j : FullJob P) (msg : String)
      → Holds id old a m t r j
      → a + 1 ≤ m
      → handle_failure q j now msg r'
        ≡ requeue_job id q (1000 * 2 ^ a) now (update_job_status id pending now none (some msg) r')
  unfolding handle_failure
  handled_retry old a m t now r r' j msg h le = ground arith

  handled_last :
      (old : Status) (a m t now : ℕ) (r r' : Redis P) (j : FullJob P) (msg : String)
      → Holds id old a m t r j
      → m ≤ a
      → handle_failure q j now msg r'
        ≡ move_to_dlq id q (update_job_status id failed now none (some msg) r')
  unfolding handle_failure
  handled_last old a m t now r r' j msg h le = ground arith

  process-retry :
      (old : Status) (a m t : ℕ) (r : Redis P) (j : FullJob P) (x : Attempt P)
      → Holds id old a m t r j
      → Fails t x
      → a + 1 ≤ m
      → let r' = process_job timeout_text q id x.now x.duration x.outcome r in
        (j' : FullJob P) × Holds id pending (a + 1) m t r' j'
        × (r'.dlq ≡ r.dlq)
        × (r'.lists ≡ r.lists)
        × (delays r'.timers ≡ delays r.timers ++ 1000 * 2 ^ a ∷ [])
  process-retry old a m t r j x h (msg, fails) le =
      let now = x.now + x.duration in
      let r₁ = update_job_status id running x.now none none r in
      let h₁ = update-Holds id old running a m t x.now none none r j h in
      let h₂ = update-Holds id running pending a m t now none (some msg) r₁ _ h₁ in
      let (h₃, d, l, e) = requeue-Holds id q pending a m t (1000 * 2 ^ a) now _ _ h₂ in
      let (d₁, t₁, l₁) = update-lists id running x.now none none r in
      let (d₂, t₂, l₂) = update-lists id pending now none (some msg) r₁ in
      rw (failed_run old a m t r j x msg h fails, handled_retry old a m t now r r₁ j msg h le)
        (
          _,
          h₃,
          d ∙ d₂ ∙ d₁,
          l ∙ l₂ ∙ l₁,
          ap delays e ∙ delays-append _ _ ∙ ap (λ ts. delays ts ++ 1000 * 2 ^ a ∷ []) (t₂ ∙ t₁),
        )

  process-last :
      (old : Status) (a m t : ℕ) (r : Redis P) (j : FullJob P) (x : Attempt P)
      → Holds id old a m t r j
      → Fails t x
      → m ≤ a
      → let r' = process_job timeout_text q id x.now x.duration x.outcome r in
        (j' : FullJob P) × Holds id failed a m t r' j'
        × (r'.dlq ≡ with_dead q id r.dlq)
        × (r'.lists ≡ r.lists)
        × (delays r'.timers ≡ delays r.timers)
  unfolding move_to_dlq
  process-last old a m t r j x h (msg, fails) le =
      let now = x.now + x.duration in
      let r₁ = update_job_status id running x.now none none r in
      let h₁ = update-Holds id old running a m t x.now none none r j h in
      let h₂ = update-Holds id running failed a m t now none (some msg) r₁ _ h₁ in
      let (d₁, t₁, l₁) = update-lists id running x.now none none r in
      let (d₂, t₂, l₂) = update-lists id failed now none (some msg) r₁ in
      rw (failed_run old a m t r j x msg h fails, handled_last old a m t now r r₁ j msg h le)
        (
          _,
          record {
            found = h₂.found;
            own_id = h₂.own_id;
            has_status = h₂.has_status;
            has_attempts = h₂.has_attempts;
            has_max_retries = h₂.has_max_retries;
            has_timeout = h₂.has_timeout;
          },
          ap (with_dead q id) (d₂ ∙ d₁),
          l₂ ∙ l₁,
          ap delays (t₂ ∙ t₁),
        )

  -- Over any number of failed runs that the limit leaves room for, the job stays pending, its
  -- attempts are counted, no queue's dead-letter list changes, and the delays double.
  pub process_all-retried :
      (a m t : ℕ) (r : Redis P) (j : FullJob P) (xs : List (Attempt P))
      → Holds id pending a m t r j
      → AllFail t xs
      → a + length xs ≤ m
      → let r' = process_all xs r in
        (j' : FullJob P) × Holds id pending (a + length xs) m t r' j'
        × (r'.dlq ≡ r.dlq)
        × (r'.lists ≡ r.lists)
        × (delays r'.timers ≡ delays r.timers ++ backoffs a (length xs))
  unfolding process_all
  process_all-retried a m t r j [] h f le =
      (j, rw add-zero h, refl, refl, sym (append-nil (delays r.timers)))
  process_all-retried a m t r j (x ∷ xs) h f le =
      let (j₁, h₁, d₁, l₁, t₁) = process-retry pending a m t r j x h f.0 (omega arith) in
      let (j₂, h₂, d₂, l₂, t₂) = process_all-retried (a + 1) m t _ j₁ xs h₁ f.1 (omega arith) in
      let count : a + 1 + length xs ≡ a + suc (length xs) = omega arith in
      (
        j₂,
        rw count at h₂,
        d₂ ∙ d₁,
        l₂ ∙ l₁,
        t₂
            ∙ ap (λ ts. ts ++ backoffs (a + 1) (length xs)) t₁
            ∙ append_assoc (delays r.timers) (1000 * 2 ^ a ∷ []) (backoffs (a + 1) (length xs)),
      )

  process_all-append :
      (xs ys : List (Attempt P)) (r : Redis P)
      → process_all (xs ++ ys) r ≡ process_all ys (process_all xs r)
  unfolding process_all
  process_all-append [] ys r = refl
  process_all-append (x ∷ xs) ys r = process_all-append xs ys _

  -- A job that fails each time is given up after `max_retries + 1` runs, and not before: from `a`
  -- failed attempts, `max_retries - a` failed runs and one more leave it failed, with its attempts
  -- at the limit, as the newest entry of its queue's dead-letter list, and every retry waited for
  -- twice the delay of the one before.
  pub process_all-exhausted :
      (a m t : ℕ) (r : Redis P) (j : FullJob P) (xs : List (Attempt P)) (x : Attempt P)
      → Holds id pending a m t r j
      → AllFail t xs
      → Fails t x
      → a + length xs ≡ m
      → let r' = process_all (xs ++ x ∷ []) r in
        (j' : FullJob P) × Holds id failed m m t r' j'
        × (r'.dlq ≡ with_dead q id r.dlq)
        × (r'.lists ≡ r.lists)
        × (delays r'.timers ≡ delays r.timers ++ backoffs a (length xs))
  unfolding process_all
  process_all-exhausted a m t r j xs x h f g e =
      let (j₁, h₁, d₁, l₁, t₁) = process_all-retried a m t r j xs h f (omega arith) in
      let (j₂, h₂, d₂, l₂, t₂) =
        process-last pending m m t (process_all xs r) j₁ x (rw e at h₁) g (omega arith) in
      rw (process_all-append xs (x ∷ []) r) (j₂, h₂, d₂ ∙ ap (with_dead q id) d₁, l₂ ∙ l₁, t₂ ∙ t₁)
