-- ===== src/Queue/Types.antt =====
-- The types of core/queue/queue.ts, and the part of Redis that it uses: the job hashes, one list
-- per queue and priority, one dead-letter list per queue; and the timers that `setTimeout` holds.
-- A hash is kept as the job that `getFullJob` reads from it. `P` is the type of JSON values.
use pilots_hq.Prelude.{ℕ, String, Option, Bool, true, false, List}

pub data Priority : Type 0 where
  high normal low : Priority

pub data Status : Type 0 where
  pending running done failed scheduled : Status

pub data AttemptResult : Type 0 where
  success failure timeout : AttemptResult

pub record AttemptRecord : Type 0 where
  pub attempt_number : ℕ
  pub started_at : ℕ
  pub completed_at : ℕ
  pub result : AttemptResult
  pub error_message : Option String
  pub duration_ms : ℕ

pub record JobOptions : Type 0 where
  pub priority : Option Priority
  pub max_retries : Option ℕ
  pub timeout_ms : Option ℕ

pub record FullJob (P : Type 0) : Type 0 where
  pub id : String
  pub queue : String
  pub payload : P
  pub input_snapshot : P
  pub status : Status
  pub priority : Priority
  pub attempts : ℕ
  pub max_retries : ℕ
  pub timeout_ms : ℕ
  pub result : Option P
  pub error : Option String
  pub execution_trace : List AttemptRecord
  pub created_at : ℕ
  pub updated_at : ℕ

-- A `setTimeout` of `requeueJob` that has not fired.
pub record Timer : Type 0 where
  pub queue : String
  pub priority : Priority
  pub id : String
  pub delay_ms : ℕ

pub record Redis (P : Type 0) : Type 0 where
  pub jobs : String → Option (FullJob P)
  pub lists : String → Priority → List String
  pub dlq : String → List String
  pub timers : List Timer

abbrev pub same_priority : Priority → Priority → Bool
same_priority high high = true
same_priority normal normal = true
same_priority low low = true
same_priority _ _ = false
