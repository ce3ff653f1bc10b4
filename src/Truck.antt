-- ===== src/Truck.antt =====
-- clients/truck/src/queue.ts: `TelemetryQueue`, the table `telemetry_queue` in SQLite. The table is
-- the list of its rows in the order of their ids, in which a query without an order reads them;
-- `copy` is what a value reads as after `JSON.stringify` and `JSON.parse`.
pub mod Batches
use pilots_hq.Prelude.{
  ℕ, zero, suc, ◌+◌, String, Bool, true, false, not, Option, none, some, List, [], ◌∷◌, ◌++◌, ◌==◌,
  ◌||◌, if◌then◌else◌,
}

pub record QueuedRow (P : Type 0) : Type 0 where
  pub id : ℕ
  pub vehicle_id : String
  pub telemetry : P
  pub created_at : ℕ
  pub synced : Bool

pub record TelemetryQueue (P : Type 0) : Type 0 where
  pub initialized : Bool
  pub rows : List (QueuedRow P)
  pub last_id : ℕ

-- the ids of an `IN (…)`
unfoldable pub is_among : ℕ → List ℕ → Bool
is_among id [] = false
is_among id (x ∷ xs) = (x == id) || is_among id xs

module _ {P : Type 0} where
  unfoldable pub new_queue : TelemetryQueue P
  new_queue = record { initialized = false; rows = []; last_id = 0 }

  unfoldable pub initialize : TelemetryQueue P → TelemetryQueue P
  initialize q = record q { initialized = true }

  -- the row that an `INSERT` adds under the next id
  unfoldable pub insert_row : String → P → ℕ → TelemetryQueue P → TelemetryQueue P
  insert_row vehicle telemetry timestamp q = record q {
    rows =
        q.rows
        ++ record {
          id = q.last_id + 1;
          vehicle_id = vehicle;
          telemetry = telemetry;
          created_at = timestamp;
          synced = false;
        }
          ∷ [];
    last_id = q.last_id + 1;
  }

  -- `enqueue`; nothing where the queue is not initialized
  unfoldable pub enqueue :
      (P → P) → String → P → ℕ → TelemetryQueue P → Option (TelemetryQueue P × ℕ)
  enqueue copy vehicle telemetry timestamp q =
      if q.initialized
      then some (insert_row vehicle (copy telemetry) timestamp q, q.last_id + 1)
      else none

  -- `WHERE synced = 0 LIMIT ?`
  unfoldable pub select_unsynced : ℕ → List (QueuedRow P) → List (QueuedRow P)
  select_unsynced zero rows = []
  select_unsynced (suc limit) [] = []
  select_unsynced (suc limit) (r ∷ rows) =
      if r.synced then select_unsynced (suc limit) rows else r ∷ select_unsynced limit rows

  unfoldable pub get_unsynced : ℕ → TelemetryQueue P → Option (List (QueuedRow P))
  get_unsynced limit q = if q.initialized then some (select_unsynced limit q.rows) else none

  -- `UPDATE … SET synced = 1 WHERE id IN (…)`
  unfoldable pub set_synced : List ℕ → List (QueuedRow P) → List (QueuedRow P)
  set_synced ids [] = []
  set_synced ids (r ∷ rows) =
      (if is_among r.id ids then record r { synced = true } else r) ∷ set_synced ids rows

  unfoldable pub mark_synced : List ℕ → TelemetryQueue P → Option (TelemetryQueue P)
  mark_synced ids q =
      if q.initialized then some (record q { rows = set_synced ids q.rows }) else none

  unfoldable pub clear : TelemetryQueue P → Option (TelemetryQueue P)
  clear q = if q.initialized then some (record q { rows = [] }) else none
