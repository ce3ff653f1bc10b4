-- ===== src/Queue/Order.antt =====
-- The order in which jobs are taken (tryDequeue of core/queue/worker.ts).
use pilots_hq.Prelude.{
  ◌≡◌, ◌≢◌, ◌⊎◌, refl, String, Option, none, some, List, [], ◌∷◌, ◌++◌, arith, eq_iff,
}
use pilots_hq.Queue.Types.{high, normal, low, Redis}
use pilots_hq.Queue.Worker.{try_dequeue}

module _ {P : Type 0} where
  -- The ids that wait in a queue, in the order in which they are to be taken.
  abbrev pub waiting : String → Redis P → List String
  waiting q r = r.lists q high ++ (r.lists q normal ++ r.lists q low)

  abbrev pub Served : String → String → Redis P → Redis P × Option String → Type 0
  Served q o r result =
      (((result.1 ≡ none) × (waiting q r ≡ []) × (result.0 ≡ r))
        ⊎ ((id : String) × (result.1 ≡ some id) × (waiting q r ≡ id ∷ waiting q result.0)))
      × (waiting o result.0 ≡ waiting o r)
      × ((result.0.jobs ≡ r.jobs) × (result.0.dlq ≡ r.dlq) × (result.0.timers ≡ r.timers))

  -- The three lists of a queue are one queue in order of priority, first in, first out within each:
  -- nothing is taken only where nothing waits, and otherwise the first id is taken off the front
  -- and the order of the rest stays. The other queues, the jobs and the timers do not change.
  pub try_dequeue_lem : (q o : String) (r : Redis P) → q ≢ o → Served q o r (try_dequeue q r)
  unfolding try_dequeue
  try_dequeue_lem q o r other =
      by_lists (r.lists q high) (r.lists q normal) (r.lists q low) refl refl refl
    where
      by_lists :
          (h n l : List String)
          → r.lists q high ≡ h
          → r.lists q normal ≡ n
          → r.lists q low ≡ l
          → Served q o r (try_dequeue q r)
      by_lists (x ∷ h) n l eh en el = ground (arith, eq_iff q q, eq_iff q o)
      by_lists [] (x ∷ n) l eh en el = ground (arith, eq_iff q q, eq_iff q o)
      by_lists [] [] (x ∷ l) eh en el = ground (arith, eq_iff q q, eq_iff q o)
      by_lists [] [] [] eh en el = ground (arith, eq_iff q q, eq_iff q o)
