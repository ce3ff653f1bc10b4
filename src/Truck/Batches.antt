-- ===== src/Truck/Batches.antt =====
-- Reading in batches loses nothing and repeats nothing (clients/truck/src/queue.ts).
use pilots_hq.Prelude.{
  ℕ, zero, suc, ◌+◌, ◌≤◌, ◌<◌, ◌≡◌, refl, sym, ap, ◌∙◌, String, Bool, true, false, some, List, [],
  ◌∷◌, ◌++◌, ◌||◌, if◌then◌else◌, arith, inl, inr, Bool-cases,
}
use pilots_hq.Truck.{
  QueuedRow, TelemetryQueue, is_among, insert_row, enqueue, select_unsynced, get_unsynced,
  set_synced, mark_synced,
}

module _ {P : Type 0} where
  -- The ids rise from `low`, and the last is at most `high`.
  abbrev pub IdsIn : ℕ → ℕ → List (QueuedRow P) → Type 0
  IdsIn low high [] = low ≤ high
  IdsIn low high (r ∷ rs) = (low < r.id) × IdsIn r.id high rs

  abbrev pub ids_of : List (QueuedRow P) → List ℕ
  ids_of [] = []
  ids_of (r ∷ rs) = r.id ∷ ids_of rs

  -- The rows that are not synced, all of them.
  abbrev pub unsynced : List (QueuedRow P) → List (QueuedRow P)
  unsynced [] = []
  unsynced (r ∷ rs) = if r.synced then unsynced rs else r ∷ unsynced rs

  set_synced-nil : (rs : List (QueuedRow P)) → set_synced [] rs ≡ rs
  unfolding set_synced is_among
  set_synced-nil [] = refl
  set_synced-nil (r ∷ rs) = ap (◌∷◌ r) (set_synced-nil rs)

  -- An id below all others marks nothing.
  set_synced-low :
      (x low high : ℕ) (ids : List ℕ) (rs : List (QueuedRow P))
      → IdsIn low high rs
      → x ≤ low
      → set_synced (x ∷ ids) rs ≡ set_synced ids rs
  unfolding set_synced is_among
  set_synced-low x low high ids [] h le = refl
  set_synced-low x low high ids (r ∷ rs) h le =
      ground (arith, set_synced-low x r.id high ids rs h.1 (omega (arith, h.0)))

  choose : (b : Bool) (xs ys : List (QueuedRow P)) → b ≡ true → (if b then xs else ys) ≡ xs
  choose true xs ys e = refl
  choose false xs ys e = absurd (cc e)

  refuse : (b : Bool) (xs ys : List (QueuedRow P)) → b ≡ false → (if b then xs else ys) ≡ ys
  refuse true xs ys e = absurd (cc e)
  refuse false xs ys e = refl

  -- A row that is marked, or was synced, is out of the rest.
  unsynced-marked :
      (ids : List ℕ) (r : QueuedRow P) (rs : List (QueuedRow P))
      → (is_among r.id ids || r.synced) ≡ true
      → unsynced (set_synced ids (r ∷ rs)) ≡ unsynced (set_synced ids rs)
  unfolding set_synced
  unsynced-marked ids r rs e = elim (Bool-cases (is_among r.id ids)) [
    | inl among ↦ rw among refl
    | inr not_among ↦
        rw not_among (choose r.synced _ _ (ap (λ b. b || r.synced) (sym not_among) ∙ e))
  ]

  -- A batch that is read and marked is just what goes from the rows that are to be synced: the
  -- batch, followed by what is left to be synced, is what was to be synced before, in order.
  batch-rows :
      (limit low high : ℕ) (rs : List (QueuedRow P))
      → IdsIn low high rs
      → select_unsynced limit rs ++ unsynced (set_synced (ids_of (select_unsynced limit rs)) rs)
        ≡ unsynced rs
  unfolding select_unsynced
  batch-rows zero low high rs h = ap unsynced (set_synced-nil rs)
  batch-rows (suc limit) low high [] h = unfold set_synced in refl
  batch-rows (suc limit) low high (r ∷ rs) h = elim (Bool-cases r.synced) [
    | inl e ↦
        let batch = select_unsynced (suc limit) rs in
        ap (λ b. b ++ unsynced (set_synced (ids_of b) (r ∷ rs))) (choose r.synced _ _ e)
        ∙ ap (◌++◌ batch) (unsynced-marked (ids_of batch) r rs (ground (arith, e)))
        ∙ batch-rows (suc limit) r.id high rs h.1
        ∙ sym (choose r.synced _ _ e)
    | inr e ↦
        let batch = select_unsynced limit rs in
        ap (λ b. b ++ unsynced (set_synced (ids_of b) (r ∷ rs))) (refuse r.synced _ _ e)
        ∙ ap (λ left. r ∷ (batch ++ left))
            (unsynced-marked (r.id ∷ ids_of batch) r rs (unfold is_among in ground arith)
              ∙ ap unsynced (set_synced-low r.id r.id high (ids_of batch) rs h.1 (omega arith)))
        ∙ ap (◌∷◌ r) (batch-rows limit r.id high rs h.1)
        ∙ sym (refuse r.synced _ _ e)
  ]

  -- A batch that `getUnsynced` reads and `markSynced` marks is just what goes from the telemetry
  -- that is to be synced: the batch, followed by what a later read of any size can find, is what
  -- was to be synced before, in order. So nothing is lost and nothing comes twice.
  pub get_unsynced-mark_synced :
      (limit : ℕ) (q : TelemetryQueue P)
      → q.initialized ≡ true
      → IdsIn 0 q.last_id q.rows
      → (batch : List (QueuedRow P)) × (q' : TelemetryQueue P) × (get_unsynced limit q ≡ some batch)
        × (mark_synced (ids_of batch) q ≡ some q')
        × (batch ++ unsynced q'.rows ≡ unsynced q.rows)
        × (q'.last_id ≡ q.last_id)
  unfolding get_unsynced mark_synced
  get_unsynced-mark_synced limit q e h =
      let batch = select_unsynced limit q.rows in
      (
        batch,
        record q { rows = set_synced (ids_of batch) q.rows },
        ground (arith, e),
        ground (arith, e),
        batch-rows limit 0 q.last_id q.rows h,
        refl,
      )

  IdsIn-append :
      (low high : ℕ) (rs : List (QueuedRow P)) (r : QueuedRow P)
      → IdsIn low high rs
      → r.id ≡ high + 1
      → IdsIn low (high + 1) (rs ++ r ∷ [])
  IdsIn-append low high [] r h e = (omega (arith, h, e), omega (arith, e))
  IdsIn-append low high (x ∷ rs) r h e = (h.0, IdsIn-append x.id high rs r h.1 e)

  unsynced-append :
      (rs : List (QueuedRow P)) (r : QueuedRow P)
      → r.synced ≡ false
      → unsynced (rs ++ r ∷ []) ≡ unsynced rs ++ r ∷ []
  unsynced-append [] r e = refuse r.synced _ _ e
  unsynced-append (x ∷ rs) r e = elim (Bool-cases x.synced) [
    | inl s ↦
        choose x.synced _ _ s
        ∙ unsynced-append rs r e
        ∙ ap (λ l. l ++ r ∷ []) (sym (choose x.synced _ _ s))
    | inr s ↦
        refuse x.synced _ _ s
        ∙ ap (◌∷◌ x) (unsynced-append rs r e)
        ∙ ap (λ l. l ++ r ∷ []) (sym (refuse x.synced _ _ s))
  ]

  -- Telemetry that is enqueued gets an id above all before it, keeps the ids in order, and is the
  -- last to be synced.
  pub enqueue_lem :
      (copy : P → P) (vehicle : String) (telemetry : P) (timestamp : ℕ) (q : TelemetryQueue P)
      → q.initialized ≡ true
      → IdsIn 0 q.last_id q.rows
      → (q' : TelemetryQueue P) × (r : QueuedRow P) × (enqueue copy vehicle telemetry timestamp q
          ≡ some (q', q.last_id + 1))
        × IdsIn 0 q'.last_id q'.rows
        × (unsynced q'.rows ≡ unsynced q.rows ++ r ∷ [])
        × (r.id ≡ q.last_id + 1)
        × (r.telemetry ≡ copy telemetry)
        × (r.vehicle_id ≡ vehicle)
  unfolding enqueue insert_row
  enqueue_lem copy vehicle telemetry timestamp q e h =
      let r : QueuedRow P = record {
        id = q.last_id + 1;
        vehicle_id = vehicle;
        telemetry = copy telemetry;
        created_at = timestamp;
        synced = false;
      } in
      (
        insert_row vehicle (copy telemetry) timestamp q,
        r,
        ground (arith, e),
        IdsIn-append 0 q.last_id q.rows r h refl,
        unsynced-append q.rows r refl,
        refl,
        refl,
        refl,
      )
