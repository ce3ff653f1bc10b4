-- ===== src/Tracking/Log/Chain.antt =====
-- What `verifyEventChain` decides (engines/tracking/event-log.ts).
use pilots_hq.Prelude.{
  ℕ, ◌+◌, ◌≡◌, ◌≢◌, inl, inr, refl, ap, String, some, List, [], ◌∷◌, ◌++◌, arith, length, str_eq,
  eq_iff, Bool-cases, Option-cases,
}
use pilots_hq.Tracking.Types.{TrackingEvent}
use pilots_hq.Tracking.Log.{
  Content, Verdict, valid, tampered, genesis, compute_event_hash, verify_from,
}

module _ {C D : Type 0} (digest : Content C D → String) where
  -- Each event stores the digest of its content and of the hash before it.
  abbrev pub IsChain : String → List (TrackingEvent C D) → Type 0
  IsChain p [] = Unit
  IsChain p (e ∷ es) =
      (e.event_hash ≡ some (compute_event_hash digest e p))
      × IsChain (compute_event_hash digest e p) es

  -- The hash that the next event is to be chained to.
  abbrev pub chain_end : String → List (TrackingEvent C D) → String
  chain_end p [] = p
  chain_end p (e ∷ es) = chain_end (compute_event_hash digest e p) es

  -- The loop goes past a chain, to the hash at its end.
  pub verify_from-append :
      (p : String) (i : ℕ) (xs ys : List (TrackingEvent C D))
      → IsChain p xs
      → verify_from digest p i (xs ++ ys) ≡ verify_from digest (chain_end p xs) (i + length xs) ys
  unfolding verify_from
  verify_from-append p i [] ys c = ground arith
  verify_from-append p i (e ∷ xs) ys c =
      let h = compute_event_hash digest e p in
      ground (arith, eq_iff h h, verify_from-append h (i + 1) xs ys c.1)

  pub IsChain-append :
      (p : String) (xs ys : List (TrackingEvent C D))
      → IsChain p xs
      → IsChain (chain_end p xs) ys
      → IsChain p (xs ++ ys)
  IsChain-append p [] ys c d = d
  IsChain-append p (e ∷ xs) ys c d =
      (c.0, IsChain-append (compute_event_hash digest e p) xs ys c.1 d)

  pub chain_end-append :
      (p : String) (xs ys : List (TrackingEvent C D))
      → chain_end p (xs ++ ys) ≡ chain_end (chain_end p xs) ys
  chain_end-append p [] ys = refl
  chain_end-append p (e ∷ xs) ys = chain_end-append (compute_event_hash digest e p) xs ys

  pub verify_from-IsChain :
      (p : String) (i : ℕ) (es : List (TrackingEvent C D))
      → IsChain p es
      → verify_from digest p i es ≡ valid (i + length es)
  unfolding verify_from
  verify_from-IsChain p i [] c = ground arith
  verify_from-IsChain p i (e ∷ es) c =
      let h = compute_event_hash digest e p in
      ground (arith, eq_iff h h, verify_from-IsChain h (i + 1) es c.1)

  -- It stops at an event that does not store the digest of its content and of the hash before it.
  pub verify_from-broken :
      (p : String) (i : ℕ) (e : TrackingEvent C D) (es : List (TrackingEvent C D))
      → e.event_hash ≢ some (compute_event_hash digest e p)
      → verify_from digest p i (e ∷ es) ≡ tampered e.id i
  unfolding verify_from
  verify_from-broken p i e es h = elim (Option-cases e.event_hash) [
    | inl n ↦ rw (n, verify_from)
    | inr (s, q) ↦ ground (arith, eq_iff (compute_event_hash digest e p) s)
  ]

  -- Where the loop ends well, the events are a chain and all were counted.
  pub verify_from-valid :
      (p : String) (i n : ℕ) (es : List (TrackingEvent C D))
      → verify_from digest p i es ≡ valid n
      → IsChain p es × (n ≡ i + length es)
  unfolding verify_from
  verify_from-valid p i n [] v = ground arith
  verify_from-valid p i n (e ∷ es) v = elim (Option-cases e.event_hash) [
    | inl q ↦ cc
    | inr (s, q) ↦
        ground (arith, eq_iff (compute_event_hash digest e p) s, verify_from-valid s (i + 1) n es)
  ]

  -- Where the loop stops, the events before are a chain, and the event it names is not chained.
  abbrev pub Broken : String → ℕ → List (TrackingEvent C D) → String → ℕ → Type 0
  Broken p i es id n =
      (xs ys : List (TrackingEvent C D)) × (e : TrackingEvent C D) × (es ≡ xs ++ e ∷ ys)
      × IsChain p xs
      × (n ≡ i + length xs)
      × (e.id ≡ id)
      × (e.event_hash ≢ some (compute_event_hash digest e (chain_end p xs)))

  Broken-cons :
      (p : String) (i : ℕ) (e : TrackingEvent C D) (es : List (TrackingEvent C D)) (id : String)
      (n : ℕ)
      → e.event_hash ≡ some (compute_event_hash digest e p)
      → Broken (compute_event_hash digest e p) (i + 1) es id n
      → Broken p i (e ∷ es) id n
  Broken-cons p i e es id n h (xs, ys, f, split, c, at, named, broken) =
      (e ∷ xs, ys, f, ap (◌∷◌ e) split, (h, c), omega arith, named, broken)

  pub verify_from-tampered :
      (p : String) (i n : ℕ) (id : String) (es : List (TrackingEvent C D))
      → verify_from digest p i es ≡ tampered id n
      → Broken p i es id n
  unfolding verify_from
  verify_from-tampered p i n id [] v = absurd (cc v)
  verify_from-tampered p i n id (e ∷ es) v = elim (Option-cases e.event_hash) [
    | inl q ↦ ([], es, e, refl, tt, ground arith, ground arith, λ h. ground arith)
    | inr (s, q) ↦
        let h = compute_event_hash digest e p in
        elim (Bool-cases (str_eq h s)) [
          | inl same ↦
              Broken-cons p i e es id n (ground (arith, eq_iff h s))
                (verify_from-tampered h (i + 1) n id es (ground (arith, eq_iff h s)))
          | inr other ↦
              ([], es, e, refl, tt, ground arith, ground arith, λ b. ground (arith, eq_iff h s))
        ]
  ]

  abbrev pub VerdictExplained : Verdict → List (TrackingEvent C D) → Type 0
  VerdictExplained (valid n) es = IsChain genesis es × (n ≡ length es)
  VerdictExplained (tampered id n) es = Broken genesis 0 es id n

  pub verify_from-VerdictExplained :
      (es : List (TrackingEvent C D)) → VerdictExplained (verify_from digest genesis 0 es) es
  verify_from-VerdictExplained es = go (verify_from digest genesis 0 es) refl
    where
      go : (v : Verdict) → verify_from digest genesis 0 es ≡ v → VerdictExplained v es
      go (valid n) h = ground (arith, verify_from-valid genesis 0 n es h)
      go (tampered id n) h = verify_from-tampered genesis 0 n id es h
