-- ===== src/Routing/Greedy/Partial.antt =====
-- What the greedy start has planned (engines/route-optimizer/greedy-init.ts).
use mathlib.Core.Path.{ap₂}
use mathlib.Core.List.{head-eq_of_cons-eq, tail-eq_of_cons-eq}
use pilots_hq.Prelude.{
  ℕ, zero, suc, ◌+◌, ◌≤◌, ◌≡◌, refl, ap, subst, Bool, true, Option, none, some, List, [], ◌∷◌, ◌++◌,
  get_elem?, set, Bool-cases, inl, inr, arith,
}
use pilots_hq.Routing.Types.{Metric, Stop, Vehicle, RouteStop}
use pilots_hq.Routing.Search.{Slot, fits}
use pilots_hq.Routing.Search.Plans.{
  tally, tally_all, sum_weight, sum_volume, order_ids, stop_ids, IsLoaded, AreLoaded,
}
use pilots_hq.Routing.Greedy.{Cart, Choice, remove_at, best_cost, scan_stops, scan_carts, take_stop}

module _ {F Place : Type 0} where
  abbrev pub slots_of : List (Cart F Place) → List (Slot F Place)
  slots_of [] = []
  slots_of (c ∷ cs) = c.slot ∷ slots_of cs

  -- a choice of a vehicle and of a stop that it can carry
  pub record IsValid (carts : List (Cart F Place)) (stops : List (Stop Place)) (c : Choice F)
      : Type 0 where
    pub cart : Cart F Place
    pub stop : Stop Place
    pub has_cart : get_elem? carts c.vehicle_idx ≡ some cart
    pub has_stop : get_elem? stops c.stop_idx ≡ some stop
    pub fitting : fits stop cart.slot.remaining_kg cart.slot.remaining_cbm ≡ true

  unfoldable pub AreValid : List (Cart F Place) → List (Stop Place) → Option (Choice F) → Type 0
  AreValid carts stops none = Unit
  AreValid carts stops (some c) = IsValid carts stops c

some-inj : {A : Type 0} {a b : A} → some a ≡ some b → a ≡ b
some-inj {a = a} e = ap (λ o. elim o [ none ↦ a | some c ↦ c ]) e

-- a list seen from an index on
unfoldable pub IsSuffix : {A : Type 0} → List A → ℕ → List A → Type 0
IsSuffix all i xs = (k : ℕ) → get_elem? all (k + i) ≡ get_elem? xs k

IsSuffix-head :
    {A : Type 0} (all : List A) (i : ℕ) (x : A) (xs : List A)
    → IsSuffix all i (x ∷ xs)
    → get_elem? all i ≡ some x
unfolding IsSuffix
IsSuffix-head all i x xs s =
    subst (λ n. get_elem? all n ≡ some x) (let e : 0 + i ≡ i = omega arith in e) (s 0)

IsSuffix-tail :
    {A : Type 0} (all : List A) (i : ℕ) (x : A) (xs : List A)
    → IsSuffix all i (x ∷ xs)
    → IsSuffix all (suc i) xs
unfolding IsSuffix
IsSuffix-tail all i x xs s k =
    subst (λ n. get_elem? all n ≡ get_elem? xs k) (let e : suc k + i ≡ k + suc i = omega arith in e)
      (s (suc k))

pub IsSuffix-all : {A : Type 0} (all : List A) → IsSuffix all 0 all
unfolding IsSuffix
IsSuffix-all all k = ap (get_elem? all) (let e : k + 0 ≡ k = omega arith in e)

module _ {F Place : Type 0} (m : Metric F Place) where
  scan_stops-AreValid :
      (carts : List (Cart F Place)) (all : List (Stop Place)) (vi : ℕ) (cart : Cart F Place)
      (si : ℕ) (stops : List (Stop Place)) (best : Option (Choice F))
      → get_elem? carts vi ≡ some cart
      → IsSuffix all si stops
      → AreValid carts all best
      → AreValid carts all (scan_stops m vi cart si stops best)
  unfolding scan_stops AreValid
  scan_stops-AreValid carts all vi cart si [] best c s v = v
  scan_stops-AreValid carts all vi cart si (stop ∷ stops) best c s v =
      let dist = m.distance cart.place stop.place in
      let choice : Choice F = record { vehicle_idx = vi; stop_idx = si; dist = dist } in
      let tail = IsSuffix-tail all si stop stops s in
      let skipped = scan_stops-AreValid carts all vi cart (suc si) stops best c tail v in
      elim (Bool-cases (fits stop cart.slot.remaining_kg cart.slot.remaining_cbm)) [
        | inr full ↦ rw full skipped
        | inl fit ↦ rw fit (elim (Bool-cases (m.less dist (best_cost m best))) [
          | inr dear ↦ rw dear skipped
          | inl cheap ↦ rw cheap (
              scan_stops-AreValid carts all vi cart (suc si) stops (some choice) c tail (record {
                cart = cart;
                stop = stop;
                has_cart = c;
                has_stop = IsSuffix-head all si stop stops s;
                fitting = fit;
              }))
        ])
      ]

  pub scan_carts-AreValid :
      (all : List (Cart F Place)) (vi : ℕ) (carts : List (Cart F Place)) (stops : List (Stop Place))
      (best : Option (Choice F))
      → IsSuffix all vi carts
      → AreValid all stops best
      → AreValid all stops (scan_carts m vi carts stops best)
  unfolding scan_carts
  scan_carts-AreValid all vi [] stops best s v = v
  scan_carts-AreValid all vi (cart ∷ carts) stops best s v =
      scan_carts-AreValid all (suc vi) carts stops _ (IsSuffix-tail all vi cart carts s) (
        scan_stops-AreValid all stops vi cart 0 stops best (IsSuffix-head all vi cart carts s)
          (IsSuffix-all stops) v)

stop_ids-append :
    {F Place : Type 0} (rs : List (RouteStop F Place)) (ss : List (Stop Place))
    (r : RouteStop F Place) (s : Stop Place)
    → stop_ids rs ≡ order_ids ss
    → r.order_id ≡ s.order_id
    → stop_ids (rs ++ r ∷ []) ≡ order_ids (ss ++ s ∷ [])
stop_ids-append [] [] r s e same = rw same refl
stop_ids-append [] (t ∷ ss) r s e same = absurd (cc e)
stop_ids-append (q ∷ rs) [] r s e same = absurd (cc e)
stop_ids-append (q ∷ rs) (t ∷ ss) r s e same =
    ap₂ (λ x xs. x ∷ xs) (head-eq_of_cons-eq e)
      (stop_ids-append rs ss r s (tail-eq_of_cons-eq e) same)

sums-append :
    {Place : Type 0} (ss : List (Stop Place)) (s : Stop Place)
    → (sum_weight (ss ++ s ∷ []) ≡ sum_weight ss + s.weight)
      × (sum_volume (ss ++ s ∷ []) ≡ sum_volume ss + s.volume)
unfolding sum_weight sum_volume
sums-append [] s = (omega arith, omega arith)
sums-append (t ∷ ss) s = let (w, v) = sums-append ss s in (omega (arith, w), omega (arith, v))

tally-append :
    {Place : Type 0} (q : Stop Place → Bool) (ss : List (Stop Place)) (s : Stop Place)
    → tally q (ss ++ s ∷ []) ≡ tally q ss + tally q (s ∷ [])
unfolding tally
tally-append q [] s = omega arith
tally-append q (t ∷ ss) s = omega (arith, tally-append q ss s)

pub tally-remove_at :
    {Place : Type 0} (q : Stop Place → Bool) (n : ℕ) (ss : List (Stop Place)) (s : Stop Place)
    → get_elem? ss n ≡ some s
    → tally q (remove_at n ss) + tally q (s ∷ []) ≡ tally q ss
unfolding tally remove_at
tally-remove_at q n [] s e = absurd (cc e)
tally-remove_at q zero (t ∷ ss) s e = let same = some-inj e in rw same (omega arith)
tally-remove_at q (suc n) (t ∷ ss) s e = omega (arith, tally-remove_at q n ss s e)

module _ {F Place : Type 0} (m : Metric F Place) where
  take_stop-IsLoaded :
      (vs : List Vehicle) (cart : Cart F Place) (stop : Stop Place) (dist : F)
      (plan : List (Stop Place))
      → fits stop cart.slot.remaining_kg cart.slot.remaining_cbm ≡ true
      → IsLoaded vs cart.slot plan
      → IsLoaded vs (take_stop m cart stop dist).slot (plan ++ stop ∷ [])
  unfolding take_stop fits
  take_stop-IsLoaded vs cart stop dist plan fit l =
      let (w, v) = sums-append plan stop in
      let kg : stop.weight ≤ cart.slot.remaining_kg = ground (arith, fit) in
      let cbm : stop.volume ≤ cart.slot.remaining_cbm = ground (arith, fit) in
      record {
        in_order = stop_ids-append cart.slot.route.stops plan _ stop l.in_order refl;
        weighs = rw w (ap (λ n. n + stop.weight) l.weighs);
        measures = rw v (ap (λ n. n + stop.volume) l.measures);
        vehicle = l.vehicle;
        earlier = l.earlier;
        later = l.later;
        is_ours = l.is_ours;
        is_its = l.is_its;
        kg_kept = omega (arith, l.kg_kept);
        cbm_kept = omega (arith, l.cbm_kept);
      }

  pub AreLoaded-set :
      (vs : List Vehicle) (i : ℕ) (carts : List (Cart F Place)) (cart : Cart F Place)
      (stop : Stop Place) (dist : F) (plans : List (List (Stop Place)))
      → get_elem? carts i ≡ some cart
      → fits stop cart.slot.remaining_kg cart.slot.remaining_cbm ≡ true
      → AreLoaded vs (slots_of carts) plans
      → (plans' : List (List (Stop Place))) × AreLoaded vs
          (slots_of (set carts i (take_stop m cart stop dist)))
          plans'
        × ((q : Stop Place → Bool) → tally_all q plans' ≡ tally q (stop ∷ []) + tally_all q plans)
  unfolding AreLoaded tally_all
  AreLoaded-set vs i [] cart stop dist plans e fit l = absurd (cc e)
  AreLoaded-set vs i (c ∷ carts) cart stop dist [] e fit l = absurd l
  AreLoaded-set vs zero (c ∷ carts) cart stop dist (p ∷ ps) e fit (l, ls) = (
    (p ++ stop ∷ []) ∷ ps,
    (
      take_stop-IsLoaded vs cart stop dist p fit (subst (λ d. IsLoaded vs d.slot p) (some-inj e) l),
      ls,
    ),
    λ q. omega (arith, tally-append q p stop),
  )
  AreLoaded-set vs (suc i) (c ∷ carts) cart stop dist (p ∷ ps) e fit (l, ls) =
      let (ps', ls', same) = AreLoaded-set vs i carts cart stop dist ps e fit ls in
      (p ∷ ps', (l, ls'), λ q. omega (arith, same q))
