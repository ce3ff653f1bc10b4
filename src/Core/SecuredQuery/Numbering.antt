-- ===== src/Core/SecuredQuery/Numbering.antt =====
-- Joining conditions and raising their numbers (core/db/query-builder-secured.ts).
use mathlib.Core.Bool.{and_assoc}
use pilots_hq.Prelude.{
  ℕ, zero, suc, ◌+◌, ◌≤◌, ◌≡◌, refl, sym, ap, String, Bool, true, false, ◌&&◌, none, some, List, [],
  ◌∷◌, ◌++◌, map, length, get_elem?, leb, arith, append_assoc, append-nil,
}
use pilots_hq.Core.SecuredQuery.{
  Atom, equals, other, Condition, renumber, and_then, join_and, Meaning, param, test, test_all,
}

-- the numbers of parameters that stand between 1 and a bound
unfoldable pub all_between : ℕ → List ℕ → Bool
all_between k [] = true
all_between k (n ∷ ns) = (leb 1 n && leb n k) && all_between k ns

unfoldable pub numbers : Atom → List ℕ
numbers (equals column n) = n ∷ []
numbers (other text ns) = ns

unfoldable pub well_numbered : ℕ → List Atom → Bool
well_numbered k [] = true
well_numbered k (a ∷ more) = all_between k (numbers a) && well_numbered k more

all_between_mono :
    (j k : ℕ) (ns : List ℕ) → j ≤ k → all_between j ns ≡ true → all_between k ns ≡ true
unfolding all_between
all_between_mono j k [] h b = refl
all_between_mono j k (n ∷ ns) h b = ground (arith, b, all_between_mono j k ns h (ground (arith, b)))

all_between-raise :
    (j k : ℕ) (ns : List ℕ)
    → all_between j ns ≡ true
    → all_between (k + j) (map (λ n. n + k) ns) ≡ true
unfolding all_between
all_between-raise j k [] b = refl
all_between-raise j k (n ∷ ns) b = ground (arith, b, all_between-raise j k ns (ground (arith, b)))

renumber_bound :
    (j k : ℕ) (a : Atom)
    → all_between j (numbers a) ≡ true
    → all_between (k + j) (numbers (renumber k a)) ≡ true
unfolding numbers renumber all_between
renumber_bound j k (equals column n) b = ground (arith, b)
renumber_bound j k (other text ns) b = all_between-raise j k ns b

pub well_numbered_mono :
    (j k : ℕ) (c : List Atom) → j ≤ k → well_numbered j c ≡ true → well_numbered k c ≡ true
unfolding well_numbered
well_numbered_mono j k [] h b = refl
well_numbered_mono j k (a ∷ c) h b = ground (
  arith,
  b,
  all_between_mono j k (numbers a) h (ground (arith, b)),
  well_numbered_mono j k c h (ground (arith, b)),
)

pub well_numbered-renumber :
    (j k : ℕ) (c : List Atom)
    → well_numbered j c ≡ true
    → well_numbered (k + j) (map (renumber k) c) ≡ true
unfolding well_numbered
well_numbered-renumber j k [] b = refl
well_numbered-renumber j k (a ∷ c) b = ground (
  arith,
  b,
  renumber_bound j k a (ground (arith, b)),
  well_numbered-renumber j k c (ground (arith, b)),
)

pub well_numbered-append :
    (k : ℕ) (c d : List Atom)
    → well_numbered k c ≡ true
    → well_numbered k d ≡ true
    → well_numbered k (c ++ d) ≡ true
unfolding well_numbered
well_numbered-append k [] d b b' = b'
well_numbered-append k (a ∷ c) d b b' =
    ground (arith, b, well_numbered-append k c d (ground (arith, b)) b')

-- the conditions that have no `OR`, and their tests
unfoldable pub all_plain : List Condition → Bool
all_plain [] = true
all_plain ([] ∷ cs) = false
all_plain ((c ∷ []) ∷ cs) = all_plain cs
all_plain ((c ∷ d ∷ ds) ∷ cs) = false

unfoldable pub flat : List Condition → List Atom
flat [] = []
flat ([] ∷ cs) = flat cs
flat ((c ∷ more) ∷ cs) = c ++ flat cs

pub join_and-plain :
    (c : List Atom) (cs : List Condition)
    → all_plain cs ≡ true
    → join_and ((c ∷ []) ∷ cs) ≡ (c ++ flat cs) ∷ []
unfolding join_and and_then all_plain flat
join_and-plain c [] p = rw (append-nil c) refl
join_and-plain c ([] ∷ cs) p = absurd (cc p)
join_and-plain c ((d ∷ []) ∷ cs) p = rw (join_and-plain d cs p) refl
join_and-plain c ((d ∷ e ∷ es) ∷ cs) p = absurd (cc p)

pub plain-append :
    (cs : List Condition) (d : List Atom)
    → all_plain cs ≡ true
    → (all_plain (cs ++ (d ∷ []) ∷ []) ≡ true) × (flat (cs ++ (d ∷ []) ∷ []) ≡ flat cs ++ d)
unfolding all_plain flat
plain-append [] d p = (refl, append-nil d)
plain-append ([] ∷ cs) d p = absurd (cc p)
plain-append ((c ∷ []) ∷ cs) d p =
    let (plain, same) = plain-append cs d p in (plain, rw same (sym (append_assoc c (flat cs) d)))
plain-append ((c ∷ e ∷ es) ∷ cs) d p = absurd (cc p)

param-left : {V : Type 0} (vs ws : List V) (n : ℕ) → n ≤ length vs → param (vs ++ ws) n ≡ param vs n
unfolding param
param-left vs ws zero h = refl
param-left [] ws (suc n) h = absurd (omega arith)
param-left (v ∷ vs) ws (suc zero) h = refl
param-left (v ∷ vs) ws (suc (suc n)) h = param-left vs ws (suc n) (omega arith)

pub get_elem?-right :
    {V : Type 0} (vs ws : List V) (n : ℕ) → get_elem? (vs ++ ws) (n + length vs) ≡ get_elem? ws n
get_elem?-right [] ws n = rw (let e : n + 0 ≡ n = omega arith in e) refl
get_elem?-right (v ∷ vs) ws n =
    rw (let e : n + suc (length vs) ≡ suc (n + length vs) = omega arith in e)
      (get_elem?-right vs ws n)

param-right :
    {V : Type 0} (vs ws : List V) (n : ℕ) → 1 ≤ n → param (vs ++ ws) (n + length vs) ≡ param ws n
unfolding param
param-right vs ws zero h = absurd (omega arith)
param-right vs ws (suc n) h =
    rw (let e : suc n + length vs ≡ suc (n + length vs) = omega arith in e)
      (get_elem?-right vs ws n)

map-param_left :
    {V : Type 0} (vs ws : List V) (k : ℕ) (ns : List ℕ)
    → k ≤ length vs
    → all_between k ns ≡ true
    → map (param (vs ++ ws)) ns ≡ map (param vs) ns
unfolding all_between
map-param_left vs ws k [] h b = refl
map-param_left vs ws k (n ∷ ns) h b =
    rw (param-left vs ws n (ground (arith, b)), map-param_left vs ws k ns h (ground (arith, b)))
      refl

map-param_right :
    {V : Type 0} (vs ws : List V) (k : ℕ) (ns : List ℕ)
    → all_between k ns ≡ true
    → map (param (vs ++ ws)) (map (λ n. n + length vs) ns) ≡ map (param ws) ns
unfolding all_between
map-param_right vs ws k [] b = refl
map-param_right vs ws k (n ∷ ns) b =
    rw (param-right vs ws n (ground (arith, b)), map-param_right vs ws k ns (ground (arith, b)))
      refl

module _ {V : Type 0} (m : Meaning V) (row : String → V) where
  -- Parameters that come later do not change what a test says.
  test-left :
      (vs ws : List V) (k : ℕ) (a : Atom)
      → k ≤ length vs
      → all_between k (numbers a) ≡ true
      → test m (vs ++ ws) row a ≡ test m vs row a
  unfolding test numbers all_between
  test-left vs ws k (equals column n) h b =
      let le : n ≤ length vs = ground (arith, b) in
      ap (λ o. elim o [ none ↦ false | some v ↦ m.same (row column) v ]) (param-left vs ws n le)
  test-left vs ws k (other text ns) h b =
      ap (λ l. m.holds text l row) (map-param_left vs ws k ns h b)

  -- Numbers that are raised find the parameters that come after.
  test-renumber :
      (vs ws : List V) (k : ℕ) (a : Atom)
      → all_between k (numbers a) ≡ true
      → test m (vs ++ ws) row (renumber (length vs) a) ≡ test m ws row a
  unfolding test numbers all_between renumber
  test-renumber vs ws k (equals column n) b =
      rw (test, param-right vs ws n (ground (arith, b))) refl
  test-renumber vs ws k (other text ns) b = rw (map-param_right vs ws k ns b) refl

  pub test_all-left :
      (vs ws : List V) (k : ℕ) (c : List Atom)
      → k ≤ length vs
      → well_numbered k c ≡ true
      → test_all m (vs ++ ws) row c ≡ test_all m vs row c
  unfolding test_all well_numbered
  test_all-left vs ws k [] h b = refl
  test_all-left vs ws k (a ∷ c) h b =
      rw (test-left vs ws k a h (ground (arith, b)), test_all-left vs ws k c h (ground (arith, b)))
        refl

  pub test_all-renumber :
      (vs ws : List V) (k : ℕ) (c : List Atom)
      → well_numbered k c ≡ true
      → test_all m (vs ++ ws) row (map (renumber (length vs)) c) ≡ test_all m ws row c
  unfolding test_all well_numbered
  test_all-renumber vs ws k [] b = refl
  test_all-renumber vs ws k (a ∷ c) b =
      rw
        (
          test-renumber vs ws k a (ground (arith, b)),
          test_all-renumber vs ws k c (ground (arith, b)),
        )
        refl

  pub test_all-append :
      (vs : List V) (c d : List Atom)
      → test_all m vs row (c ++ d) ≡ (test_all m vs row c && test_all m vs row d)
  unfolding test_all
  test_all-append vs [] d = refl
  test_all-append vs (a ∷ c) d = rw (test_all-append vs c d) (sym (and_assoc (test m vs row a) _ _))
