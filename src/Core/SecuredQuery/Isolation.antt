-- ===== src/Core/SecuredQuery/Isolation.antt =====
-- Which rows a query selects (core/db/query-builder-secured.ts).
use mathlib.Core.Bool.{and_assoc, and-true, or-false}
use pilots_hq.Prelude.{
  ℕ, has, ◌+◌, ◌≡◌, refl, sym, ap, subst, ◌∙◌, String, Bool, true, false, ◌&&◌, none, List, [], ◌∷◌,
  ◌++◌, map, length, length-append, str_eq, arith, append_assoc,
}
use pilots_hq.Core.SecuredQuery.{
  Atom, equals, Condition, Query, ok, error, asc, is_name, quoted, renumber, and_then, join_and,
  add_condition, secured, select, where_equal, where_many, where_raw, order_by, limit, offset,
  build, Meaning, param, test, test_all, test_any, selects,
}
use pilots_hq.Core.SecuredQuery.Numbering.{
  all_between, numbers, well_numbered, all_plain, flat, join_and-plain, plain-append,
  well_numbered_mono, well_numbered-renumber, well_numbered-append, test_all-left,
  test_all-renumber, test_all-append,
}
use pilots_hq.Core.SecuredQuery.Steps.{
  Step, columns, equal, many, raw, order, at_most, skipping, apply, apply_all, are_numbered,
  IsScoped, all_names,
}

pub ok-inj : {A : Type 0} (a b : A) → ok a ≡ ok b → a ≡ b
ok-inj a b e = ap (λ x. elim x [ ok c ↦ c | error f ↦ a ]) e

module _ {V : Type 0} where
  abbrev pub blank : String → Query V
  blank table = record {
    table = table;
    conditions = [];
    params = [];
    selected = "*" ∷ [];
    limit_val = none;
    offset_val = none;
    order_by_col = none;
    order_dir = asc;
  }

module _ {V : Type 0} (read : String → ℕ → Condition) where
  -- The constructor's and `where`'s condition is the raw one `"column" = $1`.
  add_condition-where_raw :
      (column : String) (v : V) (q : Query V)
      → is_name column ≡ true
      → add_condition read column v q ≡ where_raw ((equals column 1 ∷ []) ∷ []) (v ∷ []) q
  unfolding add_condition quoted where_raw renumber
  add_condition-where_raw column v q name =
      let n : length (q.params ++ v ∷ []) ≡ 1 + length q.params =
        length-append q.params (v ∷ []) ∙ omega arith in
      rw name (rw n refl)

  where_raw-IsScoped :
      (atoms : List Atom) (params : List V) (q : Query V)
      → well_numbered (length params) atoms ≡ true
      → IsScoped q
      → IsScoped (where_raw (atoms ∷ []) params q)
  unfolding where_raw
  where_raw-IsScoped atoms params q b s =
      let k = length q.params in
      let d = map (renumber k) atoms in
      let (plain, same) = plain-append s.rest d s.plain in
      let n = length-append q.params params in
      let old =
        well_numbered_mono k (k + length params) (s.head ++ flat s.rest) (omega arith) s.numbered in
      let new = well_numbered-renumber (length params) k atoms b in
      record {
        head = s.head;
        rest = s.rest ++ (d ∷ []) ∷ [];
        is_built = rw s.is_built refl;
        plain = plain;
        numbered =
            rw (n, same, sym (append_assoc s.head (flat s.rest) d))
              (well_numbered-append (k + length params) (s.head ++ flat s.rest) d old new);
      }

  pub secured-some :
      (value_of : String → V) (table org_id : String)
      → str_eq org_id "" ≡ false
      → secured read value_of table org_id
        ≡ ok (add_condition read "org_id" (value_of org_id) (blank table))
  unfolding secured
  secured-some value_of table org_id e = rw e refl

  pub secured-is_set :
      (value_of : String → V) (table org_id : String) (q : Query V)
      → secured read value_of table org_id ≡ ok q
      → str_eq org_id "" ≡ false
  unfolding secured
  secured-is_set value_of table org_id q e = ground (arith, e)

  module _ (m : Meaning V) (row : String → V) where
    selects-plain :
        (q : Query V) (head : List Atom) (rest : List Condition)
        → q.conditions ≡ (head ∷ []) ∷ rest
        → all_plain rest ≡ true
        → selects m q row ≡ test_all m q.params row (head ++ flat rest)
    unfolding selects build test_any
    selects-plain q head rest built plain = rw (built, join_and-plain head rest plain) (or-false _)

    selects-where_raw :
        (atoms : List Atom) (params : List V) (q : Query V)
        → well_numbered (length params) atoms ≡ true
        → IsScoped q
        → selects m (where_raw (atoms ∷ []) params q) row
          ≡ (selects m q row && test_all m params row atoms)
    unfolding where_raw
    selects-where_raw atoms params q b s =
        let d = map (renumber (length q.params)) atoms in
        let (plain, same) = plain-append s.rest d s.plain in
        let now =
          selects-plain (where_raw (atoms ∷ []) params q) s.head (s.rest ++ (d ∷ []) ∷ [])
            (rw s.is_built refl) plain in
        let before = selects-plain q s.head s.rest s.is_built s.plain in
        let old =
          test_all-left m row q.params params (length q.params) (s.head ++ flat s.rest)
            (omega arith) s.numbered in
        let new = test_all-renumber m row q.params params (length params) atoms b in
        now
        ∙ rw
            (
              same,
              sym (append_assoc s.head (flat s.rest) d),
              test_all-append m row (q.params ++ params) (s.head ++ flat s.rest) d,
              old,
              new,
              before,
            )
            refl

    -- What a step asks of a row, each raw condition with its own parameters.
    unfoldable pub pairs_hold : List (String × V) → Bool
    pairs_hold [] = true
    pairs_hold ((column, value) ∷ more) = m.same (row column) value && pairs_hold more

    unfoldable pub step_holds : Step V → Bool
    step_holds (equal column value) = m.same (row column) value
    step_holds (many conditions) = pairs_hold conditions
    step_holds (raw atoms params) = test_all m params row atoms
    step_holds (columns cs) = true
    step_holds (order column dir) = true
    step_holds (at_most n) = true
    step_holds (skipping n) = true

    unfoldable pub steps_hold : List (Step V) → Bool
    steps_hold [] = true
    steps_hold (s ∷ ss) = step_holds s && steps_hold ss

    -- A query is a narrowing of another by a test.
    abbrev Narrows : Query V → Query V → Bool → Type 0
    Narrows q q' test = IsScoped q' × (selects m q' row ≡ (selects m q row && test))

    where_raw-Narrows :
        (atoms : List Atom) (params : List V) (q : Query V)
        → well_numbered (length params) atoms ≡ true
        → IsScoped q
        → Narrows q (where_raw (atoms ∷ []) params q) (test_all m params row atoms)
    where_raw-Narrows atoms params q b s =
        (where_raw-IsScoped atoms params q b s, selects-where_raw atoms params q b s)

    add_condition-Narrows :
        (column : String) (v : V) (q : Query V)
        → is_name column ≡ true
        → IsScoped q
        → Narrows q (add_condition read column v q) (m.same (row column) v)
    unfolding well_numbered numbers all_between test_all test param
    add_condition-Narrows column v q name s =
        let narrow = where_raw-Narrows (equals column 1 ∷ []) (v ∷ []) q refl s in
        rw (add_condition-where_raw column v q name)
          (narrow.0, narrow.1 ∙ ap (λ b. selects m q row && b) (and-true (m.same (row column) v)))

    where_many-Narrows :
        (conditions : List (String × V)) (q : Query V)
        → all_names conditions ≡ true
        → IsScoped q
        → Narrows q (where_many read conditions q) (pairs_hold conditions)
    unfolding where_many pairs_hold all_names
    where_many-Narrows [] q names s = (s, sym (and-true (selects m q row)))
    where_many-Narrows ((column, value) ∷ more) q names s =
        let (s', one) = add_condition-Narrows column value q (ground (arith, names)) s in
        let (s'', rest) =
          where_many-Narrows more (add_condition read column value q) (ground (arith, names)) s' in
        (s'', rest ∙ rw one (and_assoc (selects m q row) (m.same (row column) value) _))

    -- what is selected does not depend on the other fields
    same-Narrows :
        (q q' : Query V)
        → q'.conditions ≡ q.conditions
        → q'.params ≡ q.params
        → IsScoped q
        → Narrows q q' true
    unfolding selects build
    same-Narrows q q' c p s = (
      record {
        head = s.head;
        rest = s.rest;
        is_built = c ∙ s.is_built;
        plain = s.plain;
        numbered = rw p s.numbered;
      },
      rw (c, p) (sym (and-true _)),
    )

    apply-Narrows :
        (s : Step V) (q : Query V)
        → are_numbered (s ∷ []) ≡ true
        → IsScoped q
        → Narrows q (apply read s q) (step_holds s)
    unfolding apply step_holds are_numbered where_equal
    apply-Narrows (columns cs) q b s = same-Narrows q (select cs q) refl refl s
    apply-Narrows (equal column value) q b s =
        add_condition-Narrows column value q (ground (arith, b)) s
    apply-Narrows (many conditions) q b s = where_many-Narrows conditions q (ground (arith, b)) s
    apply-Narrows (raw atoms params) q b s = where_raw-Narrows atoms params q (ground (arith, b)) s
    apply-Narrows (order column dir) q b s = same-Narrows q (order_by column dir q) refl refl s
    apply-Narrows (at_most n) q b s = same-Narrows q (limit n q) refl refl s
    apply-Narrows (skipping n) q b s = same-Narrows q (offset n q) refl refl s

    are_numbered-cons :
        (s : Step V) (ss : List (Step V))
        → are_numbered (s ∷ ss) ≡ true
        → (are_numbered (s ∷ []) ≡ true) × (are_numbered ss ≡ true)
    unfolding are_numbered
    are_numbered-cons (columns cs) ss b = (refl, b)
    are_numbered-cons (equal column value) ss b = (ground (arith, b), ground (arith, b))
    are_numbered-cons (many conditions) ss b = (ground (arith, b), ground (arith, b))
    are_numbered-cons (raw atoms params) ss b = (ground (arith, b), ground (arith, b))
    are_numbered-cons (order column dir) ss b = (refl, b)
    are_numbered-cons (at_most n) ss b = (refl, b)
    are_numbered-cons (skipping n) ss b = (refl, b)

    apply_all-Narrows :
        (ss : List (Step V)) (q : Query V)
        → are_numbered ss ≡ true
        → IsScoped q
        → Narrows q (apply_all read ss q) (steps_hold ss)
    unfolding apply_all steps_hold
    apply_all-Narrows [] q b s = (s, sym (and-true (selects m q row)))
    apply_all-Narrows (step ∷ ss) q b s =
        let (b1, b2) = are_numbered-cons step ss b in
        let (s', one) = apply-Narrows step q b1 s in
        let (s'', rest) = apply_all-Narrows ss (apply read step q) b2 s' in
        (s'', rest ∙ rw one (and_assoc (selects m q row) (step_holds step) _))

    start-IsScoped :
        (v : V) (table : String)
        → IsScoped (add_condition read "org_id" v (blank table))
          × (selects m (add_condition read "org_id" v (blank table)) row ≡ m.same (row "org_id") v)
    unfolding add_condition quoted is_name has well_numbered numbers all_between selects build
        join_and and_then test_any test_all test param flat all_plain
    start-IsScoped v table = (
      record {
        head = equals "org_id" 1 ∷ [];
        rest = [];
        is_built = refl;
        plain = refl;
        numbered = refl;
      },
      or-false _ ∙ and-true _,
    )

    secured-IsScoped :
        (value_of : String → V) (table org_id : String) (q : Query V)
        → secured read value_of table org_id ≡ ok q
        → IsScoped q × (selects m q row ≡ m.same (row "org_id") (value_of org_id))
    secured-IsScoped value_of table org_id q e =
        let there = secured-is_set value_of table org_id q e in
        let start = add_condition read "org_id" (value_of org_id) (blank table) in
        let same : start ≡ q =
          ok-inj start q (sym (secured-some value_of table org_id there) ∙ e) in
        subst (λ q. IsScoped q × (selects m q row ≡ m.same (row "org_id") (value_of org_id))) same
          (start-IsScoped (value_of org_id) table)

    -- The WHERE part of a query that is built with columns whose names have no `"`, and with raw
    -- conditions that have no `OR` and whose numbers are those of their parameters, is met exactly by
    -- the rows of the organisation that meet each of its conditions with the values that were given
    -- for it, whatever columns, order, limit and offset were set before, between or after.
    pub selects-apply_all :
        (value_of : String → V) (table org_id : String) (q : Query V) (ss : List (Step V))
        → secured read value_of table org_id ≡ ok q
        → are_numbered ss ≡ true
        → selects m (apply_all read ss q) row
          ≡ (m.same (row "org_id") (value_of org_id) && steps_hold ss)
    selects-apply_all value_of table org_id q ss e b =
        let (scoped, own) = secured-IsScoped value_of table org_id q e in
        (apply_all-Narrows ss q b scoped).1 ∙ rw own refl
