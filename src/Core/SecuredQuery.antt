-- ===== src/Core/SecuredQuery.antt =====
-- core/db/query-builder-secured.ts. A statement is kept as its parts instead of its text. A raw
-- condition is what stands between its `OR`s, each a conjunction of tests; since `build` joins the
-- conditions with `AND` and without parentheses, the last alternative of one is joined with the
-- first of the next, as the precedence of SQL reads it. A parameter `$n` counts from 1. The code puts
-- a column between quotes as it is; `read` is what the database reads `"column" = $n` as where a quote
-- in the column ends these.
pub mod Numbering
pub mod Steps
pub mod Isolation
pub mod Alternatives
pub mod Writes
pub mod Placeholders
use pilots_hq.Prelude.{
  ℕ, zero, suc, ◌+◌, ◌-◌, String, Bool, true, false, not, has, ◌&&◌, ◌||◌, Option, none, some, List,
  [], ◌∷◌, ◌++◌, map, length, get_elem?, str_eq, if◌then◌else◌, foldl,
}

-- a test of a condition: `"column" = $n`, or another with the parameters that it names
pub data Atom : Type 0 where
  equals : String → ℕ → Atom
  other : String → List ℕ → Atom

abbrev pub Condition : Type 0
Condition = List (List Atom)

pub data Direction : Type 0 where
  asc desc : Direction

pub data QueryError : Type 0 where
  no_org no_user not_found : QueryError

pub data Answer (A : Type 0) : Type 0 where
  ok : A → Answer A
  error : QueryError → Answer A

pub record Query (V : Type 0) : Type 0 where
  pub table : String
  pub conditions : List Condition
  pub params : List V
  pub selected : List String
  pub limit_val : Option ℕ
  pub offset_val : Option ℕ
  pub order_by_col : Option String
  pub order_dir : Direction

-- what `build` writes, the conditions joined
pub record Statement (V : Type 0) : Type 0 where
  pub columns : List String
  pub from : String
  pub wanted : Condition
  pub order : Option (String × Direction)
  pub at_most : Option ℕ
  pub skipped : Option ℕ
  pub params : List V

-- the numbers of the parameters, raised
unfoldable pub renumber : ℕ → Atom → Atom
renumber offset (equals column n) = equals column (n + offset)
renumber offset (other text ns) = other text (map (λ n. n + offset) ns)

-- two conditions with `AND` between their texts
unfoldable pub and_then : Condition → Condition → Condition
and_then [] right = right
and_then (last ∷ []) [] = last ∷ []
and_then (last ∷ []) (first ∷ right) = (last ++ first) ∷ right
and_then (a ∷ b ∷ left) right = a ∷ and_then (b ∷ left) right

unfoldable pub join_and : List Condition → Condition
join_and [] = []
join_and (c ∷ cs) = and_then c (join_and cs)

-- A column without the character `"`.
unfoldable pub is_name : String → Bool
is_name column = not (has 34 column)

-- `"column" = $n`
unfoldable pub quoted : (String → ℕ → Condition) → String → ℕ → Condition
quoted read column n = if is_name column then (equals column n ∷ []) ∷ [] else read column n

module _ {V : Type 0} (read : String → ℕ → Condition) where
  -- `addCondition`
  unfoldable pub add_condition : String → V → Query V → Query V
  add_condition column value q =
      let params = q.params ++ value ∷ [] in
      record q {
        params = params;
        conditions = q.conditions ++ quoted read column (length params) ∷ [];
      }

  -- the constructor; `value_of` is the text as a value
  unfoldable pub secured : (String → V) → String → String → Answer (Query V)
  secured value_of table org_id =
      if str_eq org_id ""
      then error no_org
      else (let blank : Query V = record {
        table = table;
        conditions = [];
        params = [];
        selected = "*" ∷ [];
        limit_val = none;
        offset_val = none;
        order_by_col = none;
        order_dir = asc;
      } in
          ok (add_condition "org_id" (value_of org_id) blank))

  unfoldable pub where_equal : String → V → Query V → Query V
  where_equal column value q = add_condition column value q

  unfoldable pub where_many : List (String × V) → Query V → Query V
  where_many [] q = q
  where_many ((column, value) ∷ more) q = where_many more (add_condition column value q)

module _ {V : Type 0} where
  abbrev pub select : List String → Query V → Query V
  select columns q = record q { selected = columns }

  unfoldable pub where_raw : Condition → List V → Query V → Query V
  where_raw condition params q =
      let offset = length q.params in
      record q {
        params = q.params ++ params;
        conditions = q.conditions ++ map (map (renumber offset)) condition ∷ [];
      }

  abbrev pub order_by : String → Direction → Query V → Query V
  order_by column dir q = record q { order_by_col = some column; order_dir = dir }

  abbrev pub limit : ℕ → Query V → Query V
  limit n q = record q { limit_val = some n }

  abbrev pub offset : ℕ → Query V → Query V
  offset n q = record q { offset_val = some n }

  unfoldable pub build : Query V → Statement V
  build q = record {
    columns = q.selected;
    from = q.table;
    wanted = join_and q.conditions;
    order = elim q.order_by_col [
      | none ↦ none
      | some c ↦ if str_eq c "" then none else some (c, q.order_dir)
    ];
    at_most = q.limit_val;
    skipped = q.offset_val;
    params = q.params;
  }

  -- `execute`, `first` and `count` with what the database answers to a statement; `count` reads a
  -- number in the first row, and the builder has its columns back afterwards.
  unfoldable pub execute : {R : Type 0} → (Statement V → List R) → Query V → List R
  execute run q = run (build q)

  unfoldable pub first : {R : Type 0} → (Statement V → List R) → Query V → Query V × Option R
  first run q = let limited = limit 1 q in (limited, get_elem? (execute run limited) 0)

  unfoldable pub count :
      {R : Type 0} → (Statement V → List R) → (R → Option ℕ) → Query V → Query V × ℕ
  count run count_of q =
      let asked = select ("COUNT(*) as count" ∷ []) q in
      let n : ℕ = elim (get_elem? (execute run asked) 0) [
        | none ↦ 0
        | some r ↦ elim (count_of r) [ none ↦ 0 | some k ↦ k ]
      ] in
      (select q.selected asked, n)

-- Reading a row: what a condition says of it. `same` compares values, `holds` is the meaning of the
-- other tests.
pub record Meaning (V : Type 0) : Type 0 where
  pub same : V → V → Bool
  pub holds : String → List (Option V) → (String → V) → Bool

-- the value of `$n`
unfoldable pub param : {V : Type 0} → List V → ℕ → Option V
param vs zero = none
param vs (suc n) = get_elem? vs n

module _ {V : Type 0} (m : Meaning V) where
  unfoldable pub test : List V → (String → V) → Atom → Bool
  test vs row (equals column n) = elim (param vs n) [
    | none ↦ false
    | some v ↦ m.same (row column) v
  ]
  test vs row (other text ns) = m.holds text (map (param vs) ns) row

  unfoldable pub test_all : List V → (String → V) → List Atom → Bool
  test_all vs row [] = true
  test_all vs row (a ∷ as') = test vs row a && test_all vs row as'

  unfoldable pub test_any : List V → (String → V) → Condition → Bool
  test_any vs row [] = false
  test_any vs row (c ∷ cs) = test_all vs row c || test_any vs row cs

  -- whether a row meets the WHERE part of a query, of which LIMIT and OFFSET take some
  unfoldable pub selects : Query V → (String → V) → Bool
  selects q row = test_any q.params row (build q).wanted
