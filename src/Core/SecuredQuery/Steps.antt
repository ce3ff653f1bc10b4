-- ===== src/Core/SecuredQuery/Steps.antt =====
-- The calls of a builder one after another (core/db/query-builder-secured.ts).
use pilots_hq.Prelude.{ℕ, ◌≡◌, String, Bool, true, ◌&&◌, List, [], ◌∷◌, ◌++◌, length}
use pilots_hq.Core.SecuredQuery.{
  Atom, Condition, Direction, Query, select, where_equal, where_many, where_raw, order_by, limit,
  offset, is_name,
}
use pilots_hq.Core.SecuredQuery.Numbering.{well_numbered, all_plain, flat}

-- A call of the builder after its constructor; a raw condition here has no `OR`. The limit and the
-- offset take a part of the rows that meet the condition.
pub data Step (V : Type 0) : Type 0 where
  columns : List String → Step V
  equal : String → V → Step V
  many : List (String × V) → Step V
  raw : List Atom → List V → Step V
  order : String → Direction → Step V
  at_most skipping : ℕ → Step V

-- what is kept of a builder: its parameters, and its conditions, which are plain and name these
pub record IsScoped {V : Type 0} (q : Query V) : Type 0 where
  pub head : List Atom
  pub rest : List Condition
  pub is_built : q.conditions ≡ (head ∷ []) ∷ rest
  pub plain : all_plain rest ≡ true
  pub numbered : well_numbered (length q.params) (head ++ flat rest) ≡ true

module _ {V : Type 0} (read : String → ℕ → Condition) where
  unfoldable pub apply : Step V → Query V → Query V
  apply (columns cs) q = select cs q
  apply (equal column value) q = where_equal read column value q
  apply (many conditions) q = where_many read conditions q
  apply (raw atoms params) q = where_raw (atoms ∷ []) params q
  apply (order column dir) q = order_by column dir q
  apply (at_most n) q = limit n q
  apply (skipping n) q = offset n q

  unfoldable pub apply_all : List (Step V) → Query V → Query V
  apply_all [] q = q
  apply_all (s ∷ ss) q = apply_all ss (apply s q)

module _ {V : Type 0} where
  unfoldable pub all_names : List (String × V) → Bool
  all_names [] = true
  all_names ((column, v) ∷ more) = is_name column && all_names more

  -- The numbers of a raw condition are those of its parameters, and columns are names.
  unfoldable pub are_numbered : List (Step V) → Bool
  are_numbered [] = true
  are_numbered (equal column v ∷ ss) = is_name column && are_numbered ss
  are_numbered (many conditions ∷ ss) = all_names conditions && are_numbered ss
  are_numbered (raw atoms params ∷ ss) = well_numbered (length params) atoms && are_numbered ss
  are_numbered (s ∷ ss) = are_numbered ss
