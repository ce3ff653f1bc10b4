-- ===== src/Core/SecuredQuery/Writes.antt =====
-- core/db/query-builder-secured.ts: `insert`, `update` and `delete`. A record is the list of its
-- columns with their values, as `Object.keys` and `Object.values` give them; a table is a list of
-- rows, each a function of the column.
use pilots_hq.Prelude.{
  ℕ, suc, ◌+◌, String, Bool, ◌&&◌, Option, none, some, List, [], ◌∷◌, ◌++◌, length, str_eq,
  if◌then◌else◌,
}
use pilots_hq.Core.SecuredQuery.{Answer, ok, error, no_org, no_user, not_found, param}

module _ {V : Type 0} where
  -- a property that is set in an object: in place where it is there, else at the end
  unfoldable pub assign : String → V → List (String × V) → List (String × V)
  assign k v [] = (k, v) ∷ []
  assign k v ((j, w) ∷ more) =
      let rest = assign k v more in if str_eq j k then (j, v) ∷ more else (j, w) ∷ rest

  unfoldable pub find_value : String → List (String × V) → Option V
  find_value k [] = none
  find_value k ((j, w) ∷ more) = let rest = find_value k more in if str_eq j k then some w else rest

  -- each column with the number of its placeholder
  unfoldable pub placeholders : ℕ → List (String × V) → List (String × ℕ)
  placeholders n [] = []
  placeholders n ((k, v) ∷ more) = (k, n) ∷ placeholders (suc n) more

  unfoldable pub values : List (String × V) → List V
  values [] = []
  values ((k, v) ∷ more) = v ∷ values more

  -- what the database reads for a column of a statement
  unfoldable pub read_placeholder : String → List (String × ℕ) → List V → Option V
  read_placeholder k [] vs = none
  read_placeholder k ((j, n) ∷ more) vs =
      let rest = read_placeholder k more vs in if str_eq j k then param vs n else rest

-- `insert` and `update` as statements: the columns with their placeholders, the values, and for an
-- update the numbers of the id and of the organisation.
pub record Insert (V : Type 0) : Type 0 where
  pub into : String
  pub columns : List (String × ℕ)
  pub params : List V

pub record Update (V : Type 0) : Type 0 where
  pub table : String
  pub set_clauses : List (String × ℕ)
  pub id_param : ℕ
  pub org_param : ℕ
  pub params : List V

module _ {V : Type 0} (value_of : String → V) where
  -- `now` is the value of `new Date()`
  unfoldable pub insert_row : String → String → String → V → List (String × V) → Answer (Insert V)
  insert_row table org_id user_id now fields =
      if str_eq org_id ""
      then error no_org
      else if str_eq user_id ""
      then error no_user
      else (let row : List (String × V) =
            assign "created_at" now
              (assign "created_by" (value_of user_id) (assign "org_id" (value_of org_id) fields)) in
          ok (record { into = table; columns = placeholders 1 row; params = values row }))

  unfoldable pub update_row :
      String → String → String → String → V → List (String × V) → Answer (Update V)
  update_row table org_id user_id id now fields =
      if str_eq org_id ""
      then error no_org
      else if str_eq user_id ""
      then error no_user
      else (let row : List (String × V) =
            assign "updated_at" now (assign "updated_by" (value_of user_id) fields) in
          let vs = values row in
          ok (record {
            table = table;
            set_clauses = placeholders 1 row;
            id_param = length vs + 1;
            org_param = length vs + 2;
            params = vs ++ value_of id ∷ value_of org_id ∷ [];
          }))

  -- `delete` on the rows of the table, with how values compare
  unfoldable pub delete_row :
      (V → V → Bool) → String → String → List (String → V) → Answer (List (String → V))
  delete_row same org_id id rows = if str_eq org_id "" then error no_org else ok (kept rows)
    where
      kept : List (String → V) → List (String → V)
      kept [] = []
      kept (r ∷ rs) =
          if same (r "id") (value_of id) && same (r "org_id") (value_of org_id)
          then kept rs
          else r ∷ kept rs

-- What `update` answers for the rows that the statement returns.
unfoldable pub updated_row : {R : Type 0} → List R → Answer R
updated_row [] = error not_found
updated_row (r ∷ rs) = ok r

-- `update`: `run` is what the database returns for a statement
unfoldable pub update :
    {V R : Type 0}
    → (String → V)
    → (Update V → List R)
    → String
    → String
    → String
    → String
    → V
    → List (String × V)
    → Answer R
update value_of run table org_id user_id id now fields =
    elim (update_row value_of table org_id user_id id now fields) [
      | error e ↦ error e
      | ok s ↦ updated_row (run s)
    ]
