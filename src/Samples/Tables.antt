-- ===== src/Samples/Tables.antt =====
-- Queries, inserts and updates at small inputs (core/db).
use pilots_hq.Prelude.{
  ℕ, has, ◌≡◌, refl, String, true, ◌&&◌, none, some, List, [], ◌∷◌, str_eq, if◌then◌else◌,
}
use pilots_hq.Core.SecuredQuery.{
  equals, other, Condition, is_name, quoted, Query, ok, error, not_found, Meaning, secured,
  add_condition, asc, selects, param, test, test_all, where_raw,
}
use pilots_hq.Core.SecuredQuery.Numbering.{well_numbered, all_between, numbers}
use pilots_hq.Core.SecuredQuery.Steps.{Step, equal, raw, at_most, apply_all, are_numbered}
use pilots_hq.Core.SecuredQuery.Isolation.{steps_hold, selects-apply_all}
use pilots_hq.Core.SecuredQuery.Alternatives.{selects-alternatives}
use pilots_hq.Core.SecuredQuery.Writes.{Update, update, read_placeholder, find_value}
use pilots_hq.Core.SecuredQuery.Placeholders.{update_row_lem}

abbrev meaning : Meaning String
meaning = record { same = str_eq; holds = λ text vs row. true }

abbrev order_row : String → String
order_row column = if str_eq column "org_id" then "o1" else "new"

abbrev value_of : String → String
value_of s = s

abbrev steps : List (Step String)
steps =
    equal "status" "new"
    ∷ raw (equals "kind" 2 ∷ other "total > $1" (1 ∷ []) ∷ []) ("5" ∷ "new" ∷ [])
    ∷ at_most 3
    ∷ []

-- no column has a quote
abbrev no_quotes : String → ℕ → Condition
no_quotes column n = []

abbrev orders : Query String
unfolding add_condition quoted is_name has
orders = add_condition no_quotes "org_id" "o1" (record {
  table = "orders";
  conditions = [];
  params = [];
  selected = "*" ∷ [];
  limit_val = none;
  offset_val = none;
  order_by_col = none;
  order_dir = asc;
})

selects-apply_all_example :
    selects meaning (apply_all no_quotes steps orders) order_row
    ≡ (str_eq (order_row "org_id") "o1" && steps_hold no_quotes meaning order_row steps)
unfolding secured are_numbered well_numbered all_between numbers orders add_condition quoted is_name
    has
selects-apply_all_example =
    selects-apply_all no_quotes meaning order_row value_of "orders" "o1" orders steps refl refl

abbrev fields : List (String × String)
fields = ("org_id", "o2") ∷ ("status", "new") ∷ []

-- a database that finds no row of the id and the organisation
abbrev no_rows : Update String → List String
no_rows s = []

update_row_lem_example :
    (s : Update String) × (update value_of no_rows "orders" "o1" "u1" "7" "now" fields
      ≡ elim (no_rows s) [ [] ↦ error not_found | row ∷ more ↦ ok row ])
    × (read_placeholder "org_id" s.set_clauses s.params ≡ some "o2")
    × (param s.params s.id_param ≡ some "7")
    × (param s.params s.org_param ≡ some "o1")
unfolding find_value
update_row_lem_example =
    update_row_lem value_of no_rows "orders" "o1" "u1" "7" "now" fields "org_id" refl refl

-- a row of another organisation
abbrev other_row : String → String
other_row column = if str_eq column "org_id" then "o2" else "new"

selects-alternatives_example :
    selects meaning
      (where_raw
        ((equals "status" 1 ∷ []) ∷ (equals "kind" 2 ∷ []) ∷ [])
        ("done" ∷ "new" ∷ [])
        orders)
      other_row
    ≡ true
unfolding secured well_numbered all_between numbers test_all test param orders add_condition quoted
    is_name has
selects-alternatives_example =
    selects-alternatives no_quotes meaning other_row value_of "orders" "o1" orders
      (equals "status" 1 ∷ []) (equals "kind" 2 ∷ []) ("done" ∷ "new" ∷ []) refl refl refl
