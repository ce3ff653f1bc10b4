-- ===== src/Core/SecuredQuery/Alternatives.antt =====
-- A raw condition with `OR` (core/db/query-builder-secured.ts).
use mathlib.Core.Bool.{or-true}
use pilots_hq.Prelude.{ℕ, has, ◌≡◌, sym, subst, ◌∙◌, String, true, List, [], ◌∷◌, length}
use pilots_hq.Core.SecuredQuery.{
  Condition, is_name, quoted, Atom, Query, ok, and_then, join_and, add_condition, secured,
  where_raw, build, Meaning, test_all, test_any, selects,
}
use pilots_hq.Core.SecuredQuery.Numbering.{well_numbered, test_all-renumber}
use pilots_hq.Core.SecuredQuery.Isolation.{blank, ok-inj, secured-some, secured-is_set}

module _ {V : Type 0} (read : String → ℕ → Condition) (m : Meaning V) (row : String → V) where
  start_alternatives :
      (left right : List Atom) (params : List V) (v : V) (table : String)
      → well_numbered (length params) right ≡ true
      → test_all m params row right ≡ true
      → selects m
          (where_raw (left ∷ right ∷ []) params (add_condition read "org_id" v (blank table)))
          row
        ≡ true
  unfolding selects where_raw add_condition quoted is_name has build join_and and_then test_any
  start_alternatives left right params v table b holds =
      rw (test_all-renumber m row (v ∷ []) params (length params) right b, holds) (or-true _)

  -- A raw condition with one `OR`, added to a new query, selects every row that meets what stands
  -- after the `OR`, of whichever organisation it is.
  pub selects-alternatives :
      (value_of : String → V) (table org_id : String) (q : Query V) (left right : List Atom)
      (params : List V)
      → secured read value_of table org_id ≡ ok q
      → well_numbered (length params) right ≡ true
      → test_all m params row right ≡ true
      → selects m (where_raw (left ∷ right ∷ []) params q) row ≡ true
  selects-alternatives value_of table org_id q left right params e b holds =
      let there = secured-is_set read value_of table org_id q e in
      let same =
        ok-inj (add_condition read "org_id" (value_of org_id) (blank table)) q
          (sym (secured-some read value_of table org_id there) ∙ e) in
      subst (λ q. selects m (where_raw (left ∷ right ∷ []) params q) row ≡ true) same
        (start_alternatives left right params (value_of org_id) table b holds)
