-- ===== src/Core/SecuredQuery/Placeholders.antt =====
-- What the placeholders of `insert` and `update` stand for (core/db/query-builder-secured.ts).
use pilots_hq.Prelude.{
  suc, ◌+◌, ◌≡◌, refl, sym, ap, ◌∙◌, String, false, Option, some, List, [], ◌∷◌, ◌++◌, length,
  get_elem?, str_eq, eq_iff, if◌then◌else◌, arith, length-append, append_assoc, append-nil,
}
use pilots_hq.Core.SecuredQuery.{ok, error, not_found, param}
use pilots_hq.Core.SecuredQuery.Numbering.{get_elem?-right}
use pilots_hq.Core.SecuredQuery.Writes.{
  assign, find_value, placeholders, values, read_placeholder, Insert, Update, insert_row,
  update_row, updated_row, update,
}

module _ {V : Type 0} where
  find_value-assign :
      (k j : String) (v : V) (l : List (String × V))
      → find_value k (assign j v l) ≡ (if str_eq j k then some v else find_value k l)
  unfolding find_value assign
  find_value-assign k j v [] = refl
  find_value-assign k j v ((i, w) ∷ more) =
      ground (arith, find_value-assign k j v more, eq_iff i j, eq_iff i k, eq_iff j k)

  get_elem?-middle :
      (pre : List V) (v : V) (post : List V) → get_elem? (pre ++ v ∷ post) (length pre) ≡ some v
  get_elem?-middle [] v post = refl
  get_elem?-middle (w ∷ pre) v post = get_elem?-middle pre v post

  read_placeholder-placeholders :
      (k : String) (pre : List V) (row : List (String × V)) (post : List V)
      → read_placeholder k (placeholders (suc (length pre)) row) (pre ++ (values row ++ post))
        ≡ find_value k row
  unfolding read_placeholder placeholders values find_value param
  read_placeholder-placeholders k pre [] post = refl
  read_placeholder-placeholders k pre ((j, v) ∷ more) post =
      let n : length (pre ++ v ∷ []) ≡ suc (length pre) =
        length-append pre (v ∷ []) ∙ omega arith in
      let all : (pre ++ v ∷ []) ++ (values more ++ post) ≡ pre ++ (v ∷ (values more ++ post)) =
        append_assoc pre (v ∷ []) (values more ++ post) in
      let rest : read_placeholder k (placeholders (suc (suc (length pre))) more)
            (pre ++ (v ∷ (values more ++ post)))
          ≡ find_value k more =
        sym (
          ap
            (λ m.
              read_placeholder k (placeholders (suc m) more) (pre ++ (v ∷ (values more ++ post))))
            n)
        ∙ sym (ap (read_placeholder k (placeholders (suc (length (pre ++ v ∷ []))) more)) all)
        ∙ read_placeholder-placeholders k (pre ++ v ∷ []) more post in
      rw (get_elem?-middle pre v (values more ++ post), rest) refl

updated_row-cases :
    {R : Type 0} (rows : List R)
    → updated_row rows ≡ elim rows [ [] ↦ error not_found | row ∷ more ↦ ok row ]
unfolding updated_row
updated_row-cases [] = refl
updated_row-cases (r ∷ rs) = refl

module _ {V : Type 0} (value_of : String → V) where
  -- What an insert writes in a column: the time, the user and the organisation in theirs, and in any
  -- other what the caller gave.
  abbrev pub inserted : String → String → V → List (String × V) → String → Option V
  inserted org_id user_id now fields k =
      if str_eq "created_at" k
      then some now
      else if str_eq "created_by" k
      then some (value_of user_id)
      else if str_eq "org_id" k
      then some (value_of org_id)
      else find_value k fields

  -- An insert for an organisation and a user succeeds, and in each column the placeholder stands for
  -- the value that belongs there: whatever the caller gives for `org_id`, the row is one of the
  -- organisation.
  pub insert_row_lem :
      (table org_id user_id : String) (now : V) (fields : List (String × V)) (k : String)
      → str_eq org_id "" ≡ false
      → str_eq user_id "" ≡ false
      → (s : Insert V) × (insert_row value_of table org_id user_id now fields ≡ ok s)
        × (read_placeholder k s.columns s.params ≡ inserted org_id user_id now fields k)
  unfolding insert_row
  insert_row_lem table org_id user_id now fields k org user =
      let with_org = assign "org_id" (value_of org_id) fields in
      let with_user = assign "created_by" (value_of user_id) with_org in
      let row = assign "created_at" now with_user in
      (
        record { into = table; columns = placeholders 1 row; params = values row },
        rw (org, user) refl,
        ap (read_placeholder k (placeholders 1 row)) (sym (append-nil (values row)))
            ∙ read_placeholder-placeholders k [] row []
            ∙ find_value-assign k "created_at" now with_user
            ∙ rw
                (
                  find_value-assign k "created_by" (value_of user_id) with_org,
                  find_value-assign k "org_id" (value_of org_id) fields,
                )
                refl,
      )

  -- What an update writes in a column, if anything.
  abbrev pub updated : String → V → List (String × V) → String → Option V
  updated user_id now fields k =
      if str_eq "updated_at" k
      then some now
      else if str_eq "updated_by" k
      then some (value_of user_id)
      else find_value k fields

  update-ok :
      {R : Type 0} (run : Update V → List R) (table org_id user_id id : String) (now : V)
      (fields : List (String × V)) (s : Update V)
      → update_row value_of table org_id user_id id now fields ≡ ok s
      → update value_of run table org_id user_id id now fields
        ≡ elim (run s) [ [] ↦ error not_found | row ∷ more ↦ ok row ]
  unfolding update
  update-ok run table org_id user_id id now fields s e = rw (update, e) (updated_row-cases (run s))

  -- An update for an organisation and a user sends one statement and answers the first row that it
  -- returns, or the error `not_found` where it returns none. The placeholders of its columns stand
  -- for the time, the user and what the caller gave, `org_id` included, and those of its condition
  -- for the id and the organisation.
  pub update_row_lem :
      {R : Type 0} (run : Update V → List R) (table org_id user_id id : String) (now : V)
      (fields : List (String × V)) (k : String)
      → str_eq org_id "" ≡ false
      → str_eq user_id "" ≡ false
      → (s : Update V) × (update value_of run table org_id user_id id now fields
          ≡ elim (run s) [ [] ↦ error not_found | row ∷ more ↦ ok row ])
        × (read_placeholder k s.set_clauses s.params ≡ updated user_id now fields k)
        × (param s.params s.id_param ≡ some (value_of id))
        × (param s.params s.org_param ≡ some (value_of org_id))
  unfolding update_row param
  update_row_lem run table org_id user_id id now fields k org user =
      let with_user = assign "updated_by" (value_of user_id) fields in
      let row = assign "updated_at" now with_user in
      let vs = values row in
      let last = value_of id ∷ value_of org_id ∷ [] in
      (
        record {
          table = table;
          set_clauses = placeholders 1 row;
          id_param = length vs + 1;
          org_param = length vs + 2;
          params = vs ++ last;
        },
        update-ok run table org_id user_id id now fields _ (rw (org, user) refl),
        read_placeholder-placeholders k [] row last
            ∙ find_value-assign k "updated_at" now with_user
            ∙ rw (find_value-assign k "updated_by" (value_of user_id) fields) refl,
        rw (let e : length vs + 1 ≡ suc (0 + length vs) = omega arith in e)
            (get_elem?-right vs last 0),
        rw (let e : length vs + 2 ≡ suc (1 + length vs) = omega arith in e)
            (get_elem?-right vs last 1),
      )
