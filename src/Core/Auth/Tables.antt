-- ===== src/Core/Auth/Tables.antt =====
-- The rows that core/auth/authentication-manager.ts reads and writes with SQL.
use pilots_hq.Prelude.{
  ℕ, ◌≡◌, refl, String, Bool, true, false, ◌&&◌, ◌||◌, Option, none, some, List, [], ◌∷◌, str_eq,
  eq_iff, ltb, if◌then◌else◌, arith,
}

pub record User : Type 0 where
  pub id : String
  pub org_id : String
  pub email : String
  pub password_hash : String

-- a row of `refresh_tokens` or `password_reset_tokens`
pub record TokenRow : Type 0 where
  pub user_id : String
  pub token_hash : String
  pub expires_at : ℕ

unfoldable pub find_by_email : String → List User → Option User
find_by_email email [] = none
find_by_email email (u ∷ us) =
    let rest = find_by_email email us in if str_eq u.email email then some u else rest

unfoldable pub find_by_id : String → List User → Option User
find_by_id id [] = none
find_by_id id (u ∷ us) = let rest = find_by_id id us in if str_eq u.id id then some u else rest

unfoldable pub set_password : String → String → List User → List User
set_password id hash [] = []
set_password id hash (u ∷ us) =
    (if str_eq u.id id then record u { password_hash = hash } else u) ∷ set_password id hash us

-- the user of the token with a hash, if it has not expired
unfoldable pub find_live : String → ℕ → List TokenRow → Option String
find_live hash now [] = none
find_live hash now (r ∷ rs) =
    let rest = find_live hash now rs in
    if str_eq r.token_hash hash && ltb now r.expires_at then some r.user_id else rest

-- `INSERT ... ON CONFLICT (user_id) DO UPDATE`
unfoldable pub upsert : String → String → ℕ → List TokenRow → List TokenRow
upsert user hash until [] = record { user_id = user; token_hash = hash; expires_at = until } ∷ []
upsert user hash until (r ∷ rs) =
    let rest = upsert user hash until rs in
    if str_eq r.user_id user
    then record r { token_hash = hash; expires_at = until } ∷ rs
    else r ∷ rest

unfoldable pub delete_of_user : String → List TokenRow → List TokenRow
delete_of_user user [] = []
delete_of_user user (r ∷ rs) =
    let rest = delete_of_user user rs in if str_eq r.user_id user then rest else r ∷ rest

unfoldable pub delete_hash : String → List TokenRow → List TokenRow
delete_hash hash [] = []
delete_hash hash (r ∷ rs) =
    let rest = delete_hash hash rs in if str_eq r.token_hash hash then rest else r ∷ rest

-- whether a user has a row
unfoldable pub has_row : String → List TokenRow → Bool
has_row user [] = false
has_row user (r ∷ rs) = str_eq r.user_id user || has_row user rs

pub has_row-delete_of_user :
    (u : String) (rows : List TokenRow) → has_row u (delete_of_user u rows) ≡ false
unfolding has_row delete_of_user
has_row-delete_of_user u [] = refl
has_row-delete_of_user u (r ∷ rs) = ground (arith, has_row-delete_of_user u rs)

pub has_row-delete_other :
    (u v : String) (rows : List TokenRow)
    → has_row u rows ≡ false
    → has_row u (delete_of_user v rows) ≡ false
unfolding has_row delete_of_user
has_row-delete_other u v [] e = refl
has_row-delete_other u v (r ∷ rs) e =
    ground (arith, has_row-delete_other u v rs (ground (arith, e)))

pub has_row-delete_hash :
    (u h : String) (rows : List TokenRow)
    → has_row u rows ≡ false
    → has_row u (delete_hash h rows) ≡ false
unfolding has_row delete_hash
has_row-delete_hash u h [] e = refl
has_row-delete_hash u h (r ∷ rs) e = ground (arith, has_row-delete_hash u h rs (ground (arith, e)))

pub has_row-upsert :
    (u v h : String) (t : ℕ) (rows : List TokenRow)
    → str_eq v u ≡ false
    → has_row u rows ≡ false
    → has_row u (upsert v h t rows) ≡ false
unfolding has_row upsert
has_row-upsert u v h t [] other e = ground (arith, other)
has_row-upsert u v h t (r ∷ rs) other e =
    ground (arith, other, has_row-upsert u v h t rs other (ground (arith, e)))

pub has_row-find_live :
    (u h : String) (now : ℕ) (rows : List TokenRow)
    → find_live h now rows ≡ some u
    → has_row u rows ≡ true
unfolding has_row find_live
has_row-find_live u h now (r ∷ rs) e =
    ground (arith, has_row-find_live u h now rs, eq_iff r.user_id u)
has_row-find_live u h now [] e = absurd (cc e)

pub find_live-delete_hash :
    (h : String) (now : ℕ) (rows : List TokenRow) → find_live h now (delete_hash h rows) ≡ none
unfolding find_live delete_hash
find_live-delete_hash h now [] = refl
find_live-delete_hash h now (r ∷ rs) = ground (arith, find_live-delete_hash h now rs)

pub find_by_id-id :
    (id : String) (us : List User) (u : User) → find_by_id id us ≡ some u → u.id ≡ id
unfolding find_by_id
find_by_id-id id [] u e = absurd (cc e)
find_by_id-id id (v ∷ us) u e = ground (arith, find_by_id-id id us u, eq_iff v.id id)
