-- ===== src/Core/Auth/Calls.antt =====
-- Calls of the manager one after another (core/auth/authentication-manager.ts).
use pilots_hq.Prelude.{
  ℕ, ◌≡◌, refl, ap, String, Bool, false, ◌||◌, Option, none, some, List, [], ◌∷◌, str_eq,
  Bool-cases, Option-cases, inl, inr, arith,
}
use pilots_hq.Core.Auth.Tables.{User, find_by_email, set_password, find_live}
use pilots_hq.Core.Auth.Password.{hash_password}
use pilots_hq.Core.Auth.{
  Auth, Request, Setup, hash_token, store_refresh_token, check_credentials, login, refresh, logout,
  change_password, request_password_reset, reset_password, record_failed_login,
}

-- A call of the manager, with what it is given.
pub data Call : Type 0 where
  log_in : ℕ → String → String → Request → String → Call
  renew : ℕ → String → Request → String → Call
  log_out : String → String → Call
  change : String → String → String → String → Call
  ask_reset : ℕ → String → String → Call
  reset : ℕ → String → String → String → Call

unfoldable pub id_of : Option User → Option String
id_of none = none
id_of (some u) = some u.id

-- whether a call is a login with the address of a user
unfoldable pub is_login_of : String → List User → Call → Bool
is_login_of id users (log_in now email password req fresh) =
    elim (id_of (find_by_email email users)) [ none ↦ false | some i ↦ str_eq i id ]
is_login_of id users _ = false

unfoldable pub has_login_of : String → List User → List Call → Bool
has_login_of id users [] = false
has_login_of id users (c ∷ cs) = is_login_of id users c || has_login_of id users cs

find_by_email-set_password :
    (email id hash : String) (us : List User)
    → id_of (find_by_email email (set_password id hash us)) ≡ id_of (find_by_email email us)
unfolding find_by_email set_password id_of
find_by_email-set_password email id hash [] = refl
find_by_email-set_password email id hash (u ∷ us) =
    let rest = find_by_email-set_password email id hash us in
    elim (Bool-cases (str_eq u.id id)) [
      | inl same ↦ elim (Bool-cases (str_eq u.email email)) [
        | inl here ↦ rw (same, here) refl
        | inr there ↦ rw (same, there) rest
      ]
      | inr other ↦ elim (Bool-cases (str_eq u.email email)) [
        | inl here ↦ rw (other, here) refl
        | inr there ↦ rw (other, there) rest
      ]
    ]

-- the same users, up to their passwords
unfoldable pub SameUsers : List User → List User → Type 0
SameUsers us vs = (email : String) → id_of (find_by_email email us) ≡ id_of (find_by_email email vs)

is_login_of-SameUsers :
    (id : String) (us vs : List User) (c : Call)
    → SameUsers us vs
    → is_login_of id us c ≡ is_login_of id vs c
unfolding is_login_of SameUsers
is_login_of-SameUsers id us vs (log_in now email password req fresh) same =
    ap (λ o. elim o [ none ↦ false | some i ↦ str_eq i id ]) (same email)
is_login_of-SameUsers id us vs (renew now token req fresh) same = refl
is_login_of-SameUsers id us vs (log_out token user) same = refl
is_login_of-SameUsers id us vs (change salt user old new) same = refl
is_login_of-SameUsers id us vs (ask_reset now email fresh) same = refl
is_login_of-SameUsers id us vs (reset now salt token new) same = refl

pub has_login_of-SameUsers :
    (id : String) (us vs : List User) (cs : List Call)
    → SameUsers us vs
    → has_login_of id us cs ≡ has_login_of id vs cs
unfolding has_login_of
has_login_of-SameUsers id us vs [] same = refl
has_login_of-SameUsers id us vs (c ∷ cs) same =
    rw (is_login_of-SameUsers id us vs c same, has_login_of-SameUsers id us vs cs same) refl

module _ (setup : Setup) where
  unfoldable pub call : Call → Auth → Auth
  call (log_in now email password req fresh) st = (login setup now email password req fresh st).0
  call (renew now token req fresh) st = (refresh setup now token req fresh st).0
  call (log_out token user) st = logout setup token user st
  call (change salt user old new) st = (change_password setup salt user old new st).0
  call (ask_reset now email fresh) st = request_password_reset setup now email fresh st
  call (reset now salt token new) st = (reset_password setup now salt token new st).0

  unfoldable pub call_all : List Call → Auth → Auth
  call_all [] st = st
  call_all (c ∷ cs) st = call_all cs (call c st)

  pub call-SameUsers : (c : Call) (st : Auth) → SameUsers (call c st).users st.users
  unfolding call SameUsers login check_credentials record_failed_login store_refresh_token refresh
      logout change_password request_password_reset reset_password
  call-SameUsers (log_in now email password req fresh) st e = ground arith
  call-SameUsers (renew now token req fresh) st e = ground arith
  call-SameUsers (log_out token user) st e = refl
  call-SameUsers (change salt user old new) st e =
      ground
        (arith, find_by_email-set_password e user (hash_password setup.pbkdf2 salt new) st.users)
  call-SameUsers (ask_reset now email fresh) st e = ground arith
  call-SameUsers (reset now salt token new) st e =
      elim (Option-cases (find_live (hash_token setup token) now st.reset_tokens)) [
        | inl missing ↦ rw (call, reset_password, missing) refl
        | inr (owner, live) ↦
            rw (call, reset_password, live)
              (find_by_email-set_password e owner (hash_password setup.pbkdf2 salt new) st.users)
      ]
