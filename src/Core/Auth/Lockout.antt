-- ===== src/Core/Auth/Lockout.antt =====
-- Five wrong passwords lock an account (core/auth/authentication-manager.ts).
use pilots_hq.Prelude.{
  ℕ, ◌+◌, ◌<◌, ◌≤◌, ◌≡◌, refl, ap, ◌∙◌, String, true, none, some, List, [], ◌∷◌, length, eq_iff,
  Bool-cases, Option-cases, inl, inr, arith,
}
use pilots_hq.Core.Auth.Tables.{find_by_email}
use pilots_hq.Core.Auth.Password.{verify_password}
use pilots_hq.Core.Auth.{
  Reason, no_such_user, wrong_password, Auth, Request, account_locked, invalid_credentials, Tokens,
  Outcome, thrown, Setup, fifteen_minutes, is_locked, check_brute_force, one_more_failure,
  record_failed_login, check_credentials, login,
}

-- The failures that are counted for an address.
unfoldable pub failures_of : String → Auth → ℕ
failures_of email st = elim (st.failures email) [ none ↦ 0 | some f ↦ f.count ]

-- A call of `login` for one address.
pub record Try : Type 0 where
  pub now : ℕ
  pub password : String
  pub req : Request
  pub fresh : String

module _ (setup : Setup) (email : String) where
  abbrev try_login : Try → Auth → Auth × Outcome Tokens
  try_login t st = login setup t.now email t.password t.req t.fresh st

  -- one call after another, each of which fails on the credentials
  unfoldable pub AllWrong : List Try → Auth → Type 0
  AllWrong [] st = Unit
  AllWrong (t ∷ ts) st =
      ((try_login t st).1 ≡ thrown invalid_credentials) × AllWrong ts (try_login t st).0

  -- the state after the calls
  unfoldable pub after : List Try → Auth → Auth
  after [] st = st
  after (t ∷ ts) st = after ts (try_login t st).0

  credentials_not_checked :
      (now : ℕ) (st : Auth) → ¬ (check_brute_force now email st ≡ some invalid_credentials)
  unfolding check_brute_force
  credentials_not_checked now st e = ground arith

  -- A login that fails on the credentials is recorded.
  login-recorded :
      (t : Try) (st : Auth)
      → (try_login t st).1 ≡ thrown invalid_credentials
      → (why : Reason) × ((try_login t st).0 ≡ record_failed_login t.now email t.req.ip why st)
  unfolding login check_credentials
  login-recorded t st e = elim (Option-cases (check_brute_force t.now email st)) [
    | inr (x, refused) ↦ absurd (ground (arith, refused, credentials_not_checked t.now st))
    | inl fine ↦ elim (Option-cases (find_by_email email st.users)) [
      | inl missing ↦ (no_such_user, rw (login, fine) (rw (check_credentials, missing) refl))
      | inr (user, there) ↦
          elim (Bool-cases (verify_password setup.pbkdf2 t.password user.password_hash)) [
            | inl right ↦ absurd (ground (arith, fine, there, right))
            | inr wrong ↦
                (wrong_password, rw (login, fine) (rw (check_credentials, there, wrong) refl))
          ]
    ]
  ]

  failures_of-recorded :
      (now : ℕ) (ip : String) (why : Reason) (st : Auth)
      → failures_of email (record_failed_login now email ip why st) ≡ failures_of email st + 1
  unfolding failures_of record_failed_login one_more_failure
  failures_of-recorded now ip why st = elim (Option-cases (st.failures email)) [
    | inl e ↦ ground (arith, e, eq_iff email email)
    | inr (f, e) ↦ ground (arith, e, eq_iff email email)
  ]

  locked_lem :
      (now later : ℕ) (ip : String) (why : Reason) (st : Auth)
      → 4 ≤ failures_of email st
      → later < now + fifteen_minutes
      → is_locked later ((record_failed_login now email ip why st).failures email) ≡ true
  unfolding failures_of record_failed_login one_more_failure is_locked
  locked_lem now later ip why st enough soon = elim (Option-cases (st.failures email)) [
    | inl e ↦ absurd (ground (arith, e))
    | inr (f, e) ↦ ground (arith, e, eq_iff email email)
  ]

  failures_of-after :
      (ts : List Try) (st : Auth)
      → AllWrong ts st
      → failures_of email (after ts st) ≡ failures_of email st + length ts
  unfolding AllWrong after
  failures_of-after [] st w = omega arith
  failures_of-after (t ∷ ts) st (wrong, ws) =
      let (why, recorded) = login-recorded t st wrong in
      let one = ap (failures_of email) recorded ∙ failures_of-recorded t.now t.req.ip why st in
      omega (arith, failures_of-after ts (try_login t st).0 ws, one)

  login-locked :
      (t : Try) (st : Auth)
      → is_locked t.now (st.failures email) ≡ true
      → try_login t st ≡ (st, thrown account_locked)
  unfolding login check_brute_force
  login-locked t st e = rw (login, check_brute_force, e) refl

  -- When at least four logins for an address have failed on the credentials, one after another, and
  -- one more does, then every login for it in the next fifteen minutes is refused and changes
  -- nothing, also one with the right password.
  pub login_lockout :
      (ts : List Try) (last next : Try) (st : Auth)
      → AllWrong ts st
      → 4 ≤ length ts
      → (try_login last (after ts st)).1 ≡ thrown invalid_credentials
      → next.now < last.now + fifteen_minutes
      → try_login next (try_login last (after ts st)).0
        ≡ ((try_login last (after ts st)).0, thrown account_locked)
  login_lockout ts last next st ws four wrong soon =
      let before = after ts st in
      let (why, recorded) = login-recorded last before wrong in
      let enough = failures_of-after ts st ws in
      let locked =
        locked_lem last.now next.now last.req.ip why before (omega (arith, enough)) soon in
      login-locked next (try_login last before).0 (rw recorded locked)
