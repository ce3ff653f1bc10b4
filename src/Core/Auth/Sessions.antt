-- ===== src/Core/Auth/Sessions.antt =====
-- Which refresh tokens work, and until when (core/auth/authentication-manager.ts).
use pilots_hq.Prelude.{
  ℕ, ◌+◌, ◌≡◌, ◌≢◌, sym, ◌∙◌, String, false, some, List, [], ◌∷◌, str_eq, eq_iff, Bool-cases,
  Option-cases, inl, inr, arith, subst,
}
use pilots_hq.Core.Auth.Tables.{
  find_by_email, find_by_id, find_live, delete_of_user, has_row, has_row-delete_of_user,
  has_row-delete_other, has_row-delete_hash, has_row-upsert, has_row-find_live, find_by_id-id,
}
use pilots_hq.Core.Auth.Password.{verify_password}
use pilots_hq.Core.Auth.{
  Auth, Request, done, Setup, seven_days, check_brute_force, hash_token, store_refresh_token,
  check_credentials, login, refresh, logout, change_password, request_password_reset,
  reset_password, record_failed_login,
}
use pilots_hq.Core.Auth.Calls.{
  Call, log_in, renew, log_out, change, ask_reset, reset, id_of, is_login_of, has_login_of, call,
  call_all, has_login_of-SameUsers, call-SameUsers,
}

module _ (setup : Setup) where
  login_lem :
      (id : String) (now : ℕ) (email password : String) (req : Request) (fresh : String) (st : Auth)
      → is_login_of id st.users (log_in now email password req fresh) ≡ false
      → has_row id st.refresh_tokens ≡ false
      → has_row id (login setup now email password req fresh st).0.refresh_tokens ≡ false
  unfolding login check_credentials record_failed_login store_refresh_token is_login_of id_of
  login_lem id now email password req fresh st other e =
      elim (Option-cases (check_brute_force now email st)) [
        | inr (x, refused) ↦ rw (login, refused) e
        | inl fine ↦ elim (Option-cases (find_by_email email st.users)) [
          | inl missing ↦ rw (login, fine) (rw (check_credentials, missing) e)
          | inr (user, there) ↦
              let apart : str_eq user.id id ≡ false = ground (arith, other, there) in
              elim (Bool-cases (verify_password setup.pbkdf2 password user.password_hash)) [
                | inl right ↦
                    rw (login, fine)
                      (rw (check_credentials, there, right)
                        (has_row-upsert id user.id (hash_token setup fresh) (now + seven_days)
                          st.refresh_tokens apart e))
                | inr wrong ↦ rw (login, fine) (rw (check_credentials, there, wrong) e)
              ]
        ]
      ]

  refresh_lem :
      (id : String) (now : ℕ) (token : String) (req : Request) (fresh : String) (st : Auth)
      → has_row id st.refresh_tokens ≡ false
      → has_row id (refresh setup now token req fresh st).0.refresh_tokens ≡ false
  unfolding refresh store_refresh_token
  refresh_lem id now token req fresh st e =
      elim (Option-cases (find_live (hash_token setup token) now st.refresh_tokens)) [
        | inl missing ↦ rw (refresh, missing) e
        | inr (owner, live) ↦ elim (Option-cases (find_by_id owner st.users)) [
          | inl missing ↦ rw (refresh, live) (rw missing e)
          | inr (user, there) ↦
              let same = find_by_id-id owner st.users user there in
              let has =
                has_row-find_live owner (hash_token setup token) now st.refresh_tokens live in
              let apart : str_eq user.id id ≡ false =
                ground (arith, eq_iff user.id id, same, has, e) in
              rw (refresh, live)
                (rw there (
                  has_row-delete_hash id (hash_token setup token) _ (
                    has_row-upsert id user.id (hash_token setup fresh) (now + seven_days)
                      st.refresh_tokens apart e)))
        ]
      ]

  change_lem :
      (id salt user old new : String) (st : Auth)
      → has_row id st.refresh_tokens ≡ false
      → has_row id (change_password setup salt user old new st).0.refresh_tokens ≡ false
  unfolding change_password
  change_lem id salt user old new st e = elim (Option-cases (find_by_id user st.users)) [
    | inl missing ↦ rw (change_password, missing) e
    | inr (u, there) ↦ elim (Bool-cases (verify_password setup.pbkdf2 old u.password_hash)) [
      | inl right ↦
          rw (change_password, there) (rw right (has_row-delete_other id user st.refresh_tokens e))
      | inr wrong ↦ rw (change_password, there) (rw wrong e)
    ]
  ]

  request_lem :
      (id : String) (now : ℕ) (email fresh : String) (st : Auth)
      → has_row id st.refresh_tokens ≡ false
      → has_row id (request_password_reset setup now email fresh st).refresh_tokens ≡ false
  unfolding request_password_reset
  request_lem id now email fresh st e = elim (Option-cases (find_by_email email st.users)) [
    | inl missing ↦ rw (request_password_reset, missing) e
    | inr (u, there) ↦ rw (request_password_reset, there) e
  ]

  reset_lem :
      (id : String) (now : ℕ) (salt token new : String) (st : Auth)
      → has_row id st.refresh_tokens ≡ false
      → has_row id (reset_password setup now salt token new st).0.refresh_tokens ≡ false
  unfolding reset_password
  reset_lem id now salt token new st e =
      elim (Option-cases (find_live (hash_token setup token) now st.reset_tokens)) [
        | inl missing ↦ rw (reset_password, missing) e
        | inr (owner, live) ↦
            rw (reset_password, live) (has_row-delete_other id owner st.refresh_tokens e)
      ]

  -- A user without a row gets none by a call that is no login of theirs.
  call-has_row :
      (id : String) (c : Call) (st : Auth)
      → is_login_of id st.users c ≡ false
      → has_row id st.refresh_tokens ≡ false
      → has_row id (call setup c st).refresh_tokens ≡ false
  unfolding call is_login_of logout
  call-has_row id (log_in now email password req fresh) st other e =
      login_lem id now email password req fresh st other e
  call-has_row id (renew now token req fresh) st other e = refresh_lem id now token req fresh st e
  call-has_row id (log_out token user) st other e = has_row-delete_other id user st.refresh_tokens e
  call-has_row id (change salt user old new) st other e = change_lem id salt user old new st e
  call-has_row id (ask_reset now email fresh) st other e = request_lem id now email fresh st e
  call-has_row id (reset now salt token new) st other e = reset_lem id now salt token new st e

  -- A user without a row of refresh tokens has none after any calls of which no one is a login with
  -- their address.
  call_all-has_row :
      (id : String) (cs : List Call) (st : Auth)
      → has_login_of id st.users cs ≡ false
      → has_row id st.refresh_tokens ≡ false
      → has_row id (call_all setup cs st).refresh_tokens ≡ false
  unfolding call_all has_login_of
  call_all-has_row id [] st none_there e = e
  call_all-has_row id (c ∷ cs) st none_there e =
      let next = call setup c st in
      let kept = has_login_of-SameUsers id next.users st.users cs (call-SameUsers setup c st) in
      call_all-has_row id cs next (ground (arith, none_there, kept))
        (call-has_row id c st (ground (arith, none_there)) e)

  -- What ends the sessions of a user: a logout, a change of the password and a reset of it.
  unfoldable pub Ends : String → Call → Auth → Type 0
  Ends id (log_out token user) st = user ≡ id
  Ends id (change salt user old new) st =
      (user ≡ id) × ((change_password setup salt user old new st).1 ≡ done tt)
  Ends id (reset now salt token new) st =
      find_live (hash_token setup token) now st.reset_tokens ≡ some id
  Ends id _ st = ⊥

  Ends-has_row :
      (id : String) (c : Call) (st : Auth)
      → Ends id c st
      → has_row id (call setup c st).refresh_tokens ≡ false
  unfolding Ends call logout change_password reset_password
  Ends-has_row id (log_in _ _ _ _ _) st ends = absurd ends
  Ends-has_row id (renew _ _ _ _) st ends = absurd ends
  Ends-has_row id (ask_reset _ _ _) st ends = absurd ends
  Ends-has_row id (log_out token user) st same =
      subst (λ u. has_row id (delete_of_user u st.refresh_tokens) ≡ false) (sym same)
        (has_row-delete_of_user id st.refresh_tokens)
  Ends-has_row id (change salt user old new) st (same, ok) =
      ground (arith, has_row-delete_of_user id st.refresh_tokens)
  Ends-has_row id (reset now salt token new) st live =
      rw (call, reset_password, live) (has_row-delete_of_user id st.refresh_tokens)

  -- After a logout, a change of the password or a reset of it, no refresh token gives access to the
  -- user's account, at any time and after any further calls, until one of these is a login with
  -- their address.
  pub no_access_until_login :
      (id : String) (c : Call) (cs : List Call) (st : Auth) (token : String) (now : ℕ)
      → Ends id c st
      → has_login_of id st.users cs ≡ false
      → find_live (hash_token setup token) now (call_all setup cs (call setup c st)).refresh_tokens
        ≢ some id
  no_access_until_login id c cs st token now ends none_there live =
      let ended = Ends-has_row id c st ends in
      let kept =
        has_login_of-SameUsers id (call setup c st).users st.users cs (call-SameUsers setup c st) in
      let still = call_all-has_row id cs (call setup c st) (kept ∙ none_there) ended in
      let has = has_row-find_live id (hash_token setup token) now _ live in
      absurd (ground (arith, still, has))
