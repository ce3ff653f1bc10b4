-- ===== src/Core/Auth/Rotation.antt =====
-- A refresh token works once (core/auth/authentication-manager.ts).
use pilots_hq.Prelude.{
  ℕ, ◌+◌, ◌<◌, ◌≡◌, refl, ap, String, Bool, true, false, ◌||◌, none, some, List, [], ◌∷◌, str_eq,
  eq_iff, arith,
}
use pilots_hq.Core.Auth.Tables.{
  User, TokenRow, find_by_id, find_live, upsert, delete_hash, find_live-delete_hash,
}
use pilots_hq.Core.Auth.{
  Auth, Request, invalid_refresh_token, done, thrown, Setup, revoked, seven_days, hash_token,
  store_refresh_token, tokens_for, refresh, is_revoked, verify_token, logout, check_credentials,
  login, change_password, request_password_reset, reset_password, record_failed_login,
}
use pilots_hq.Core.Auth.Calls.{
  Call, log_in, renew, log_out, change, ask_reset, reset, call, call_all,
}

-- whether a hash is that of some row
unfoldable pub is_known : String → List TokenRow → Bool
is_known hash [] = false
is_known hash (r ∷ rs) = str_eq r.token_hash hash || is_known hash rs

find_live-upsert :
    (user hash : String) (until now : ℕ) (rows : List TokenRow)
    → is_known hash rows ≡ false
    → now < until
    → find_live hash now (upsert user hash until rows) ≡ some user
unfolding find_live upsert is_known
find_live-upsert user hash until now [] fresh live = ground (arith, eq_iff hash hash)
find_live-upsert user hash until now (r ∷ rs) fresh live = ground (
  arith,
  eq_iff hash hash,
  eq_iff r.user_id user,
  find_live-upsert user hash until now rs (ground (arith, fresh)) live,
)

find_live-delete_other :
    (hash old : String) (now : ℕ) (rows : List TokenRow)
    → str_eq old hash ≡ false
    → find_live hash now (delete_hash old rows) ≡ find_live hash now rows
unfolding find_live delete_hash
find_live-delete_other hash old now [] other = refl
find_live-delete_other hash old now (r ∷ rs) other = ground (
  arith,
  other,
  eq_iff r.token_hash old,
  eq_iff r.token_hash hash,
  eq_iff old hash,
  find_live-delete_other hash old now rs other,
)

module _ (setup : Setup) where
  refresh-none :
      (now : ℕ) (token : String) (req : Request) (fresh : String) (st : Auth)
      → find_live (hash_token setup token) now st.refresh_tokens ≡ none
      → refresh setup now token req fresh st ≡ (st, thrown invalid_refresh_token)
  unfolding refresh
  refresh-none now token req fresh st e = rw (refresh, e) refl

  abbrev refreshed : ℕ → String → String → User → Auth → Auth
  refreshed now token fresh user st = record st {
    refresh_tokens =
        delete_hash (hash_token setup token)
          (upsert user.id (hash_token setup fresh) (now + seven_days) st.refresh_tokens);
  }

  refresh-done :
      (now : ℕ) (token : String) (req : Request) (fresh : String) (st : Auth) (user : User)
      → find_live (hash_token setup token) now st.refresh_tokens ≡ some user.id
      → find_by_id user.id st.users ≡ some user
      → refresh setup now token req fresh st
        ≡ (refreshed now token fresh user st, done (tokens_for setup now user req fresh))
  unfolding refresh store_refresh_token
  refresh-done now token req fresh st user live there = rw (refresh, live) (rw there refl)

  -- A refresh with a token that is live, of a user who is there, gives the new token and makes it
  -- work, for the same user and for seven days, where its hash is neither the old token's nor that of
  -- a token in the table; in the state that results the old token is refused at all times.
  pub refresh_rotates :
      (now later ever : ℕ) (token fresh : String) (req req' : Request) (another : String)
      (st : Auth) (user : User)
      → find_live (hash_token setup token) now st.refresh_tokens ≡ some user.id
      → find_by_id user.id st.users ≡ some user
      → is_known (hash_token setup fresh) st.refresh_tokens ≡ false
      → str_eq (hash_token setup token) (hash_token setup fresh) ≡ false
      → later < now + seven_days
      → (st' : Auth) × (refresh setup now token req fresh st
          ≡ (st', done (tokens_for setup now user req fresh)))
        × ((refresh setup later fresh req' another st').1
            ≡ done (tokens_for setup later user req' another))
        × (refresh setup ever token req' another st' ≡ (st', thrown invalid_refresh_token))
  refresh_rotates now later ever token fresh req req' another st user live there new other soon =
      let old = hash_token setup token in
      let hash = hash_token setup fresh in
      let rows = upsert user.id hash (now + seven_days) st.refresh_tokens in
      let works : find_live hash later (delete_hash old rows) ≡ some user.id =
        rw (find_live-delete_other hash old later rows other)
          (find_live-upsert user.id hash (now + seven_days) later st.refresh_tokens new soon) in
      let st' = refreshed now token fresh user st in
      (
        st',
        refresh-done now token req fresh st user live there,
        ap (λ r. r.1) (refresh-done later fresh req' another st' user works there),
        refresh-none ever token req' another st' (find_live-delete_hash old ever rows),
      )

  logout-is_revoked :
      (token user : String) (st : Auth)
      → is_revoked setup (hash_token setup token) (logout setup token user st).blacklist ≡ true
  unfolding logout is_revoked
  logout-is_revoked token user st =
      ground (arith, eq_iff (hash_token setup token) (hash_token setup token))

  call-is_revoked :
      (hash : String) (c : Call) (st : Auth)
      → is_revoked setup hash st.blacklist ≡ true
      → is_revoked setup hash (call setup c st).blacklist ≡ true
  unfolding call login check_credentials record_failed_login store_refresh_token refresh logout
      change_password request_password_reset reset_password is_revoked
  call-is_revoked hash (log_in now email password req fresh) st e = ground (arith, e)
  call-is_revoked hash (renew now token req fresh) st e = ground (arith, e)
  call-is_revoked hash (log_out token user) st e = ground (arith, e)
  call-is_revoked hash (change salt user old new) st e = ground (arith, e)
  call-is_revoked hash (ask_reset now email fresh) st e = ground (arith, e)
  call-is_revoked hash (reset now salt token new) st e = ground (arith, e)

  call_all-is_revoked :
      (hash : String) (cs : List Call) (st : Auth)
      → is_revoked setup hash st.blacklist ≡ true
      → is_revoked setup hash (call_all setup cs st).blacklist ≡ true
  unfolding call_all
  call_all-is_revoked hash [] st e = e
  call_all-is_revoked hash (c ∷ cs) st e =
      call_all-is_revoked hash cs (call setup c st) (call-is_revoked hash c st e)

  -- An access token that was given to a logout is refused as revoked after any further calls, at any
  -- time and from anywhere.
  pub logout_revokes :
      (token user : String) (cs : List Call) (now : ℕ) (req : Request) (st : Auth)
      → verify_token setup now token req (call_all setup cs (logout setup token user st)) ≡ revoked
  unfolding verify_token
  logout_revokes token user cs now req st =
      let still =
        call_all-is_revoked (hash_token setup token) cs (logout setup token user st)
          (logout-is_revoked token user st) in
      rw still refl
