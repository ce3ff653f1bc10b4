-- ===== src/Core/Auth.antt =====
-- core/auth/authentication-manager.ts. The tables are lists of their rows, times are milliseconds, a
-- random token and the salt of a password are arguments. A call gives the state that it leaves, also
-- where it throws.
pub mod Password
pub mod Tables
pub mod Lockout
pub mod Calls
pub mod Sessions
pub mod Rotation
use Prim.Native.String.{◌++◌ as ◌++ₜ◌}
use pilots_hq.Prelude.{
  ℕ, suc, ◌+◌, ◌/◌, String, Bool, true, false, ◌&&◌, ◌||◌, Option, none, some, List, [], ◌∷◌, ◌++◌,
  str_eq, ltb, leb, if◌then◌else◌, insert, erase,
}
use pilots_hq.Core.Jwt.{
  Node, Claims, Verified, accepted, refused, JwtError, sign, verify, take_text,
}
use pilots_hq.Core.Auth.Password.{verify_password, hash_password}
use pilots_hq.Core.Auth.Tables.{
  User, TokenRow, find_by_email, find_by_id, set_password, find_live, upsert, delete_of_user,
  delete_hash,
}

-- `ExtendedJwtPayload` without its times
pub record Profile : Type 0 where
  pub sub : String
  pub org : String
  pub role : String
  pub ip_hash : String
  pub user_agent_hash : String

pub record Failures : Type 0 where
  pub count : ℕ
  pub locked_until : Option ℕ

pub data Reason : Type 0 where
  no_such_user wrong_password : Reason

-- a row of `login_attempts`
pub record LoginAttempt : Type 0 where
  pub email : String
  pub ip : String
  pub reason : Reason
  pub created_at : ℕ

pub record Auth : Type 0 where
  pub blacklist : List String
  pub failures : String → Option Failures
  pub users : List User
  pub refresh_tokens : List TokenRow
  pub reset_tokens : List TokenRow
  pub login_attempts : List LoginAttempt

pub record Request : Type 0 where
  pub ip : String
  pub user_agent : Option String

pub data AuthError : Type 0 where
  account_locked too_many_attempts invalid_credentials : AuthError
  invalid_refresh_token user_not_found invalid_password invalid_reset_token : AuthError

pub record Tokens : Type 0 where
  pub access_token : String
  pub refresh_token : String
  pub expires_in : ℕ

pub data Outcome (A : Type 0) : Type 0 where
  done : A → Outcome A
  thrown : AuthError → Outcome A

pub data TokenCheck : Type 0 where
  valid : Claims Profile → TokenCheck
  revoked : TokenCheck
  rejected : JwtError → TokenCheck

-- What the manager uses of other code, and its secret.
pub record Setup : Type 0 where
  pub node : Node Profile
  pub pbkdf2 : String → String → String
  pub secret : String

abbrev pub fifteen_minutes : ℕ
fifteen_minutes = 900000

abbrev pub seven_days : ℕ
seven_days = 604800000

abbrev pub one_hour : ℕ
one_hour = 3600000

-- the rows of an address since a time, as many as `COUNT(*)` says
unfoldable pub count_recent : String → ℕ → List LoginAttempt → ℕ
count_recent email now [] = 0
count_recent email now (a ∷ rest) =
    let n = count_recent email now rest in
    if str_eq a.email email && ltb now (a.created_at + fifteen_minutes) then suc n else n

unfoldable pub is_locked : ℕ → Option Failures → Bool
is_locked now none = false
is_locked now (some f) = elim f.locked_until [ none ↦ false | some until ↦ ltb now until ]

-- `checkBruteForce`: what it throws
unfoldable pub check_brute_force : ℕ → String → Auth → Option AuthError
check_brute_force now email st =
    if is_locked now (st.failures email)
    then some account_locked
    else if leb 5 (count_recent email now st.login_attempts)
    then some too_many_attempts
    else none

unfoldable pub one_more_failure : ℕ → Option Failures → Failures
one_more_failure now none = record { count = 1; locked_until = none }
one_more_failure now (some f) =
    if leb 5 (f.count + 1)
    then record { count = f.count + 1; locked_until = some (now + fifteen_minutes) }
    else record f { count = f.count + 1 }

unfoldable pub record_failed_login : ℕ → String → String → Reason → Auth → Auth
record_failed_login now email ip reason st =
    let attempt : LoginAttempt = record {
      email = email;
      ip = ip;
      reason = reason;
      created_at = now;
    } in
    record st {
      failures = insert email (one_more_failure now (st.failures email)) st.failures;
      login_attempts = st.login_attempts ++ attempt ∷ [];
    }

module _ (setup : Setup) where
  unfoldable pub hash_token : String → String
  hash_token token = setup.node.sha256 token

  unfoldable pub hash_ip_and_user_agent : Request → String
  hash_ip_and_user_agent req =
      let agent : String = elim req.user_agent [ none ↦ "" | some a ↦ a ] in
      take_text 32 (setup.node.sha256 (req.ip ++ₜ "|" ++ₜ agent))

  unfoldable pub store_refresh_token : ℕ → String → String → Auth → Auth
  store_refresh_token now user_id token st = record st {
    refresh_tokens = upsert user_id (hash_token token) (now + seven_days) st.refresh_tokens;
  }

  unfoldable pub access_token : ℕ → User → Request → String
  access_token now user req =
      let ip_hash = hash_ip_and_user_agent req in
      let profile : Profile = record {
        sub = user.id;
        org = user.org_id;
        role = "user";
        ip_hash = ip_hash;
        user_agent_hash = ip_hash;
      } in
      sign setup.node (now / 1000) profile setup.secret 900

  unfoldable pub tokens_for : ℕ → User → Request → String → Tokens
  tokens_for now user req fresh = record {
    access_token = access_token now user req;
    refresh_token = fresh;
    expires_in = 900;
  }

  -- `login` once the brute force check has passed
  unfoldable pub check_credentials :
      ℕ → String → String → Request → String → Auth → Auth × Outcome Tokens
  check_credentials now email password req fresh st = elim (find_by_email email st.users) [
    | none ↦ (record_failed_login now email req.ip no_such_user st, thrown invalid_credentials)
    | some user ↦
        if verify_password setup.pbkdf2 password user.password_hash
        then (
          store_refresh_token now user.id fresh (record st { failures = erase email st.failures }),
          done (tokens_for now user req fresh),
        )
        else (record_failed_login now email req.ip wrong_password st, thrown invalid_credentials)
  ]

  unfoldable pub login : ℕ → String → String → Request → String → Auth → Auth × Outcome Tokens
  login now email password req fresh st = elim (check_brute_force now email st) [
    | some e ↦ (st, thrown e)
    | none ↦ check_credentials now email password req fresh st
  ]

  unfoldable pub refresh : ℕ → String → Request → String → Auth → Auth × Outcome Tokens
  refresh now token req fresh st = elim (find_live (hash_token token) now st.refresh_tokens) [
    | none ↦ (st, thrown invalid_refresh_token)
    | some user_id ↦ elim (find_by_id user_id st.users) [
      | none ↦ (st, thrown user_not_found)
      | some user ↦
          let stored = store_refresh_token now user.id fresh st in
          (
            record stored { refresh_tokens = delete_hash (hash_token token) stored.refresh_tokens },
            done (tokens_for now user req fresh),
          )
    ]
  ]

  unfoldable pub is_revoked : String → List String → Bool
  is_revoked hash [] = false
  is_revoked hash (h ∷ hs) = str_eq h hash || is_revoked hash hs

  -- A token from elsewhere is only logged: `req` decides nothing.
  unfoldable pub verify_token : ℕ → String → Request → Auth → TokenCheck
  verify_token now token req st =
      if is_revoked (hash_token token) st.blacklist
      then revoked
      else elim (verify setup.node (now / 1000) token setup.secret) [
        | accepted claims ↦ valid claims
        | refused e ↦ rejected e
      ]

  unfoldable pub logout : String → String → Auth → Auth
  logout token user_id st = record st {
    blacklist = hash_token token ∷ st.blacklist;
    refresh_tokens = delete_of_user user_id st.refresh_tokens;
  }

  unfoldable pub change_password : String → String → String → String → Auth → Auth × Outcome Unit
  change_password salt user_id old new st = elim (find_by_id user_id st.users) [
    | none ↦ (st, thrown user_not_found)
    | some user ↦
        if verify_password setup.pbkdf2 old user.password_hash
        then (
          record st {
            users = set_password user_id (hash_password setup.pbkdf2 salt new) st.users;
            refresh_tokens = delete_of_user user_id st.refresh_tokens;
          },
          done tt,
        )
        else (st, thrown invalid_password)
  ]

  -- The answer is the same text whether or not the address is known.
  unfoldable pub request_password_reset : ℕ → String → String → Auth → Auth
  request_password_reset now email fresh st = elim (find_by_email email st.users) [
    | none ↦ st
    | some user ↦ record st {
      reset_tokens = upsert user.id (hash_token fresh) (now + one_hour) st.reset_tokens;
    }
  ]

  unfoldable pub reset_password : ℕ → String → String → String → Auth → Auth × Outcome Unit
  reset_password now salt token new st = elim (find_live (hash_token token) now st.reset_tokens) [
    | none ↦ (st, thrown invalid_reset_token)
    | some user_id ↦ (
      record st {
        users = set_password user_id (hash_password setup.pbkdf2 salt new) st.users;
        reset_tokens = delete_of_user user_id st.reset_tokens;
        refresh_tokens = delete_of_user user_id st.refresh_tokens;
      },
      done tt,
    )
  ]
