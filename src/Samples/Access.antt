-- ===== src/Samples/Access.antt =====
-- Tokens, sessions and queries at small inputs (core/auth, core/db).
use pilots_hq.Prelude.{
  ℕ, ◌≡◌, ◌≢◌, ◌↔◌, refl, String, true, none, some, List, [], ◌∷◌, ◌*◌, arith, empty, ltb,
  if◌then◌else◌, has,
}
use pilots_hq.Core.Jwt.{Node, accepted, refused, token_expired, sign, verify, equals_signs}
use pilots_hq.Core.Jwt.RoundTrip.{IsBase64, IsReadable, claims_of, verify-sign}
use pilots_hq.Core.Auth.{
  Auth, Request, Profile, Setup, account_locked, thrown, login, check_credentials,
  check_brute_force, is_locked, count_recent, record_failed_login, one_more_failure,
  invalid_refresh_token, done, tokens_for, refresh, hash_token,
}
use pilots_hq.Core.Auth.Tables.{User, TokenRow, find_live, find_by_id, find_by_email}
use pilots_hq.Core.Auth.Password.{
  hash_password, verify_password, verify_password-hash_password, matches, cut, differs,
}
use pilots_hq.Core.Auth.Lockout.{Try, AllWrong, after, login_lockout}
use pilots_hq.Core.Auth.Calls.{Call, log_out, renew, is_login_of, has_login_of, call_all, call}
use pilots_hq.Core.Auth.Sessions.{Ends, no_access_until_login}
use pilots_hq.Samples.Log.{apart}
use pilots_hq.Core.Auth.Rotation.{is_known, refresh_rotates}

abbrev pub profile : Profile
profile = record { sub = "u1"; org = "o1"; role = "user"; ip_hash = "h"; user_agent_hash = "h" }

abbrev pub node : Node Profile
node = record {
  to_base64 = λ s. "QUJD";
  from_base64 = λ s. "json";
  hmac_sha256 = λ k s. "QUJDRA==";
  sha256 = λ s. s;
  stringify = λ c. "json";
  parse = λ s. some (claims_of 10 profile 900);
}

pub three_bytes : IsBase64 "QUJD"
unfolding has equals_signs
three_bytes = record {
  body = "QUJD";
  pad = 0;
  is_padded = refl;
  pad_bound = omega arith;
  of_four = refl;
  no_equals = refl;
  no_minus = refl;
  no_underscore = refl;
  no_dot = refl;
}

four_bytes : IsBase64 "QUJDRA=="
unfolding has equals_signs
four_bytes = record {
  body = "QUJDRA";
  pad = 2;
  is_padded = refl;
  pad_bound = omega arith;
  of_four = refl;
  no_equals = refl;
  no_minus = refl;
  no_underscore = refl;
  no_dot = refl;
}

readable : IsReadable node (claims_of 10 profile 900) "secret"
readable = record {
  header_encoded = three_bytes;
  body_encoded = three_bytes;
  signature_encoded = λ t. four_bytes;
  decoded = refl;
  parsed = refl;
}

verify-sign_example :
    verify node 500 (sign node 10 profile "secret" 900) "secret"
    ≡ (if ltb 910 500 then refused token_expired else accepted (claims_of 10 profile 900))
verify-sign_example = verify-sign node 10 500 900 profile "secret" readable

accepted_lem :
    verify node 500 (sign node 10 profile "secret" 900) "secret"
    ≡ accepted (claims_of 10 profile 900)
accepted_lem = verify-sign node 10 500 900 profile "secret" readable

abbrev pbkdf2 : String → String → String
pbkdf2 password salt = password

verify_password-hash_password_example :
    (verify_password pbkdf2 "guess" (hash_password pbkdf2 "salt" "pass") ≡ true)
    ↔ (pbkdf2 "guess" "salt" ≡ pbkdf2 "pass" "salt")
unfolding has
verify_password-hash_password_example =
    verify_password-hash_password pbkdf2 "salt" "pass" "guess" refl (apart "salt" "" refl)
      (apart "pass" "" refl)

abbrev setup : Setup
setup = record { node = node; pbkdf2 = pbkdf2; secret = "secret" }

abbrev user : User
user = record { id = "u1"; org_id = "o1"; email = "a@b.c"; password_hash = "salt:pass" }

abbrev session : TokenRow
session = record { user_id = "u1"; token_hash = "t1"; expires_at = 1000 }

abbrev auth : Auth
auth = record {
  blacklist = [];
  failures = empty;
  users = user ∷ [];
  refresh_tokens = session ∷ [];
  reset_tokens = [];
  login_attempts = [];
}

abbrev request : Request
request = record { ip = "1.2.3.4"; user_agent = none }

-- a wrong password, `n` times a quarter of an hour after the start, so that the limit on the recent
-- attempts in the database does not end the guessing first
abbrev wrong : ℕ → Try
wrong n = record { now = n * 900000; password = "guess"; req = request; fresh = "t2" }

abbrev right : Try
right = record { now = 4000000; password = "pass"; req = request; fresh = "t2" }

abbrev four_tries : List Try
four_tries = wrong 0 ∷ wrong 1 ∷ wrong 2 ∷ wrong 3 ∷ []

login_lockout_example :
    login setup 4000000 "a@b.c" "pass" request "t2"
      (login setup 3600000 "a@b.c" "guess" request "t2" (after setup "a@b.c" four_tries auth)).0
    ≡ (
      (login setup 3600000 "a@b.c" "guess" request "t2" (after setup "a@b.c" four_tries auth)).0,
      thrown account_locked,
    )
unfolding AllWrong after login check_credentials check_brute_force is_locked count_recent
    record_failed_login one_more_failure find_by_email verify_password matches cut differs
login_lockout_example =
    login_lockout setup "a@b.c" four_tries (wrong 4) right auth (refl, (refl, (refl, (refl, tt))))
      (omega arith) refl (omega arith)

abbrev stolen : Call
stolen = renew 500 "t1" request "t9"

no_access_until_login_example :
    find_live
      (hash_token setup "t1")
      600
      (call_all setup (stolen ∷ []) (call setup (log_out "a1" "u1") auth)).refresh_tokens
    ≢ some "u1"
unfolding Ends has_login_of is_login_of
no_access_until_login_example =
    no_access_until_login setup "u1" (log_out "a1" "u1") (stolen ∷ []) auth "t1" 600 refl refl

refresh_rotates_example :
    (st' : Auth) × (refresh setup 500 "t1" request "t2" auth
      ≡ (st', done (tokens_for setup 500 user request "t2")))
    × ((refresh setup 700 "t2" request "t3" st').1 ≡ done (tokens_for setup 700 user request "t3"))
    × (refresh setup 9000000000 "t1" request "t3" st' ≡ (st', thrown invalid_refresh_token))
unfolding find_live find_by_id is_known hash_token
refresh_rotates_example =
    refresh_rotates setup 500 700 9000000000 "t1" "t2" request request "t3" auth user refl refl refl
      refl (omega arith)
