-- ===== src/Samples/Requests.antt =====
-- A request with a signed token (core/auth/middleware.ts).
use text.Mathlib.Text.{starts_with}
use pilots_hq.Prelude.{◌≡◌, refl, true, some, none, split}
use pilots_hq.Core.Jwt.{
  verify, verify_parts, verify_list, decode_base64url, base64url, hmac, decode_token,
  is_blacklisted, url_safe, from_url_safe, equals_signs,
}
use pilots_hq.Core.Authenticate.{
  Identity, authenticate, check_token, is_public, has_prefix, drop_text,
}
use pilots_hq.Core.Authenticate.Gate.{IsPass, authenticate-IsPass}
use pilots_hq.Samples.Access.{node}

abbrev caller : Identity
caller = record { user_id = "u1"; org_id = "o1"; user_role = "user" }

authenticate-IsPass_example :
    (starts_with "Bearer QUJD.QUJD.QUJDRA" "Bearer " ≡ true)
    × IsPass node
        (some "secret")
        true
        (λ k. none)
        500
        (drop_text 7 "Bearer QUJD.QUJD.QUJDRA")
        caller
unfolding authenticate check_token is_public has_prefix drop_text verify verify_parts verify_list
    split decode_base64url base64url hmac decode_token is_blacklisted url_safe from_url_safe
    equals_signs
authenticate-IsPass_example =
    authenticate-IsPass node (some "secret") true (λ k. none) 500 "GET" "/api/v1/orders"
      "Bearer QUJD.QUJD.QUJDRA" caller refl
