-- ===== src/Core/Authenticate.antt =====
-- core/auth/middleware.ts. `secret` is JWT_SECRET where it is set and not empty, `up` whether Redis
-- answers; an answer is named by the code of its error. What the next handler does is left out.
pub mod Gate
use Prim.Native.String.{[] as no_text, ◌∷◌ as ◌∷ₜ◌, ◌++◌ as ◌++ₜ◌}
use text.Mathlib.Text.{starts_with}
use pilots_hq.Prelude.{
  ℕ, zero, suc, String, Bool, true, false, ◌||◌, Option, none, some, List, [], ◌∷◌, if◌then◌else◌,
}
use pilots_hq.Core.Jwt.{
  Node, Claims, Verified, accepted, refused, JwtError, invalid_format, invalid_signature,
  not_decoded, token_expired, verify, is_blacklisted,
}
use pilots_hq.Core.Auth.{Profile}

-- what the middleware notes in a request
pub record Identity : Type 0 where
  pub user_id : String
  pub org_id : String
  pub user_role : String

-- the next handler, with an identity unless the path is public, or an answer 401
pub data Reply : Type 0 where
  passed : Option Identity → Reply
  missing_token revoked_token expired_token invalid_token : Reply

abbrev pub public_paths : List String
public_paths =
    "POST /api/v1/auth/login" ∷ "POST /api/v1/auth/refresh" ∷ "GET /api/v1/tracking"
    ∷ "GET /api/v1/health" ∷ "POST /api/v1/webhooks/shopify" ∷ "POST /api/v1/webhooks/stripe"
    ∷ "POST /api/v1/webhooks/twilio" ∷ "POST /api/v1/integrations/shopify"
    ∷ "POST /api/v1/integrations/stripe" ∷ []

unfoldable pub has_prefix : String → List String → Bool
has_prefix s [] = false
has_prefix s (p ∷ ps) = starts_with s p || has_prefix s ps

unfoldable pub is_public : String → String → Bool
is_public method path = has_prefix (method ++ₜ " " ++ₜ path) public_paths

-- `slice(n)`
unfoldable pub drop_text : ℕ → String → String
drop_text zero s = s
drop_text (suc n) no_text = no_text
drop_text (suc n) (c ∷ₜ s) = drop_text n s

abbrev pub identity_of : Claims Profile → Identity
identity_of c = record {
  user_id = c.payload.sub;
  org_id = c.payload.org;
  user_role = c.payload.role;
}

unfoldable pub reply_to_error : JwtError → Reply
reply_to_error token_expired = expired_token
reply_to_error _ = invalid_token

module _ (node : Node Profile) (secret : Option String) (up : Bool)
    (redis : String → Option ℕ) where
  unfoldable pub check_token : ℕ → String → Reply
  check_token now token = elim secret [
    | none ↦ invalid_token
    | some s ↦ elim (verify node now token s) [
      | refused e ↦ reply_to_error e
      | accepted claims ↦
          if is_blacklisted node up now token redis
          then revoked_token
          else passed (some (identity_of claims))
    ]
  ]

  unfoldable pub authenticate : ℕ → String → String → Option String → Reply
  authenticate now method path header = if is_public method path then passed none else elim header [
    | none ↦ missing_token
    | some h ↦ if starts_with h "Bearer " then check_token now (drop_text 7 h) else missing_token
  ]
