-- ===== src/Core/Authenticate/Gate.antt =====
-- Which requests pass (core/auth/middleware.ts).
use Prim.Native.String.{◌∷◌ as ◌∷ₜ◌, ◌++◌ as ◌++ₜ◌}
use text.Mathlib.Text.{starts_with}
use pilots_hq.Prelude.{
  ℕ, ◌≤◌, ◌≡◌, ◌⊎◌, refl, String, Bool, true, false, Option, some, Bool-cases, Option-cases, inl,
  inr, arith,
}
use pilots_hq.Core.Jwt.{
  Node, Claims, Verified, accepted, refused, JwtError, invalid_format, invalid_signature,
  not_decoded, token_expired, dot, decode_base64url, hmac, verify, is_blacklisted,
}
use pilots_hq.Core.Jwt.RoundTrip.{verify_sound}
use pilots_hq.Core.Auth.{Profile}
use pilots_hq.Core.Authenticate.{
  Identity, passed, is_public, drop_text, identity_of, reply_to_error, check_token, authenticate,
}

Verified-cases :
    {P : Type 0} (v : Verified P)
    → ((c : Claims P) × (v ≡ accepted c)) ⊎ ((e : JwtError) × (v ≡ refused e))
Verified-cases (accepted c) = inl (c, refl)
Verified-cases (refused e) = inr (e, refl)

reply_to_error-not_passed :
    (err : JwtError) (id : Identity) → ¬ (reply_to_error err ≡ passed (some id))
unfolding reply_to_error
reply_to_error-not_passed token_expired id e = ground (arith, e)
reply_to_error-not_passed invalid_format id e = ground (arith, e)
reply_to_error-not_passed invalid_signature id e = ground (arith, e)
reply_to_error-not_passed not_decoded id e = ground (arith, e)

module _ (node : Node Profile) (secret : Option String) (up : Bool)
    (redis : String → Option ℕ) where
  -- a token that lets a request pass with an identity
  pub record IsPass (now : ℕ) (token : String) (id : Identity) : Type 0 where
    pub key : String
    pub is_set : secret ≡ some key
    pub claims : Claims Profile
    pub head : String
    pub body : String
    pub signed : token ≡ head ++ₜ dot ∷ₜ (body ++ₜ dot ∷ₜ hmac node (head ++ₜ dot ∷ₜ body) key)
    pub read : node.parse (decode_base64url node body) ≡ some claims
    pub not_expired : now ≤ claims.exp
    pub not_revoked : is_blacklisted node up now token redis ≡ false
    pub of_claims : identity_of claims ≡ id

  check_token-IsPass :
      (now : ℕ) (token : String) (id : Identity)
      → check_token node secret up redis now token ≡ passed (some id)
      → IsPass now token id
  unfolding check_token
  check_token-IsPass now token id e = elim (Option-cases secret) [
    | inl unset ↦ absurd (ground (arith, e, unset))
    | inr (key, set) ↦ elim (Verified-cases (verify node now token key)) [
      | inr (err, bad) ↦ absurd (reply_to_error-not_passed err id (ground (arith, e, set, bad)))
      | inl (claims, good) ↦
          let (head, body, signed, read, live) = verify_sound node now token key claims good in
          elim (Bool-cases (is_blacklisted node up now token redis)) [
            | inl out ↦ absurd (ground (arith, e, set, good, out))
            | inr fine ↦ record {
              key = key;
              is_set = set;
              claims = claims;
              head = head;
              body = body;
              signed = signed;
              read = read;
              not_expired = live;
              not_revoked = fine;
              of_claims = ground (arith, e, set, good, fine);
            }
          ]
    ]
  ]

  -- A request that passes with an identity has a token after `Bearer ` that is signed under the secret,
  -- has not expired and is not found in the blacklist, and the identity is that of its claims.
  pub authenticate-IsPass :
      (now : ℕ) (method path header : String) (id : Identity)
      → authenticate node secret up redis now method path (some header) ≡ passed (some id)
      → (starts_with header "Bearer " ≡ true) × IsPass now (drop_text 7 header) id
  unfolding authenticate
  authenticate-IsPass now method path header id e = elim (Bool-cases (is_public method path)) [
    | inl shown ↦ absurd (ground (arith, e, shown))
    | inr closed ↦ elim (Bool-cases (starts_with header "Bearer ")) [
      | inl bearer ↦ (
        bearer,
        check_token-IsPass now (drop_text 7 header) id (ground (arith, e, closed, bearer)),
      )
      | inr other ↦ absurd (ground (arith, e, closed, other))
    ]
  ]
