-- ===== src/Core/Jwt.antt =====
-- core/auth/jwt.ts: signing, reading and verifying a token, and the tokens that are revoked. What
-- Node does is a parameter: Base64, HMAC-SHA256, SHA-256, `JSON.stringify` and `JSON.parse`. Times
-- are seconds; Redis is a map from its keys to the second at which each expires.
pub mod RoundTrip
use Prim.Native.Char.{Char, char, code}
use Prim.Native.String.{[] as no_text, ◌∷◌ as ◌∷ₜ◌, ◌++◌ as ◌++ₜ◌}
use pilots_hq.Prelude.{
  ℕ, zero, suc, ◌+◌, ◌-◌, ◌%◌, String, Bool, true, false, Option, none, some, List, [], ◌∷◌, str_eq,
  ltb, leb, ◌==◌, if◌then◌else◌, insert, split, text_length,
}

-- A payload with what `sign` adds to it.
pub record Claims (P : Type 0) : Type 0 where
  pub payload : P
  pub iat : ℕ
  pub exp : ℕ

pub data JwtError : Type 0 where
  invalid_format invalid_signature not_decoded token_expired : JwtError

pub data Verified (P : Type 0) : Type 0 where
  accepted : Claims P → Verified P
  refused : JwtError → Verified P

-- What the file uses of Node; the HMAC is in Base64, under the secret given first.
pub record Node (P : Type 0) : Type 0 where
  pub to_base64 : String → String
  pub from_base64 : String → String
  pub hmac_sha256 : String → String → String
  pub sha256 : String → String
  pub stringify : Claims P → String
  pub parse : String → Option (Claims P)

abbrev pub dot : Char
dot = char 46 tt

-- `+` to `-`, `/` to `_`, `=` removed
unfoldable pub url_safe : String → String
url_safe no_text = no_text
url_safe (c ∷ₜ s) =
    let rest = url_safe s in
    if code c == 43
    then char 45 tt ∷ₜ rest
    else if code c == 47
    then char 95 tt ∷ₜ rest
    else if code c == 61
    then rest
    else c ∷ₜ rest

-- `-` to `+`, `_` to `/`
unfoldable pub from_url_safe : String → String
from_url_safe no_text = no_text
from_url_safe (c ∷ₜ s) =
    (if code c == 45 then char 43 tt else if code c == 95 then char 47 tt else c) ∷ₜ from_url_safe s

-- `'==='.slice(k)`
unfoldable pub equals_signs : ℕ → String
equals_signs zero = "==="
equals_signs (suc zero) = "=="
equals_signs (suc (suc zero)) = "="
equals_signs (suc (suc (suc k))) = ""

-- the first 32 characters of a fingerprint
unfoldable pub take_text : ℕ → String → String
take_text zero s = no_text
take_text (suc n) no_text = no_text
take_text (suc n) (c ∷ₜ s) = c ∷ₜ take_text n s

module _ {P : Type 0} (node : Node P) where
  unfoldable pub base64url : String → String
  base64url s = url_safe (node.to_base64 s)

  unfoldable pub decode_base64url : String → String
  decode_base64url s =
      let padded = s ++ₜ equals_signs ((text_length s + 3) % 4) in
      node.from_base64 (from_url_safe padded)

  unfoldable pub hmac : String → String → String
  hmac text secret = url_safe (node.hmac_sha256 secret text)

  unfoldable pub sign : ℕ → P → String → ℕ → String
  sign now payload secret seconds =
      let header = base64url "{\"alg\":\"HS256\",\"typ\":\"JWT\"}" in
      let claims : Claims P = record { payload = payload; iat = now; exp = now + seconds } in
      let body = base64url (node.stringify claims) in
      let sig = hmac (header ++ₜ dot ∷ₜ body) secret in header ++ₜ dot ∷ₜ (body ++ₜ dot ∷ₜ sig)

  unfoldable pub decode_token : String → Option (Claims P)
  decode_token token = elim (split 46 token) [
    | header ∷ body ∷ sig ∷ [] ↦ node.parse (decode_base64url body)
    | _ ↦ none
  ]

  -- The checks of `verify` on the three parts.
  unfoldable pub verify_parts : ℕ → String → String → String → String → Verified P
  verify_parts now secret header body sig =
      if str_eq sig (hmac (header ++ₜ dot ∷ₜ body) secret)
      then elim (node.parse (decode_base64url body)) [
        | none ↦ refused not_decoded
        | some claims ↦ if ltb claims.exp now then refused token_expired else accepted claims
      ]
      else refused invalid_signature

  unfoldable pub verify_list : ℕ → String → List String → Verified P
  verify_list now secret (header ∷ body ∷ sig ∷ []) = verify_parts now secret header body sig
  verify_list now secret _ = refused invalid_format

  unfoldable pub verify : ℕ → String → String → Verified P
  verify now token secret = verify_list now secret (split 46 token)

  unfoldable pub blacklist_key : String → String
  blacklist_key token = "jwt:blacklist:" ++ₜ take_text 32 (node.sha256 token)

  -- `up`: whether Redis answers; where it does not, the failure is swallowed.
  unfoldable pub blacklist_token : Bool → ℕ → String → (String → Option ℕ) → String → Option ℕ
  blacklist_token up now token redis = elim (decode_token token) [
    | none ↦ redis
    | some claims ↦
        if leb claims.exp now
        then redis
        else if up
        then insert (blacklist_key token) claims.exp redis
        else redis
  ]

  unfoldable pub is_blacklisted : Bool → ℕ → String → (String → Option ℕ) → Bool
  is_blacklisted up now token redis = elim (decode_token token) [
    | none ↦ false
    | some claims ↦
        if up
        then elim (redis (blacklist_key token)) [
          | none ↦ false
          | some expires_at ↦ ltb now expires_at
        ]
        else false
  ]
