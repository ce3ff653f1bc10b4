-- ===== src/Core/Jwt/RoundTrip.antt =====
-- A token that is signed is verified with what was put in it (core/auth/jwt.ts).
use Prim.Native.Char.{char, code}
use Prim.Native.String.{[] as no_text, ◌∷◌ as ◌∷ₜ◌, ◌++◌ as ◌++ₜ◌}
use text.Mathlib.TextEquality.{Char-path}
use text.Mathlib.TextLemmas.{nil-append, cons-append, append-nil}
use pilots_hq.Prelude.{
  ℕ, zero, suc, ◌+◌, ◌-◌, ◌%◌, ◌≤◌, ◌≡◌, inl, inr, refl, sym, ap, ◌∙◌, String, false, some, List,
  [], ◌∷◌, eq_iff, ltb, ◌==◌, if◌then◌else◌, Bool-cases, arith, split, has, text_length,
  split-lacks, split-append, join-split, join,
}
use pilots_hq.Core.Jwt.{
  Claims, token_expired, accepted, refused, Node, dot, url_safe, from_url_safe, equals_signs,
  base64url, decode_base64url, hmac, sign, verify_list, verify_parts, verify,
}

-- What Base64 writes: characters of its alphabet, padded to a multiple of four.
pub record IsBase64 (t : String) : Type 0 where
  pub body : String
  pub pad : ℕ
  pub is_padded : t ≡ body ++ₜ equals_signs (3 - pad)
  pub pad_bound : pad ≤ 2
  pub of_four : (text_length body + pad) % 4 ≡ 0
  pub no_equals : has 61 body ≡ false
  pub no_minus : has 45 body ≡ false
  pub no_underscore : has 95 body ≡ false
  pub no_dot : has 46 body ≡ false

url_safe-append : (s t : String) → url_safe (s ++ₜ t) ≡ url_safe s ++ₜ url_safe t
unfolding url_safe
url_safe-append no_text t = rw (nil-append t, nil-append (url_safe t)) refl
url_safe-append (c ∷ₜ s) t =
    let rest = url_safe-append s t in
    rw (cons-append c s t, rest)
      (elim (Bool-cases (code c == 43)) [
        | inl e ↦ rw e (sym (cons-append _ (url_safe s) (url_safe t)))
        | inr e ↦ rw e (elim (Bool-cases (code c == 47)) [
          | inl e' ↦ rw e' (sym (cons-append _ (url_safe s) (url_safe t)))
          | inr e' ↦ rw e' (elim (Bool-cases (code c == 61)) [
            | inl e'' ↦ rw e'' refl
            | inr e'' ↦ rw e'' (sym (cons-append _ (url_safe s) (url_safe t)))
          ])
        ])
      ])

from_url_safe-append :
    (s t : String) → from_url_safe (s ++ₜ t) ≡ from_url_safe s ++ₜ from_url_safe t
unfolding from_url_safe
from_url_safe-append no_text t = rw (nil-append t, nil-append (from_url_safe t)) refl
from_url_safe-append (c ∷ₜ s) t =
    rw (cons-append c s t, from_url_safe-append s t)
      (sym (cons-append _ (from_url_safe s) (from_url_safe t)))

from_url_safe-url_safe :
    (s : String)
    → has 61 s ≡ false
    → has 45 s ≡ false
    → has 95 s ≡ false
    → (from_url_safe (url_safe s) ≡ s) × (text_length (url_safe s) ≡ text_length s)
unfolding url_safe from_url_safe has
from_url_safe-url_safe no_text e m u = (refl, refl)
from_url_safe-url_safe (c ∷ₜ s) e m u =
    let (rest, len) =
      from_url_safe-url_safe s (ground (arith, e)) (ground (arith, m)) (ground (arith, u)) in
    elim (Bool-cases (code c == 43)) [
      | inl plus ↦
          rw plus (rw (rest, Char-path c (char 43 tt) (ground (arith, plus))) refl, ap suc len)
      | inr not_plus ↦ rw not_plus (elim (Bool-cases (code c == 47)) [
        | inl slash ↦
            rw slash (rw (rest, Char-path c (char 47 tt) (ground (arith, slash))) refl, ap suc len)
        | inr not_slash ↦
            let not_equals : (code c == 61) ≡ false = ground (arith, e) in
            let not_minus : (code c == 45) ≡ false = ground (arith, m) in
            let not_underscore : (code c == 95) ≡ false = ground (arith, u) in
            rw (not_slash, not_equals) (rw (not_minus, not_underscore, rest) refl, ap suc len)
      ])
    ]

url_safe-no_dot : (s : String) → has 46 s ≡ false → has 46 (url_safe s) ≡ false
unfolding url_safe has
url_safe-no_dot no_text e = refl
url_safe-no_dot (c ∷ₜ s) e =
    let rest = url_safe-no_dot s (ground (arith, e)) in
    let other : (code c == 46) ≡ false = ground (arith, e) in
    elim (Bool-cases (code c == 43)) [
      | inl plus ↦ rw plus rest
      | inr not_plus ↦ rw not_plus (elim (Bool-cases (code c == 47)) [
        | inl slash ↦ rw slash rest
        | inr not_slash ↦ rw not_slash (elim (Bool-cases (code c == 61)) [
          | inl equals ↦ rw equals rest
          | inr not_equals ↦ rw (not_equals, other) rest
        ])
      ])
    ]

url_safe-equals_signs : (k : ℕ) → url_safe (equals_signs k) ≡ no_text
unfolding url_safe equals_signs
url_safe-equals_signs zero = refl
url_safe-equals_signs (suc zero) = refl
url_safe-equals_signs (suc (suc zero)) = refl
url_safe-equals_signs (suc (suc (suc k))) = refl

from_url_safe-equals_signs : (k : ℕ) → from_url_safe (equals_signs k) ≡ equals_signs k
unfolding from_url_safe equals_signs
from_url_safe-equals_signs zero = refl
from_url_safe-equals_signs (suc zero) = refl
from_url_safe-equals_signs (suc (suc zero)) = refl
from_url_safe-equals_signs (suc (suc (suc k))) = refl

url_safe_body : (t : String) (b : IsBase64 t) → url_safe t ≡ url_safe b.body
url_safe_body t b =
    rw (b.is_padded, url_safe-append b.body (equals_signs (3 - b.pad)))
      (rw (url_safe-equals_signs (3 - b.pad)) (append-nil (url_safe b.body)))

pub has_dot : (t : String) → IsBase64 t → has 46 (url_safe t) ≡ false
has_dot t b = rw (url_safe_body t b) (url_safe-no_dot b.body b.no_dot)

pad_lem : (n pad : ℕ) → pad ≤ 2 → (n + pad) % 4 ≡ 0 → (n + 3) % 4 ≡ 3 - pad
pad_lem n pad le four = omega arith

join_three : (h b s : String) → join dot (h ∷ b ∷ s ∷ []) ≡ h ++ₜ dot ∷ₜ (b ++ₜ dot ∷ₜ s)
unfolding join
join_three h b s = refl

-- Padding and characters come back.
pub from_url_safe-padded :
    (t : String)
    → IsBase64 t
    → from_url_safe (url_safe t ++ₜ equals_signs ((text_length (url_safe t) + 3) % 4)) ≡ t
from_url_safe-padded t b =
    let (same, len) = from_url_safe-url_safe b.body b.no_equals b.no_minus b.no_underscore in
    let k = pad_lem (text_length b.body) b.pad b.pad_bound b.of_four in
    let text : from_url_safe (url_safe b.body ++ₜ equals_signs (3 - b.pad)) ≡ t =
      rw (from_url_safe-append (url_safe b.body) (equals_signs (3 - b.pad)), same)
        (rw (from_url_safe-equals_signs (3 - b.pad)) (sym b.is_padded)) in
    rw (url_safe_body t b) (rw len (rw k text))

abbrev pub claims_of : {P : Type 0} → ℕ → P → ℕ → Claims P
claims_of now payload seconds = record { payload = payload; iat = now; exp = now + seconds }

module _ {P : Type 0} (node : Node P) where
  decode_base64url-base64url :
      (s : String)
      → IsBase64 (node.to_base64 s)
      → node.from_base64 (node.to_base64 s) ≡ s
      → decode_base64url node (base64url node s) ≡ s
  unfolding decode_base64url base64url
  decode_base64url-base64url s b back =
      ap node.from_base64 (from_url_safe-padded (node.to_base64 s) b) ∙ back

  split_token :
      (header body sig : String)
      → has 46 header ≡ false
      → has 46 body ≡ false
      → has 46 sig ≡ false
      → split 46 (header ++ₜ dot ∷ₜ (body ++ₜ dot ∷ₜ sig)) ≡ header ∷ body ∷ sig ∷ []
  split_token header body sig h b s =
      rw
        (
          split-append 46 dot header (body ++ₜ dot ∷ₜ sig) refl h,
          split-append 46 dot body sig refl b,
          split-lacks 46 sig s,
        )
        refl

  no_dot_lem : (s : String) → IsBase64 (node.to_base64 s) → has 46 (base64url node s) ≡ false
  unfolding base64url
  no_dot_lem s b = has_dot (node.to_base64 s) b

  hmac_lem :
      (s secret : String)
      → IsBase64 (node.hmac_sha256 secret s)
      → has 46 (hmac node s secret) ≡ false
  unfolding hmac
  hmac_lem s secret b = has_dot (node.hmac_sha256 secret s) b

  abbrev pub header_text : String
  header_text = "{\"alg\":\"HS256\",\"typ\":\"JWT\"}"

  -- What is relied on of Node for the texts that are signed: what Base64 writes, and that the text of
  -- the claims is read back.
  pub record IsReadable (claims : Claims P) (secret : String) : Type 0 where
    pub header_encoded : IsBase64 (node.to_base64 header_text)
    pub body_encoded : IsBase64 (node.to_base64 (node.stringify claims))
    pub signature_encoded : (text : String) → IsBase64 (node.hmac_sha256 secret text)
    pub decoded : node.from_base64 (node.to_base64 (node.stringify claims)) ≡ node.stringify claims
    pub parsed : node.parse (node.stringify claims) ≡ some claims

  -- A token is accepted with the payload and the times that were signed, until its seconds are over,
  -- and is refused as expired after that.
  pub verify-sign :
      (now later seconds : ℕ) (payload : P) (secret : String)
      → IsReadable (claims_of now payload seconds) secret
      → verify node later (sign node now payload secret seconds) secret ≡ (
          if ltb (now + seconds) later
          then refused token_expired
          else accepted (claims_of now payload seconds))
  unfolding verify sign verify_list verify_parts
  verify-sign now later seconds payload secret r =
      let claims = claims_of now payload seconds in
      let header = base64url node header_text in
      let body = base64url node (node.stringify claims) in
      let sig = hmac node (header ++ₜ dot ∷ₜ body) secret in
      let parts =
        split_token header body sig (no_dot_lem _ r.header_encoded) (no_dot_lem _ r.body_encoded)
          (hmac_lem _ secret (r.signature_encoded _)) in
      let read = decode_base64url-base64url (node.stringify claims) r.body_encoded r.decoded in
      rw parts (rw (verify_parts, (eq_iff sig sig).1 refl) (rw (read, r.parsed) refl))

  verify_parts_sound :
      (now : ℕ) (secret header body sig : String) (claims : Claims P)
      → verify_parts node now secret header body sig ≡ accepted claims
      → (sig ≡ hmac node (header ++ₜ dot ∷ₜ body) secret)
        × (node.parse (decode_base64url node body) ≡ some claims)
        × (now ≤ claims.exp)
  unfolding verify_parts
  verify_parts_sound now secret header body sig claims e =
      ground (arith, eq_iff sig (hmac node (header ++ₜ dot ∷ₜ body) secret))

  verify_list_sound :
      (now : ℕ) (secret token : String) (parts : List String) (claims : Claims P)
      → join dot parts ≡ token
      → verify_list node now secret parts ≡ accepted claims
      → (header : String) × (body : String) × (token
          ≡ header ++ₜ dot ∷ₜ (body ++ₜ dot ∷ₜ hmac node (header ++ₜ dot ∷ₜ body) secret))
        × (node.parse (decode_base64url node body) ≡ some claims)
        × (now ≤ claims.exp)
  unfolding verify_list
  verify_list_sound now secret token [] claims j e = absurd (cc e)
  verify_list_sound now secret token (_ ∷ []) claims j e = absurd (cc e)
  verify_list_sound now secret token (_ ∷ _ ∷ []) claims j e = absurd (cc e)
  verify_list_sound now secret token (_ ∷ _ ∷ _ ∷ _ ∷ _) claims j e = absurd (cc e)
  verify_list_sound now secret token (header ∷ body ∷ sig ∷ []) claims j e =
      let (signed, read, live) = verify_parts_sound now secret header body sig claims e in
      (header, body, sym j ∙ join_three header body sig ∙ rw signed refl, read, live)

  -- Whatever is accepted has three parts, of which the last is the signature of the others under the
  -- secret, is not expired, and gives the claims that are read from its middle part.
  pub verify_sound :
      (now : ℕ) (token secret : String) (claims : Claims P)
      → verify node now token secret ≡ accepted claims
      → (header : String) × (body : String) × (token
          ≡ header ++ₜ dot ∷ₜ (body ++ₜ dot ∷ₜ hmac node (header ++ₜ dot ∷ₜ body) secret))
        × (node.parse (decode_base64url node body) ≡ some claims)
        × (now ≤ claims.exp)
  unfolding verify
  verify_sound now token secret claims e =
      verify_list_sound now secret token (split 46 token) claims (join-split 46 dot token refl) e
