-- ===== src/Core/Crypto.antt =====
-- core/crypto: fields that are encrypted in the database. What Node's crypto does is a parameter: a
-- buffer `B` in Base64 and back, AES-256-GCM with its tag, and the length of a key.
pub mod Field
pub mod Rotation
use Prim.Native.String.{◌++◌ as ◌++ₜ◌}
use pilots_hq.Prelude.{
  ℕ, ◌+◌, ◌%◌, ◌≡◌, refl, ap, ◌∙◌, String, Bool, false, Option, some, text_length, has,
}
use pilots_hq.Core.Jwt.{url_safe, from_url_safe, equals_signs}
use pilots_hq.Core.Jwt.RoundTrip.{IsBase64, from_url_safe-padded, has_dot}

-- `seal` gives the ciphertext and the tag; `unseal` gives nothing where the tag does not match
pub record Cipher (B : Type 0) : Type 0 where
  pub to_base64 : B → String
  pub from_base64 : String → B
  pub seal : B → B → String → B × B
  pub unseal : B → B → B → B → Option String
  pub key_length : B → ℕ

module _ {B : Type 0} (c : Cipher B) where
  unfoldable pub base64url_encode : B → String
  base64url_encode buf = url_safe (c.to_base64 buf)

  unfoldable pub base64url_decode : String → B
  base64url_decode s =
      let padded = s ++ₜ equals_signs ((text_length s + 3) % 4) in
      c.from_base64 (from_url_safe padded)

  -- A buffer that comes back from Base64.
  pub record Travels (buf : B) : Type 0 where
    pub is_base64 : IsBase64 (c.to_base64 buf)
    pub comes_back : c.from_base64 (c.to_base64 buf) ≡ buf

  pub decode-encode : (buf : B) → Travels buf → base64url_decode (base64url_encode buf) ≡ buf
  unfolding base64url_encode base64url_decode
  decode-encode buf t =
      ap c.from_base64 (from_url_safe-padded (c.to_base64 buf) t.is_base64) ∙ t.comes_back

  pub encode-no_dot : (buf : B) → Travels buf → has 46 (base64url_encode buf) ≡ false
  unfolding base64url_encode
  encode-no_dot buf t = has_dot (c.to_base64 buf) t.is_base64

  -- What is relied on for one text: its three buffers travel, and it is unsealed with the same key.
  pub record IsUnsealed (key iv : B) (text : String) : Type 0 where
    pub iv_travels : Travels iv
    pub text_travels : Travels (c.seal key iv text).0
    pub tag_travels : Travels (c.seal key iv text).1
    pub unsealed : c.unseal key iv (c.seal key iv text).0 (c.seal key iv text).1 ≡ some text
