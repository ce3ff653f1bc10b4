-- ===== src/Core/Crypto/Field.antt =====
-- core/crypto/field-encryption.ts: `encryptField` and `decryptField`. The random vector is an argument.
use Prim.Native.String.{◌∷◌ as ◌∷ₜ◌, ◌++◌ as ◌++ₜ◌}
use pilots_hq.Prelude.{
  ◌≡◌, refl, ap, ◌∙◌, String, true, none, some, List, [], ◌∷◌, ◌==◌, if◌then◌else◌, split,
  split-append, split-lacks, arith,
}
use pilots_hq.Core.Jwt.{dot}
use pilots_hq.Core.Crypto.{
  Cipher, base64url_encode, base64url_decode, IsUnsealed, decode-encode, encode-no_dot,
}

pub data FieldError : Type 0 where
  bad_key bad_format not_authentic : FieldError

pub data FieldResult : Type 0 where
  done : String → FieldResult
  failed : FieldError → FieldResult

module _ {B : Type 0} (c : Cipher B) where
  unfoldable pub encrypt_field : B → String → B → FieldResult
  encrypt_field iv plaintext key =
      if c.key_length key == 32
      then (let (ct, tag) = c.seal key iv plaintext in
          done (
            base64url_encode c iv
            ++ₜ dot ∷ₜ (base64url_encode c ct ++ₜ dot ∷ₜ base64url_encode c tag)))
      else failed bad_key

  unfoldable pub open_parts : B → List String → FieldResult
  open_parts key (iv ∷ ct ∷ tag ∷ []) =
      elim (c.unseal key (base64url_decode c iv) (base64url_decode c ct) (base64url_decode c tag)) [
        | none ↦ failed not_authentic
        | some text ↦ done text
      ]
  open_parts key _ = failed bad_format

  unfoldable pub decrypt_field : String → B → FieldResult
  decrypt_field encoded key =
      if c.key_length key == 32 then open_parts key (split 46 encoded) else failed bad_key

  -- What is encrypted under a key of 32 bytes is decrypted to the same text.
  pub decrypt_field-encrypt_field :
      (iv key : B) (plaintext : String)
      → c.key_length key ≡ 32
      → IsUnsealed c key iv plaintext
      → (encoded : String) × (encrypt_field iv plaintext key ≡ done encoded)
        × (decrypt_field encoded key ≡ done plaintext)
  unfolding encrypt_field decrypt_field open_parts
  decrypt_field-encrypt_field iv key plaintext long u =
      let (ct, tag) = c.seal key iv plaintext in
      let e : (c.key_length key == 32) ≡ true = ground (arith, long) in
      let parts =
        split-append 46 dot (base64url_encode c iv)
          (base64url_encode c ct ++ₜ dot ∷ₜ base64url_encode c tag) refl
          (encode-no_dot c iv u.iv_travels)
        ∙ ap (λ l. base64url_encode c iv ∷ l)
            (split-append 46 dot (base64url_encode c ct) (base64url_encode c tag) refl
                (encode-no_dot c ct u.text_travels)
              ∙ ap (λ l. base64url_encode c ct ∷ l)
                  (split-lacks 46 (base64url_encode c tag) (encode-no_dot c tag u.tag_travels))) in
      let opened : c.unseal key (base64url_decode c (base64url_encode c iv))
            (base64url_decode c (base64url_encode c ct))
            (base64url_decode c (base64url_encode c tag))
          ≡ some plaintext =
        rw
          (
            decode-encode c iv u.iv_travels,
            decode-encode c ct u.text_travels,
            decode-encode c tag u.tag_travels,
          )
          u.unsealed in
      (
        base64url_encode c iv ++ₜ dot ∷ₜ (base64url_encode c ct ++ₜ dot ∷ₜ base64url_encode c tag),
        rw e refl,
        rw (e, parts) (ap (λ o. elim o [ none ↦ failed not_authentic | some x ↦ done x ]) opened),
      )
