-- ===== src/Core/Crypto/Rotation/Readable.antt =====
-- A field stays readable when its key is rotated (core/crypto/key-rotation.ts).
use pilots_hq.Prelude.{
  ◌≡◌, refl, ap, String, true, false, Option, none, some, List, [], ◌∷◌, str_eq, ◌==◌, arith,
  Bool-cases, inl, inr,
}
use pilots_hq.Core.Crypto.{Cipher, base64url_encode, base64url_decode, decode-encode}
use pilots_hq.Core.Crypto.Rotation.{
  EncryptedField, Json, Manager, not_authentic, ok, error, find_value, set_value, encrypt,
  open_field, decrypt, rotate_value, rotate_field, sealed, IsFaithful,
}

find_value-set_value :
    (id text : String) (value : Option String) (rows : List (String × Option String))
    → find_value id rows ≡ some value
    → find_value id (set_value id text rows) ≡ some (some text)
unfolding find_value set_value
find_value-set_value id text value [] e = absurd (cc e)
find_value-set_value id text value ((i, v) ∷ rows) e = elim (Bool-cases (str_eq i id)) [
  | inl here ↦ rw (here, here) refl
  | inr there ↦
      let rest = find_value-set_value id text value rows (ground (arith, e, there)) in
      rw (there, there) rest
]

module _ {B : Type 0} (c : Cipher B) (j : Json B) where
  encrypt_lem :
      (iv key : B) (m : Manager B) (plaintext : String)
      → IsFaithful c j iv key m plaintext
      → encrypt c j iv m plaintext ≡ ok (j.stringify (sealed c iv key m plaintext))
  unfolding encrypt
  encrypt_lem iv key m plaintext f = rw (encrypt, f.has_current) refl

  decrypt-encrypt :
      (iv key : B) (m : Manager B) (plaintext : String)
      → IsFaithful c j iv key m plaintext
      → decrypt c j m (j.stringify (sealed c iv key m plaintext)) ≡ ok plaintext
  unfolding decrypt open_field
  decrypt-encrypt iv key m plaintext f =
      let (ct, tag) = c.seal key iv plaintext in
      let opened : c.unseal key (base64url_decode c (base64url_encode c iv))
            (base64url_decode c (base64url_encode c ct))
            (base64url_decode c (base64url_encode c tag))
          ≡ some plaintext =
        rw
          (
            decode-encode c iv f.unsealed.iv_travels,
            decode-encode c ct f.unsealed.text_travels,
            decode-encode c tag f.unsealed.tag_travels,
          )
          f.unsealed.unsealed in
      rw (decrypt, f.parsed)
        (rw (open_field, f.has_current)
          (ap (λ o. elim o [ none ↦ error not_authentic | some x ↦ ok x ]) opened))

  rotate_value-old :
      (iv key : B) (m : Manager B) (value plaintext : String) (d : EncryptedField)
      → str_eq value "" ≡ false
      → j.parse value ≡ some d
      → (d.key_version == m.current_version) ≡ false
      → decrypt c j m value ≡ ok plaintext
      → IsFaithful c j iv key m plaintext
      → rotate_value c j iv m value ≡ ok (some (j.stringify (sealed c iv key m plaintext)))
  unfolding rotate_value
  rotate_value-old iv key m value plaintext d there parsed old readable f =
      rw (rotate_value, there, parsed)
        (rw (old, readable) (rw (encrypt_lem iv key m plaintext f) refl))

  rotate_value-current :
      (iv : B) (m : Manager B) (d : EncryptedField)
      → j.parse (j.stringify d) ≡ some d
      → d.key_version ≡ m.current_version
      → rotate_value c j iv m (j.stringify d) ≡ ok none
  unfolding rotate_value
  rotate_value-current iv m d parsed same =
      let now : (d.key_version == m.current_version) ≡ true = ground (arith, same) in
      elim (Bool-cases (str_eq (j.stringify d) "")) [
        | inl blank ↦ rw (rotate_value, blank) refl
        | inr there ↦ rw (rotate_value, there, parsed) (rw now refl)
      ]

  -- A field under an old key that can be read is rotated: its new value reads as the same text, and
  -- rotating the row again changes nothing.
  pub rotate_field_lem :
      (iv iv' key : B) (m : Manager B) (id value plaintext : String) (d : EncryptedField)
      (table : List (String × Option String))
      → find_value id table ≡ some (some value)
      → str_eq value "" ≡ false
      → j.parse value ≡ some d
      → (d.key_version == m.current_version) ≡ false
      → decrypt c j m value ≡ ok plaintext
      → IsFaithful c j iv key m plaintext
      → (text : String) × (rotate_field c j iv m id table ≡ ok (set_value id text table))
        × (decrypt c j m text ≡ ok plaintext)
        × (rotate_field c j iv' m id (set_value id text table) ≡ ok (set_value id text table))
  unfolding rotate_field
  rotate_field_lem iv iv' key m id value plaintext d table there filled parsed old readable f =
      let text = j.stringify (sealed c iv key m plaintext) in
      let rotated = rotate_value-old iv key m value plaintext d filled parsed old readable f in
      let again = rotate_value-current iv' m (sealed c iv key m plaintext) (f.parsed) refl in
      (
        text,
        rw (rotate_field, there) (rw rotated refl),
        decrypt-encrypt iv key m plaintext f,
        rw (rotate_field, find_value-set_value id text (some value) table there) (rw again refl),
      )
