-- ===== src/Samples/Secrets.antt =====
-- Encrypted fields at small inputs (core/crypto).
use pilots_hq.Prelude.{
  ℕ, ◌≡◌, refl, String, Option, none, some, List, [], ◌∷◌, str_eq, ◌==◌, if◌then◌else◌,
}
use pilots_hq.Core.Jwt.{url_safe}
use pilots_hq.Core.Crypto.{Cipher, Travels, IsUnsealed, base64url_encode}
use pilots_hq.Core.Crypto.Field.{done, encrypt_field, decrypt_field, decrypt_field-encrypt_field}
use pilots_hq.Core.Crypto.Rotation.{
  EncryptedField, Json, Manager, ok, find_key, find_value, set_value, decrypt, open_field,
  rotate_field, IsFaithful,
}
use pilots_hq.Core.Crypto.Rotation.Readable.{rotate_field_lem}
use pilots_hq.Samples.Access.{three_bytes}

-- one text and one buffer
abbrev cipher : Cipher String
cipher = record {
  to_base64 = λ b. "QUJD";
  from_base64 = λ t. "buffer";
  seal = λ key iv text. ("buffer", "buffer");
  unseal = λ key iv ct tag. some "plain";
  key_length = λ key. 32;
}

buffer-Travels : Travels cipher "buffer"
buffer-Travels = record { is_base64 = three_bytes; comes_back = refl }

plain-IsUnsealed : (key : String) → IsUnsealed cipher key "buffer" "plain"
plain-IsUnsealed key = record {
  iv_travels = buffer-Travels;
  text_travels = buffer-Travels;
  tag_travels = buffer-Travels;
  unsealed = refl;
}

decrypt_field-encrypt_field_example :
    (encoded : String) × (encrypt_field cipher "buffer" "plain" "key" ≡ done encoded)
    × (decrypt_field cipher encoded "key" ≡ done "plain")
decrypt_field-encrypt_field_example =
    decrypt_field-encrypt_field cipher "buffer" "key" "plain" refl (plain-IsUnsealed "key")

abbrev field : ℕ → EncryptedField
field v = record { key_version = v; iv = "QUJD"; ciphertext = "QUJD"; auth_tag = "QUJD" }

-- the JSON texts of two fields
abbrev json : Json String
json = record {
  stringify = λ d. if d.key_version == 1 then "old" else "new";
  parse = λ t. some (field (if str_eq t "old" then 1 else 2));
  from_hex = λ h. h;
}

abbrev manager : Manager String
manager = record { key_versions = (1, "key1") ∷ (2, "key2") ∷ []; current_version = 2 }

abbrev secrets : List (String × Option String)
secrets = ("a", none) ∷ ("b", some "old") ∷ []

faithful : IsFaithful cipher json "buffer" "key2" manager "plain"
unfolding find_key base64url_encode url_safe
faithful = record { has_current = refl; unsealed = plain-IsUnsealed "key2"; parsed = refl }

rotate_field_lem_example :
    (text : String) × (rotate_field cipher json "buffer" manager "b" secrets
      ≡ ok (set_value "b" text secrets))
    × (decrypt cipher json manager text ≡ ok "plain")
    × (rotate_field cipher json "buffer" manager "b" (set_value "b" text secrets)
        ≡ ok (set_value "b" text secrets))
unfolding find_value decrypt open_field find_key
rotate_field_lem_example =
    rotate_field_lem cipher json "buffer" "buffer" "key2" manager "b" "old" "plain" (field 1)
      secrets refl refl refl refl refl faithful
