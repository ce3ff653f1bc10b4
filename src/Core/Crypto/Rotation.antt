-- ===== src/Core/Crypto/Rotation.antt =====
-- core/crypto/key-rotation.ts. Keys are in a list with their versions, a table is a list of ids with
-- the value of the encrypted column; random vectors are arguments. `like` is whether a text matches
-- `%"key_version":n%`.
pub mod Readable
use Prim.Native.Char.{code}
use Prim.Native.String.{[] as no_text, ◌∷◌ as ◌∷ₜ◌}
use pilots_hq.Prelude.{
  ℕ, zero, suc, ◌+◌, ◌-◌, ◌≡◌, ◌≢◌, refl, sym, ap, ◌∙◌, String, Bool, true, false, not, ◌&&◌, ◌||◌,
  Option, none, some, List, [], ◌∷◌, ◌++◌, map, max, str_eq, eq_iff, leb, ◌==◌, if◌then◌else◌,
  text_length, arith, Bool-cases, Option-cases, inl, inr, ==_iff,
}
use pilots_hq.Core.Crypto.{Cipher, base64url_encode, base64url_decode, IsUnsealed, decode-encode}

pub record EncryptedField : Type 0 where
  pub key_version : ℕ
  pub iv : String
  pub ciphertext : String
  pub auth_tag : String

-- `JSON.stringify` and `JSON.parse` on such a record, and `Buffer.from(hex, 'hex')`
pub record Json (B : Type 0) : Type 0 where
  pub stringify : EncryptedField → String
  pub parse : String → Option EncryptedField
  pub from_hex : String → B

pub record Manager (B : Type 0) : Type 0 where
  pub key_versions : List (ℕ × B)
  pub current_version : ℕ

pub data KeyError : Type 0 where
  bad_hex no_keys no_such_key not_json not_authentic : KeyError

pub data Result (A : Type 0) : Type 0 where
  ok : A → Result A
  error : KeyError → Result A

-- `[0-9a-fA-F]`
unfoldable pub is_hex : String → Bool
is_hex no_text = true
is_hex (c ∷ₜ s) =
    let n = code c in
    ((leb 48 n && leb n 57) || (leb 97 n && leb n 102) || (leb 65 n && leb n 70)) && is_hex s

unfoldable pub is_key : String → Bool
is_key s = text_length s == 64 && is_hex s

unfoldable pub versions : {B : Type 0} → List (ℕ × B) → List ℕ
versions [] = []
versions ((v, k) ∷ ks) = v ∷ versions ks

unfoldable pub find_key : {B : Type 0} → ℕ → List (ℕ × B) → Option B
find_key v [] = none
find_key v ((w, k) ∷ ks) = let rest = find_key v ks in if w == v then some k else rest

unfoldable pub others : ℕ → List ℕ → List ℕ
others current [] = []
others current (v ∷ vs) = let rest = others current vs in if v == current then rest else v ∷ rest

-- `getDeprecatedVersions`, which does not use its number of days
unfoldable pub deprecated_versions : {B : Type 0} → ℕ → Manager B → List ℕ
deprecated_versions days m = others m.current_version (versions m.key_versions)

unfoldable pub find_value : String → List (String × Option String) → Option (Option String)
find_value id [] = none
find_value id ((i, v) ∷ rows) =
    let rest = find_value id rows in if str_eq i id then some v else rest

unfoldable pub set_value :
    String → String → List (String × Option String) → List (String × Option String)
set_value id text [] = []
set_value id text ((i, v) ∷ rows) =
    (if str_eq i id then (i, some text) else (i, v)) ∷ set_value id text rows

-- `fromVersion || currentVersion - 1`; a manager has a current version of 1 at least
unfoldable pub target_version : {B : Type 0} → Manager B → Option ℕ → ℕ
target_version m none = m.current_version - 1
target_version m (some zero) = m.current_version - 1
target_version m (some (suc v)) = suc v

-- the ids of the rows whose value mentions a version
unfoldable pub old_rows : (ℕ → String → Bool) → ℕ → List (String × Option String) → List String
old_rows like target [] = []
old_rows like target ((i, none) ∷ rows) = old_rows like target rows
old_rows like target ((i, some v) ∷ rows) =
    let rest = old_rows like target rows in if like target v then i ∷ rest else rest

-- the record that `encrypt` writes
module _ {B : Type 0} (c : Cipher B) where
  abbrev pub sealed : B → B → Manager B → String → EncryptedField
  sealed iv key m plaintext = record {
    key_version = m.current_version;
    iv = base64url_encode c iv;
    ciphertext = base64url_encode c (c.seal key iv plaintext).0;
    auth_tag = base64url_encode c (c.seal key iv plaintext).1;
  }

module _ {B : Type 0} (c : Cipher B) (j : Json B) where
  -- the loop of the constructor
  unfoldable pub add_keys : List (ℕ × String) → Manager B → Result (Manager B)
  add_keys [] m = ok m
  add_keys ((v, hex) ∷ more) m =
      let next : Manager B = record {
        key_versions = m.key_versions ++ (v, j.from_hex hex) ∷ [];
        current_version = max m.current_version v;
      } in
      let rest = add_keys more next in if is_key hex then rest else error bad_hex

  unfoldable pub new_manager : List (ℕ × String) → Result (Manager B)
  new_manager [] = error no_keys
  new_manager (k ∷ ks) = add_keys (k ∷ ks) (record { key_versions = []; current_version = 1 })

  unfoldable pub encrypt : B → Manager B → String → Result String
  encrypt iv m plaintext = elim (find_key m.current_version m.key_versions) [
    | none ↦ error no_such_key
    | some key ↦
        let (ct, tag) = c.seal key iv plaintext in
        ok (
          j.stringify (record {
            key_version = m.current_version;
            iv = base64url_encode c iv;
            ciphertext = base64url_encode c ct;
            auth_tag = base64url_encode c tag;
          }))
  ]

  unfoldable pub open_field : Manager B → EncryptedField → Result String
  open_field m d = elim (find_key d.key_version m.key_versions) [
    | none ↦ error no_such_key
    | some key ↦
        elim (c.unseal key (base64url_decode c d.iv) (base64url_decode c d.ciphertext)
          (base64url_decode c d.auth_tag)) [ none ↦ error not_authentic | some text ↦ ok text ]
  ]

  unfoldable pub decrypt : Manager B → String → Result String
  decrypt m encrypted = elim (j.parse encrypted) [ none ↦ error not_json | some d ↦ open_field m d ]

  -- What `rotateField` writes in place of a value, if anything.
  unfoldable pub rotate_value : B → Manager B → String → Result (Option String)
  rotate_value iv m value = if str_eq value "" then ok none else elim (j.parse value) [
    | none ↦ ok none
    | some d ↦ if d.key_version == m.current_version then ok none else elim (decrypt m value) [
      | error e ↦ error e
      | ok plaintext ↦ elim (encrypt iv m plaintext) [
        | error e ↦ error e
        | ok text ↦ ok (some text)
      ]
    ]
  ]

  -- `rotateField`: the table that it leaves
  unfoldable pub rotate_field :
      B
      → Manager B
      → String
      → List (String × Option String)
      → Result (List (String × Option String))
  rotate_field iv m id table = elim (find_value id table) [
    | none ↦ ok table
    | some none ↦ ok table
    | some (some value) ↦ elim (rotate_value iv m value) [
      | error e ↦ error e
      | ok none ↦ ok table
      | ok (some text) ↦ ok (set_value id text table)
    ]
  ]

  -- `rotateTable`, with a random vector for each row: the table, and how many rows were gone through
  -- or the error at which it stopped
  unfoldable pub rotate_rows :
      List B
      → Manager B
      → List String
      → List (String × Option String)
      → ℕ
      → List (String × Option String) × Result ℕ
  rotate_rows ivs m [] table rotated = (table, ok rotated)
  rotate_rows [] m (id ∷ ids) table rotated = (table, ok rotated)
  rotate_rows (iv ∷ ivs) m (id ∷ ids) table rotated = elim (rotate_field iv m id table) [
    | error e ↦ (table, error e)
    | ok table' ↦ rotate_rows ivs m ids table' (rotated + 1)
  ]

  unfoldable pub rotate_table :
      (ℕ → String → Bool)
      → List B
      → Manager B
      → Option ℕ
      → List (String × Option String)
      → List (String × Option String) × Result ℕ
  rotate_table like ivs m from_version table =
      rotate_rows ivs m (old_rows like (target_version m from_version) table) table 0

  -- What is relied on of the JSON text and of the cipher for one plaintext.
  pub record IsFaithful (iv key : B) (m : Manager B) (plaintext : String) : Type 0 where
    pub has_current : find_key m.current_version m.key_versions ≡ some key
    pub unsealed : IsUnsealed c key iv plaintext
    pub parsed :
        j.parse (j.stringify (sealed c iv key m plaintext)) ≡ some (sealed c iv key m plaintext)
