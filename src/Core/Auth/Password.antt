-- ===== src/Core/Auth/Password.antt =====
-- core/auth/password.ts. PBKDF2 with its fixed parameters, in hexadecimal, is a function of the
-- password and the salt.
use Prim.Native.Char.{Char, char, code}
use Prim.Native.String.{[] as no_text, ◌∷◌ as ◌∷ₜ◌, ◌++◌ as ◌++ₜ◌}
use text.Mathlib.TextEquality.{Char-path}
use text.Mathlib.TextLemmas.{nil-append, cons-append}
use pilots_hq.Prelude.{
  ℕ, ◌≡◌, ◌≢◌, ◌↔◌, refl, String, Bool, true, false, not, ◌&&◌, ◌||◌, Option, none, some, str_eq,
  eq_iff, ◌==◌, if◌then◌else◌, arith, has, text_length,
}

-- the text before and after the first character with this code, if there is one
unfoldable pub cut : ℕ → String → Option (String × String)
cut c no_text = none
cut c (h ∷ₜ s) =
    let rest = cut c s in
    if code h == c
    then some (no_text, s)
    else elim rest [ none ↦ none | some (before, after) ↦ some (h ∷ₜ before, after) ]

-- Whether the loop over two texts of one length finds a difference: it goes to the end also after
-- one is found.
unfoldable pub differs : String → String → Bool
differs no_text t = false
differs (c ∷ₜ s) no_text = true
differs (c ∷ₜ s) (d ∷ₜ t) = not (code c == code d) || differs s t

abbrev pub colon : Char
colon = char 58 tt

module _ (pbkdf2 : String → String → String) where
  unfoldable pub hash_password : String → String → String
  hash_password salt password = salt ++ₜ colon ∷ₜ pbkdf2 password salt

  unfoldable pub matches : String → String → String → Bool
  matches password salt stored_hash =
      let hash = pbkdf2 password salt in
      not (str_eq salt "")
      && not (str_eq stored_hash "")
      && text_length hash == text_length stored_hash
      && not (differs hash stored_hash)

  unfoldable pub verify_password : String → String → Bool
  verify_password password stored = elim (cut 58 stored) [
    | none ↦ false
    | some (salt, stored_hash) ↦ matches password salt stored_hash
  ]

cut-append :
    (c : ℕ) (d : Char) (s t : String)
    → code d ≡ c
    → has c s ≡ false
    → cut c (s ++ₜ d ∷ₜ t) ≡ some (s, t)
unfolding cut has
cut-append c d no_text t same e =
    let there : (code d == c) ≡ true = ground (arith, same) in rw (nil-append (d ∷ₜ t), there) refl
cut-append c d (h ∷ₜ s) t same e =
    let other : (code h == c) ≡ false = ground (arith, e) in
    let rest = cut-append c d s t same (ground (arith, e)) in
    rw (cons-append h s (d ∷ₜ t), other, rest) refl

differs_self : (s : String) → differs s s ≡ false
unfolding differs
differs_self no_text = refl
differs_self (c ∷ₜ s) = ground (arith, differs_self s)

differs-same : (s t : String) → text_length s ≡ text_length t → differs s t ≡ false → s ≡ t
unfolding differs
differs-same no_text no_text n e = refl
differs-same no_text (d ∷ₜ t) n e = absurd (omega arith)
differs-same (c ∷ₜ s) no_text n e = absurd (omega arith)
differs-same (c ∷ₜ s) (d ∷ₜ t) n e =
    rw (differs-same s t (omega arith) (ground (arith, e)), Char-path c d (ground (arith, e))) refl

module _ (pbkdf2 : String → String → String) where
  -- A password is accepted for the text that `hashPassword` made of another one with a salt exactly
  -- where PBKDF2 gives the same for both; the salt, hexadecimal, has no colon and is not empty, and
  -- neither is the hash.
  pub verify_password-hash_password :
      (salt password guess : String)
      → has 58 salt ≡ false
      → salt ≢ ""
      → pbkdf2 password salt ≢ ""
      → (verify_password pbkdf2 guess (hash_password pbkdf2 salt password) ≡ true)
        ↔ (pbkdf2 guess salt ≡ pbkdf2 password salt)
  unfolding verify_password hash_password matches
  verify_password-hash_password salt password guess plain salted hashed =
      let split = cut-append 58 colon salt (pbkdf2 password salt) refl plain in
      let no_salt : str_eq salt "" ≡ false = ground (arith, eq_iff salt "", salted) in
      let no_hash : str_eq (pbkdf2 password salt) "" ≡ false =
        ground (arith, eq_iff (pbkdf2 password salt) "", hashed) in
      rw (verify_password, split)
        (rw (no_salt, no_hash)
          (
            λ e.
                differs-same (pbkdf2 guess salt) (pbkdf2 password salt) (ground (arith, e))
                  (ground (arith, e)),
            λ e. rw e (ground (arith, differs_self (pbkdf2 password salt))),
          ))
