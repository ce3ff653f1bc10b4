-- ===== src/Prelude/Texts.antt =====
-- Texts as JavaScript's strings are used: `split` at one character, `join`, `length`.
use Prim.Native.Nat.{ℕ, suc}
use Prim.Native.Char.{Char, code}
use Prim.Native.String.{String, [] as no_text, ◌∷◌ as ◌∷ₜ◌, ◌++◌ as ◌++ₜ◌}
use mathlib.Core.Path.{◌≡◌, refl, sym, ap, ◌∙◌, subst}
use mathlib.Core.Bool.{Bool, true, false, not, ◌&&◌, ◌||◌}
use mathlib.Core.Logic.{inl, inr}
use mathlib.Core.List.{List, [], ◌∷◌}
use text.Mathlib.TextEquality.{Char-path}
use text.Mathlib.TextLemmas.{nil-append, cons-append}
use native.Mathlib.Omega.{arith}
use pilots_hq.Prelude.Tests.{◌==◌, if◌then◌else◌, Bool-cases}

abbrev pub text_length : String → ℕ
text_length no_text = 0
text_length (c ∷ₜ s) = suc (text_length s)

-- whether a character with this code is in a text
unfoldable pub has : ℕ → String → Bool
has c no_text = false
has c (h ∷ₜ s) = (code h == c) || has c s

extend : Char → List String → List String
extend h [] = (h ∷ₜ no_text) ∷ []
extend h (w ∷ ws) = (h ∷ₜ w) ∷ ws

-- `s.split(c)`
unfoldable pub split : ℕ → String → List String
unfolding extend
split c no_text = no_text ∷ []
split c (h ∷ₜ s) = let rest = split c s in if code h == c then no_text ∷ rest else extend h rest

-- `ws.join(d)`
unfoldable pub join : Char → List String → String
join d [] = no_text
join d (w ∷ ws) = elim ws [ [] ↦ w | v ∷ vs ↦ w ++ₜ d ∷ₜ join d ws ]

pub split-lacks : (c : ℕ) (s : String) → has c s ≡ false → split c s ≡ s ∷ []
unfolding split has extend
split-lacks c no_text e = refl
split-lacks c (h ∷ₜ s) e = elim (Bool-cases (code h == c)) [
  | inl there ↦ absurd (ground (arith, e, there))
  | inr other ↦ let rest = split-lacks c s (ground (arith, e, other)) in rw (other, rest) refl
]

pub split-append :
    (c : ℕ) (d : Char) (s t : String)
    → code d ≡ c
    → has c s ≡ false
    → split c (s ++ₜ d ∷ₜ t) ≡ s ∷ split c t
unfolding split has extend
split-append c d no_text t same e =
    let there : (code d == c) ≡ true = ground (arith, same) in rw (nil-append (d ∷ₜ t), there) refl
split-append c d (h ∷ₜ s) t same e = elim (Bool-cases (code h == c)) [
  | inl there ↦ absurd (ground (arith, e, there))
  | inr other ↦
      let rest = split-append c d s t same (ground (arith, e, other)) in
      rw (cons-append h s (d ∷ₜ t), other, rest) refl
]

split-cons : (c : ℕ) (s : String) → (w : String) × (ws : List String) × (split c s ≡ w ∷ ws)
unfolding split extend
split-cons c no_text = (no_text, [], refl)
split-cons c (h ∷ₜ s) =
    let (w, ws, e) = split-cons c s in
    elim (Bool-cases (code h == c)) [
      | inl there ↦ (no_text, split c s, rw there refl)
      | inr other ↦ (h ∷ₜ w, ws, rw (other, e) refl)
    ]

join-one : (d : Char) (w : String) → join d (w ∷ []) ≡ w
unfolding join
join-one d w = refl

join-blank :
    (d : Char) (l : List String) (w : String) (ws : List String)
    → l ≡ w ∷ ws
    → join d (no_text ∷ l) ≡ d ∷ₜ join d l
unfolding join
join-blank d l w ws e =
    subst (λ l. join d (no_text ∷ l) ≡ d ∷ₜ join d l) (sym e) (nil-append (d ∷ₜ join d (w ∷ ws)))

join-extend :
    (d h : Char) (l : List String) (w : String) (ws : List String)
    → l ≡ w ∷ ws
    → join d (extend h l) ≡ h ∷ₜ join d l
unfolding join extend
join-extend d h l w [] e = rw e refl
join-extend d h l w (v ∷ vs) e =
    subst (λ l. join d (extend h l) ≡ h ∷ₜ join d l) (sym e)
      (cons-append h w (d ∷ₜ join d (v ∷ vs)))

-- The parts joined again are the text.
pub join-split : (c : ℕ) (d : Char) (s : String) → code d ≡ c → join d (split c s) ≡ s
unfolding split
join-split c d no_text same = join-one d no_text
join-split c d (h ∷ₜ s) same =
    let (w, ws, e) = split-cons c s in
    let rest = join-split c d s same in
    elim (Bool-cases (code h == c)) [
      | inl there ↦
          let same_char = Char-path d h (ground (arith, there, same)) in
          rw there (join-blank d (split c s) w ws e ∙ rw (rest, same_char) refl)
      | inr other ↦ rw other (join-extend d h (split c s) w ws e ∙ ap (λ t. h ∷ₜ t) rest)
    ]

-- no word of a list has a character with this code
unfoldable pub all_lack : ℕ → List String → Bool
all_lack c [] = true
all_lack c (w ∷ ws) = not (has c w) && all_lack c ws

extend-all_lack :
    (c : ℕ) (h : Char) (ws : List String)
    → (code h == c) ≡ false
    → all_lack c ws ≡ true
    → all_lack c (extend h ws) ≡ true
unfolding extend all_lack has
extend-all_lack c h [] other e = ground (arith, other)
extend-all_lack c h (w ∷ ws) other e = ground (arith, other, e)

pub split-all_lack : (c : ℕ) (s : String) → all_lack c (split c s) ≡ true
unfolding split all_lack has
split-all_lack c no_text = refl
split-all_lack c (h ∷ₜ s) = elim (Bool-cases (code h == c)) [
  | inl there ↦ rw there (split-all_lack c s)
  | inr other ↦ rw other (extend-all_lack c h (split c s) other (split-all_lack c s))
]
