-- ===== src/Core/Cache/RoundTrip.antt =====
-- What is set is found until it expires (core/cache/cache.ts).
use Prim.Native.Char.{char, code}
use Prim.Native.String.{[] as no_text, ◌∷◌ as ◌∷ₜ◌}
use pilots_hq.Prelude.{
  ℕ, ◌+◌, ◌≡◌, ◌≢◌, refl, ap, String, Bool, true, false, Option, none, some, ltb, eq_iff, min,
  if◌then◌else◌, arith, Bool-cases, Option-cases, inl, inr,
}
use pilots_hq.Core.Cache.{
  max_ttl, default_ttl, build_key, Entry, read_entry, get_cached, set_cached, del_cached, sanitize,
  is_unsafe,
}

-- How long a value is kept.
abbrev pub seconds_of : Option ℕ → ℕ
seconds_of ttl = min (elim ttl [ none ↦ default_ttl | some t ↦ t ]) max_ttl

module _ {V : Type 0} (encode : V → Option String) (decode : String → Option V) where
  -- A value that is stored is found until its seconds are over, at most a day of them, and not
  -- after; `decode` reads what `encode` writes.
  pub get_cached-set_cached :
      (now later : ℕ) (namespace : String) (ttl : Option ℕ) (key : String) (value : V)
      (text : String) (redis : String → Option Entry)
      → encode value ≡ some text
      → decode text ≡ some value
      → get_cached decode true later namespace key
          (set_cached encode true now namespace ttl key value redis).0
        ≡ (if ltb later (now + seconds_of ttl) then some value else none)
  unfolding get_cached set_cached read_entry
  get_cached-set_cached now later namespace ttl key value text redis e d =
      rw (set_cached, e)
        (ground (arith, d, eq_iff (build_key namespace key) (build_key namespace key)))

  -- Setting or deleting a key leaves what is found at every other key of Redis.
  pub get_cached-set_cached_other :
      (up : Bool) (now later : ℕ) (namespace namespace' : String) (ttl : Option ℕ)
      (key key' : String) (value : V) (redis : String → Option Entry)
      → build_key namespace key ≢ build_key namespace' key'
      → (get_cached decode true later namespace' key'
            (set_cached encode up now namespace ttl key value redis).0
          ≡ get_cached decode true later namespace' key' redis)
        × (get_cached decode true later namespace' key' (del_cached namespace key redis)
            ≡ get_cached decode true later namespace' key' redis)
  unfolding get_cached set_cached del_cached
  get_cached-set_cached_other up now later namespace namespace' ttl key key' value redis other =
      let apart = eq_iff (build_key namespace key) (build_key namespace' key') in
      elim (Option-cases (encode value)) [
        | inl e ↦ rw (set_cached, e) (refl, ground (arith, apart))
        | inr (text, e) ↦ rw (set_cached, e) (ground (arith, apart), ground (arith, apart))
      ]

underscore_lem : is_unsafe 95 ≡ false
unfolding is_unsafe
underscore_lem = refl

-- The characters of a key that are made safe stay so: doing it again changes nothing.
pub sanitize-sanitize : (s : String) → sanitize (sanitize s) ≡ sanitize s
unfolding sanitize
sanitize-sanitize no_text = refl
sanitize-sanitize (c ∷ₜ s) = elim (Bool-cases (is_unsafe (code c))) [
  | inl e ↦ rw (e, underscore_lem) (ap (λ t. char 95 tt ∷ₜ t) (sanitize-sanitize s))
  | inr e ↦ rw (e, e) (ap (λ t. c ∷ₜ t) (sanitize-sanitize s))
]
