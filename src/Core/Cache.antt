-- ===== src/Core/Cache.antt =====
-- core/cache/cache.ts: keys, `get`, `set` and `del`. Redis is a map from its keys to texts with the
-- second at which they expire; `encode` is `JSON.stringify`, which may throw, and `decode` is
-- `JSON.parse`. `invalidatePattern` is left out: which keys a pattern means is up to Redis.
pub mod RoundTrip
use Prim.Native.Char.{char, code}
use Prim.Native.String.{[] as no_text, ◌∷◌ as ◌∷ₜ◌, ◌++◌ as ◌++ₜ◌}
use pilots_hq.Prelude.{
  ℕ, ◌+◌, ◌≤◌, String, Bool, true, false, ◌&&◌, ◌||◌, Option, none, some, ltb, leb, ◌==◌, min,
  if◌then◌else◌, insert, erase,
}

abbrev pub default_ttl : ℕ
default_ttl = 300

abbrev pub max_ttl : ℕ
max_ttl = 86400

-- the white space of a regular expression's `\s`
is_space : ℕ → Bool
is_space c =
    (leb 9 c && leb c 13)
    || c == 32
    || c == 160
    || c == 5760
    || (leb 8192 c && leb c 8202)
    || c == 8232
    || c == 8233
    || c == 8239
    || c == 8287
    || c == 12288
    || c == 65279

-- `[\s\n\r*?[\]{}\\]`
unfoldable pub is_unsafe : ℕ → Bool
unfolding is_space
is_unsafe c =
    is_space c || c == 42 || c == 63 || c == 91 || c == 92 || c == 93 || c == 123 || c == 125

unfoldable pub sanitize : String → String
sanitize no_text = no_text
sanitize (c ∷ₜ s) = (if is_unsafe (code c) then char 95 tt else c) ∷ₜ sanitize s

unfoldable pub build_key : String → String → String
unfolding sanitize
build_key namespace key = "pilots:cache:" ++ₜ sanitize namespace ++ₜ ":" ++ₜ sanitize key

pub record Entry : Type 0 where
  pub text : String
  pub expires_at : ℕ

pub data SetResult : Type 0 where
  stored : SetResult
  not_serialized : SetResult
  redis_failed : SetResult

-- What Redis has at a key.
unfoldable pub read_entry : ℕ → Option Entry → Option String
read_entry now none = none
read_entry now (some e) = if ltb now e.expires_at then some e.text else none

module _ {V : Type 0} where
  -- where Redis does not answer, or has no JSON, nothing is found
  unfoldable pub get_cached :
      (String → Option V) → Bool → ℕ → String → String → (String → Option Entry) → Option V
  unfolding read_entry build_key
  get_cached decode false now namespace key redis = none
  get_cached decode true now namespace key redis =
      elim (read_entry now (redis (build_key namespace key))) [
        | none ↦ none
        | some raw ↦ decode raw
      ]

  unfoldable pub set_cached :
      (V → Option String)
      → Bool
      → ℕ
      → String
      → Option ℕ
      → String
      → V
      → (String → Option Entry)
      → (String → Option Entry) × SetResult
  unfolding build_key
  set_cached encode up now namespace ttl key value redis =
      let seconds = min (elim ttl [ none ↦ default_ttl | some t ↦ t ]) max_ttl in
      elim (encode value) [
        | none ↦ (redis, not_serialized)
        | some text ↦
            if up
            then (
              insert (build_key namespace key) (record { text = text; expires_at = now + seconds })
                  redis,
              stored,
            )
            else (redis, redis_failed)
      ]

unfoldable pub del_cached : String → String → (String → Option Entry) → String → Option Entry
unfolding build_key
del_cached namespace key redis = erase (build_key namespace key) redis
