-- ===== src/Prelude/Map.antt =====
-- A JavaScript `Map` with text keys, as far as lookups go: a function to an optional value.
use Prim.Native.String.{String}
use mathlib.Core.Option.{Option, none, some}
use text.Mathlib.Text.{◌==◌ as str_eq}
use pilots_hq.Prelude.Tests.{if◌then◌else◌}

module _ {ℓ} {V : Type ℓ} where
  abbrev pub empty : String → Option V
  empty k = none

  -- `map.set(k, v)`
  abbrev pub insert : String → V → (String → Option V) → String → Option V
  insert k v m j = if str_eq k j then some v else m j

  -- `map.delete(k)`
  abbrev pub erase : String → (String → Option V) → String → Option V
  erase k m j = if str_eq k j then none else m j
