-- ===== src/Base/Maps.antt =====
-- `std::map<std::string, V>` as the list of its entries in key order.
use mathlib.Core.Path.{◌≡◌, refl}
use mathlib.Core.Bool.{Bool, false}
use mathlib.Core.Option.{Option, none, some}
use mathlib.Core.List.{List, [], ◌∷◌}
use native.Mathlib.Omega.{arith}
use synapse_mcp.Base.Tests.{if◌then◌else◌, is_some}
use synapse_mcp.Base.Text.{Bytes, bytes_eq, bytes_lt, bytes_eq_iff}

module _ {ℓ} {V : Type ℓ} where
  unfoldable pub map_find : Bytes → List (Bytes × V) → Option V
  map_find k [] = none
  map_find k ((j, v) ∷ m) = if bytes_eq k j then some v else map_find k m

  -- `emplace`: a key that is there keeps its value.
  unfoldable pub map_emplace : Bytes → V → List (Bytes × V) → List (Bytes × V)
  map_emplace k v [] = (k, v) ∷ []
  map_emplace k v ((j, w) ∷ m) =
      let rest = (j, w) ∷ map_emplace k v m in
      if bytes_eq k j then (j, w) ∷ m else if bytes_lt k j then (k, v) ∷ (j, w) ∷ m else rest

  abbrev pub map_contains : Bytes → List (Bytes × V) → Bool
  map_contains k m = is_some (map_find k m)

  -- What a lookup sees after an insertion under a new key.
  pub map_find-map_emplace :
      (k j : Bytes) (v : V) (m : List (Bytes × V))
      → map_contains k m ≡ false
      → map_find j (map_emplace k v m) ≡ (if bytes_eq j k then some v else map_find j m)
  unfolding map_find map_emplace
  map_find-map_emplace k j v [] h = refl
  map_find-map_emplace k j v ((i, w) ∷ m) h =
      ground
        (arith, bytes_eq_iff k i, bytes_eq_iff j k, bytes_eq_iff j i, map_find-map_emplace k j v m)
