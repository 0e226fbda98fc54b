-- ===== src/Schema/Offline.antt =====
-- include/synapse/detail/schema_validator.hpp: `registration::resolve`.
use synapse_mcp.Base.{
  ◌≡◌, refl, ap, subst, ◌∙◌, List, [], ◌∷◌, Option, none, some, Bytes, bytes_eq, map_find, arith,
  Bool-cases, Option-cases, inl, inr,
}
use synapse_mcp.Json.{Json, JsonLibrary}
use synapse_mcp.Schema.Backend.{
  SchemaEngine, KeepsSpelling, Outcome, done, refused, thrown, no_fuel,
}
use synapse_mcp.Schema.Nodes.{Node, entry, document_node}
use synapse_mcp.Schema.Universe.{universe}
use synapse_mcp.Schema.Throughout.{Throughout-own}
use synapse_mcp.Schema.Registration.{Resource, Registration, uri_key, resource_uri, convert}
use synapse_mcp.Schema.Measure.{Within, Within-entry}
use synapse_mcp.Schema.Growth.{Fine, fine, Placed, AllConverted, AllWithin, Throughout-map_find}
use synapse_mcp.Schema.Compile.{
  register, resolve, found_resource, resource_at, enough_rounds, enough_fuel,
}
use synapse_mcp.Schema.Compiled.{IsRegistered, register-IsRegistered}

Fine-done : {A : Type 0} {P : A → Type 0} {a : A} → Fine P (done a) → P a
Fine-done (fine h) = h

module _ {U J E : Type 0} (lib : JsonLibrary) (e : SchemaEngine U J E)
    (catalog : List (Bytes × Json)) where
  -- Where a value that is handed to the evaluator comes from.
  pub data IsOffline (schema : Json) (v : J) : Type 0 where
    builtin : (k : Bytes) → map_find k e.builtin_resources ≡ some v → IsOffline schema v
    document :
        (n : Node)
        → Within (universe schema catalog) n
        → convert lib e n.value ≡ done v
        → IsOffline schema v
    unknown : v ≡ e.null_json → IsOffline schema v

  map_find-AllConverted :
      (schema : Json) (k : Bytes) (v : J) (m : List (Bytes × J))
      → map_find k m ≡ some v
      → AllConverted lib e (universe schema catalog) catalog m
      → IsOffline schema v
  unfolding map_find
  map_find-AllConverted schema k v [] h all = cc
  map_find-AllConverted schema k v ((i, w) ∷ m) h ((j, (found, same)), all) =
      elim (Bool-cases (bytes_eq k i)) [
        | inl here ↦
            let value : w ≡ v = ground arith in
            document (document_node (entry i) j)
              (Throughout-own (Within (universe schema catalog)) (document_node (entry i) j)
                (Within-entry schema i j catalog found))
              (same ∙ ap done value)
        | inr further ↦ map_find-AllConverted schema k v m (ground arith) all
      ]

  converted-done :
      (o : Outcome J) (v : J)
      → (elim o as (λ _. Option J) [ done value ↦ some value | _ ↦ none ]) ≡ some v
      → o ≡ done v
  converted-done (done value) v h = ground arith
  converted-done (refused message) v h = cc
  converted-done thrown v h = cc
  converted-done no_fuel v h = cc

  found_resource-IsOffline :
      (schema : Json) (k : Bytes) (o : Option Resource) (m : List (Bytes × Resource)) (v : J)
      → map_find k m ≡ o
      → found_resource lib e catalog o ≡ some v
      → AllWithin lib e (universe schema catalog) catalog m
      → IsOffline schema v
  found_resource-IsOffline schema k none m v found h all = unknown cc
  found_resource-IsOffline schema k (some r) m v found h all =
      document r.node
        (Throughout-own _ r.node
          (Throughout-map_find lib e (universe schema catalog) catalog k r m found all))
        (converted-done (convert lib e r.node.value) v h)

  resource_of-IsOffline :
      (schema : Json) (o : Outcome Bytes) (s : Registration U J) (v : J)
      → (elim o as (λ _. Option J) [
        | done k ↦ found_resource lib e catalog (map_find k s.resources)
        | _ ↦ none
      ])
        ≡ some v
      → AllWithin lib e (universe schema catalog) catalog s.resources
      → IsOffline schema v
  resource_of-IsOffline schema (done k) s v h all =
      found_resource-IsOffline schema k (map_find k s.resources) s.resources v refl h all
  resource_of-IsOffline schema (refused message) s v h all = cc
  resource_of-IsOffline schema thrown s v h all = cc
  resource_of-IsOffline schema no_fuel s v h all = cc

  resource_at-IsOffline :
      (schema : Json) (text : Bytes) (s : Registration U J) (v : J)
      → resource_at lib e catalog text s ≡ some v
      → AllWithin lib e (universe schema catalog) catalog s.resources
      → IsOffline schema v
  resource_at-IsOffline schema text s v h all =
      resource_of-IsOffline schema (uri_key lib e text) s v h all

  resolve-Placed :
      (schema : Json) (s : Registration U J) (uri : U) (v : J)
      → resolve lib e catalog s uri ≡ some v
      → Placed lib e (universe schema catalog) catalog s
      → IsOffline schema v
  unfolding resolve
  resolve-Placed schema s uri v h (within, converted) =
      let text = e.uri_string (resource_uri lib e uri) in
      elim (Option-cases (map_find text e.builtin_resources)) [
        | inr (w, found) ↦ builtin text (found ∙ ground arith)
        | inl other ↦ elim (Option-cases (map_find text s.converted)) [
          | inr (w, found) ↦
              map_find-AllConverted schema text v s.converted (found ∙ ground arith) converted
          | inl fresh ↦ resource_at-IsOffline schema text s v (ground arith) within
        ]
      ]

  -- What `resolve` hands to the engine, for any URI and after a registration that was built, is a builtin
  -- resource, the conversion of a value of the schema or of the catalog, or null. The condition is that
  -- the engine keeps a URI in the spelling that it was read from.
  pub resolve-IsOffline :
      KeepsSpelling e
      → (schema : Json) (s : Registration U J) (uri : U) (v : J)
      → register lib e catalog
          (enough_rounds lib e catalog schema)
          (enough_fuel lib e catalog schema)
          schema
        ≡ done s
      → resolve lib e catalog s uri ≡ some v
      → IsOffline schema v
  resolve-IsOffline spelled schema s uri v registered h =
      let r =
        subst (Fine (IsRegistered lib e catalog schema)) registered
          (register-IsRegistered lib e catalog spelled schema) in
      resolve-Placed schema s uri v h (Fine-done r).within
