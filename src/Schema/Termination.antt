-- ===== src/Schema/Termination.antt =====
-- include/synapse/detail/schema_validator.hpp: the recursion of `registration` and the loop over its
-- references.
use synapse_mcp.Base.{
  ◌≡◌, ℕ, zero, suc, ◌<◌, true, false, not, List, [], ◌∷◌, ◌++◌, some, Bytes, ascii, if◌then◌else◌,
  map_find, is_some, arith, sym, subst, inl, inr, ◌||◌, Bool-cases,
}
use synapse_mcp.Json.{Json, JsonLibrary}
use synapse_mcp.Schema.Backend.{SchemaEngine, KeepsSpelling, done, refused, ◌>>=◌, or_thrown}
use synapse_mcp.Schema.Nodes.{Node, entry, document_node, follow}
use synapse_mcp.Schema.Throughout.{Throughout, Throughout-follow}
use synapse_mcp.Schema.Registration.{get_elem?, Registration, resource_uri, validate_schema}
use synapse_mcp.Schema.Inspection.{is_inspected, load_resource}
use synapse_mcp.Schema.Measure.{Within, depth}
use synapse_mcp.Schema.Growth.{
  Fine, fine, refuses, ◌>>-◌, Fine-mono, Fine-or_thrown, Placed, Grows, Grows-refl, Grows-trans,
}
use synapse_mcp.Schema.Additions.{Ends, Ends-or_thrown, Ends-uri_key}
use synapse_mcp.Schema.Bodies.{
  Ends-validate_schema, Inspects, Checks, leaves, Inspects-inspect_with,
}
use synapse_mcp.Schema.Loads.{Loaded-load_resource}
use synapse_mcp.Schema.Dialects.{Checks-check_dialect_with}
use synapse_mcp.Schema.Compile.{
  inspect, check_dialect, resource_base, check_anchor, check_target, is_pointer, check_fragment,
  inspect_reference,
}

-- A reference whose document the engine is given: a builtin one, or one that is registered.
abbrev pub IsResolved :
    {U J E : Type 0} → JsonLibrary → SchemaEngine U J E → Registration U J → U → Type 0
IsResolved lib e s uri =
    let text = e.uri_string (resource_uri lib e uri) in
    (is_some (map_find text e.builtin_resources) || is_some (map_find text s.resources)) ≡ true

abbrev pub AllResolved :
    {U J E : Type 0} → JsonLibrary → SchemaEngine U J E → Registration U J → Type 0
AllResolved {U = U} lib e s =
    (i : ℕ) (u : U) → get_elem? s.references i ≡ some u → IsResolved lib e s u

module _ {U J E : Type 0} (lib : JsonLibrary) (e : SchemaEngine U J E) (us : List Node)
    (catalog : List (Bytes × Json)) (spelled : KeepsSpelling e)
    (documents : (k : Bytes) (j : Json)
      → map_find k catalog ≡ some j
      → Throughout (Within us) (document_node (entry k) j)) where
  -- So much fuel serves so much depth.
  abbrev Serves : ℕ → Type 0
  Serves m =
      Inspects lib e us catalog m (inspect lib e catalog m)
      × Checks lib e us catalog m (check_dialect lib e catalog m)

  Serves-all : (m : ℕ) → Serves m
  unfolding inspect check_dialect
  Serves-all zero = (
    λ n base s own places room. absurd (omega (arith, room)),
    λ identifier s places room. absurd (omega (arith, room)),
  )
  Serves-all (suc m) =
      let (inspects, checks) = Serves-all m in
      (
        Inspects-inspect_with lib e us catalog m (inspect lib e catalog m)
            (check_dialect lib e catalog m) inspects checks,
        Checks-check_dialect_with lib e us catalog spelled documents m (inspect lib e catalog m)
            inspects (check_dialect lib e catalog m) checks,
      )

  pub Grows-inspect : (m : ℕ) → Inspects lib e us catalog m (inspect lib e catalog m)
  Grows-inspect m = (Serves-all m).0

  module _ (m : ℕ) where
    Ends-resource_base :
        (text : Bytes) (s : Registration U J) → Ends (resource_base lib e catalog text s)
    Ends-resource_base text s = Ends-uri_key lib e text >>- λ k _.
        Ends-or_thrown (map_find k s.resources) >>- λ r _. fine tt

    Grows-check_target :
        (text : Bytes) (target : Node) (s : Registration U J)
        → Throughout (Within us) target
        → Placed lib e us catalog s
        → depth us catalog s.active_dialects s < m
        → Fine (Grows lib e us catalog 0 0 s) (check_target lib e catalog m text target s)
    Grows-check_target text target s own places room =
        elim (is_inspected lib e target s)
          as (λ b. Fine (Grows lib e us catalog 0 0 s) (
            if b then done s else do
              _ ← validate_schema lib e target.value
              base ← resource_base lib e catalog text s
              inspect lib e catalog m target base s)) [
                | true ↦ fine (Grows-refl lib e us catalog 0 0 s places)
                | false ↦ Ends-validate_schema lib e target.value >>- λ _ _.
                    Ends-resource_base text s >>- λ base _.
                    Grows-inspect m target base s own places room
              ]

    Grows-check_anchor :
        (text anchor : Bytes) (s : Registration U J)
        → Placed lib e us catalog s
        → Fine (Grows lib e us catalog 0 0 s) (check_anchor lib e catalog text anchor s)
    Grows-check_anchor text anchor s places = Ends-resource_base text s >>- λ base _.
        Ends-uri_key lib e (base ++ ascii "#" ++ anchor) >>- λ k _.
        elim (is_some (map_find k s.anchors))
          as (λ b.
            Fine (Grows lib e us catalog 0 0 s)
              (if b then done s else refused (ascii "Unregistered schema anchor"))) [
                | true ↦ fine (Grows-refl lib e us catalog 0 0 s places)
                | false ↦ refuses
              ]

    Grows-check_fragment :
        (text part : Bytes) (document : Node) (s : Registration U J)
        → Throughout (Within us) document
        → Placed lib e us catalog s
        → depth us catalog s.active_dialects s < m
        → Fine (Grows lib e us catalog 0 0 s) (check_fragment lib e catalog m text part document s)
    Grows-check_fragment text [] document s own places room =
        fine (Grows-refl lib e us catalog 0 0 s places)
    Grows-check_fragment text (c ∷ cs) document s own places room =
        elim (is_pointer lib e catalog (c ∷ cs))
          as (λ b. Fine (Grows lib e us catalog 0 0 s) (
            if not b then check_anchor lib e catalog text (c ∷ cs) s else do
              tokens ← or_thrown (e.pointer_tokens (c ∷ cs))
              target ← or_thrown (follow e document tokens)
              check_target lib e catalog m text target s)) [
                | false ↦ Grows-check_anchor text (c ∷ cs) s places
                | true ↦ Ends-or_thrown (e.pointer_tokens (c ∷ cs)) >>- λ tokens _.
                    Fine-or_thrown (follow e document tokens) >>- λ target found.
                    Grows-check_target text target s
                      (Throughout-follow (Within us) e document tokens target found own) places room
              ]

    pub Grows-inspect_reference :
        (uri : U) (s : Registration U J)
        → Placed lib e us catalog s
        → depth us catalog s.active_dialects s < m
        → Fine
            (λ t. Grows lib e us catalog 0 0 s t × IsResolved lib e t uri)
            (inspect_reference lib e catalog m uri s)
    unfolding inspect_reference
    Grows-inspect_reference uri s places room =
        let text = e.uri_string (resource_uri lib e uri) in
        elim (Bool-cases (is_some (map_find text e.builtin_resources))) [
          | inl builtin ↦
              subst
                (λ b.
                  Fine (λ t. Grows lib e us catalog 0 0 s t × IsResolved lib e t uri)
                    (if b then done s else do
                      document ← load_resource lib e catalog (inspect lib e catalog m) text s
                      check_fragment lib e catalog m text (e.fragment uri) document.0 document.1))
                (sym builtin) (fine (Grows-refl lib e us catalog 0 0 s places, ground arith))
          | inr other ↦
              subst
                (λ b.
                  Fine (λ t. Grows lib e us catalog 0 0 s t × IsResolved lib e t uri)
                    (if b then done s else do
                      document ← load_resource lib e catalog (inspect lib e catalog m) text s
                      check_fragment lib e catalog m text (e.fragment uri) document.0 document.1))
                (sym other)
                (Loaded-load_resource lib e us catalog spelled documents m _ (Grows-inspect m) text
                    s places (omega arith)
                  >>- λ r l.
                      Fine-mono
                        (Grows-check_fragment text (e.fragment uri) r.0 r.1 l.within l.grown.places
                          (leaves lib e us catalog m 0 0 s r.1 l.grown (omega arith)))
                        (λ t g. (
                          Grows-trans lib e us catalog 0 0 0 0 s r.1 t l.grown g,
                          ground (arith, g.kept text l.present),
                        )))
        ]
