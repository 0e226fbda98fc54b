-- ===== src/Schema/Dialects.antt =====
-- include/synapse/detail/schema_validator.hpp: `registration::check_dialect`, for calls that end.
use synapse_mcp.Base.{
  ◌≡◌, refl, sym, ap, subst, ◌∙◌, ℕ, suc, ◌+◌, ◌≤◌, ◌<◌, Bool, true, false, not, ◌||◌, List, ◌∷◌,
  Option, none, some, Bytes, ascii, bytes_eq_refl, if◌then◌else◌, map_find, is_some, is_empty,
  arith, Bool-cases, inl, inr,
}
use synapse_mcp.Json.{Json, JsonLibrary}
use synapse_mcp.Schema.Backend.{SchemaEngine, KeepsSpelling, done, refused}
use synapse_mcp.Schema.Nodes.{Node, document_node, entry}
use synapse_mcp.Schema.Throughout.{Throughout}
use synapse_mcp.Schema.Registration.{Registration, resource_uri, is_member}
use synapse_mcp.Schema.Inspection.{
  Inspect, CheckDialect, meta_dialect, enter_new, enter_dialect, unsupported_dialect,
  check_dialect_with, erase, is_checked,
}
use synapse_mcp.Schema.Measure.{Within, depth, backlog}
use synapse_mcp.Schema.Counting.{tally-is_inactive, tally-is_inactive_found}
use synapse_mcp.Schema.Growth.{Fine, fine, refuses, ◌>>-◌, Placed, Grows, Grows-refl}
use synapse_mcp.Schema.Additions.{Ends-or_thrown, Ends-text_of}
use synapse_mcp.Schema.Bodies.{Inspects, Checks}
use synapse_mcp.Schema.Loads.{Loaded-load_resource}

module _ {U J E : Type 0} (lib : JsonLibrary) (e : SchemaEngine U J E) (us : List Node)
    (catalog : List (Bytes × Json)) (spelled : KeepsSpelling e)
    (documents : (k : Bytes) (j : Json)
      → map_find k catalog ≡ some j
      → Throughout (Within us) (document_node (entry k) j)) where
  module _ (m : ℕ) (f : Inspect lib e) (inspects : Inspects lib e us catalog m f) where
    module _ (g : CheckDialect lib e) (checks : Checks lib e us catalog m g) where
      erase-first : (k : Bytes) (ks : List Bytes) → erase lib e catalog k (k ∷ ks) ≡ ks
      erase-first k ks = ground (arith, bytes_eq_refl k)

      abbrev entered : Bytes → Registration U J → Registration U J
      entered k s = record s { active_dialects = k ∷ s.active_dialects }

      Grows-meta_dialect :
          (k : Bytes) (o : Option Node) (s t : Registration U J)
          → Grows lib e us catalog 0 0 (entered k s) t
          → depth us catalog (k ∷ s.active_dialects) t < m
          → Fine (Grows lib e us catalog 0 0 s) (meta_dialect lib e catalog g k o t)
      unfolding depth backlog
      Grows-meta_dialect k none s t grown room = refuses
      Grows-meta_dialect k (some schema) s t grown room = Ends-text_of schema.value >>- λ text _.
          checks text t grown.places (subst (λ a. depth us catalog a t < m) (sym grown.active) room)
          >>- λ u h. fine (record {
            active =
                ap (erase lib e catalog k) (h.active ∙ grown.active)
                ∙ erase-first k s.active_dialects;
            depth_le = λ a. omega (arith, h.depth_le a, grown.depth_le a);
            backlog_le = omega (arith, h.backlog_le, grown.backlog_le);
            references_le = omega (arith, h.references_le, grown.references_le);
            places = h.places;
            kept = λ j found. h.kept j (grown.kept j found);
            begins = λ i v found. h.begins i v (grown.begins i v found);
          })

      depth-entered :
          (k : Bytes) (s : Registration U J)
          → is_member k s.active_dialects ≡ false
          → depth us catalog (k ∷ s.active_dialects) s
              + (if is_some (map_find k s.resources) then 1 else 0)
            ≤ depth us catalog s.active_dialects s
      unfolding depth
      depth-entered k s fresh = elim (Bool-cases (is_some (map_find k s.resources))) [
        | inl found ↦
            ground (arith, tally-is_inactive_found k s.active_dialects s.resources fresh found)
        | inr other ↦ ground (arith, tally-is_inactive k s.active_dialects s.resources)
      ]

      Grows-enter_new :
          (k : Bytes) (s : Registration U J)
          → is_member k s.active_dialects ≡ false
          → Placed lib e us catalog s
          → depth us catalog s.active_dialects s < suc m
          → Fine (Grows lib e us catalog 0 0 s) (enter_new lib e catalog f g k s)
      unfolding depth backlog
      Grows-enter_new k s fresh places room =
          let less = depth-entered k s fresh in
          Loaded-load_resource lib e us catalog spelled documents m f inspects k (entered k s)
            places (ground (arith, less))
          >>- λ r l.
              Grows-meta_dialect k _ s r.1 l.grown
                (ground (arith, less, l.lower (k ∷ s.active_dialects)))

      Grows-tested :
          (k : Bytes) (s : Registration U J) (b : Bool)
          → is_member k s.active_dialects ≡ b
          → Placed lib e us catalog s
          → depth us catalog s.active_dialects s < suc m
          → Fine (Grows lib e us catalog 0 0 s) (
              if b
              then refused (ascii "Cyclic schema dialect declaration")
              else enter_new lib e catalog f g k s)
      Grows-tested k s true h places room = refuses
      Grows-tested k s false fresh places room = Grows-enter_new k s fresh places room

      Grows-enter_dialect :
          (k : Bytes) (s : Registration U J)
          → Placed lib e us catalog s
          → depth us catalog s.active_dialects s < suc m
          → Fine (Grows lib e us catalog 0 0 s) (enter_dialect lib e catalog f g k s)
      Grows-enter_dialect k s places room =
          elim (is_checked lib e catalog k s)
            as (λ b. Fine (Grows lib e us catalog 0 0 s) (
              if b
              then done s
              else if is_member k s.active_dialects
              then refused (ascii "Cyclic schema dialect declaration")
              else enter_new lib e catalog f g k s)) [
                | true ↦ fine (Grows-refl lib e us catalog 0 0 s places)
                | false ↦ Grows-tested k s (is_member k s.active_dialects) refl places room
              ]

      pub Checks-check_dialect_with :
          Checks lib e us catalog (suc m) (check_dialect_with lib e catalog f g)
      unfolding check_dialect_with
      Checks-check_dialect_with identifier s places room =
          Ends-or_thrown (e.parse_uri identifier) >>- λ u _.
          elim (not (e.is_absolute u) || not (is_empty (e.fragment u)))
            as (λ b. Fine (Grows lib e us catalog 0 0 s) (
              if b
              then unsupported_dialect lib e catalog
              else enter_dialect lib e catalog f g (e.uri_string (resource_uri lib e u)) s)) [
                | true ↦ refuses
                | false ↦ Grows-enter_dialect (e.uri_string (resource_uri lib e u)) s places room
              ]
