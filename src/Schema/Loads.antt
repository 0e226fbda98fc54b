-- ===== src/Schema/Loads.antt =====
-- include/synapse/detail/schema_validator.hpp: `registration::load_resource`, for calls that end.
use synapse_mcp.Base.{
  ◌≡◌, refl, sym, ap, subst, ℕ, suc, ◌+◌, ◌≤◌, ◌<◌, true, false, List, ◌∷◌, Option, none, some,
  Bytes, bytes_eq_refl, if◌then◌else◌, map_find, is_some, arith,
}
use synapse_mcp.Json.{Json, JsonLibrary}
use synapse_mcp.Schema.Backend.{SchemaEngine, KeepsSpelling, done}
use synapse_mcp.Schema.Nodes.{Node, document_node, entry}
use synapse_mcp.Schema.Throughout.{Throughout}
use synapse_mcp.Schema.Registration.{Resource, Registration, uri_key, convert}
use synapse_mcp.Schema.Inspection.{Inspect, add_resource, load_entry, load_found, load_resource}
use synapse_mcp.Schema.Measure.{tally, Within, depth, backlog}
use synapse_mcp.Schema.Counting.{tally-is_absent_entry}
use synapse_mcp.Schema.Growth.{
  Fine, fine, refuses, ◌>>-◌, Fine-self, Fine-or_thrown, Placed, Throughout-map_find, AllConverted,
  Grows, Grows-refl, Grows-le,
}
use synapse_mcp.Schema.Bodies.{Ends-convert, Ends-validate_schema, Inspects}

module _ {U J E : Type 0} (lib : JsonLibrary) (e : SchemaEngine U J E) (us : List Node)
    (catalog : List (Bytes × Json)) (spelled : KeepsSpelling e)
    (documents : (k : Bytes) (j : Json)
      → map_find k catalog ≡ some j
      → Throughout (Within us) (document_node (entry k) j)) where
  pub Fine-uri_key : (text : Bytes) → Fine (λ k. k ≡ text) (uri_key lib e text)
  Fine-uri_key text = Fine-or_thrown (e.parse_uri text) >>- λ u h. fine (spelled text u h)

  -- A loaded document; what was not there takes depth.
  pub record Loaded (text : Bytes) (s : Registration U J) (r : Node × Registration U J)
      : Type 0 where
    pub within : Throughout (Within us) r.0
    pub grown : Grows lib e us catalog 0 0 s r.1
    pub lower :
        (a : List Bytes)
        → depth us catalog a r.1 + (if is_some (map_find text s.resources) then 0 else 1)
          ≤ depth us catalog a s
    pub present : is_some (map_find text r.1.resources) ≡ true

  -- A registration with an entry of the catalog more, before it is inspected.
  abbrev pub started : Bytes → Json → List (Bytes × J) → Registration U J → Registration U J
  started text j converted s =
      record (add_resource lib e text (record { node = document_node (entry text) j; base = text })
        s) { converted = converted }

  depth-started :
      (text : Bytes) (j : Json) (converted : List (Bytes × J)) (s : Registration U J)
      (a : List Bytes)
      → map_find text catalog ≡ some j
      → map_find text s.resources ≡ none
      → depth us catalog a (started text j converted s) + 1 ≤ depth us catalog a s
  unfolding depth tally
  depth-started text j converted s a found fresh =
      let left =
        tally-is_absent_entry text j (record { node = document_node (entry text) j; base = text })
          s.resources catalog fresh found in
      ground (arith, left)

  Loaded-started :
      (text : Bytes) (j : Json) (converted : List (Bytes × J)) (s t : Registration U J)
      → map_find text catalog ≡ some j
      → map_find text s.resources ≡ none
      → Grows lib e us catalog 0 0 (started text j converted s) t
      → Loaded text s (document_node (entry text) j, t)
  unfolding backlog map_find
  Loaded-started text j converted s t found fresh g =
      let less = λ (a : List Bytes). depth-started text j converted s a found fresh in
      record {
        within = documents text j found;
        grown =
            Grows-le lib e us catalog 0 0 (started text j converted s) t s
              (λ a. omega (arith, less a)) (omega arith) (omega arith) refl (λ k h. ground arith)
              (λ i u h. h) g;
        present = g.kept text (ground (arith, bytes_eq_refl text));
        lower = λ a. ground (arith, less a, g.depth_le a);
      }

  abbrev converted_with : Bytes → J → List (Bytes × J) → List (Bytes × J)
  converted_with text value m = if is_some (map_find text m) then m else (text, value) ∷ m

  AllConverted-converted_with :
      (text : Bytes) (j : Json) (value : J) (m : List (Bytes × J))
      → map_find text catalog ≡ some j
      → convert lib e j ≡ done value
      → AllConverted lib e us catalog m
      → AllConverted lib e us catalog (converted_with text value m)
  AllConverted-converted_with text j value m found same all =
      elim (is_some (map_find text m))
        as (λ b. AllConverted lib e us catalog (if b then m else (text, value) ∷ m)) [
          | true ↦ all
          | false ↦ ((j, (found, same)), all)
        ]

  module _ (m : ℕ) (f : Inspect lib e) (inspects : Inspects lib e us catalog m f) where
    Loaded-load_entry :
        (text : Bytes) (o : Option Json) (s : Registration U J)
        → map_find text catalog ≡ o
        → map_find text s.resources ≡ none
        → Placed lib e us catalog s
        → depth us catalog s.active_dialects s < suc m
        → Fine (Loaded text s) (load_entry lib e catalog f text text o s)
    Loaded-load_entry text none s found fresh places room = refuses
    Loaded-load_entry text (some j) s found fresh places room =
        Ends-validate_schema lib e j >>- λ _ _. Fine-self (Ends-convert lib e j) >>- λ value same.
        let converted = converted_with text value s.converted in
        let within = documents text j found in
        inspects (document_node (entry text) j) text (started text j converted s) within
          (
            (within, places.0),
            AllConverted-converted_with text j value s.converted found same places.1,
          )
          (omega (arith, depth-started text j converted s s.active_dialects found fresh))
        >>- λ t g. fine (Loaded-started text j converted s t found fresh g)

    Loaded-load_found :
        (text : Bytes) (o : Option Resource) (s : Registration U J)
        → map_find text s.resources ≡ o
        → Placed lib e us catalog s
        → depth us catalog s.active_dialects s < suc m
        → Fine (Loaded text s) (load_found lib e catalog f text text o s)
    Loaded-load_found text none s found places room =
        Loaded-load_entry text (map_find text catalog) s refl found places room
    Loaded-load_found text (some r) s found places room = fine (record {
      within = Throughout-map_find lib e us catalog text r s.resources found places.0;
      grown = Grows-refl lib e us catalog 0 0 s places;
      lower = λ a. ground arith;
      present = ap is_some found;
    })

    pub Loaded-load_resource :
        (text : Bytes) (s : Registration U J)
        → Placed lib e us catalog s
        → depth us catalog s.active_dialects s < suc m
        → Fine (Loaded text s) (load_resource lib e catalog f text s)
    unfolding load_resource
    Loaded-load_resource text s places room = Fine-uri_key text >>- λ k h.
        subst
          (λ x. Fine (Loaded text s) (load_found lib e catalog f text x (map_find x s.resources) s))
          (sym h) (Loaded-load_found text (map_find text s.resources) s refl places room)
