-- ===== src/Schema/Compile.antt =====
-- include/synapse/detail/schema_validator.hpp: the recursion of a registration, its references, and
-- `compile_schema`. The recursion, and the loop over the references, run on fuel.
use synapse_mcp.Base.{
  ℕ, zero, suc, ◌+◌, ◌*◌, Bool, false, not, List, [], ◌∷◌, ◌++◌, Option, none, some, Bytes, ascii,
  ◌==◌, if◌then◌else◌, is_empty, is_some, map_find, length, Expected, ok, err,
}
use synapse_mcp.Json.{Json, JsonLibrary}
use synapse_mcp.Handlers.{SdkError, invalid_schema}
use synapse_mcp.Schema.Backend.{SchemaEngine, Outcome, done, refused, no_fuel, ◌>>=◌, or_thrown}
use synapse_mcp.Schema.Nodes.{root, Node, document_node, follow}
use synapse_mcp.Schema.Universe.{universe}
use synapse_mcp.Schema.Registration.{
  get_elem?, Resource, Registration, uri_key, resource_uri, convert, validate_schema,
}
use synapse_mcp.Schema.Inspection.{is_inspected, inspect_with, load_resource, check_dialect_with}

module _ {U J E : Type 0} (lib : JsonLibrary) (e : SchemaEngine U J E)
    (catalog : List (Bytes × Json)) where
  unfoldable mutual
    unfolding inspect_with check_dialect_with

    pub inspect : ℕ → Node → Bytes → Registration U J → Outcome (Registration U J)
    inspect zero n base s = no_fuel
    inspect (suc fuel) n base s = inspect_with lib e (inspect fuel) (check_dialect fuel) n base s

    pub check_dialect : ℕ → Bytes → Registration U J → Outcome (Registration U J)
    check_dialect zero identifier s = no_fuel
    check_dialect (suc fuel) identifier s =
        check_dialect_with lib e catalog (inspect fuel) (check_dialect fuel) identifier s

  -- `resources_.at(...)`.
  abbrev pub resource_base : Bytes → Registration U J → Outcome Bytes
  resource_base text s = do
    k ← uri_key lib e text
    r ← or_thrown (map_find k s.resources)
    done r.base

  abbrev pub check_anchor : Bytes → Bytes → Registration U J → Outcome (Registration U J)
  check_anchor text anchor s = do
    base ← resource_base text s
    k ← uri_key lib e (base ++ ascii "#" ++ anchor)
    if is_some (map_find k s.anchors) then done s else refused (ascii "Unregistered schema anchor")

  abbrev pub check_target : ℕ → Bytes → Node → Registration U J → Outcome (Registration U J)
  check_target fuel text target s = if is_inspected lib e target s then done s else do
    _ ← validate_schema lib e target.value
    base ← resource_base text s
    inspect fuel target base s

  abbrev pub is_pointer : Bytes → Bool
  is_pointer [] = false
  is_pointer (c ∷ cs) = c == b'/'

  abbrev pub check_fragment :
      ℕ → Bytes → Bytes → Node → Registration U J → Outcome (Registration U J)
  check_fragment fuel text part document s =
      if is_empty part
      then done s
      else if not (is_pointer part)
      then check_anchor text part s
      else do
        tokens ← or_thrown (e.pointer_tokens part)
        target ← or_thrown (follow e document tokens)
        check_target fuel text target s

  unfoldable pub inspect_reference : ℕ → U → Registration U J → Outcome (Registration U J)
  unfolding inspect load_resource resource_uri validate_schema
  inspect_reference fuel uri s =
      let text = e.uri_string (resource_uri lib e uri) in
      if is_some (map_find text e.builtin_resources) then done s else do
        document ← load_resource lib e catalog (inspect fuel) text s
        check_fragment fuel text (e.fragment uri) document.0 document.1

  -- The loop from an index on; the list may grow on the way.
  unfoldable pub inspect_references : ℕ → ℕ → ℕ → Registration U J → Outcome (Registration U J)
  unfolding inspect_reference
  inspect_references zero fuel i s = no_fuel
  inspect_references (suc rounds) fuel i s = elim (get_elem? s.references i) [
    | none ↦ done s
    | some uri ↦ do t ← inspect_reference fuel uri s; inspect_references rounds fuel (suc i) t
  ]

  abbrev pub first_registration : Bytes → Json → Registration U J
  first_registration k schema = record {
    resources = (k, record { node = document_node root schema; base = e.default_base_uri }) ∷ [];
    anchors = [];
    converted = [];
    inspected = [];
    checked_dialects = [];
    active_dialects = [];
    references = [];
  }

  -- The constructor of `registration`.
  unfoldable pub register : ℕ → ℕ → Json → Outcome (Registration U J)
  unfolding inspect inspect_references validate_schema
  register rounds fuel schema = do
    _ ← validate_schema lib e schema
    k ← uri_key lib e e.default_base_uri
    s ← inspect fuel (document_node root schema) e.default_base_uri (first_registration k schema)
    inspect_references rounds fuel 0 s

  abbrev pub found_resource : Option Resource → Option J
  found_resource none = some e.null_json
  found_resource (some r) = elim (convert lib e r.node.value) [ done value ↦ some value | _ ↦ none ]

  abbrev pub resource_at : Bytes → Registration U J → Option J
  resource_at text s = elim (uri_key lib e text) [
    | done k ↦ found_resource (map_find k s.resources)
    | _ ↦ none
  ]

  -- `resolve`; `none` is an exception.
  unfoldable pub resolve : Registration U J → U → Option J
  unfolding resource_uri convert
  resolve s uri =
      let text = e.uri_string (resource_uri lib e uri) in
      elim (map_find text e.builtin_resources) [
        | some value ↦ some value
        | none ↦ elim (map_find text s.converted) [
          | some value ↦ some value
          | none ↦ resource_at text s
        ]
      ]

  abbrev pub compiled : Outcome E → Expected E SdkError
  compiled (done evaluator) = ok evaluator
  compiled (refused message) = err (record { code = invalid_schema; message = message })
  compiled _ = err (record { code = invalid_schema; message = ascii "Schema registration failed" })

  abbrev pub evaluator_of : ℕ → ℕ → Json → Outcome E
  evaluator_of rounds fuel schema = do
    s ← register rounds fuel schema
    value ← convert lib e schema
    or_thrown (e.make_json_schema value (resolve s))

  -- Enough for every schema: each round takes up a reference, of which an inspected value adds two at
  -- most, and each level of the recursion inspects a value, adds a resource, or enters the dialect of
  -- a resource.
  abbrev pub enough_rounds : Json → ℕ
  enough_rounds schema = suc (2 * length (universe schema catalog))

  abbrev pub enough_fuel : Json → ℕ
  enough_fuel schema = suc (suc (2 * length (universe schema catalog) + 2 * length catalog))

  unfoldable pub compile_schema : Json → Expected E SdkError
  unfolding register resolve convert
  compile_schema schema = compiled (evaluator_of (enough_rounds schema) (enough_fuel schema) schema)
