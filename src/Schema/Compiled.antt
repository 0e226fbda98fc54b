-- ===== src/Schema/Compiled.antt =====
-- include/synapse/detail/schema_validator.hpp: the constructor of `registration`.
use synapse_mcp.Base.{◌≡◌, suc, ◌+◌, ◌*◌, ◌≤◌, ◌<◌, List, [], Bytes, length, arith}
use synapse_mcp.Json.{Json, JsonLibrary}
use synapse_mcp.Schema.Backend.{SchemaEngine, KeepsSpelling}
use synapse_mcp.Schema.Nodes.{root, document_node}
use synapse_mcp.Schema.Universe.{universe}
use synapse_mcp.Schema.Registration.{Registration}
use synapse_mcp.Schema.Measure.{
  is_uninspected, is_unloaded, tally-length, Within-root, Within-entry, is_inactive, depth, backlog,
}
use synapse_mcp.Schema.Growth.{Fine, ◌>>-◌, Fine-mono, Placed, Grows, Grows-trans}
use synapse_mcp.Schema.Additions.{Ends-uri_key}
use synapse_mcp.Schema.Bodies.{Ends-validate_schema, leaves}
use synapse_mcp.Schema.Compile.{register, first_registration, enough_rounds, enough_fuel}
use synapse_mcp.Schema.Termination.{AllResolved, Grows-inspect}
use synapse_mcp.Schema.Registered.{Grows-inspect_references}

module _ {U J E : Type 0} (lib : JsonLibrary) (e : SchemaEngine U J E)
    (catalog : List (Bytes × Json)) where
  -- A registration of documents: its resources lie in them, what is converted is one of them, each value
  -- has added two references at most, every reference is resolved, and no dialect is still being checked.
  pub record IsRegistered (schema : Json) (s : Registration U J) : Type 0 where
    pub within : Placed lib e (universe schema catalog) catalog s
    pub bounded : length s.references ≤ 2 * length (universe schema catalog)
    pub settled : s.active_dialects ≡ []
    pub resolved : AllResolved lib e s

  IsRegistered-Grows :
      (schema : Json) (k : Bytes) (t : Registration U J)
      → Grows lib e
          (universe schema catalog)
          catalog
          0
          0
          (first_registration lib e catalog k schema)
          t
      → AllResolved lib e t
      → IsRegistered schema t
  unfolding backlog
  IsRegistered-Grows schema k t g all = record {
    within = g.places;
    bounded = omega (
      arith,
      g.backlog_le,
      tally-length (is_uninspected (first_registration lib e catalog k schema))
          (universe schema catalog),
    );
    settled = g.active;
    resolved = all;
  }

  depth-first_registration :
      (schema : Json) (k : Bytes)
      → depth (universe schema catalog) catalog [] (first_registration lib e catalog k schema)
        ≤ suc (2 * length (universe schema catalog) + 2 * length catalog)
  unfolding depth
  depth-first_registration schema k =
      let s = first_registration lib e catalog k schema in
      omega (
        arith,
        tally-length (is_uninspected s) (universe schema catalog),
        tally-length (is_unloaded s) catalog,
        tally-length (is_inactive []) s.resources,
      )

  backlog-first_registration :
      (schema : Json) (k : Bytes)
      → backlog (universe schema catalog) (first_registration lib e catalog k schema)
        ≤ 2 * length (universe schema catalog)
  unfolding backlog
  backlog-first_registration schema k = omega (
    arith,
    tally-length (is_uninspected (first_registration lib e catalog k schema))
        (universe schema catalog),
  )

  -- The registration of a schema ends: it refuses, throws, or gives a registration, and never runs out of
  -- the fuel that `compile_schema` takes. Every resource of the registration, with all below it, is a
  -- value of the schema or of the catalog at its address, what was converted is an entry of the catalog,
  -- there are at most two references for each value of these documents, the document of each reference is
  -- a builtin resource or registered, and no dialect is still being checked. The condition is that the engine keeps a URI in the spelling that it was read from.
  pub register-IsRegistered :
      KeepsSpelling e
      → (schema : Json)
      → Fine (IsRegistered schema) (
          register lib e catalog
            (enough_rounds lib e catalog schema)
            (enough_fuel lib e catalog schema)
            schema)
  unfolding register
  register-IsRegistered spelled schema =
      let us = universe schema catalog in
      let m = enough_fuel lib e catalog schema in
      Ends-validate_schema lib e schema >>- λ _ _. Ends-uri_key lib e e.default_base_uri >>- λ k _.
      let s = first_registration lib e catalog k schema in
      let root_within = Within-root schema catalog in
      let left = backlog-first_registration schema k in
      let room : depth us catalog [] s < m = omega (arith, depth-first_registration schema k) in
      Grows-inspect lib e us catalog spelled (λ i j. Within-entry schema i j catalog) m
        (document_node root schema) e.default_base_uri s root_within ((root_within, tt), tt) room
      >>- λ t g.
          Fine-mono
            (Grows-inspect_references lib e us catalog spelled
              (λ i j. Within-entry schema i j catalog) m (enough_rounds lib e catalog schema) 0 t
              g.places (leaves lib e us catalog m 0 0 s t g (omega (arith, room))) (omega arith)
              (omega (arith, g.backlog_le, left)) (λ j u below found. absurd (omega arith)))
            (λ u (h, all).
              IsRegistered-Grows schema k u (Grows-trans lib e us catalog 0 0 0 0 s t u g h) all)
