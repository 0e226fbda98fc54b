-- ===== src/Schema/Inspection.antt =====
-- include/synapse/detail/schema_validator.hpp: the bodies of `inspect`, `load_resource` and
-- `check_dialect`.
use synapse_mcp.Base.{
  Bool, not, ◌||◌, List, [], ◌∷◌, Option, none, some, Bytes, ascii, bytes_eq, if◌then◌else◌, any,
  is_empty, is_some, map_find,
}
use synapse_mcp.Json.{Json, is_object, JsonLibrary}
use synapse_mcp.Schema.Backend.{SchemaEngine, Outcome, done, refused, ◌>>=◌, or_thrown, text_of}
use synapse_mcp.Schema.Nodes.{entry, Node, address_eq, document_node, member_node, subschemas}
use synapse_mcp.Schema.Registration.{
  Resource, Registration, is_member, uri_key, resource_uri, convert, validate_schema, identify,
  check_vocabulary, add_anchor, add_reference,
}

module _ {U J E : Type 0} (lib : JsonLibrary) (e : SchemaEngine U J E) where
  abbrev pub mark : Node → Registration U J → Registration U J
  mark n s = record s { inspected = n.address ∷ s.inspected }

  abbrev pub is_inspected : Node → Registration U J → Bool
  is_inspected n s = any (address_eq n.address) s.inspected

  abbrev pub add_resource : Bytes → Resource → Registration U J → Registration U J
  add_resource k r s = record s { resources = (k, r) ∷ s.resources }

  -- The functions call one another: a body is given the calls that it makes.
  abbrev pub Inspect : Type 0
  Inspect = Node → Bytes → Registration U J → Outcome (Registration U J)

  abbrev pub CheckDialect : Type 0
  CheckDialect = Bytes → Registration U J → Outcome (Registration U J)

  unfoldable pub inspect_all :
      Inspect → Bytes → List Node → Registration U J → Outcome (Registration U J)
  inspect_all inspect base [] s = done s
  inspect_all inspect base (n ∷ ns) s = do t ← inspect n base s; inspect_all inspect base ns t

  abbrev pub check_schema :
      CheckDialect → Option Node → Registration U J → Outcome (Registration U J)
  check_schema dialect none s = done s
  check_schema dialect (some schema) s = do text ← text_of schema.value; dialect text s

  -- The body of `inspect` behind its test.
  unfoldable pub inspect_new :
      Inspect → CheckDialect → Node → Bytes → Registration U J → Outcome (Registration U J)
  unfolding identify inspect_all
  inspect_new inspect dialect n base s = do
    r ← identify lib e base n (mark n s)
    s₁ ← check_schema dialect (member_node n (ascii "$schema")) r.1
    _ ← check_vocabulary lib e n
    s₂ ← add_anchor lib e r.0 n (ascii "$anchor") s₁
    s₃ ← add_anchor lib e r.0 n (ascii "$dynamicAnchor") s₂
    s₄ ← add_reference lib e r.0 n (ascii "$ref") s₃
    s₅ ← add_reference lib e r.0 n (ascii "$dynamicRef") s₄
    inspect_all inspect r.0 (subschemas n) s₅

  unfoldable pub inspect_with :
      Inspect → CheckDialect → Node → Bytes → Registration U J → Outcome (Registration U J)
  unfolding inspect_new
  inspect_with inspect dialect n base s =
      if not (is_object n.value) || is_inspected n s
      then done s
      else inspect_new inspect dialect n base s

  module _ (catalog : List (Bytes × Json)) where
    abbrev pub load_entry :
        Inspect → Bytes → Bytes → Option Json → Registration U J → Outcome (Node × Registration U J)
    load_entry inspect text k none s = refused (ascii "Unregistered offline schema resource")
    load_entry inspect text k (some document) s = do
      _ ← validate_schema lib e document
      value ← convert lib e document
      let n = document_node (entry text) document
      let added = add_resource k (record { node = n; base = text }) s
      t ← inspect n text (record added {
        converted =
            if is_some (map_find text s.converted)
            then s.converted
            else (text, value) ∷ s.converted;
      })
      done (n, t)

    abbrev pub load_found :
        Inspect
        → Bytes
        → Bytes
        → Option Resource
        → Registration U J
        → Outcome (Node × Registration U J)
    load_found inspect text k (some r) s = done (r.node, s)
    load_found inspect text k none s = load_entry inspect text k (map_find text catalog) s

    unfoldable pub load_resource :
        Inspect → Bytes → Registration U J → Outcome (Node × Registration U J)
    unfolding validate_schema convert
    load_resource inspect text s = do
      k ← uri_key lib e text
      load_found inspect text k (map_find k s.resources) s

    abbrev pub unsupported_dialect : {A : Type 0} → Outcome A
    unsupported_dialect = refused (ascii "Unsupported schema dialect")

    -- The first text that is the key goes.
    abbrev pub erase : Bytes → List Bytes → List Bytes
    erase k [] = []
    erase k (j ∷ js) = let rest = erase k js in if bytes_eq k j then js else j ∷ rest

    abbrev pub meta_dialect :
        CheckDialect → Bytes → Option Node → Registration U J → Outcome (Registration U J)
    meta_dialect dialect k none s = unsupported_dialect
    meta_dialect dialect k (some schema) s = do
      text ← text_of schema.value
      t ← dialect text s
      done (record t {
        active_dialects = erase k t.active_dialects;
        checked_dialects = k ∷ t.checked_dialects;
      })

    abbrev pub is_checked : Bytes → Registration U J → Bool
    is_checked k s = bytes_eq k e.draft202012 || is_member k s.checked_dialects

    abbrev pub enter_new :
        Inspect → CheckDialect → Bytes → Registration U J → Outcome (Registration U J)
    enter_new inspect dialect k s = do
      meta ← load_resource inspect k (record s { active_dialects = k ∷ s.active_dialects })
      meta_dialect dialect k (member_node meta.0 (ascii "$schema")) meta.1

    abbrev pub enter_dialect :
        Inspect → CheckDialect → Bytes → Registration U J → Outcome (Registration U J)
    enter_dialect inspect dialect k s =
        if is_checked k s
        then done s
        else if is_member k s.active_dialects
        then refused (ascii "Cyclic schema dialect declaration")
        else enter_new inspect dialect k s

    unfoldable pub check_dialect_with :
        Inspect → CheckDialect → Bytes → Registration U J → Outcome (Registration U J)
    unfolding load_resource resource_uri
    check_dialect_with inspect dialect identifier s = do
      u ← or_thrown (e.parse_uri identifier)
      if not (e.is_absolute u) || not (is_empty (e.fragment u))
          then unsupported_dialect
          else enter_dialect inspect dialect (e.uri_string (resource_uri lib e u)) s
