-- ===== src/Schema/Registration.antt =====
-- include/synapse/detail/schema_validator.hpp: `registration`. A map whose keys are URIs has their texts
-- as its keys; no order of a map is observed.
use synapse_mcp.Base.{
  ℕ, zero, suc, Bool, not, ◌&&◌, List, [], ◌∷◌, ◌++◌, map, Option, none, some, Bytes, ascii,
  bytes_eq, if◌then◌else◌, any, is_some, map_find,
}
use synapse_mcp.Json.{Json, Fields, end, field, array, object, null, to_list, JsonLibrary, dump}
use synapse_mcp.Schema.Validate.{representable}
use synapse_mcp.Schema.Backend.{
  SchemaEngine, Outcome, done, refused, ◌>>=◌, or_thrown, text_of, flag_of,
}
use synapse_mcp.Schema.Nodes.{Address, Node, address_eq, member_node}

pub record Resource : Type 0 where
  pub node : Node
  pub base : Bytes

pub record Registration (U J : Type 0) : Type 0 where
  pub resources : List (Bytes × Resource)
  pub anchors : List (Bytes × Address)
  pub converted : List (Bytes × J)
  pub inspected : List Address
  pub checked_dialects : List Bytes
  pub active_dialects : List Bytes
  pub references : List U

-- `references_[index]`; `none` is the end.
abbrev pub get_elem? : {A : Type 0} → List A → ℕ → Option A
get_elem? [] i = none
get_elem? (x ∷ xs) zero = some x
get_elem? (x ∷ xs) (suc i) = get_elem? xs i

abbrev pub to_entries : Fields → List (Bytes × Json)
to_entries end = []
to_entries (field k v fs) = (k, v) ∷ to_entries fs

abbrev pub is_member : Bytes → List Bytes → Bool
is_member k ks = any (bytes_eq k) ks

abbrev pub vocabulary_names : List Bytes
vocabulary_names =
    ascii "core"
    ∷ ascii "applicator"
    ∷ ascii "unevaluated"
    ∷ ascii "validation"
    ∷ ascii "meta-data"
    ∷ ascii "format-annotation"
    ∷ ascii "content"
    ∷ []

unfoldable pub supported_vocabulary : Bytes → Bool
supported_vocabulary uri =
    any (λ name. bytes_eq uri (ascii "https://json-schema.org/draft/2020-12/vocab/" ++ name))
      vocabulary_names

-- `items()`: an item of an array stands under the text of its index, which is no vocabulary either, and
-- a value that holds no others under the empty text.
abbrev pub entries_of : Json → List (Bytes × Json)
entries_of null = []
entries_of (object fs) = to_entries fs
entries_of (array xs) = map (λ x. ([], x)) (to_list xs)
entries_of j = ([], j) ∷ []

module _ {U J E : Type 0} (lib : JsonLibrary) (e : SchemaEngine U J E) where
  -- The key of a map: a URI from a text, in its own spelling.
  abbrev pub uri_key : Bytes → Outcome Bytes
  uri_key text = do u ← or_thrown (e.parse_uri text); done (e.uri_string u)

  unfoldable pub resource_uri : U → U
  resource_uri u =
      e.uri_of_parts (e.scheme u) (e.encoded_userinfo u) (e.host u) (e.port u) (e.encoded_path u)
        (e.encoded_query u) []

  unfoldable pub convert : Json → Outcome J
  convert value = do text ← or_thrown (dump lib value); or_thrown (e.parse_json text)

  abbrev pub invalid_document : {A : Type 0} → Outcome A
  invalid_document = refused (ascii "Invalid schema document")

  unfoldable pub validate_schema : Json → Outcome (Unit {0})
  unfolding convert
  validate_schema schema = if not (representable schema) then invalid_document else do
    value ← convert schema
    fine ← or_thrown (e.satisfies_metaschema value)
    if fine then done tt else invalid_document

  abbrev pub rebase : Address → Bytes → Bytes × Resource → Bytes × Resource
  rebase a base (k, r) = (k, if address_eq r.node.address a then record r { base = base } else r)

  -- `resources_.emplace`, and the test of what is there already.
  abbrev pub placed :
      Bytes → Node → Bytes → Option Resource → Registration U J → Outcome (Registration U J)
  placed k n base none s =
      done (record s { resources = (k, record { node = n; base = base }) ∷ s.resources })
  placed k n base (some r) s =
      if address_eq r.node.address n.address
      then done s
      else refused (ascii "Duplicate schema resource identifier")

  abbrev pub identified :
      Bytes → Node → Option Node → Registration U J → Outcome (Bytes × Registration U J)
  identified base n none s = done (base, s)
  identified base n (some id) s = do
    text ← text_of id.value
    from ← or_thrown (e.parse_uri base)
    relative ← or_thrown (e.parse_uri text)
    let base' = e.uri_string (resource_uri (e.resolve_uri from relative))
    k ← uri_key base'
    let rebased = record s { resources = map (rebase n.address base') s.resources }
    t ← placed k n base' (map_find k rebased.resources) rebased
    done (base', t)

  -- "$id".
  unfoldable pub identify : Bytes → Node → Registration U J → Outcome (Bytes × Registration U J)
  unfolding resource_uri
  identify base n s = identified base n (member_node n (ascii "$id")) s

  abbrev pub vocabularies : List (Bytes × Json) → Outcome (Unit {0})
  vocabularies [] = done tt
  vocabularies ((uri, required) ∷ entries) =
      let rest = vocabularies entries in
      flag_of required >>= λ is_required.
      if is_required && not (supported_vocabulary uri)
      then refused (ascii "Unsupported required schema vocabulary")
      else rest

  -- "$vocabulary".
  unfoldable pub check_vocabulary : Node → Outcome (Unit {0})
  unfolding supported_vocabulary
  check_vocabulary n = elim (member_node n (ascii "$vocabulary")) [
    | none ↦ done tt
    | some v ↦ vocabularies (entries_of v.value)
  ]

  abbrev pub new_anchor : Bytes → Address → Registration U J → Registration U J
  new_anchor k a s =
      if is_some (map_find k s.anchors) then s else record s { anchors = (k, a) ∷ s.anchors }

  abbrev pub anchored : Bytes → Node → Option Node → Registration U J → Outcome (Registration U J)
  anchored base n none s = done s
  anchored base n (some anchor) s = do
    text ← text_of anchor.value
    k ← uri_key (base ++ ascii "#" ++ text)
    done (new_anchor k n.address s)

  -- "$anchor" and "$dynamicAnchor"; `emplace` keeps what is there.
  unfoldable pub add_anchor : Bytes → Node → Bytes → Registration U J → Outcome (Registration U J)
  add_anchor base n name s = anchored base n (member_node n name) s

  abbrev pub referenced : Bytes → Option Node → Registration U J → Outcome (Registration U J)
  referenced base none s = done s
  referenced base (some reference) s = do
    text ← text_of reference.value
    from ← or_thrown (e.parse_uri base)
    relative ← or_thrown (e.parse_uri text)
    done (record s { references = s.references ++ e.resolve_uri from relative ∷ [] })

  -- "$ref" and "$dynamicRef".
  unfoldable pub add_reference :
      Bytes → Node → Bytes → Registration U J → Outcome (Registration U J)
  add_reference base n name s = referenced base (member_node n name) s
