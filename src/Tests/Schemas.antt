-- ===== src/Tests/Schemas.antt =====
-- The registration of a schema: theorems applied to an engine whose URIs and values are texts.
use synapse_mcp.Base.{
  ◌≡◌, refl, true, List, [], ◌∷◌, none, some, Bytes, ascii, bytes_eq, map_find, ◌==◌, if◌then◌else◌,
}
use synapse_mcp.Json.{Json, string, object, end, field, dump, find_field}
use synapse_mcp.Schema.Backend.{SchemaEngine, KeepsSpelling, done}
use synapse_mcp.Schema.Growth.{Fine}
use synapse_mcp.Schema.Registration.{Registration, check_vocabulary, add_anchor, add_reference}
use synapse_mcp.Schema.Universe.{universe}
use synapse_mcp.Schema.Nodes.{document_node, root, entry, subschemas}
use synapse_mcp.Schema.Compile.{register, resolve, enough_rounds, enough_fuel}
use synapse_mcp.Schema.Compiled.{IsRegistered}
use synapse_mcp.Schema.Offline.{IsOffline}
use synapse_mcp.Schema
use synapse_mcp.Schema.{representable}
use synapse_mcp.Tests.Fixtures.{lib, braces}

abbrev before_hash : Bytes → Bytes
before_hash [] = []
before_hash (c ∷ cs) = let rest = before_hash cs in if c == b'#' then [] else c ∷ rest

abbrev after_hash : Bytes → Bytes
after_hash [] = []
after_hash (c ∷ cs) = let rest = after_hash cs in if c == b'#' then cs else rest

abbrev engine : SchemaEngine Bytes Bytes Bytes
engine = record {
  parse_uri = λ text. some text;
  uri_of_parts = λ scheme userinfo host port path query fragment. path;
  scheme = λ u. [];
  encoded_userinfo = λ u. [];
  host = λ u. [];
  port = λ u. [];
  encoded_path = before_hash;
  encoded_query = λ u. [];
  fragment = after_hash;
  is_absolute = λ u. true;
  resolve_uri = λ base relative. relative;
  uri_string = λ u. u;
  parse_json = λ text. some text;
  null_json = [];
  satisfies_metaschema = λ value. some true;
  builtin_resources = [];
  default_base_uri = ascii "/";
  draft202012 = ascii "d";
  make_json_schema = λ value resolver. some value;
  pointer_tokens = λ text. some [];
  array_index = λ text. none;
}

engine-KeepsSpelling : KeepsSpelling engine
engine-KeepsSpelling text u h = cc

-- A schema of the dialect of one entry that refers to another.
abbrev schema : Json
schema =
    object
      (field (ascii "$schema") (string (ascii "m")) (field (ascii "$ref") (string (ascii "b")) end))

abbrev dialect : Json
dialect = object (field (ascii "$schema") (string (ascii "d")) end)

abbrev catalog : List (Bytes × Json)
catalog = (ascii "m", dialect) ∷ (ascii "b", object end) ∷ []

register-IsRegistered_example : Fine (IsRegistered lib engine catalog schema) (
    register lib engine catalog
      (enough_rounds lib engine catalog schema)
      (enough_fuel lib engine catalog schema)
      schema)
register-IsRegistered_example =
    Schema.Compiled.register-IsRegistered lib engine catalog engine-KeepsSpelling schema

abbrev registered : Registration Bytes Bytes
registered = record {
  resources =
      (
        ascii "b",
        record { node = document_node (entry (ascii "b")) (object end); base = ascii "b" },
      )
      ∷ (ascii "m", record { node = document_node (entry (ascii "m")) dialect; base = ascii "m" })
      ∷ (ascii "/", record { node = document_node root schema; base = ascii "/" })
      ∷ [];
  anchors = [];
  converted = (ascii "b", braces) ∷ (ascii "m", braces) ∷ [];
  inspected =
      record { document = entry (ascii "b"); way = [] }
      ∷ record { document = entry (ascii "m"); way = [] }
      ∷ record { document = root; way = [] }
      ∷ [];
  checked_dialects = ascii "m" ∷ [];
  active_dialects = [];
  references = ascii "b" ∷ [];
}

registers :
    register lib engine catalog
      (enough_rounds lib engine catalog schema)
      (enough_fuel lib engine catalog schema)
      schema
    ≡ done registered
unfolding register representable dump find_field bytes_eq ascii map_find universe check_vocabulary
    add_anchor add_reference subschemas
registers = refl

resolve-IsOffline_example : IsOffline lib engine catalog schema braces
unfolding resolve map_find bytes_eq ascii
resolve-IsOffline_example =
    Schema.Offline.resolve-IsOffline lib engine catalog engine-KeepsSpelling schema registered
      (ascii "b") braces registers refl
