-- ===== src/Protocol/Descriptors.antt =====
-- include/synapse/protocol.hpp: `to_json` and `from_json` of tools, resources and prompts.
use synapse_mcp.Base.{
  false, List, [], ◌∷◌, Option, none, some, ascii, ◌>>=◌, map, is_empty, if◌then◌else◌,
}
use synapse_mcp.Json.{
  Json, boolean, string, array, object, items_of, object_of, at, value, get_string, get_boolean,
  get_array,
}
use synapse_mcp.Protocol.Types.{Tool, Resource, PromptArgument, Prompt}
use synapse_mcp.Protocol.Envelope.{set_optional}
use mathlib.Core.Option

unfoldable pub tool_to_json : Tool → Json
tool_to_json t = object (
    object_of (
      (ascii "name", string t.name)
      ∷ (ascii "description", string t.description)
      ∷ (ascii "inputSchema", t.input_schema)
      ∷ []))

unfoldable pub tool_from_json : Json → Option Tool
tool_from_json j = do
  name ← at j (ascii "name") >>= get_string
  description ← value get_string j (ascii "description") []
  schema ← at j (ascii "inputSchema")
  some (record { name = name; description = description; input_schema = schema })

unfoldable pub resource_to_json : Resource → Json
resource_to_json r = set_optional (ascii "mimeType") (Option.map string r.mime_type) (
    object (
      object_of (
        (ascii "uri", string r.uri)
        ∷ (ascii "name", string r.name)
        ∷ (ascii "description", string r.description)
        ∷ [])))

unfoldable pub resource_from_json : Json → Option Resource
resource_from_json j = do
  uri ← at j (ascii "uri") >>= get_string
  name ← at j (ascii "name") >>= get_string
  description ← value get_string j (ascii "description") []
  elim (at j (ascii "mimeType")) [
    | none ↦ some (record { uri = uri; name = name; description = description; mime_type = none })
    | some m ↦ do
      mime ← get_string m
      some (record { uri = uri; name = name; description = description; mime_type = some mime })
  ]

unfoldable pub argument_to_json : PromptArgument → Json
argument_to_json a = object (
    object_of (
      (ascii "name", string a.name)
      ∷ (ascii "description", string a.description)
      ∷ (ascii "required", boolean a.required)
      ∷ []))

unfoldable pub argument_from_json : Json → Option PromptArgument
argument_from_json j = do
  name ← at j (ascii "name") >>= get_string
  description ← value get_string j (ascii "description") []
  required ← value get_boolean j (ascii "required") false
  some (record { name = name; description = description; required = required })

unfoldable pub prompt_to_json : Prompt → Json
prompt_to_json p =
    set_optional (ascii "arguments")
      (if is_empty p.arguments
        then none
        else some (array (items_of (map argument_to_json p.arguments))))
      (object (
        object_of
          ((ascii "name", string p.name) ∷ (ascii "description", string p.description) ∷ [])))

-- `get_to` of a vector: every element converts, or the whole throws.
unfoldable pub arguments_from_json : List Json → Option (List PromptArgument)
arguments_from_json [] = some []
arguments_from_json (j ∷ js) = do
  a ← argument_from_json j
  rest ← arguments_from_json js
  some (a ∷ rest)

unfoldable pub prompt_from_json : Json → Option Prompt
prompt_from_json j = do
  name ← at j (ascii "name") >>= get_string
  description ← value get_string j (ascii "description") []
  elim (at j (ascii "arguments")) [
    | none ↦ some (record { name = name; description = description; arguments = [] })
    | some v ↦ do
      arguments ← get_array v >>= arguments_from_json
      some (record { name = name; description = description; arguments = arguments })
  ]
