-- ===== src/Server/Register.antt =====
-- include/synapse/server.hpp: registration of tools, resources and prompts.
use synapse_mcp.Base.{
  Bool, true, false, not, ◌&&◌, ◌||◌, List, [], ◌∷◌, Option, none, some, Bytes, ascii,
  if◌then◌else◌, Expected, ok, err, is_empty, is_some, map_emplace, map_contains, all,
}
use synapse_mcp.Json.{string, is_object, contains, JsonLibrary, dump}
use synapse_mcp.Decoder.{member_is, is_text}
use synapse_mcp.Protocol.{Tool, Resource, PromptArgument, Prompt}
use synapse_mcp.Handlers.{
  SdkError, invalid_state, invalid_schema, ToolHandler, ResourceHandler, PromptHandler,
}
use synapse_mcp.Policy.{is_control}
use synapse_mcp.Schema.{CompiledSchema}
use synapse_mcp.Uri.{valid_resource_uri}
use synapse_mcp.Server.Types.{
  Lifecycle, configuring, RegisteredTool, RegisteredResource, RegisteredPrompt, Server, Environment,
}

abbrev pub local_error {ℓ} : {A : Type ℓ} → Bytes → Expected A SdkError
local_error message = err (record { code = invalid_state; message = message })

unfoldable pub safe_text : JsonLibrary → Bytes → Bool
safe_text lib text = all (λ ch. not (is_control ch)) text && is_some (dump lib (string text))

abbrev pub is_configuring : Lifecycle → Bool
is_configuring configuring = true
is_configuring _ = false

-- The refused descriptors of `register_tool`; the handler may be empty.
unfoldable pub valid_tool : JsonLibrary → List (Bytes × RegisteredTool) → Tool → Bool
valid_tool lib tools t =
    not (is_empty t.name)
    && safe_text lib t.name
    && safe_text lib t.description
    && not (map_contains t.name tools)
    && is_object t.input_schema
    && member_is (is_text (ascii "object")) t.input_schema (ascii "type")
    && (not (contains t.input_schema (ascii "properties"))
        || member_is is_object t.input_schema (ascii "properties"))

unfoldable pub valid_resource : JsonLibrary → List (Bytes × RegisteredResource) → Resource → Bool
valid_resource lib resources r =
    valid_resource_uri r.uri
    && not (is_empty r.name)
    && safe_text lib r.name
    && safe_text lib r.description
    && (elim r.mime_type [ none ↦ true | some m ↦ not (is_empty m) && safe_text lib m ])
    && not (map_contains r.uri resources)

-- The loop over the arguments, over the names seen.
unfoldable pub valid_arguments : JsonLibrary → List (Bytes × Bool) → List PromptArgument → Bool
valid_arguments lib names [] = true
valid_arguments lib names (a ∷ rest) =
    not (is_empty a.name)
    && safe_text lib a.name
    && safe_text lib a.description
    && not (map_contains a.name names)
    && valid_arguments lib (map_emplace a.name a.required names) rest

unfoldable pub valid_prompt : JsonLibrary → List (Bytes × RegisteredPrompt) → Prompt → Bool
valid_prompt lib prompts p =
    not (is_empty p.name)
    && safe_text lib p.name
    && safe_text lib p.description
    && not (map_contains p.name prompts)

module _ {D T : Type 0} (env : Environment D T) where
  abbrev add_tool :
      Tool
      → ToolHandler
      → Expected CompiledSchema SdkError
      → Server D T
      → Server D T × Expected (Unit {0}) SdkError
  add_tool descriptor handler (err e) s = (s, err e)
  add_tool descriptor handler (ok validator) s =
      (record s { tools = map_emplace descriptor.name entry s.tools }, ok tt)
    where
      entry : RegisteredTool
      entry = record { descriptor = descriptor; handler = handler; validator = validator }

  unfoldable pub register_tool :
      Tool → Option ToolHandler → Server D T → Server D T × Expected (Unit {0}) SdkError
  unfolding valid_tool
  register_tool descriptor handler s =
      let invalid =
        err (record { code = invalid_schema; message = ascii "Invalid tool descriptor" }) in
      if not (is_configuring s.state)
      then (s, local_error (ascii "Registration is frozen"))
      else elim handler [
        | none ↦ (s, invalid)
        | some h ↦
            if not (valid_tool env.lib s.tools descriptor)
            then (s, invalid)
            else add_tool descriptor h (env.compile_schema descriptor.input_schema) s
      ]

  unfoldable pub register_resource :
      Resource → Option ResourceHandler → Server D T → Server D T × Expected (Unit {0}) SdkError
  unfolding valid_resource
  register_resource descriptor handler s =
      let invalid = local_error (ascii "Invalid resource descriptor") in
      if not (is_configuring s.state)
      then (s, local_error (ascii "Registration is frozen"))
      else elim handler [
        | none ↦ (s, invalid)
        | some h ↦ if not (valid_resource env.lib s.resources descriptor) then (s, invalid) else (
          record s {
            resources =
                map_emplace descriptor.uri (record { descriptor = descriptor; handler = h })
                  s.resources;
          },
          ok tt,
        )
      ]

  unfoldable pub register_prompt :
      Prompt → Option PromptHandler → Server D T → Server D T × Expected (Unit {0}) SdkError
  unfolding valid_prompt
  register_prompt descriptor handler s =
      let invalid = local_error (ascii "Invalid prompt descriptor") in
      if not (is_configuring s.state)
      then (s, local_error (ascii "Registration is frozen"))
      else elim handler [
        | none ↦ (s, invalid)
        | some h ↦
            if not (
              valid_prompt env.lib s.prompts descriptor
              && valid_arguments env.lib [] descriptor.arguments)
            then (s, invalid)
            else (
              record s {
                prompts =
                    map_emplace descriptor.name (record { descriptor = descriptor; handler = h })
                      s.prompts;
              },
              ok tt,
            )
      ]
