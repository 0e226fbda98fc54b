-- ===== src/Server/Application/Resources.antt =====
-- include/synapse/server.hpp: "resources/list", "resources/templates/list" and "resources/read".
use synapse_mcp.Base.{
  neg, List, [], ◌∷◌, Option, none, some, Bytes, ascii, if◌then◌else◌, Expected, ok, err, map,
  map_find, ◌>>=◌,
}
use mathlib.Core.Option
use synapse_mcp.Json.{Json, string, array, object, items_of, object_of, member}
use synapse_mcp.Protocol.{
  Request, Response, invalid_params, internal_error, resource_to_json, set_optional,
}
use synapse_mcp.Handlers.{HandlerError, ResourceResult, RequestContext}
use synapse_mcp.Policy.{filter}
use synapse_mcp.Uri.{valid_resource_uri}
use synapse_mcp.Server.Types.{RegisteredResource, Server, Environment}
use synapse_mcp.Server.Emit.{failure, failure_code, success}
use synapse_mcp.Server.Application.Tools.{valid_cursor}

unfoldable pub list_templates : Request → Response
list_templates req =
    if valid_cursor req.params
    then success req.id (object (object_of ((ascii "resourceTemplates", array (items_of [])) ∷ [])))
    else failure req.id invalid_params (ascii "Invalid resource parameters")

unfoldable pub list_resources : Request → List (Bytes × RegisteredResource) → Response
list_resources req resources =
    if valid_cursor req.params
    then success req.id (
        object (
          object_of (
            (
              ascii "resources",
              array (
                  items_of (
                    map (λ (r : Bytes × RegisteredResource). resource_to_json r.1.descriptor)
                      resources)),
            )
            ∷ [])))
    else failure req.id invalid_params (ascii "Invalid resource parameters")

-- The parameters of a read: a text that is a valid URI.
unfoldable pub read_uri : Option Json → Option Bytes
read_uri none = none
read_uri (some p) = elim (member p (ascii "uri")) [
  | some (string uri) ↦ if valid_resource_uri uri then some uri else none
  | _ ↦ none
]

-- `content`, and the `contents` around it.
unfoldable pub resource_contents : RegisteredResource → Bytes → Json
resource_contents resource text =
    let content =
      set_optional (ascii "mimeType") (Option.map string resource.descriptor.mime_type) (
        object (
          object_of
            ((ascii "uri", string resource.descriptor.uri) ∷ (ascii "text", string text) ∷ []))) in
    object (object_of ((ascii "contents", array (items_of (content ∷ []))) ∷ []))

abbrev pub deliver_resource : Request → RegisteredResource → Expected Bytes HandlerError → Response
deliver_resource req resource (err _) = failure req.id internal_error (ascii "Internal error")
deliver_resource req resource (ok out) = success req.id (resource_contents resource out)

module _ {D T : Type 0} (env : Environment D T) (s : Server D T) where
  abbrev pub answer_resource :
      Request
      → RequestContext
      → RegisteredResource
      → Expected ResourceResult HandlerError
      → Option Response
  answer_resource req context resource (err _) =
      some (failure req.id internal_error (ascii "Internal error"))
  answer_resource req context resource (ok r) = do
    filtered ← filter env.lib s.options req.method r.text context
    some (deliver_resource req resource filtered)

  unfoldable pub run_resource : Request → RequestContext → RegisteredResource → Option Response
  run_resource req context resource = do
    result ← resource.handler context
    answer_resource req context resource result

  abbrev pub found_resource : Request → RequestContext → Option RegisteredResource → Option Response
  found_resource req context none =
      some (failure_code req.id (neg 32002) (ascii "Resource not found"))
  found_resource req context (some resource) = run_resource req context resource

  abbrev pub named_resource : Request → RequestContext → Option Bytes → Option Response
  named_resource req context none =
      some (failure req.id invalid_params (ascii "Invalid resource parameters"))
  named_resource req context (some uri) = found_resource req context (map_find uri s.resources)

  unfoldable pub read_resource : Request → RequestContext → Option Response
  read_resource req context = named_resource req context (read_uri req.params)
