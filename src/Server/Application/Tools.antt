-- ===== src/Server/Application/Tools.antt =====
-- include/synapse/server.hpp: "tools/list" and "tools/call".
use synapse_mcp.Base.{
  ℕ, ℤ, neg, Bool, true, false, not, ◌&&◌, ◌||◌, List, [], ◌∷◌, Option, none, some, Bytes, ascii,
  if◌then◌else◌, Expected, ok, err, map, map_find, ◌>>=◌,
}
use synapse_mcp.Json.{
  Json, string, array, object, end, is_object, is_string, items_of, object_of, member, contains,
}
use synapse_mcp.Decoder.{member_is}
use synapse_mcp.Protocol.{RpcId, Request, Response, invalid_params, internal_error, tool_to_json}
use synapse_mcp.Handlers.{HandlerError, ToolResult, RequestContext}
use synapse_mcp.Policy.{ServerPolicy, allow, consume, filter}
use synapse_mcp.Schema.{ValidationFailureKind, instance_mismatch, ValidationFailure}
use synapse_mcp.Server.Types.{RegisteredTool, Server, Environment}
use synapse_mcp.Server.Emit.{failure, failure_code, success, tool_output, tool_failure}

-- The parameters of the listing methods: none, or an object whose cursor, if any, is a text.
unfoldable pub valid_cursor : Option Json → Bool
valid_cursor none = true
valid_cursor (some p) =
    is_object p && (not (contains p (ascii "cursor")) || member_is is_string p (ascii "cursor"))

-- The parameters of a call by name: the name, and the arguments where they are given.
unfoldable pub named_call : Option Json → Option (Bytes × Json)
named_call none = none
named_call (some p) =
    let arguments : Json = elim (member p (ascii "arguments")) [ none ↦ object end | some v ↦ v ] in
    if is_object p
      && (not (contains p (ascii "arguments")) || member_is is_object p (ascii "arguments"))
    then elim (member p (ascii "name")) [ some (string name) ↦ some (name, arguments) | _ ↦ none ]
    else none

-- `failure` with a reason in its `data`.
abbrev pub refusal : RpcId → ℤ → Bytes → Bytes → Response
refusal id code message reason = record (failure_code id code message) {
  err = some (record {
    code = code;
    message = message;
    extra = some (object (object_of ((ascii "reason", string reason) ∷ [])));
  });
}

unfoldable pub list_tools : Request → List (Bytes × RegisteredTool) → Response
list_tools req tools =
    if valid_cursor req.params
    then success req.id (
        object (
          object_of (
            (
              ascii "tools",
              array (
                  items_of
                    (map (λ (t : Bytes × RegisteredTool). tool_to_json t.1.descriptor) tools)),
            )
            ∷ [])))
    else failure req.id invalid_params (ascii "Invalid tool parameters")

abbrev pub is_mismatch : ValidationFailureKind → Bool
is_mismatch instance_mismatch = true
is_mismatch _ = false

-- The text of a result or of a handler's error, and whether it is an error.
abbrev pub tool_text : Expected ToolResult HandlerError → Bytes × Bool
tool_text (ok r) = (r.text, false)
tool_text (err e) = (e.public_message, true)

abbrev pub deliver_tool : Request → Bool → Expected Bytes HandlerError → Response
deliver_tool req is_error (err _) = tool_failure req.id
deliver_tool req is_error (ok out) = success req.id (tool_output out is_error)

module _ {D T : Type 0} (env : Environment D T) (s : Server D T) where
  -- A text on its way out, through the filter.
  unfoldable pub tool_reply : Request → RequestContext → Bytes → Bool → Option Response
  tool_reply req context text is_error = do
    filtered ← filter env.lib s.options req.method text context
    some (deliver_tool req is_error filtered)

  abbrev pub answer_tool :
      Request → RequestContext → Expected ToolResult HandlerError → Option Response
  answer_tool req context result = tool_reply req context (tool_text result).0 (tool_text result).1

  abbrev pub validated_tool :
      Request
      → RequestContext
      → RegisteredTool
      → Json
      → Expected (Unit {0}) ValidationFailure
      → Option Response
  validated_tool req context tool arguments (err f) =
      if is_mismatch f.kind
      then tool_reply req context (ascii "Tool arguments do not match schema") true
      else some (failure req.id internal_error (ascii "Internal error"))
  validated_tool req context tool arguments (ok _) = do
    result ← tool.handler arguments context
    answer_tool req context result

  -- Behind admission: the arguments are validated, and the handler is called.
  unfoldable pub run_tool : Request → RequestContext → RegisteredTool → Json → Option Response
  run_tool req context tool arguments =
      validated_tool req context tool arguments (tool.validator arguments)

  abbrev pub metered_tool :
      Request → RequestContext → RegisteredTool → Json → Bool → Option Response
  metered_tool req context tool arguments true = run_tool req context tool arguments
  metered_tool req context tool arguments false =
      some (refusal req.id (neg 32051) (ascii "Rate limited") (ascii "rate_limited"))

  abbrev pub allowed_tool :
      ℕ
      → Request
      → RequestContext
      → RegisteredTool
      → Json
      → Option Bool
      → ServerPolicy D × Option Response
  allowed_tool now req context tool arguments none = (s.policy, none)
  allowed_tool now req context tool arguments (some false) =
      (s.policy, some (refusal req.id (neg 32050) (ascii "Access denied") (ascii "access_denied")))
  allowed_tool now req context tool arguments (some true) =
      let (policy, granted) = consume env.double s.options now s.policy in
      (policy, metered_tool req context tool arguments granted)

  -- Admission: the hook, then the bucket.
  unfoldable pub admit_tool :
      ℕ
      → Request
      → RequestContext
      → Bytes
      → RegisteredTool
      → Json
      → ServerPolicy D × Option Response
  admit_tool now req context name tool arguments =
      allowed_tool now req context tool arguments (allow s.options name context)

  abbrev pub found_tool :
      ℕ
      → Request
      → RequestContext
      → Bytes
      → Json
      → Option RegisteredTool
      → ServerPolicy D × Option Response
  found_tool now req context name arguments none =
      (s.policy, some (failure req.id invalid_params (ascii "Unknown tool")))
  found_tool now req context name arguments (some tool) =
      admit_tool now req context name tool arguments

  abbrev pub named_tool :
      ℕ → Request → RequestContext → Option (Bytes × Json) → ServerPolicy D × Option Response
  named_tool now req context none =
      (s.policy, some (failure req.id invalid_params (ascii "Invalid tool parameters")))
  named_tool now req context (some (name, arguments)) =
      found_tool now req context name arguments (map_find name s.tools)

  unfoldable pub call_tool : ℕ → Request → RequestContext → ServerPolicy D × Option Response
  call_tool now req context = named_tool now req context (named_call req.params)
