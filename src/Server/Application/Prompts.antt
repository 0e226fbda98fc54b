-- ===== src/Server/Application/Prompts.antt =====
-- include/synapse/server.hpp: "prompts/list" and "prompts/get".
use synapse_mcp.Base.{
  Bool, true, not, ◌&&◌, ◌||◌, List, [], ◌∷◌, Option, none, some, Bytes, ascii, bytes_eq,
  if◌then◌else◌, Expected, ok, err, any, map, map_find, map_emplace, map_contains, ◌>>=◌,
}
use synapse_mcp.Json.{Json, string, array, object, Fields, end, field, items_of, object_of}
use synapse_mcp.Protocol.{
  Request, Response, invalid_params, internal_error, PromptArgument, prompt_to_json,
}
use synapse_mcp.Handlers.{
  HandlerError, PromptRole, user, assistant, other, PromptMessage, PromptResult, RequestContext,
}
use synapse_mcp.Policy.{filter}
use synapse_mcp.Server.Types.{RegisteredPrompt, Server, Environment}
use synapse_mcp.Server.Emit.{failure, success, text_content}
use synapse_mcp.Server.Application.Tools.{valid_cursor, named_call}

unfoldable pub list_prompts : Request → List (Bytes × RegisteredPrompt) → Response
list_prompts req prompts =
    if valid_cursor req.params
    then success req.id (
        object (
          object_of (
            (
              ascii "prompts",
              array (
                  items_of (
                    map (λ (p : Bytes × RegisteredPrompt). prompt_to_json p.1.descriptor) prompts)),
            )
            ∷ [])))
    else failure req.id invalid_params (ascii "Invalid prompt parameters")

abbrev pub is_declared : List PromptArgument → Bytes → Bool
is_declared arguments name = any (λ a. bytes_eq a.name name) arguments

-- The loop over the given arguments: each is a text under a declared name.
unfoldable pub collect_values :
    List PromptArgument → Fields → List (Bytes × Bytes) → Option (List (Bytes × Bytes))
collect_values arguments end values = some values
collect_values arguments (field k (string v) fs) values =
    let rest = collect_values arguments fs (map_emplace k v values) in
    if is_declared arguments k then rest else none
collect_values arguments (field k _ fs) values = none

-- The loop over the declared arguments: the required ones are there.
unfoldable pub has_required : List PromptArgument → List (Bytes × Bytes) → Bool
has_required [] values = true
has_required (a ∷ arguments) values =
    (not a.required || map_contains a.name values) && has_required arguments values

abbrev pub prompt_values : List PromptArgument → Json → Option (List (Bytes × Bytes))
prompt_values arguments (object fs) = do
  values ← collect_values arguments fs []
  if has_required arguments values then some values else none
prompt_values arguments _ = none

abbrev pub role_name : PromptRole → Option Bytes
role_name user = some (ascii "user")
role_name assistant = some (ascii "assistant")
role_name other = none

module _ {D T : Type 0} (env : Environment D T) (s : Server D T) where
  abbrev message_json : Bytes → Bytes → Json
  message_json role text =
      object (object_of ((ascii "role", string role) ∷ (ascii "content", text_content text) ∷ []))

  abbrev put_message : Bytes → Bytes → Option (List Json) → Option (List Json)
  put_message role text none = none
  put_message role text (some js) = some (message_json role text ∷ js)

  -- A message, before the rest: the outer `none` is an exception, the inner one a message that is
  -- refused.
  abbrev filtered_message :
      Bytes
      → Option (Option (List Json))
      → Expected Bytes HandlerError
      → Option (Option (List Json))
  filtered_message role rest (err _) = some none
  filtered_message role rest (ok out) = do later ← rest; some (put_message role out later)

  abbrev prompt_message :
      Request
      → RequestContext
      → Bytes
      → Option (Option (List Json))
      → Option Bytes
      → Option (Option (List Json))
  prompt_message req context text rest none = some none
  prompt_message req context text rest (some role) = do
    filtered ← filter env.lib s.options req.method text context
    filtered_message role rest filtered

  -- The loop over the messages.
  unfoldable pub prompt_messages :
      Request → RequestContext → List PromptMessage → Option (Option (List Json))
  prompt_messages req context [] = some (some [])
  prompt_messages req context (m ∷ messages) =
      let rest = prompt_messages req context messages in
      prompt_message req context m.text rest (role_name m.role)

  abbrev pub prompt_error : Request → Response
  prompt_error req = failure req.id internal_error (ascii "Internal error")

  abbrev pub described_prompt : Request → List Json → Expected Bytes HandlerError → Response
  described_prompt req messages (err _) = prompt_error req
  described_prompt req messages (ok out) = success req.id (
      object (
        object_of
          ((ascii "messages", array (items_of messages)) ∷ (ascii "description", string out) ∷ [])))

  -- The description, if there is one, is filtered behind the messages.
  unfoldable pub prompt_description :
      Request → RequestContext → Option Bytes → List Json → Option Response
  prompt_description req context none messages =
      some
        (success req.id (object (object_of ((ascii "messages", array (items_of messages)) ∷ []))))
  prompt_description req context (some description) messages = do
    filtered ← filter env.lib s.options req.method description context
    some (described_prompt req messages filtered)

  abbrev pub prompt_body :
      Request → RequestContext → Option Bytes → Option (List Json) → Option Response
  prompt_body req context description none = some (prompt_error req)
  prompt_body req context description (some js) = prompt_description req context description js

  abbrev pub answer_prompt :
      Request → RequestContext → Expected PromptResult HandlerError → Option Response
  answer_prompt req context (err _) = some (prompt_error req)
  answer_prompt req context (ok r) = do
    messages ← prompt_messages req context r.messages
    prompt_body req context r.description messages

  unfoldable pub run_prompt :
      Request → RequestContext → RegisteredPrompt → List (Bytes × Bytes) → Option Response
  run_prompt req context prompt values = do
    result ← prompt.handler values context
    answer_prompt req context result

  abbrev pub valued_prompt :
      Request → RequestContext → RegisteredPrompt → Option (List (Bytes × Bytes)) → Option Response
  valued_prompt req context prompt none =
      some (failure req.id invalid_params (ascii "Invalid prompt arguments"))
  valued_prompt req context prompt (some values) = run_prompt req context prompt values

  abbrev pub found_prompt :
      Request → RequestContext → Json → Option RegisteredPrompt → Option Response
  found_prompt req context arguments none =
      some (failure req.id invalid_params (ascii "Unknown prompt"))
  found_prompt req context arguments (some prompt) =
      valued_prompt req context prompt (prompt_values prompt.descriptor.arguments arguments)

  abbrev pub named_prompt : Request → RequestContext → Option (Bytes × Json) → Option Response
  named_prompt req context none =
      some (failure req.id invalid_params (ascii "Invalid prompt parameters"))
  named_prompt req context (some (name, arguments)) =
      found_prompt req context arguments (map_find name s.prompts)

  unfoldable pub get_prompt : Request → RequestContext → Option Response
  get_prompt req context = named_prompt req context (named_call req.params)
