-- ===== src/Client/Calls.antt =====
-- include/synapse/client.hpp: the calls that are built on `send_request`.
use synapse_mcp.Base.{List, [], ◌∷◌, none, some, Bytes, ascii, map}
use synapse_mcp.Json.{Json, string, object, end, object_of}
use synapse_mcp.Client.Defs.{Client, send_request}

unfoldable pub initialize : Client → Client
initialize s =
    send_request (ascii "initialize")
      (some (
        object (
          object_of (
            (ascii "protocolVersion", string (ascii "2024-11-05"))
            ∷ (ascii "capabilities", object end)
            ∷ (
              ascii "clientInfo",
              object (
                  object_of (
                    (ascii "name", string (ascii "synapse-mcp-client"))
                    ∷ (ascii "version", string (ascii "0.1.0"))
                    ∷ [])),
            )
            ∷ []))))
      s

unfoldable pub call_tool : Bytes → Json → Client → Client
call_tool name arguments s =
    send_request (ascii "tools/call")
      (some
        (object (object_of ((ascii "name", string name) ∷ (ascii "arguments", arguments) ∷ []))))
      s

unfoldable pub list_tools : Client → Client
list_tools s = send_request (ascii "tools/list") none s

unfoldable pub list_resources : Client → Client
list_resources s = send_request (ascii "resources/list") none s

unfoldable pub read_resource : Bytes → Client → Client
read_resource uri s =
    send_request (ascii "resources/read")
      (some (object (object_of ((ascii "uri", string uri) ∷ [])))) s

unfoldable pub list_prompts : Client → Client
list_prompts s = send_request (ascii "prompts/list") none s

-- The arguments are the entries of a map.
unfoldable pub get_prompt : Bytes → List (Bytes × Bytes) → Client → Client
get_prompt name arguments s =
    let args = object (object_of (map (λ (a : Bytes × Bytes). (a.0, string a.1)) arguments)) in
    send_request (ascii "prompts/get")
      (some (object (object_of ((ascii "name", string name) ∷ (ascii "arguments", args) ∷ [])))) s
