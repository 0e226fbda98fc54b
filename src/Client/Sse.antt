-- ===== src/Client/Sse.antt =====
-- include/synapse/sse_transport.hpp: a transport without threads. The two callbacks return: what the
-- writer and the message callback were given is in the state.
use synapse_mcp.Base.{
  Bool, true, List, [], ◌∷◌, ◌++◌, Option, none, some, Bytes, ascii, ok, err, ◌>>=◌, if◌then◌else◌,
}
use synapse_mcp.Json.{Json, JsonLibrary, dump, out_of_range}
use synapse_mcp.Protocol.{null, Response, ErrorCode, code_value, version, response_to_json}

pub record SseTransport : Type 0 where
  pub has_writer : Bool
  pub has_callback : Bool
  pub written : List Bytes
  pub delivered : List Json

-- `none` where `dump` throws.
unfoldable pub send : JsonLibrary → Json → SseTransport → Option SseTransport
send lib message s = do
  text ← dump lib message
  some (
      if s.has_writer
      then record s { written = s.written ++ (ascii "data: " ++ text ++ ascii "\n\n") ∷ [] }
      else s)

abbrev pub parse_failure : Response
parse_failure = record {
  jsonrpc = version;
  id = null;
  result = none;
  err = some (record {
    code = code_value ErrorCode.parse_error;
    message = ascii "Parse error";
    extra = none;
  });
}

unfoldable pub start : SseTransport → SseTransport
start s = record s { has_callback = true }

-- Only a `parse_error` is caught.
unfoldable pub handle_client_message : JsonLibrary → Bytes → SseTransport → Option SseTransport
unfolding send
handle_client_message lib payload s = elim (lib.parse payload) [
  | ok j ↦ some (if s.has_callback then record s { delivered = s.delivered ++ j ∷ [] } else s)
  | err (out_of_range _) ↦ none
  | err _ ↦ send lib (response_to_json parse_failure) s
]
