-- ===== src/Tests/Clients.antt =====
-- The client and its transports: theorems applied to concrete messages.
use synapse_mcp.Base.{
  ◌≡◌, refl, pos, true, false, [], ◌∷◌, ◌++◌, none, some, ascii, bytes_eq, arith,
}
use synapse_mcp.Json.{Json, dump, string, number_unsigned, object, end, field, find_field}
use synapse_mcp.Protocol.{unsigned, response_from_json, read_json_rpc_id}
use synapse_mcp.Client.{Client, new_client, send_request, handle_message, handle_response}
use synapse_mcp.Client
use synapse_mcp.Process.{Process, read_loop, send}
use synapse_mcp.Process
use synapse_mcp.Tests.Fixtures.{lib, braces, line_of_braces}

abbrev empty_client : Client
empty_client = record {
  next_id = pos 1;
  promises = [];
  settled = [];
  sent = [];
  threads = [];
  request_handler = none;
}

Reach-IsExact_example :
    Client.Promises.IsExact 2 (send_request (ascii "tools/list") none new_client)
unfolding handle_message find_field
Reach-IsExact_example =
    Client.History.Reach-IsExact lib 1 (send_request (ascii "tools/list") none new_client)
      (omega arith)
      (Client.History.Reach.receives (object end)
        (Client.History.Reach.requests (ascii "tools/list") none Client.History.Reach.begins) refl)

-- A client that waits for the answer to its request 1.
abbrev waiting_client : Client
waiting_client = record empty_client { next_id = pos 2; promises = pos 1 ∷ [] }

abbrev answer : Json
answer = object (
    field (ascii "id") (number_unsigned 1)
      (field (ascii "jsonrpc") (string (ascii "2.0")) (field (ascii "result") (object end) end)))

handle_message_unsigned_example : handle_message lib answer waiting_client ≡ some waiting_client
unfolding response_from_json read_json_rpc_id find_field bytes_eq ascii
handle_message_unsigned_example =
    Client.Promises.handle_message_unsigned lib answer
      (record { jsonrpc = ascii "2.0"; id = unsigned 1; result = some (object end); err = none }) 1
      waiting_client refl refl refl

abbrev peer : Process
peer = record {
  running = true;
  has_callback = true;
  line = [];
  delivered = [];
  stop_requested = false;
  stdin_open = true;
  stdout_open = true;
  child_running = true;
  written = [];
}

read_loop-send_example :
    (line_of_braces ≡ line_of_braces)
    × (read_loop lib (Process.Lines.answers (braces ++ ascii "\n") ++ []) peer
        ≡ read_loop lib [] (record peer { delivered = object end ∷ [] }))
unfolding send ascii bytes_eq dump
read_loop-send_example =
    Process.Lines.read_loop-send lib (object end) braces [] peer
      (record peer { written = line_of_braces }) peer refl refl refl refl refl refl refl
