-- ===== src/Tests/Fixtures.antt =====
-- Concrete parameters: a library that serialises a few values, whole numbers for `double`, and states
-- of the components.
use synapse_mcp.Base.{
  refl, ℕ, ◌+◌, ◌-◌, ◌*◌, ℤ, pos, Bool, true, false, List, [], ◌∷◌, Option, none, some, Bytes,
  ascii, bytes_eq, ltb, if◌then◌else◌, Expected, ok, err, arith,
}
use synapse_mcp.Json.{
  Json, string, number_unsigned, number_integer, object, end, field, JsonLibrary, Write, put, write,
  ParseError, parse_error, IntLaws,
}
use synapse_mcp.Protocol.{signed, Request, Response, Tool, version}
use synapse_mcp.Handlers.{RequestContext, ServerOptions, StdioOptions, ToolHandler}
use synapse_mcp.Policy.{DoubleOps, ExactLaws, OrderLaws, ServerPolicy}
use synapse_mcp.Executor.{Executor, waiting}
use synapse_mcp.Transport.{Transport}
use synapse_mcp.Transport.Queue.{AreLimits}
use synapse_mcp.Schema.{CompiledSchema}
use synapse_mcp.Server.{Server, Environment, ServerInfo, Operation, Call, running, ready}
use synapse_mcp.Server.Stdio.{stdio_ops}

abbrev pub letter : Bytes
letter = 97 ∷ []

abbrev pub quoted : Bytes
quoted = 34 ∷ 97 ∷ 34 ∷ []

abbrev pub braces : Bytes
braces = 123 ∷ 125 ∷ []

abbrev pub line_of_braces : Bytes
line_of_braces = 123 ∷ 125 ∷ 10 ∷ []

abbrev pub frame_of_nothing : Bytes
frame_of_nothing = 34 ∷ 34 ∷ 10 ∷ []

-- A text is written with its quotes; every other value as an empty object.
abbrev pub serialize : Json → List Write × Bool
serialize (string s) = (put 34 ∷ write s ∷ put 34 ∷ [], true)
serialize _ = (write (123 ∷ 125 ∷ []) ∷ [], true)

abbrev pub parse : Bytes → Expected Json ParseError
parse bytes = if bytes_eq bytes (123 ∷ 125 ∷ []) then ok (object end) else err parse_error

abbrev pub get_int : Json → Option ℤ
get_int (number_unsigned n) = some (pos n)
get_int (number_integer z) = some z
get_int _ = none

abbrev pub lib : JsonLibrary
lib = record { serialize = serialize; parse = parse; get_int = get_int }

pub int_laws : IntLaws lib
int_laws = record { get_unsigned = λ n h. refl; get_integer = λ z h. refl }

abbrev pub double : DoubleOps ℕ
double = record {
  of_size = λ n. n;
  seconds = λ n. n;
  add = λ a b. a + b;
  mul = λ a b. a * b;
  sub = λ a b. a - b;
  lt = ltb;
  is_finite = λ a. true;
}

pub exact_laws : ExactLaws double
exact_laws = record {
  below_one = refl;
  not_below_one = λ n h. ground arith;
  sub_one = λ n h. omega arith;
}

pub order_laws : OrderLaws double
order_laws = record { asymm = λ a b h. ground arith; sub_le = λ a b h. ground arith }

abbrev pub options : ServerOptions ℕ
options = record {
  max_pending_requests = 2;
  tool_burst = 3;
  tool_requests_per_second = 1;
  allow_tool = none;
  filter_output = none;
  has_now = true;
}

abbrev pub stdio : StdioOptions
stdio = record {
  max_frame_bytes = 64;
  max_json_depth = 4;
  max_outbound_bytes = 256;
  flush_budget = 250;
}

pub limits : AreLimits stdio
limits = record {
  outbound_pos = omega arith;
  outbound_size = omega arith;
  frame_size = omega arith;
}

-- A transport that runs.
abbrev pub transport : Transport
transport = record {
  options = stdio;
  has_io = true;
  has_message = true;
  has_close = true;
  queue = [];
  queued_bytes = 0;
  writing = none;
  consumed = true;
  started = true;
  released = true;
  closing = false;
  reader_done = false;
  writer_done = false;
  close_done = true;
  close_claimed = false;
  reason = none;
  flush_deadline = 0;
  reader_stop = false;
}

abbrev pub executor : Executor Call
executor = record {
  max_pending = 2;
  pending = [];
  active = none;
  stopping = false;
  finished = false;
  phase = waiting;
  next_stop = 0;
  stop_requested = [];
}

abbrev pub validator : CompiledSchema
validator arguments = ok tt

abbrev pub env : Environment ℕ Transport
env = record {
  lib = lib;
  double = double;
  transport = stdio_ops lib 0;
  compile_schema = λ schema. ok validator;
}

abbrev pub context : RequestContext
context = record { id = signed (pos 1); stop = 0 }

abbrev pub echo : ToolHandler
echo arguments _ = some (ok (record { text = 104 ∷ 105 ∷ [] }))

abbrev pub tool : Tool
tool = record {
  name = 116 ∷ [];
  description = 100 ∷ [];
  input_schema = object (field (ascii "type") (string (ascii "object")) end);
}

abbrev pub info : ServerInfo
info = record { name = 115 ∷ []; version = 49 ∷ [] }

abbrev pub policy : ServerPolicy ℕ
policy = record { tokens = 3; last = 0; clock_started = false }

abbrev pub operation : Operation
operation = record { key = 0; id = signed (pos 7); cancelled = false }

-- A server of a session that is ready, with one request in flight.
abbrev pub serving : Server ℕ Transport
serving = record {
  info = info;
  options = options;
  policy = policy;
  state = running;
  protocol = ready;
  resources = [];
  prompts = [];
  tools = (116 ∷ [], record { descriptor = tool; handler = echo; validator = validator }) ∷ [];
  inflight = operation ∷ [];
  next_key = 1;
  executor = some executor;
  transport = transport;
}

abbrev pub list_request : Request
list_request = record {
  jsonrpc = version;
  id = signed (pos 1);
  method = ascii "tools/list";
  params = none;
}

abbrev pub call_request : Request
call_request = record {
  jsonrpc = version;
  id = signed (pos 1);
  method = ascii "tools/call";
  params = some (object (field (ascii "name") (string (116 ∷ [])) end));
}

abbrev pub call : Call
call = record { request = list_request; operation = 0 }

abbrev pub reply : Response
reply = record { jsonrpc = version; id = signed (pos 1); result = some (object end); err = none }
