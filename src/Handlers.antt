-- ===== src/Handlers.antt =====
-- include/synapse/errors.hpp, include/synapse/handlers.hpp and include/synapse/server_options.hpp:
-- error and result types, the application's callbacks, and the configuration. A callback is code of
-- the application: a function, with `none` where it throws. A time is a count of clock ticks.
use synapse_mcp.Base.{ℕ, Bool, List, Option, Bytes, Expected}
use synapse_mcp.Json.{Json}
use synapse_mcp.Protocol.{RpcId}

pub data SdkErrc : Type 0 where
  invalid_state invalid_schema io_error unsupported_stdio resource_exhausted : SdkErrc

pub record SdkError : Type 0 where
  pub code : SdkErrc
  pub message : Bytes

pub record HandlerError : Type 0 where
  pub public_message : Bytes

-- `stop` names the stop state that the token belongs to.
pub record RequestContext : Type 0 where
  pub id : RpcId
  pub stop : ℕ

pub record ToolResult : Type 0 where
  pub text : Bytes

pub record ResourceResult : Type 0 where
  pub text : Bytes

-- `other` is an enumerator value out of range, which the server tests for.
pub data PromptRole : Type 0 where
  user assistant other : PromptRole

pub record PromptMessage : Type 0 where
  pub role : PromptRole
  pub text : Bytes

pub record PromptResult : Type 0 where
  pub messages : List PromptMessage
  pub description : Option Bytes

abbrev pub ToolHandler : Type 0
ToolHandler = Json → RequestContext → Option (Expected ToolResult HandlerError)

abbrev pub ResourceHandler : Type 0
ResourceHandler = RequestContext → Option (Expected ResourceResult HandlerError)

abbrev pub PromptHandler : Type 0
PromptHandler = List (Bytes × Bytes) → RequestContext → Option (Expected PromptResult HandlerError)

pub record StdioOptions : Type 0 where
  pub max_frame_bytes : ℕ
  pub max_json_depth : ℕ
  pub max_outbound_bytes : ℕ
  pub flush_budget : ℕ  -- milliseconds

unfoldable pub default_stdio_options : StdioOptions
default_stdio_options = record {
  max_frame_bytes = 1048576;
  max_json_depth = 64;
  max_outbound_bytes = 4194304;
  flush_budget = 250;
}

-- `D` is the type `double`. `now` is given to each call that reads the clock, as its value there;
-- `has_now` says that the function is set.
pub record ServerOptions (D : Type 0) : Type 0 where
  pub max_pending_requests : ℕ
  pub tool_burst : ℕ
  pub tool_requests_per_second : D
  pub allow_tool : Option (Bytes → RequestContext → Option Bool)
  pub filter_output : Option (Bytes → Bytes → RequestContext → Option (Expected Bytes HandlerError))
  pub has_now : Bool
