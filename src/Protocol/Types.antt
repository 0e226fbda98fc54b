-- ===== src/Protocol/Types.antt =====
-- include/synapse/protocol.hpp: error codes, messages, and the descriptors of tools, resources and
-- prompts. A descriptor's JSON keeps the C++ default of `jsonrpc` in `version`.
use synapse_mcp.Base.{ℕ, ℤ, neg, Bool, List, Option, Bytes, ascii}
use synapse_mcp.Json.{Json}

pub data ErrorCode : Type 0 where
  parse_error invalid_request method_not_found invalid_params internal_error : ErrorCode

-- `static_cast<int>(code)`.
abbrev pub code_value : ErrorCode → ℤ
code_value parse_error = neg 32700
code_value invalid_request = neg 32600
code_value method_not_found = neg 32601
code_value invalid_params = neg 32602
code_value internal_error = neg 32603

pub record Error : Type 0 where
  pub code : ℤ
  pub message : Bytes
  pub extra : Option Json  -- `data`

-- `std::variant<std::string, int64_t, uint64_t, std::nullptr_t>`.
pub data RpcId : Type 0 where
  text : Bytes → RpcId
  signed : ℤ → RpcId
  unsigned : ℕ → RpcId
  null : RpcId

pub record Request : Type 0 where
  pub jsonrpc : Bytes
  pub id : RpcId
  pub method : Bytes
  pub params : Option Json

pub record Notification : Type 0 where
  pub jsonrpc : Bytes
  pub method : Bytes
  pub params : Option Json

pub record Response : Type 0 where
  pub jsonrpc : Bytes
  pub id : RpcId
  pub result : Option Json
  pub err : Option Error

pub data IncomingMessage : Type 0 where
  a_request : Request → IncomingMessage
  a_notification : Notification → IncomingMessage
  a_response : Response → IncomingMessage

-- The default of `message::jsonrpc`.
unfoldable pub version : Bytes
version = ascii "2.0"

pub record Tool : Type 0 where
  pub name : Bytes
  pub description : Bytes
  pub input_schema : Json

pub record Resource : Type 0 where
  pub uri : Bytes
  pub name : Bytes
  pub description : Bytes
  pub mime_type : Option Bytes

pub record PromptArgument : Type 0 where
  pub name : Bytes
  pub description : Bytes
  pub required : Bool

pub record Prompt : Type 0 where
  pub name : Bytes
  pub description : Bytes
  pub arguments : List PromptArgument
