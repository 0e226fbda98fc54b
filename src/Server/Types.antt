-- ===== src/Server/Types.antt =====
-- include/synapse/server.hpp: the state of a server. `D` is `double`, `T` the state of the borrowed
-- transport. Shared operations are told apart by a key.
use synapse_mcp.Base.{ℕ, Bool, List, Option, Bytes, Expected}
use synapse_mcp.Json.{Json, JsonLibrary}
use synapse_mcp.Protocol.{RpcId, Request, Tool, Resource, Prompt}
use synapse_mcp.Handlers.{SdkError, ToolHandler, ResourceHandler, PromptHandler, ServerOptions}
use synapse_mcp.Policy.{DoubleOps, ServerPolicy}
use synapse_mcp.Executor.{Executor}
use synapse_mcp.Schema.{CompiledSchema}

pub data Lifecycle : Type 0 where
  configuring starting running stopping stopped : Lifecycle

pub data Connection : Type 0 where
  await_initialize await_initialized ready closing : Connection

pub record ServerInfo : Type 0 where
  pub name : Bytes
  pub version : Bytes

pub record RegisteredTool : Type 0 where
  pub descriptor : Tool
  pub handler : ToolHandler
  pub validator : CompiledSchema

pub record RegisteredResource : Type 0 where
  pub descriptor : Resource
  pub handler : ResourceHandler

pub record RegisteredPrompt : Type 0 where
  pub descriptor : Prompt
  pub handler : PromptHandler

pub record Operation : Type 0 where
  pub key : ℕ
  pub id : RpcId
  pub cancelled : Bool

-- What the call that is queued for a request captures.
pub record Call : Type 0 where
  pub request : Request
  pub operation : ℕ

pub record Server (D T : Type 0) : Type 0 where
  pub info : ServerInfo
  pub options : ServerOptions D
  pub policy : ServerPolicy D
  pub state : Lifecycle
  pub protocol : Connection
  pub resources : List (Bytes × RegisteredResource)
  pub prompts : List (Bytes × RegisteredPrompt)
  pub tools : List (Bytes × RegisteredTool)
  pub inflight : List Operation
  pub next_key : ℕ
  pub executor : Option (Executor Call)
  pub transport : T

-- The functions of a transport that the server's constructor wraps. What `start` and `wait` answer
-- is given where they are called.
pub record TransportOps (T : Type 0) : Type 0 where
  pub send : Json → T → T × Expected (Unit {0}) SdkError
  pub stop : T → T
  pub frame_limit : T → ℕ

-- What the server calls and does not implement.
pub record Environment (D T : Type 0) : Type 0 where
  pub lib : JsonLibrary
  pub double : DoubleOps D
  pub transport : TransportOps T
  pub compile_schema : Json → Expected CompiledSchema SdkError
