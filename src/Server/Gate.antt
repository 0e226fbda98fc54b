-- ===== src/Server/Gate.antt =====
-- include/synapse/server.hpp: what stands before the handler of a tool.
use synapse_mcp.Base.{
  ◌≡◌, refl, ◌⊎◌, inl, inr, ℕ, Bool, true, false, Option, none, some, Bytes, map_find, arith,
}
use synapse_mcp.Json.{Json}
use synapse_mcp.Protocol.{Request, Response}
use synapse_mcp.Handlers.{RequestContext}
use synapse_mcp.Policy.{allow, consume, ServerPolicy}
use synapse_mcp.Server.Types.{RegisteredTool, Server, Environment}
use synapse_mcp.Server.Emit.{failure, failure_code}
use synapse_mcp.Server.Application.{
  named_call, run_tool, admit_tool, call_tool, allowed_tool, metered_tool, found_tool, named_tool,
}

module _ {D T : Type 0} (env : Environment D T) (s : Server D T) where
  -- The call went through the gate: a valid name, a registered tool, the hook, and a token.
  abbrev pub Admitted : ℕ → Request → RequestContext → ServerPolicy D × Option Response → Type 0
  Admitted now req context (policy, reply) =
      (name : Bytes) × (arguments : Json) × (tool : RegisteredTool) × (named_call req.params
        ≡ some (name, arguments))
      × (map_find name s.tools ≡ some tool)
      × (allow s.options name context ≡ some true)
      × (consume env.double s.options now s.policy ≡ (policy, true))
      × (reply ≡ run_tool env s req context tool arguments)

  -- The call was answered by an error, with no token spent on it; or the hook threw.
  abbrev pub TurnedAway : ServerPolicy D × Option Response → ℕ → Type 0
  TurnedAway (policy, none) now = policy ≡ s.policy
  TurnedAway (policy, some r) now =
      (r.result ≡ none)
      × ((policy ≡ s.policy) ⊎ (consume env.double s.options now s.policy ≡ (policy, false)))

  abbrev pub Gated : ℕ → Request → RequestContext → ServerPolicy D × Option Response → Type 0
  Gated now req context r = Admitted now req context r ⊎ TurnedAway r now

  metered_gate :
      (now : ℕ) (req : Request) (context : RequestContext) (name : Bytes) (arguments : Json)
      (tool : RegisteredTool) (granted : Bool)
      → named_call req.params ≡ some (name, arguments)
      → map_find name s.tools ≡ some tool
      → allow s.options name context ≡ some true
      → (consume env.double s.options now s.policy).1 ≡ granted
      → Gated now req context (
        (consume env.double s.options now s.policy).0,
        metered_tool env s req context tool arguments granted,
      )
  unfolding failure_code
  metered_gate now req context name arguments tool true named found allowed e =
      inl (name, arguments, tool, named, found, allowed, ground arith, refl)
  metered_gate now req context name arguments tool false named found allowed e =
      inr (refl, inr (ground arith))

  allowed_gate :
      (now : ℕ) (req : Request) (context : RequestContext) (name : Bytes) (arguments : Json)
      (tool : RegisteredTool) (hook : Option Bool)
      → named_call req.params ≡ some (name, arguments)
      → map_find name s.tools ≡ some tool
      → allow s.options name context ≡ hook
      → Gated now req context (allowed_tool env s now req context tool arguments hook)
  unfolding failure_code
  allowed_gate now req context name arguments tool none named found allowed = inr refl
  allowed_gate now req context name arguments tool (some false) named found allowed =
      inr (refl, inl refl)
  allowed_gate now req context name arguments tool (some true) named found allowed =
      metered_gate now req context name arguments tool _ named found allowed refl

  found_gate :
      (now : ℕ) (req : Request) (context : RequestContext) (name : Bytes) (arguments : Json)
      (tool : Option RegisteredTool)
      → named_call req.params ≡ some (name, arguments)
      → map_find name s.tools ≡ tool
      → Gated now req context (found_tool env s now req context name arguments tool)
  unfolding failure failure_code admit_tool
  found_gate now req context name arguments none named found = inr (refl, inl refl)
  found_gate now req context name arguments (some tool) named found =
      allowed_gate now req context name arguments tool _ named found refl

  named_gate :
      (now : ℕ) (req : Request) (context : RequestContext) (c : Option (Bytes × Json))
      → named_call req.params ≡ c
      → Gated now req context (named_tool env s now req context c)
  unfolding failure failure_code
  named_gate now req context none named = inr (refl, inl refl)
  named_gate now req context (some (name, arguments)) named =
      found_gate now req context name arguments _ named refl

  -- A call of a tool gets to the validator and the handler only with valid parameters, for a tool
  -- that is registered, when the hook allows it and the bucket grants a token. Every other call is
  -- answered by an error and leaves the bucket as it is or as the refused token leaves it, or the
  -- hook threw.
  pub call_tool-Admitted :
      (now : ℕ) (req : Request) (context : RequestContext)
      → Gated now req context (call_tool env s now req context)
  unfolding call_tool
  call_tool-Admitted now req context = named_gate now req context _ refl
