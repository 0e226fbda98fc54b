-- ===== src/Server/Application/Dispatch.antt =====
-- include/synapse/server.hpp: the chain of methods of `application`.
use synapse_mcp.Base.{ℕ, Option, some, ascii, bytes_eq, if◌then◌else◌}
use synapse_mcp.Protocol.{Request, Response, method_not_found}
use synapse_mcp.Handlers.{RequestContext}
use synapse_mcp.Policy.{ServerPolicy}
use synapse_mcp.Server.Types.{Server, Environment}
use synapse_mcp.Server.Emit.{failure}
use synapse_mcp.Server.Application.Tools.{list_tools, call_tool}
use synapse_mcp.Server.Application.Prompts.{list_prompts, get_prompt}
use synapse_mcp.Server.Application.Resources.{list_templates, list_resources, read_resource}

-- The policy is the only state that a method changes. `now` is what the clock shows if it is read.
module _ {D T : Type 0} (env : Environment D T) where
  unfoldable pub application :
      ℕ → Request → RequestContext → Server D T → ServerPolicy D × Option Response
  application now req context s =
      if bytes_eq req.method (ascii "tools/list")
      then (s.policy, some (list_tools req s.tools))
      else if bytes_eq req.method (ascii "tools/call")
      then call_tool env s now req context
      else if bytes_eq req.method (ascii "prompts/list")
      then (s.policy, some (list_prompts req s.prompts))
      else if bytes_eq req.method (ascii "prompts/get")
      then (s.policy, get_prompt env s req context)
      else if bytes_eq req.method (ascii "resources/templates/list")
      then (s.policy, some (list_templates req))
      else if bytes_eq req.method (ascii "resources/list")
      then (s.policy, some (list_resources req s.resources))
      else if bytes_eq req.method (ascii "resources/read")
      then (s.policy, read_resource env s req context)
      else (s.policy, some (failure req.id method_not_found (ascii "Method not found")))
