-- ===== src/Server/Replies/Prompts.antt =====
-- include/synapse/server.hpp: the replies to "prompts/get" and "resources/read".
use synapse_mcp.Base.{refl, List, Option, none, some, Bytes, Expected, ok, err, map_find}
use synapse_mcp.Json.{Json}
use synapse_mcp.Protocol.{Request}
use synapse_mcp.Handlers.{HandlerError, ResourceResult, PromptResult, RequestContext}
use synapse_mcp.Policy.{filter}
use synapse_mcp.Server.Types.{RegisteredResource, RegisteredPrompt, Server, Environment}
use synapse_mcp.Server.Emit.{failure_code}
use synapse_mcp.Server.Application.{
  described_prompt, prompt_body, answer_prompt, valued_prompt, found_prompt, named_prompt,
  deliver_resource, answer_resource, found_resource, named_resource, named_call, prompt_values,
  prompt_description, run_prompt, get_prompt, read_uri, run_resource, read_resource,
}
use synapse_mcp.Server.Replies.{IsReply, Replies, failure-IsReply, bind-Replies}

module _ {D T : Type 0} (env : Environment D T) (s : Server D T) where
  pub prompt_description-Replies :
      (req : Request) (context : RequestContext) (description : Option Bytes) (js : List Json)
      → Replies req.id (prompt_description env s req context description js)
  unfolding prompt_description
  prompt_description-Replies req context none js = (refl, refl)
  prompt_description-Replies req context (some text) js =
      bind-Replies req.id (filter env.lib s.options req.method text context)
        (λ r. some (described_prompt env s req js r)) described
    where
      described :
          (r : Expected Bytes HandlerError) → IsReply req.id (described_prompt env s req js r)
      described (err e) = failure-IsReply _ _ _
      described (ok out) = (refl, refl)

  pub answer_prompt-Replies :
      (req : Request) (context : RequestContext) (r : Expected PromptResult HandlerError)
      → Replies req.id (answer_prompt env s req context r)
  answer_prompt-Replies req context (err e) = failure-IsReply _ _ _
  answer_prompt-Replies req context (ok r) = bind-Replies req.id _ _ body
    where
      body :
          (js : Option (List Json))
          → Replies req.id (prompt_body env s req context r.description js)
      body none = failure-IsReply _ _ _
      body (some js) = prompt_description-Replies req context r.description js

  pub found_prompt-Replies :
      (req : Request) (context : RequestContext) (arguments : Json)
      (prompt : Option RegisteredPrompt)
      → Replies req.id (found_prompt env s req context arguments prompt)
  unfolding run_prompt
  found_prompt-Replies req context arguments none = failure-IsReply _ _ _
  found_prompt-Replies req context arguments (some prompt) = valued (prompt_values _ arguments)
    where
      valued :
          (v : Option (List (Bytes × Bytes)))
          → Replies req.id (valued_prompt env s req context prompt v)
      valued none = failure-IsReply _ _ _
      valued (some values) = bind-Replies req.id _ _ (answer_prompt-Replies req context)

  pub get_prompt-Replies :
      (req : Request) (context : RequestContext) → Replies req.id (get_prompt env s req context)
  unfolding get_prompt
  get_prompt-Replies req context = named (named_call req.params)
    where
      named : (c : Option (Bytes × Json)) → Replies req.id (named_prompt env s req context c)
      named none = failure-IsReply _ _ _
      named (some (name, arguments)) = found_prompt-Replies req context arguments _

  pub answer_resource-Replies :
      (req : Request) (context : RequestContext) (resource : RegisteredResource)
      (r : Expected ResourceResult HandlerError)
      → Replies req.id (answer_resource env s req context resource r)
  answer_resource-Replies req context resource (err e) = failure-IsReply _ _ _
  answer_resource-Replies req context resource (ok r) =
      bind-Replies req.id (filter env.lib s.options req.method r.text context)
        (λ out. some (deliver_resource req resource out)) delivered
    where
      delivered :
          (out : Expected Bytes HandlerError) → IsReply req.id (deliver_resource req resource out)
      delivered (err e) = failure-IsReply _ _ _
      delivered (ok text) = (refl, refl)

  pub read_resource-Replies :
      (req : Request) (context : RequestContext) → Replies req.id (read_resource env s req context)
  unfolding read_resource run_resource failure_code
  read_resource-Replies req context = named (read_uri req.params)
    where
      found : (r : Option RegisteredResource) → Replies req.id (found_resource env s req context r)
      found none = (refl, refl)
      found (some resource) = bind-Replies req.id _ _ (answer_resource-Replies req context resource)

      named : (uri : Option Bytes) → Replies req.id (named_resource env s req context uri)
      named none = failure-IsReply _ _ _
      named (some uri) = found (map_find uri s.resources)
