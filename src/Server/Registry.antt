-- ===== src/Server/Registry.antt =====
-- include/synapse/server.hpp: what a registration does to the maps of the server.
use synapse_mcp.Base.{
  ◌≡◌, refl, sym, ap, subst, Bool-cases, is_ok, ◌⊎◌, inl, inr, true, false, ◌&&◌, List, [], Option,
  none, some, Bytes, bytes_eq, if◌then◌else◌, Expected-cases, ok, map_find, map_emplace,
  map_contains, map_find-map_emplace, arith,
}
use synapse_mcp.Json.{JsonLibrary}
use synapse_mcp.Protocol.{Tool, Resource, Prompt}
use synapse_mcp.Handlers.{ToolHandler, ResourceHandler, PromptHandler}
use synapse_mcp.Schema.{CompiledSchema}
use synapse_mcp.Server.Types.{
  Lifecycle, configuring, starting, running, stopping, stopped, RegisteredTool, RegisteredResource,
  RegisteredPrompt, Server, Environment,
}
use synapse_mcp.Server.Register.{
  register_tool, register_resource, register_prompt, valid_tool, valid_resource, valid_prompt,
  valid_arguments, is_configuring,
}

-- The map `new` is `old` with one more key.
abbrev pub IsExtended : {V : Type 0} → Bytes → V → List (Bytes × V) → List (Bytes × V) → Type 0
IsExtended key value old new =
    (map_contains key old ≡ false)
    × ((name : Bytes)
        → map_find name new ≡ (if bytes_eq name key then some value else map_find name old))

pub map_emplace-IsExtended :
    {V : Type 0} (key : Bytes) (value : V) (m : List (Bytes × V))
    → map_contains key m ≡ false
    → IsExtended key value m (map_emplace key value m)
map_emplace-IsExtended key value m h = (h, λ name. map_find-map_emplace key name value m h)

pub is_configuring-eq : (l : Lifecycle) → is_configuring l ≡ true → l ≡ configuring
is_configuring-eq configuring h = refl
is_configuring-eq starting h = cc
is_configuring-eq running h = cc
is_configuring-eq stopping h = cc
is_configuring-eq stopped h = cc

abbrev pub tool_entry : Tool → ToolHandler → CompiledSchema → RegisteredTool
tool_entry t h v = record { descriptor = t; handler = h; validator = v }

abbrev pub resource_entry : Resource → ResourceHandler → RegisteredResource
resource_entry r h = record { descriptor = r; handler = h }

abbrev pub prompt_entry : Prompt → PromptHandler → RegisteredPrompt
prompt_entry p h = record { descriptor = p; handler = h }

valid_tool-fresh :
    (lib : JsonLibrary) (tools : List (Bytes × RegisteredTool)) (t : Tool)
    → valid_tool lib tools t ≡ true
    → map_contains t.name tools ≡ false
unfolding valid_tool
valid_tool-fresh lib tools t h = ground arith

valid_resource-fresh :
    (lib : JsonLibrary) (resources : List (Bytes × RegisteredResource)) (r : Resource)
    → valid_resource lib resources r ≡ true
    → map_contains r.uri resources ≡ false
unfolding valid_resource
valid_resource-fresh lib resources r h = ground arith

valid_prompt-fresh :
    (lib : JsonLibrary) (prompts : List (Bytes × RegisteredPrompt)) (r : Prompt)
    → valid_prompt lib prompts r ≡ true
    → map_contains r.name prompts ≡ false
unfolding valid_prompt
valid_prompt-fresh lib prompts r h = ground arith

module _ {D T : Type 0} (env : Environment D T) (s : Server D T) where
  -- The tool is in the map of tools, and nothing else changed.
  abbrev pub ToolRegistered : Tool → Option ToolHandler → Server D T → Type 0
  ToolRegistered t handler after =
      (h : ToolHandler) × (validator : CompiledSchema) × (handler ≡ some h)
      × (s.state ≡ configuring)
      × (env.compile_schema t.input_schema ≡ ok validator)
      × IsExtended t.name (tool_entry t h validator) s.tools after.tools
      × (record after { tools = s.tools } ≡ s)

  add_tool-Registered :
      (t : Tool) (h : ToolHandler) (v : CompiledSchema)
      → s.state ≡ configuring
      → valid_tool env.lib s.tools t ≡ true
      → env.compile_schema t.input_schema ≡ ok v
      → (after : Server D T)
      → after ≡ record s { tools = map_emplace t.name (tool_entry t h v) s.tools }
      → ToolRegistered t (some h) after
  add_tool-Registered t h v state valid compiled after e = (
    h,
    v,
    refl,
    state,
    compiled,
    subst (λ a. IsExtended t.name (tool_entry t h v) s.tools a.tools) (sym e)
        (map_emplace-IsExtended t.name (tool_entry t h v) s.tools
          (valid_tool-fresh env.lib s.tools t valid)),
    ap {A = Server D T} (λ a. record a { tools = s.tools }) e,
  )

  -- A registration of a tool that fails changes nothing. One that succeeds happens before the start
  -- and with a handler; the schema compiled, the name was free, and then the tool is found under its
  -- name, with every other tool as it was.
  pub register_tool-ToolRegistered :
      (t : Tool) (handler : Option ToolHandler)
      → ((is_ok (register_tool env t handler s).1 ≡ false)
          × ((register_tool env t handler s).0 ≡ s))
        ⊎ ((is_ok (register_tool env t handler s).1 ≡ true)
            × ToolRegistered t handler (register_tool env t handler s).0)
  unfolding register_tool
  register_tool-ToolRegistered t none = inl (ground arith, ground arith)
  register_tool-ToolRegistered t (some h) = elim (Bool-cases (is_configuring s.state)) [
    | inr frozen ↦ inl (ground arith, ground arith)
    | inl state ↦ elim (Bool-cases (valid_tool env.lib s.tools t)) [
      | inr invalid ↦ inl (ground arith, ground arith)
      | inl valid ↦ elim (Expected-cases (env.compile_schema t.input_schema)) [
        | inr (e, failed) ↦ inl (ground arith, ground arith)
        | inl (v, compiled) ↦ inr (
          ground arith,
          add_tool-Registered t h v (is_configuring-eq s.state state) valid compiled _
              (ground arith),
        )
      ]
    ]
  ]

  -- The resource is in the map of resources, and nothing else changed.
  abbrev pub ResourceRegistered : Resource → Option ResourceHandler → Server D T → Type 0
  ResourceRegistered r handler after =
      (h : ResourceHandler) × (handler ≡ some h)
      × (s.state ≡ configuring)
      × IsExtended r.uri (resource_entry r h) s.resources after.resources
      × (record after { resources = s.resources } ≡ s)

  add_resource-Registered :
      (r : Resource) (h : ResourceHandler)
      → s.state ≡ configuring
      → valid_resource env.lib s.resources r ≡ true
      → (after : Server D T)
      → after ≡ record s { resources = map_emplace r.uri (resource_entry r h) s.resources }
      → ResourceRegistered r (some h) after
  add_resource-Registered r h state valid after e = (
    h,
    refl,
    state,
    subst (λ a. IsExtended r.uri (resource_entry r h) s.resources a.resources) (sym e)
        (map_emplace-IsExtended r.uri (resource_entry r h) s.resources
          (valid_resource-fresh env.lib s.resources r valid)),
    ap {A = Server D T} (λ a. record a { resources = s.resources }) e,
  )

  -- A registration of a resource that fails changes nothing. One that succeeds happens before the
  -- start and with a handler; the uri was free, and then the resource is found under it, with every
  -- other resource as it was.
  pub register_resource-ResourceRegistered :
      (r : Resource) (handler : Option ResourceHandler)
      → ((is_ok (register_resource env r handler s).1 ≡ false)
          × ((register_resource env r handler s).0 ≡ s))
        ⊎ ((is_ok (register_resource env r handler s).1 ≡ true)
            × ResourceRegistered r handler (register_resource env r handler s).0)
  unfolding register_resource
  register_resource-ResourceRegistered r none = inl (ground arith, ground arith)
  register_resource-ResourceRegistered r (some h) = elim (Bool-cases (is_configuring s.state)) [
    | inr frozen ↦ inl (ground arith, ground arith)
    | inl state ↦ elim (Bool-cases (valid_resource env.lib s.resources r)) [
      | inr invalid ↦ inl (ground arith, ground arith)
      | inl valid ↦ inr (
        ground arith,
        add_resource-Registered r h (is_configuring-eq s.state state) valid _ (ground arith),
      )
    ]
  ]

  -- The prompt is in the map of prompts, and nothing else changed.
  abbrev pub PromptRegistered : Prompt → Option PromptHandler → Server D T → Type 0
  PromptRegistered r handler after =
      (h : PromptHandler) × (handler ≡ some h)
      × (s.state ≡ configuring)
      × IsExtended r.name (prompt_entry r h) s.prompts after.prompts
      × (record after { prompts = s.prompts } ≡ s)

  add_prompt-Registered :
      (r : Prompt) (h : PromptHandler)
      → s.state ≡ configuring
      → valid_prompt env.lib s.prompts r ≡ true
      → (after : Server D T)
      → after ≡ record s { prompts = map_emplace r.name (prompt_entry r h) s.prompts }
      → PromptRegistered r (some h) after
  add_prompt-Registered r h state valid after e = (
    h,
    refl,
    state,
    subst (λ a. IsExtended r.name (prompt_entry r h) s.prompts a.prompts) (sym e)
        (map_emplace-IsExtended r.name (prompt_entry r h) s.prompts
          (valid_prompt-fresh env.lib s.prompts r valid)),
    ap {A = Server D T} (λ a. record a { prompts = s.prompts }) e,
  )

  -- A registration of a prompt that fails changes nothing. One that succeeds happens before the
  -- start and with a handler; the name was free, and then the prompt is found under it, with every
  -- other prompt as it was.
  pub register_prompt-PromptRegistered :
      (r : Prompt) (handler : Option PromptHandler)
      → ((is_ok (register_prompt env r handler s).1 ≡ false)
          × ((register_prompt env r handler s).0 ≡ s))
        ⊎ ((is_ok (register_prompt env r handler s).1 ≡ true)
            × PromptRegistered r handler (register_prompt env r handler s).0)
  unfolding register_prompt
  register_prompt-PromptRegistered r none = inl (ground arith, ground arith)
  register_prompt-PromptRegistered r (some h) = elim (Bool-cases (is_configuring s.state)) [
    | inr frozen ↦ inl (ground arith, ground arith)
    | inl state ↦
        elim (Bool-cases
          (valid_prompt env.lib s.prompts r && valid_arguments env.lib [] r.arguments)) [
            | inr invalid ↦ inl (ground arith, ground arith)
            | inl valid ↦ inr (
              ground arith,
              add_prompt-Registered r h (is_configuring-eq s.state state) (ground arith) _
                  (ground arith),
            )
          ]
  ]
