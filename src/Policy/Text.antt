-- ===== src/Policy/Text.antt =====
-- include/synapse/detail/server_policy.hpp: what `filter` lets through.
use synapse_mcp.Base.{◌≡◌, ◌↔◌, true, Option, none, some, Bytes, Expected, ok, arith}
use synapse_mcp.Json.{JsonLibrary}
use synapse_mcp.Handlers.{HandlerError, RequestContext, ServerOptions}
use synapse_mcp.Policy.Defs.{valid_text, filter}

-- Where the output comes from: the text itself, or what the hook made of it.
abbrev pub ComesFrom :
    Option (Bytes → Bytes → RequestContext → Option (Expected Bytes HandlerError))
    → Bytes
    → Bytes
    → RequestContext
    → Bytes
    → Type 0
ComesFrom none operation text context out = out ≡ text
ComesFrom (some hook) operation text context out = hook operation text context ≡ some (ok out)

-- A text is let through exactly when it is valid, the output is valid, and the output is the text
-- itself or what the hook returned for it.
pub filter_iff :
    {D : Type 0} (lib : JsonLibrary) (options : ServerOptions D) (operation text : Bytes)
    (context : RequestContext) (out : Bytes)
    → (filter lib options operation text context ≡ some (ok out)) ↔ (
        (valid_text lib text ≡ true)
        × (valid_text lib out ≡ true)
        × ComesFrom options.filter_output operation text context out)
unfolding filter
filter_iff lib options operation text context out =
    (λ h. (ground arith, ground arith, ground arith), λ h. ground arith)
