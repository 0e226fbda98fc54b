-- ===== src/Decoder/Diagnostics.antt =====
-- What a refused message gives rise to.
use synapse_mcp.Base.{◌≡◌, true, ◌⊎◌, some, ascii}
use synapse_mcp.Json.{Json, member}
use synapse_mcp.Protocol.{Response, null, read_json_rpc_id}
use synapse_mcp.Decoder.Defs.{is_request_id}

-- The id of a diagnostic is null, or it was read from a valid id of the input.
abbrev pub IsEcho : Json → Response → Type 0
IsEcho wire f =
    (f.id ≡ null)
    ⊎ ((v : Json) × (member wire (ascii "id") ≡ some v)
        × (is_request_id v ≡ true)
        × (f.id ≡ read_json_rpc_id v))
