-- ===== src/Server/Stdio.antt =====
-- include/synapse/server.hpp, over include/synapse/transport.hpp: the functions of a transport that a
-- server takes, filled by the stdio transport. `now` is the clock at a stop.
use synapse_mcp.Base.{ℕ}
use synapse_mcp.Json.{JsonLibrary}
use synapse_mcp.Transport.{Transport}
use synapse_mcp.Transport
use synapse_mcp.Server.Types.{TransportOps}

abbrev pub stdio_ops : JsonLibrary → ℕ → TransportOps Transport
stdio_ops lib now = record {
  send = Transport.send lib;
  stop = Transport.stop now;
  frame_limit = Transport.max_encoded_frame_bytes;
}
