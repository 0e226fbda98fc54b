-- ===== src/Server/Sending.antt =====
-- include/synapse/server.hpp: what `emit` sends.
use synapse_mcp.Base.{
  is_ok, is_some, not, ◌&&◌, ◌||◌, bytes_eq, ascii, if◌then◌else◌, ◌≡◌, ◌⊎◌, inl, inr, Bool, true,
  false, Bytes, arith, Bool-cases,
}
use synapse_mcp.Protocol.{Response, response_to_json}
use synapse_mcp.Policy.{frame_fits}
use synapse_mcp.Server.Types.{Server, Environment}
use synapse_mcp.Server.Emit.{substitute, failure, failure_code, tool_failure, emit}

substitute-id : (reply : Response) (method : Bytes) → (substitute reply method).id ≡ reply.id
unfolding substitute tool_failure failure failure_code
substitute-id reply method = ground arith

module _ {D T : Type 0} (env : Environment D T) (s : Server D T) where
  abbrev pub fits : Response → Bool
  fits reply = frame_fits env.lib (response_to_json reply) (env.transport.frame_limit s.transport)

  abbrev pub chosen : Response → Bytes → Response
  chosen reply method = if fits reply then reply else substitute reply method

  -- What the transport makes of one response, and whether it takes it.
  abbrev pub transported : Response → T × Bool
  transported sent =
      let (transport, taken) = env.transport.send (response_to_json sent) s.transport in
      (transport, is_ok taken)

  -- A result of "initialize" that its substitute replaces ends the connection.
  abbrev pub keeps_serving : Response → Bytes → Bool
  keeps_serving reply method =
      fits reply || not (bytes_eq method (ascii "initialize") && is_some reply.result)

  -- The chosen response, which fits the frame and has the id of the reply, went to the transport.
  abbrev pub SentOne : Response → Bytes → Server D T × Bool → Type 0
  SentOne reply method (after, fine) =
      let sent = chosen reply method in
      (fits sent ≡ true)
      × (sent.id ≡ reply.id)
      × (after ≡ record s { transport = (transported sent).0 })
      × (fine ≡ ((transported sent).1 && keeps_serving reply method))

  -- Nothing was sent.
  abbrev pub SentNone : Response → Bytes → Server D T × Bool → Type 0
  SentNone reply method outcome =
      (fits reply ≡ false) × (fits (substitute reply method) ≡ false) × (outcome ≡ (s, false))

  -- `emit` hands one response to the transport, which fits its frame limit and has the id of the
  -- reply: the reply itself when it fits, else its substitute. The server is told to go on if and only
  -- if the transport takes the response, and it does not stand in for a result of "initialize". Only
  -- when neither the reply nor its substitute fits, nothing is sent, and the server is told to stop.
  pub emit-SentOne :
      (reply : Response) (method : Bytes)
      → SentOne reply method (emit env reply method s)
        ⊎ SentNone reply method (emit env reply method s)
  unfolding emit
  emit-SentOne reply method = elim (Bool-cases (fits reply)) [
    | inl small ↦ inl (ground arith, ground arith, ground arith, ground arith)
    | inr large ↦ elim (Bool-cases (fits (substitute reply method))) [
      | inl small ↦
          inl (ground arith, ground (arith, substitute-id reply method), ground arith, ground arith)
      | inr larger ↦ inr (large, larger, ground arith)
    ]
  ]
