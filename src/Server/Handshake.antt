-- ===== src/Server/Handshake.antt =====
-- include/synapse/server.hpp: initialization, and the requests that come before its end.
use synapse_mcp.Base.{
  ◌↔◌, ap, sym, subst, ◌≡◌, refl, ◌⊎◌, inl, inr, true, false, ascii, bytes_eq, any, is_some,
  Bool-cases, arith,
}
use synapse_mcp.Protocol.{Request}
use synapse_mcp.Server.Types.{
  Connection, await_initialize, await_initialized, ready, closing, Server, Environment,
}
use synapse_mcp.Server.Emit.{failure, failure_code, is_serving}
use synapse_mcp.Server.Session.{initialize, valid_initialize, is_await_initialize, same_id}
use synapse_mcp.Server.Receive.{admit_request, push_operation}

module _ {D T : Type 0} (s : Server D T) where
  -- A session begins.
  abbrev pub Begins : Request → Server D T → Type 0
  Begins req after =
      (s.protocol ≡ await_initialize)
      × (valid_initialize req.params ≡ true)
      × (after ≡ record s { protocol = await_initialized })

  await_initialize_eq : (c : Connection) → is_await_initialize c ≡ true → c ≡ await_initialize
  await_initialize_eq await_initialize h = refl
  await_initialize_eq await_initialized h = cc
  await_initialize_eq ready h = cc
  await_initialize_eq closing h = cc

  -- A further attempt is an error, and changes nothing.
  abbrev pub Refuses : Request → Server D T → Type 0
  Refuses again after =
      (is_some (initialize again after).1.err ≡ true) × ((initialize again after).0 ≡ after)

  -- The answer to a request, and to another one right behind it.
  abbrev pub Answers : Request → Request → Type 0
  Answers req again =
      let (after, reply) = initialize req s in
      ((is_some reply.result ≡ true)
        ↔ ((s.protocol ≡ await_initialize) × (valid_initialize req.params ≡ true)))
      × (((is_some reply.result ≡ true) × Begins req after × Refuses again after)
          ⊎ ((is_some reply.err ≡ true) × (after ≡ s)))

  began-Refuses : (again : Request) → Refuses again (record s { protocol = await_initialized })
  unfolding initialize failure failure_code
  began-Refuses again = (refl, refl)

  initialize_early :
      (req : Request)
      → is_await_initialize s.protocol ≡ true
      → valid_initialize req.params ≡ true
      → (initialize req s).0 ≡ record s { protocol = await_initialized }
  unfolding initialize
  initialize_early req early valid = ground arith

  -- "initialize" has a result if and only if it comes at the begin of a connection and with valid
  -- parameters. Then the session waits for the client's notification, and a further "initialize" in
  -- that state is an error that changes nothing. Without a result it is an error and changes nothing.
  pub initialize-Begins : (req again : Request) → Answers req again
  unfolding initialize failure failure_code
  initialize-Begins req again = elim (Bool-cases (is_await_initialize s.protocol)) [
    | inr late ↦ (
      (λ h. absurd (ground arith), λ h. absurd (ground (arith, ap is_await_initialize h.0))),
      inr (ground arith, ground arith),
    )
    | inl early ↦ elim (Bool-cases (valid_initialize req.params)) [
      | inr invalid ↦ (
        (λ h. absurd (ground arith), λ h. absurd (ground (arith, h.1))),
        inr (ground arith, ground arith),
      )
      | inl valid ↦
          let first = await_initialize_eq s.protocol early in
          let begun = initialize_early req early valid in
          (
            (λ h. (first, valid), λ h. ground arith),
            inl (
              ground arith,
              (first, valid, begun),
              subst (Refuses again) (sym begun) (began-Refuses again),
            ),
          )
    ]
  ]

module _ {D T : Type 0} (env : Environment D T) (s : Server D T) where
  -- A request that goes to the queue.
  abbrev pub IsQueueable : Request → Type 0
  IsQueueable req =
      (is_serving s.state ≡ true)
      × (s.protocol ≡ ready)
      × (any (same_id req.id) s.inflight ≡ false)
      × (bytes_eq req.method (ascii "ping") ≡ false)
      × (bytes_eq req.method (ascii "initialize") ≡ false)

  -- A request reaches the queue while the server serves a session that is ready, under an id that
  -- is not in flight, when it is not answered at once.
  pub IsQueueable-admit_request :
      (req : Request) → IsQueueable req → admit_request env req s ≡ push_operation req s
  unfolding admit_request
  IsQueueable-admit_request req (serving, is_so, new, not_ping, not_initialize) = (ground arith)
