-- ===== src/Server/Sessions.antt =====
-- include/synapse/server.hpp: what holds in every session that a server holds.
use synapse_mcp.Base.{
  ◌≡◌, refl, Bool, true, false, not, ◌||◌, List, [], ◌∷◌, ◌++◌, any, is_empty, ltb, arith,
}
use synapse_mcp.Protocol.{RpcId}
use synapse_mcp.RequestId.{same_request_id, same_request_id_comm}
use synapse_mcp.Handlers.{ServerOptions}
use synapse_mcp.Server.Types.{
  Lifecycle, configuring, starting, running, stopping, stopped, ServerInfo, Server, Environment,
}
use synapse_mcp.Server.Emit.{is_serving}
use synapse_mcp.Server.Session.{is_await_initialize, is_ready, is_closing}
use synapse_mcp.Server.Lifecycle.{new_server}
use synapse_mcp.Server.Steps.{Reach}
use synapse_mcp.Server.Specification.{
  rank, Session, new_session, Thinned, nothing, keeps, drops, Move, advances, begins, confirms,
  closes, accepts, finishes, Moves, stays, moves,
}
use synapse_mcp.Server.View.{view}
use synapse_mcp.Server.Monotone.{Reach-Moves}

-- No two ids are the same.
abbrev pub Distinct : List RpcId → Type 0
Distinct [] = Unit
Distinct (id ∷ ids) = (any (λ i. same_request_id i id) ids ≡ false) × Distinct ids

-- Requests are in flight only behind the handshake, and a handshake begins only behind the start.
pub record IsSession (x : Session) : Type 0 where
  pub distinct : Distinct x.in_flight
  pub handshake : (is_empty x.in_flight || is_ready x.connection || is_closing x.connection) ≡ true
  pub started :
      (is_await_initialize x.connection || is_closing x.connection || ltb 0 (rank x.lifecycle))
      ≡ true

any-Thinned :
    (id : RpcId) {is js : List RpcId}
    → Thinned is js
    → any (λ i. same_request_id i id) js ≡ false
    → any (λ i. same_request_id i id) is ≡ false
any-Thinned id nothing h = refl
any-Thinned id (keeps j t) h = ground (arith, any-Thinned id t)
any-Thinned id (drops j t) h = any-Thinned id t (ground arith)

Distinct-Thinned : {is js : List RpcId} → Thinned is js → Distinct js → Distinct is
Distinct-Thinned nothing d = tt
Distinct-Thinned (keeps id t) d = (any-Thinned id t d.0, Distinct-Thinned t d.1)
Distinct-Thinned (drops id t) d = Distinct-Thinned t d.1

is_empty-Thinned : {is js : List RpcId} → Thinned is js → (not (is_empty js) || is_empty is) ≡ true
is_empty-Thinned nothing = refl
is_empty-Thinned (keeps id t) = refl
is_empty-Thinned (drops id t) = refl

any-append :
    (p : RpcId → Bool) (is : List RpcId) (id : RpcId) → any p (is ++ id ∷ []) ≡ (any p is || p id)
any-append p [] id = ground arith
any-append p (i ∷ is) id = ground (arith, any-append p is id)

Distinct-append :
    (is : List RpcId) (id : RpcId)
    → Distinct is
    → any (λ i. same_request_id i id) is ≡ false
    → Distinct (is ++ id ∷ [])
Distinct-append [] id d h = (refl, tt)
Distinct-append (i ∷ is) id d h = (
  ground (arith, any-append (λ j. same_request_id j i) is id, same_request_id_comm i id),
  Distinct-append is id d.1 (ground arith),
)

serving-rank : (l : Lifecycle) → is_serving l ≡ true → ltb 0 (rank l) ≡ true
serving-rank configuring h = cc
serving-rank starting h = refl
serving-rank running h = refl
serving-rank stopping h = refl
serving-rank stopped h = refl

Move-IsSession : {x y : Session} → Move x y → IsSession x → IsSession y
Move-IsSession {x} (advances l up) v = ground arith
Move-IsSession {x} (begins live e) v = ground (arith, serving-rank x.lifecycle)
Move-IsSession {x} (confirms live e) v = ground (arith, serving-rank x.lifecycle)
Move-IsSession {x} closes v = ground arith
Move-IsSession {x} (accepts id live e new) v = record {
  distinct = Distinct-append x.in_flight id v.distinct new;
  handshake = ground arith;
  started = v.started;
}
Move-IsSession {x} (finishes ids t) v = record {
  distinct = Distinct-Thinned t v.distinct;
  handshake = ground (arith, is_empty-Thinned t, v.handshake);
  started = v.started;
}

Moves-IsSession : {x y : Session} → Moves x y → IsSession x → IsSession y
Moves-IsSession stays v = v
Moves-IsSession (moves m step) v = Move-IsSession step (Moves-IsSession m v)

module _ {D T : Type 0} (env : Environment D T) where
  -- From a new server, whatever the reader, the worker and the owner do, the session that the server
  -- holds comes about by moves of the specification; so the requests in flight have distinct ids,
  -- there are some only behind the handshake, and the handshake begins only behind the start.
  pub Reach-new_server-Moves :
      (info : ServerInfo) (options : ServerOptions D) (transport : T) {s : Server D T}
      → Reach env (new_server env info options transport) s
      → Moves new_session (view s) × IsSession (view s)
  unfolding new_server
  Reach-new_server-Moves info options transport run =
      let m = Reach-Moves env run in
      (m, Moves-IsSession m (record { distinct = tt; handshake = refl; started = refl }))
