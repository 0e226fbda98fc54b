-- ===== src/Server/Specification.antt =====
-- include/synapse/server.hpp: what a session promises, with nothing of how the server keeps it: the
-- lifecycle, the connection, and the ids of the requests in flight.
use synapse_mcp.Base.{ℕ, ◌≤◌, ◌≡◌, true, false, List, [], ◌∷◌, ◌++◌, any}
use synapse_mcp.Protocol.{RpcId}
use synapse_mcp.RequestId.{same_request_id}
use synapse_mcp.Server.Types.{
  Lifecycle, configuring, starting, running, stopping, stopped, Connection, await_initialize,
  await_initialized, ready, closing,
}
use synapse_mcp.Server.Emit.{is_serving}

-- The order of the states.
abbrev pub rank : Lifecycle → ℕ
rank configuring = 0
rank starting = 1
rank running = 2
rank stopping = 3
rank stopped = 4

pub record Session : Type 0 where
  pub lifecycle : Lifecycle
  pub connection : Connection
  pub in_flight : List RpcId

abbrev pub new_session : Session
new_session = record { lifecycle = configuring; connection = await_initialize; in_flight = [] }

-- The second list with some of its ids left out.
pub data Thinned : List RpcId → List RpcId → Type 0 where
  nothing : Thinned [] []
  keeps : {is js : List RpcId} (id : RpcId) → Thinned is js → Thinned (id ∷ is) (id ∷ js)
  drops : {is js : List RpcId} (id : RpcId) → Thinned is js → Thinned is (id ∷ js)

-- What may happen in a session.
pub data Move (x : Session) : Session → Type 0 where
  advances : (l : Lifecycle) → rank x.lifecycle ≤ rank l → Move x (record x { lifecycle = l })
  begins :
      is_serving x.lifecycle ≡ true
      → x.connection ≡ await_initialize
      → Move x (record x { connection = await_initialized })
  confirms :
      is_serving x.lifecycle ≡ true
      → x.connection ≡ await_initialized
      → Move x (record x { connection = ready })
  closes : Move x (record x { connection = closing })
  accepts :
      (id : RpcId)
      → is_serving x.lifecycle ≡ true
      → x.connection ≡ ready
      → any (λ i. same_request_id i id) x.in_flight ≡ false
      → Move x (record x { in_flight = x.in_flight ++ id ∷ [] })
  finishes : (ids : List RpcId) → Thinned ids x.in_flight → Move x (record x { in_flight = ids })

pub data Moves (x : Session) : Session → Type 0 where
  stays : Moves x x
  moves : {y z : Session} → Moves x y → Move y z → Moves x z

pub Moves-trans : {x y z : Session} → Moves x y → Moves y z → Moves x z
Moves-trans m stays = m
Moves-trans m (moves n step) = moves (Moves-trans m n) step

pub Move-Moves : {x y : Session} → Move x y → Moves x y
Move-Moves step = moves stays step
