-- ===== src/Server/View.antt =====
-- include/synapse/server.hpp: the session that a server holds.
use synapse_mcp.Base.{
  ◌≡◌, refl, ap, ◌∙◌, inl, inr, ℕ, true, false, ◌||◌, List, [], ◌∷◌, ◌++◌, map, any, Bool-cases,
  ◌==◌,
}
use synapse_mcp.Protocol.{RpcId}
use synapse_mcp.RequestId.{same_request_id}
use synapse_mcp.Server.Types.{
  Connection, await_initialize, await_initialized, ready, closing, Operation, Server,
}
use synapse_mcp.Server.Emit.{is_serving, erase_operation, cancel_operation}
use synapse_mcp.Server.Session.{
  same_id, mark_cancelled, is_await_initialize, is_await_initialized, is_ready,
}
use synapse_mcp.Server.Specification.{
  Session, Thinned, nothing, keeps, drops, accepts, Moves, Move-Moves,
}

abbrev pub ids : List Operation → List RpcId
ids ops = map (λ op. op.id) ops

abbrev pub view : {D T : Type 0} → Server D T → Session
view s = record { lifecycle = s.state; connection = s.protocol; in_flight = ids s.inflight }

pub Thinned-refl : (is : List RpcId) → Thinned is is
Thinned-refl [] = nothing
Thinned-refl (i ∷ is) = keeps i (Thinned-refl is)

pub Thinned-erase_operation :
    (key : ℕ) (ops : List Operation) → Thinned (ids (erase_operation key ops)) (ids ops)
Thinned-erase_operation key [] = nothing
Thinned-erase_operation key (op ∷ ops) = elim (Bool-cases (op.key == key)) [
  | inl found ↦ rw found (drops op.id (Thinned-erase_operation key ops))
  | inr other ↦ rw other (keeps op.id (Thinned-erase_operation key ops))
]

pub Thinned-map_cancel : (ops : List Operation) → Thinned (ids (map cancel_operation ops)) (ids ops)
Thinned-map_cancel [] = nothing
Thinned-map_cancel (op ∷ ops) = keeps op.id (Thinned-map_cancel ops)

pub Thinned-mark_cancelled :
    (id : RpcId) (ops : List Operation) → Thinned (ids (mark_cancelled id ops).0) (ids ops)
unfolding mark_cancelled
Thinned-mark_cancelled id [] = nothing
Thinned-mark_cancelled id (op ∷ ops) = elim (Bool-cases (same_id id op)) [
  | inl found ↦ rw found (keeps op.id (Thinned-refl (ids ops)))
  | inr other ↦ rw other (keeps op.id (Thinned-mark_cancelled id ops))
]

pub await_initialize_is : (c : Connection) → is_await_initialize c ≡ true → c ≡ await_initialize
await_initialize_is await_initialize h = refl
await_initialize_is await_initialized h = cc
await_initialize_is ready h = cc
await_initialize_is closing h = cc

pub await_initialized_is : (c : Connection) → is_await_initialized c ≡ true → c ≡ await_initialized
await_initialized_is await_initialize h = cc
await_initialized_is await_initialized h = refl
await_initialized_is ready h = cc
await_initialized_is closing h = cc

pub ready_is : (c : Connection) → is_ready c ≡ true → c ≡ ready
ready_is await_initialize h = cc
ready_is await_initialized h = cc
ready_is ready h = refl
ready_is closing h = cc

any-ids :
    (id : RpcId) (ops : List Operation)
    → any (λ i. same_request_id i id) (ids ops) ≡ any (same_id id) ops
any-ids id [] = refl
any-ids id (op ∷ ops) = ap (λ b. same_request_id op.id id || b) (any-ids id ops)

ids-append : (ops : List Operation) (op : Operation) → ids (ops ++ op ∷ []) ≡ ids ops ++ op.id ∷ []
ids-append [] op = refl
ids-append (o ∷ ops) op = ap (λ is. o.id ∷ is) (ids-append ops op)

-- A new operation at the end of the list.
pub pushed-Moves :
    {D T : Type 0} (s : Server D T) (key : ℕ) (id : RpcId)
    → is_serving s.state ≡ true
    → s.protocol ≡ ready
    → any (same_id id) s.inflight ≡ false
    → Moves (view s) (record (view s) {
      in_flight = ids (s.inflight ++ record { key = key; id = id; cancelled = false } ∷ []);
    })
pushed-Moves s key id serving is_so new =
    rw (ids-append s.inflight (record { key = key; id = id; cancelled = false }))
      (Move-Moves (accepts id serving is_so (any-ids id s.inflight ∙ new)))
