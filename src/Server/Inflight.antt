-- ===== src/Server/Inflight.antt =====
-- include/synapse/server.hpp: the list `inflight_`.
use synapse_mcp.Base.{
  not, ◌&&◌, ◌≡◌, refl, ap, ◌∙◌, subst, inl, inr, ℕ, suc, ◌<◌, Bool, false, ◌||◌, List, [], ◌∷◌,
  ◌++◌, map, any, ◌==◌, arith, Bool-cases,
}
use synapse_mcp.Protocol.{RpcId}
use synapse_mcp.RequestId.{same_request_id}
use synapse_mcp.Server.Types.{Operation}
use synapse_mcp.Server.Emit.{erase_operation, cancel_operation}
use synapse_mcp.Server.Session.{mark_cancelled, same_id}

-- Two operations with one id, or with one key.
abbrev pub clashes : Operation → Operation → Bool
clashes op other = same_request_id op.id other.id || other.key == op.key

-- No two operations clash, and the keys were given out before `next`.
abbrev pub IsDistinct : ℕ → List Operation → Type 0
IsDistinct next [] = Unit {0}
IsDistinct next (op ∷ ops) = (op.key < next) × (any (clashes op) ops ≡ false) × IsDistinct next ops

module _ (p : Operation → Bool) where
  any-erase_operation :
      (key : ℕ) (ops : List Operation) → any p ops ≡ false → any p (erase_operation key ops) ≡ false
  any-erase_operation key [] h = refl
  any-erase_operation key (op ∷ ops) h = ground (arith, any-erase_operation key ops)

pub erase_operation-IsDistinct :
    (key next : ℕ) (ops : List Operation)
    → IsDistinct next ops
    → IsDistinct next (erase_operation key ops)
erase_operation-IsDistinct key next [] h = tt
erase_operation-IsDistinct key next (op ∷ ops) (small, fresh, h) =
    elim (Bool-cases (op.key == key)) [
      | inl found ↦
          subst (IsDistinct next) (ground arith) (erase_operation-IsDistinct key next ops h)
      | inr other ↦
          subst (IsDistinct next) {x = op ∷ erase_operation key ops} (ground arith)
            (kept (erase_operation-IsDistinct key next ops h))
    ]
  where
    kept :
        IsDistinct next (erase_operation key ops) → IsDistinct next (op ∷ erase_operation key ops)
    kept rest = (small, any-erase_operation (clashes op) key ops fresh, rest)

any-map_cancel :
    (op : Operation) (ops : List Operation)
    → any (clashes op) (map cancel_operation ops) ≡ any (clashes op) ops
any-map_cancel op [] = refl
any-map_cancel op (o ∷ ops) = ap (λ b. clashes op o || b) (any-map_cancel op ops)

pub map_cancel-IsDistinct :
    (next : ℕ) (ops : List Operation)
    → IsDistinct next ops
    → IsDistinct next (map cancel_operation ops)
map_cancel-IsDistinct next [] h = tt
map_cancel-IsDistinct next (op ∷ ops) (small, fresh, h) =
    (small, any-map_cancel op ops ∙ fresh, map_cancel-IsDistinct next ops h)

any-mark_cancelled :
    (op : Operation) (id : RpcId) (ops : List Operation)
    → any (clashes op) (mark_cancelled id ops).0 ≡ any (clashes op) ops
unfolding mark_cancelled
any-mark_cancelled op id [] = refl
any-mark_cancelled op id (o ∷ ops) = ground (arith, any-mark_cancelled op id ops)

pub mark_cancelled-IsDistinct :
    (next : ℕ) (id : RpcId) (ops : List Operation)
    → IsDistinct next ops
    → IsDistinct next (mark_cancelled id ops).0
unfolding mark_cancelled
mark_cancelled-IsDistinct next id [] h = tt
mark_cancelled-IsDistinct next id (op ∷ ops) (small, fresh, h) = elim (Bool-cases (same_id id op)) [
  | inl found ↦ subst (IsDistinct next) {x = cancel_operation op ∷ ops} (ground arith) marked
  | inr other ↦
      subst (IsDistinct next) {x = op ∷ (mark_cancelled id ops).0} (ground arith)
        (kept (mark_cancelled-IsDistinct next id ops h))
]
  where
    marked : IsDistinct next (cancel_operation op ∷ ops)
    marked = (small, fresh, h)

    kept :
        IsDistinct next (mark_cancelled id ops).0 → IsDistinct next (op ∷ (mark_cancelled id ops).0)
    kept rest = (small, any-mark_cancelled op id ops ∙ fresh, rest)

any-append :
    (p : Operation → Bool) (ops : List Operation) (op : Operation)
    → any p (ops ++ op ∷ []) ≡ (any p ops || p op)
any-append p [] op = ground arith
any-append p (o ∷ ops) op = ground (arith, any-append p ops op)

pub append-IsDistinct :
    (next : ℕ) (ops : List Operation) (id : RpcId)
    → any (same_id id) ops ≡ false
    → IsDistinct next ops
    → IsDistinct (suc next) (ops ++ record { key = next; id = id; cancelled = false } ∷ [])
append-IsDistinct next [] id h d = (omega arith, refl, tt)
append-IsDistinct next (op ∷ ops) id h (small, fresh, d) = (
  omega arith,
  ground (arith, any-append (clashes op) ops (record { key = next; id = id; cancelled = false })),
  append-IsDistinct next ops id (ground arith) d,
)

-- An operation that still gets a reply.
abbrev pub is_alive : ℕ → Operation → Bool
is_alive key op = op.key == key && not op.cancelled

-- The key was given out, and its operation is cancelled or completed.
abbrev pub IsDead : ℕ → ℕ → List Operation → Type 0
IsDead key next ops = (key < next) × (any (is_alive key) ops ≡ false)

pub erase_operation-IsDead :
    (erased key next : ℕ) (ops : List Operation)
    → IsDead key next ops
    → IsDead key next (erase_operation erased ops)
erase_operation-IsDead erased key next ops (old, none_alive) =
    (old, any-erase_operation (is_alive key) erased ops none_alive)

alive-map_cancel :
    (key : ℕ) (ops : List Operation) → any (is_alive key) (map cancel_operation ops) ≡ false
alive-map_cancel key [] = refl
alive-map_cancel key (op ∷ ops) = ground (arith, alive-map_cancel key ops)

pub map_cancel-IsDead :
    (key next : ℕ) (ops : List Operation)
    → IsDead key next ops
    → IsDead key next (map cancel_operation ops)
map_cancel-IsDead key next ops (old, _) = (old, alive-map_cancel key ops)

alive-mark_cancelled :
    (key : ℕ) (id : RpcId) (ops : List Operation)
    → any (is_alive key) ops ≡ false
    → any (is_alive key) (mark_cancelled id ops).0 ≡ false
unfolding mark_cancelled
alive-mark_cancelled key id [] h = refl
alive-mark_cancelled key id (op ∷ ops) h = ground (arith, alive-mark_cancelled key id ops)

pub mark_cancelled-IsDead :
    (key next : ℕ) (id : RpcId) (ops : List Operation)
    → IsDead key next ops
    → IsDead key next (mark_cancelled id ops).0
mark_cancelled-IsDead key next id ops (old, none_alive) =
    (old, alive-mark_cancelled key id ops none_alive)

pub append-IsDead :
    (key next : ℕ) (ops : List Operation) (id : RpcId)
    → IsDead key next ops
    → IsDead key (suc next) (ops ++ record { key = next; id = id; cancelled = false } ∷ [])
append-IsDead key next ops id (old, none_alive) =
    let op : Operation = record { key = next; id = id; cancelled = false } in
    (omega arith, ground (arith, any-append (is_alive key) ops op))
