-- ===== src/RequestId.antt =====
-- include/synapse/detail/owned_executor.hpp: `same_request_id`, the identity of ids on the wire.
use synapse_mcp.Base.{
  ℤ, pos, int_eq, int_eq_iff, ◌≡◌, ◌↔◌, ◌≢◌, Bool, true, false, Bytes, bytes_eq, bytes_eq_iff,
  arith, Option, none, some,
}
use synapse_mcp.Protocol.{RpcId, text, signed, unsigned, null}

-- `std::cmp_equal` compares integers of either signedness by value.
unfoldable pub same_request_id : RpcId → RpcId → Bool
same_request_id (text a) (text b) = bytes_eq a b
same_request_id (signed a) (signed b) = int_eq a b
same_request_id (signed a) (unsigned b) = int_eq a (pos b)
same_request_id (unsigned a) (signed b) = int_eq (pos a) b
same_request_id (unsigned a) (unsigned b) = int_eq (pos a) (pos b)
same_request_id _ _ = false

-- What an id stands for: a text or an integer, and nothing for null.
pub data Identity : Type 0 where
  of_text : Bytes → Identity
  of_int : ℤ → Identity

unfoldable pub identity : RpcId → Option Identity
identity (text a) = some (of_text a)
identity (signed a) = some (of_int a)
identity (unsigned a) = some (of_int (pos a))
identity null = none

-- Two ids are the same exactly when both stand for something, and for the same thing; so null is
-- the same as no id, and an integer has one identity whichever sign its type has.
pub same_request_id_iff :
    (a b : RpcId) → (same_request_id a b ≡ true) ↔ ((identity a ≢ none) × (identity a ≡ identity b))
unfolding same_request_id identity
same_request_id_iff (text a) (text b) = ground (arith, bytes_eq_iff a b)
same_request_id_iff (signed a) (signed b) = ground (arith, int_eq_iff a b)
same_request_id_iff (signed a) (unsigned b) = ground (arith, int_eq_iff a (pos b))
same_request_id_iff (unsigned a) (signed b) = ground (arith, int_eq_iff (pos a) b)
same_request_id_iff (unsigned a) (unsigned b) = ground (arith, int_eq_iff (pos a) (pos b))
same_request_id_iff _ _ = ground arith

pub same_request_id_symm : (a b : RpcId) → same_request_id a b ≡ true → same_request_id b a ≡ true
same_request_id_symm a b h = ground (arith, same_request_id_iff a b, same_request_id_iff b a)

pub same_request_id_trans :
    (a b c : RpcId)
    → same_request_id a b ≡ true
    → same_request_id b c ≡ true
    → same_request_id a c ≡ true
same_request_id_trans a b c h k =
    ground (arith, same_request_id_iff a b, same_request_id_iff b c, same_request_id_iff a c)

pub same_request_id_comm : (a b : RpcId) → same_request_id a b ≡ same_request_id b a
same_request_id_comm a b = ground (arith, same_request_id_symm a b, same_request_id_symm b a)
