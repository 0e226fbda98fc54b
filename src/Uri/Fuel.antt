-- ===== src/Uri/Fuel.antt =====
-- include/synapse/server.hpp: the loop over the groups of an IPv6 address ends.
use synapse_mcp.Base.{
  ◌≡◌, ℕ, zero, suc, ◌<◌, ◌+◌, Bool, [], ◌∷◌, some, Bytes, length, Option-cases, inl, inr, arith,
}
use synapse_mcp.Uri.Defs.{cut, count_groups, groups_of}

cut_shorter : (c : ℕ) (text rest : Bytes) → (cut c text).1 ≡ some rest → length rest < length text
unfolding cut
cut_shorter c [] rest h = cc
cut_shorter c (x ∷ text) rest h = ground (arith, cut_shorter c text rest)

-- Two amounts of fuel that are enough give one answer.
enough :
    (fuel other : ℕ) (tail : Bool) (part : Bytes) (groups : ℕ)
    → length part < fuel
    → length part < other
    → count_groups fuel tail part groups ≡ count_groups other tail part groups
unfolding count_groups
enough zero other tail part groups h k = absurd (omega arith)
enough (suc fuel) zero tail part groups h k = absurd (omega arith)
enough (suc fuel) (suc other) tail part groups h k = elim (Option-cases (cut b':' part).1) [
  | inl last ↦ ground arith
  | inr (rest, more) ↦ ground (
    arith,
    cut_shorter b':' part rest more,
    enough fuel other tail rest (groups + 1),
    enough fuel other tail rest (groups + 2),
  )
]

-- The fuel of one more than the length is enough: more of it changes no answer of the loop over the
-- groups of an address.
pub count_groups-groups_of :
    (fuel : ℕ) (tail : Bool) (part : Bytes) (groups : ℕ)
    → length part < fuel
    → count_groups fuel tail part groups ≡ groups_of tail part groups
count_groups-groups_of fuel tail part groups h =
    enough fuel (suc (length part)) tail part groups h (omega arith)
