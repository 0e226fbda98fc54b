-- ===== src/Schema/Universe.antt =====
-- include/synapse/detail/schema_validator.hpp: all values in the documents of a registration. What
-- is inspected lies below what it is reached from.
use synapse_mcp.Base.{
  ◌≡◌, refl, ap, ℕ, suc, true, List, [], ◌∷◌, ◌++◌, Bytes, bytes_eq_iff, bytes_eq_refl, All, arith,
}
use synapse_mcp.Json.{Json, array, object, Items, nil, cons, Fields, end, field}
use synapse_mcp.Schema.Nodes.{
  Document, root, entry, Step, key, index, Address, Node, document_eq, step_eq, way_eq, address_eq,
  below,
}

unfoldable mutual
  pub nodes_of : Address → Json → List Node
  nodes_of a (array xs) = record { address = a; value = array xs } ∷ nodes_of_items a 0 xs
  nodes_of a (object fs) = record { address = a; value = object fs } ∷ nodes_of_fields a fs
  nodes_of a j = record { address = a; value = j } ∷ []

  pub nodes_of_items : Address → ℕ → Items → List Node
  nodes_of_items a i nil = []
  nodes_of_items a i (cons x xs) = nodes_of (below a (index i)) x ++ nodes_of_items a (suc i) xs

  pub nodes_of_fields : Address → Fields → List Node
  nodes_of_fields a end = []
  nodes_of_fields a (field k v fs) = nodes_of (below a (key k)) v ++ nodes_of_fields a fs

abbrev pub document_nodes : Document → Json → List Node
document_nodes d j = nodes_of (record { document = d; way = [] }) j

unfoldable pub catalog_nodes : List (Bytes × Json) → List Node
unfolding nodes_of
catalog_nodes [] = []
catalog_nodes ((k, j) ∷ entries) = document_nodes (entry k) j ++ catalog_nodes entries

unfoldable pub universe : Json → List (Bytes × Json) → List Node
unfolding catalog_nodes
universe schema catalog = document_nodes root schema ++ catalog_nodes catalog

step_eq_sound : (s t : Step) → step_eq s t ≡ true → s ≡ t
step_eq_sound (key k) (key j) h = ap key ((bytes_eq_iff k j).0 h)
step_eq_sound (key k) (index j) h = cc
step_eq_sound (index i) (key j) h = cc
step_eq_sound (index i) (index j) h = ground arith

way_eq_sound : (ss ts : List Step) → way_eq ss ts ≡ true → ss ≡ ts
unfolding way_eq
way_eq_sound [] [] h = refl
way_eq_sound [] (t ∷ ts) h = cc
way_eq_sound (s ∷ ss) [] h = cc
way_eq_sound (s ∷ ss) (t ∷ ts) h = ground (arith, step_eq_sound s t, way_eq_sound ss ts)

document_eq_sound : (d c : Document) → document_eq d c ≡ true → d ≡ c
document_eq_sound root root h = refl
document_eq_sound root (entry k) h = cc
document_eq_sound (entry k) root h = cc
document_eq_sound (entry k) (entry j) h = ap entry ((bytes_eq_iff k j).0 h)

pub address_eq_sound : (a b : Address) → address_eq a b ≡ true → a ≡ b
address_eq_sound a b h =
    ground (arith, document_eq_sound a.document b.document, way_eq_sound a.way b.way)

step_eq_refl : (s : Step) → step_eq s s ≡ true
step_eq_refl (key k) = bytes_eq_refl k
step_eq_refl (index i) = ground arith

way_eq_refl : (ss : List Step) → way_eq ss ss ≡ true
unfolding way_eq
way_eq_refl [] = refl
way_eq_refl (s ∷ ss) = ground (arith, step_eq_refl s, way_eq_refl ss)

document_eq_refl : (d : Document) → document_eq d d ≡ true
document_eq_refl root = refl
document_eq_refl (entry k) = bytes_eq_refl k

pub address_eq_refl : (a : Address) → address_eq a a ≡ true
address_eq_refl a = ground (arith, document_eq_refl a.document, way_eq_refl a.way)

pub All-split :
    {A : Type 0} (P : A → Type 0) (xs ys : List A) → All P (xs ++ ys) → All P xs × All P ys
All-split P [] ys h = (tt, h)
All-split P (x ∷ xs) ys h = let (l, r) = All-split P xs ys h.1 in ((h.0, l), r)

-- A predicate on values that holds of a value and of all below it.
