-- ===== src/Schema/Nodes.antt =====
-- include/synapse/detail/schema_validator.hpp: the values inside the documents, by their address. The
-- address of a value is the document and the way to it, the last step first.
use synapse_mcp.Base.{
  ℕ, suc, Bool, true, false, ◌&&◌, List, [], ◌∷◌, ◌++◌, Option, none, some, Bytes, ascii, bytes_eq,
  ◌==◌, if◌then◌else◌, ◌>>=◌,
}
use synapse_mcp.Json.{
  Json, null, array, object, Items, nil, cons, Fields, end, field, find_field, is_array,
}
use synapse_mcp.Schema.Backend.{SchemaEngine}

-- The schema that is compiled, or the entry of the catalog under a key.
pub data Document : Type 0 where
  root : Document
  entry : Bytes → Document

pub data Step : Type 0 where
  key : Bytes → Step
  index : ℕ → Step

pub record Address : Type 0 where
  pub document : Document
  pub way : List Step

pub record Node : Type 0 where
  pub address : Address
  pub value : Json

abbrev pub document_eq : Document → Document → Bool
document_eq root root = true
document_eq root (entry k) = false
document_eq (entry k) root = false
document_eq (entry k) (entry j) = bytes_eq k j

abbrev pub step_eq : Step → Step → Bool
step_eq (key k) (key j) = bytes_eq k j
step_eq (key k) (index j) = false
step_eq (index i) (key j) = false
step_eq (index i) (index j) = i == j

unfoldable pub way_eq : List Step → List Step → Bool
way_eq [] [] = true
way_eq [] (t ∷ ts) = false
way_eq (s ∷ ss) [] = false
way_eq (s ∷ ss) (t ∷ ts) = step_eq s t && way_eq ss ts

-- `&a == &b`.
abbrev pub address_eq : Address → Address → Bool
address_eq a b = document_eq a.document b.document && way_eq a.way b.way

abbrev pub document_node : Document → Json → Node
document_node d j = record { address = record { document = d; way = [] }; value = j }

abbrev pub below : Address → Step → Address
below a s = record a { way = s ∷ a.way }

unfoldable pub item_nodes : Address → ℕ → Items → List Node
item_nodes a i nil = []
item_nodes a i (cons x xs) =
    record { address = below a (index i); value = x } ∷ item_nodes a (suc i) xs

unfoldable pub field_nodes : Address → Fields → List Node
field_nodes a end = []
field_nodes a (field k v fs) = record { address = below a (key k); value = v } ∷ field_nodes a fs

-- `for (const auto& child : value)`: a value that holds no others is its own only child.
unfoldable pub children_of : Address → Json → List Node
unfolding item_nodes field_nodes
children_of a null = []
children_of a (array xs) = item_nodes a 0 xs
children_of a (object fs) = field_nodes a fs
children_of a j = record { address = a; value = j } ∷ []

abbrev pub children : Node → List Node
children n = children_of n.address n.value

-- The value under a key of an object.
abbrev pub member_of : Address → Json → Bytes → Option Node
member_of a (object fs) k = elim (find_field k fs) [
  | none ↦ none
  | some v ↦ some (record { address = below a (key k); value = v })
]
member_of a _ k = none

abbrev pub member_node : Node → Bytes → Option Node
member_node n k = member_of n.address n.value k

abbrev pub optional : {A : Type 0} → (Node → List A) → Option Node → List A
optional f none = []
optional f (some n) = f n

-- `inspect` of each value below the keywords that hold several schemas.
abbrev pub below_each : Node → List Bytes → List Node
below_each n [] = []
below_each n (name ∷ names) = optional children (member_node n name) ++ below_each n names

abbrev pub at_each : Node → List Bytes → List Node
at_each n [] = []
at_each n (name ∷ names) = optional (λ c. c ∷ []) (member_node n name) ++ at_each n names

abbrev pub not_arrays : List Node → List Node
not_arrays [] = []
not_arrays (n ∷ ns) = let rest = not_arrays ns in if is_array n.value then rest else n ∷ rest

abbrev pub map_keywords : List Bytes
map_keywords =
    ascii "$defs"
    ∷ ascii "definitions"
    ∷ ascii "properties"
    ∷ ascii "patternProperties"
    ∷ ascii "dependentSchemas"
    ∷ []

abbrev pub schema_keywords : List Bytes
schema_keywords =
    ascii "additionalProperties"
    ∷ ascii "unevaluatedProperties"
    ∷ ascii "propertyNames"
    ∷ ascii "items"
    ∷ ascii "contains"
    ∷ ascii "unevaluatedItems"
    ∷ ascii "not"
    ∷ ascii "if"
    ∷ ascii "then"
    ∷ ascii "else"
    ∷ ascii "contentSchema"
    ∷ []

abbrev pub list_keywords : List Bytes
list_keywords = ascii "prefixItems" ∷ ascii "allOf" ∷ ascii "anyOf" ∷ ascii "oneOf" ∷ []

-- The schemas right below a schema, in the order in which they are inspected.
unfoldable pub subschemas : Node → List Node
subschemas n =
    below_each n map_keywords
    ++ at_each n schema_keywords
    ++ below_each n list_keywords
    ++ optional (λ d. not_arrays (children d)) (member_node n (ascii "dependencies"))

unfoldable pub item_at : Address → ℕ → ℕ → Items → Option Node
item_at a i n nil = none
item_at a i n (cons x xs) =
    if i == n
    then some (record { address = below a (index i); value = x })
    else item_at a (suc i) n xs

-- A token of a JSON pointer; `none` is an exception.
abbrev pub token_of : {U J E : Type 0} → SchemaEngine U J E → Address → Json → Bytes → Option Node
token_of e a (object fs) token = member_of a (object fs) token
token_of e a (array xs) token = do n ← e.array_index token; item_at a 0 n xs
token_of e a _ token = none

-- `document.at(pointer)`.
unfoldable pub follow : {U J E : Type 0} → SchemaEngine U J E → Node → List Bytes → Option Node
unfolding item_at
follow e n [] = some n
follow e n (token ∷ tokens) = do m ← token_of e n.address n.value token; follow e m tokens
