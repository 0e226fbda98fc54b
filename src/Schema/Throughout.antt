-- ===== src/Schema/Throughout.antt =====
-- include/synapse/detail/schema_validator.hpp: what holds of a value and of all below it holds of what
-- is reached from it.
use synapse_mcp.Base.{
  some-inj, ◌≡◌, refl, sym, subst, inl, inr, ℕ, suc, true, false, List, [], ◌∷◌, Option, none, some,
  Bytes, bytes_eq, bytes_eq_iff, ascii, ◌==◌, if◌then◌else◌, All, All-append, arith, Bool-cases,
  Option-cases,
}
use synapse_mcp.Json.{
  Json, null, boolean, number_unsigned, number_integer, number_float, string, binary, discarded,
  array, object, Items, nil, cons, Fields, end, field, find_field, is_array,
}
use synapse_mcp.Schema.Backend.{SchemaEngine}
use synapse_mcp.Schema.Nodes.{
  key, index, Address, Node, map_keywords, schema_keywords, list_keywords, below, item_nodes,
  field_nodes, children_of, children, member_of, member_node, optional, below_each, at_each,
  not_arrays, subschemas, item_at, token_of, follow,
}
use synapse_mcp.Schema.Universe.{nodes_of, nodes_of_items, nodes_of_fields, All-split}

module _ (P : Node → Type 0) where
  abbrev pub Throughout : Node → Type 0
  Throughout n = All P (nodes_of n.address n.value)

  nodes_of-own :
      (a : Address) (j : Json) → All P (nodes_of a j) → P (record { address = a; value = j })
  unfolding nodes_of
  nodes_of-own a null h = h.0
  nodes_of-own a (array xs) h = h.0
  nodes_of-own a (object fs) h = h.0
  nodes_of-own a (boolean b) h = h.0
  nodes_of-own a (number_unsigned n) h = h.0
  nodes_of-own a (number_integer z) h = h.0
  nodes_of-own a (number_float x) h = h.0
  nodes_of-own a (string s) h = h.0
  nodes_of-own a (binary b) h = h.0
  nodes_of-own a discarded h = h.0

  pub Throughout-own : (n : Node) → Throughout n → P n
  Throughout-own n h = nodes_of-own n.address n.value h

  Throughout-item_nodes :
      (a : Address) (i : ℕ) (xs : Items)
      → All P (nodes_of_items a i xs)
      → All Throughout (item_nodes a i xs)
  unfolding item_nodes nodes_of
  Throughout-item_nodes a i nil h = tt
  Throughout-item_nodes a i (cons x xs) h =
      let (own, rest) = All-split P (nodes_of (below a (index i)) x) _ h in
      (own, Throughout-item_nodes a (suc i) xs rest)

  Throughout-field_nodes :
      (a : Address) (fs : Fields) → All P (nodes_of_fields a fs) → All Throughout (field_nodes a fs)
  unfolding field_nodes nodes_of
  Throughout-field_nodes a end h = tt
  Throughout-field_nodes a (field k v fs) h =
      let (own, rest) = All-split P (nodes_of (below a (key k)) v) _ h in
      (own, Throughout-field_nodes a fs rest)

  Throughout-children_of :
      (a : Address) (j : Json) → All P (nodes_of a j) → All Throughout (children_of a j)
  unfolding children_of nodes_of
  Throughout-children_of a null h = tt
  Throughout-children_of a (array xs) h = Throughout-item_nodes a 0 xs h.1
  Throughout-children_of a (object fs) h = Throughout-field_nodes a fs h.1
  Throughout-children_of a (boolean b) h = (h, tt)
  Throughout-children_of a (number_unsigned n) h = (h, tt)
  Throughout-children_of a (number_integer z) h = (h, tt)
  Throughout-children_of a (number_float x) h = (h, tt)
  Throughout-children_of a (string s) h = (h, tt)
  Throughout-children_of a (binary b) h = (h, tt)
  Throughout-children_of a discarded h = (h, tt)

  Throughout-find_field :
      (a : Address) (k : Bytes) (v : Json) (fs : Fields)
      → find_field k fs ≡ some v
      → All P (nodes_of_fields a fs)
      → All P (nodes_of (below a (key k)) v)
  unfolding find_field nodes_of
  Throughout-find_field a k v end h all = cc
  Throughout-find_field a k v (field j w fs) h all =
      let (own, rest) = All-split P (nodes_of (below a (key j)) w) _ all in
      elim (Bool-cases (bytes_eq k j)) [
        | inl found ↦
            let same = (bytes_eq_iff k j).0 found in
            let value : w ≡ v = ground arith in
            subst (λ i. All P (nodes_of (below a (key i)) v)) (sym same)
              (subst (λ x. All P (nodes_of (below a (key j)) x)) value own)
        | inr other ↦ Throughout-find_field a k v fs (ground arith) rest
      ]

  Throughout-found :
      (a : Address) (fs : Fields) (k : Bytes) (o : Option Json) (m : Node)
      → find_field k fs ≡ o
      → (elim o [ none ↦ none | some v ↦ some (record { address = below a (key k); value = v }) ])
        ≡ some m
      → All P (nodes_of_fields a fs)
      → Throughout m
  Throughout-found a fs k none m found h all = cc
  Throughout-found a fs k (some v) m found h all =
      let same : record { address = below a (key k); value = v } ≡ m = cc in
      subst Throughout same (Throughout-find_field a k v fs found all)

  Throughout-member_of :
      (a : Address) (j : Json) (k : Bytes) (m : Node)
      → member_of a j k ≡ some m
      → All P (nodes_of a j)
      → Throughout m
  unfolding nodes_of
  Throughout-member_of a (object fs) k m h all =
      Throughout-found a fs k (find_field k fs) m refl h all.1
  Throughout-member_of a null k m h all = cc
  Throughout-member_of a (array xs) k m h all = cc
  Throughout-member_of a (boolean b) k m h all = cc
  Throughout-member_of a (number_unsigned n) k m h all = cc
  Throughout-member_of a (number_integer z) k m h all = cc
  Throughout-member_of a (number_float x) k m h all = cc
  Throughout-member_of a (string s) k m h all = cc
  Throughout-member_of a (binary b) k m h all = cc
  Throughout-member_of a discarded k m h all = cc

  pub Throughout-member :
      (n : Node) (k : Bytes) (m : Node) → member_node n k ≡ some m → Throughout n → Throughout m
  Throughout-member n k m h all = Throughout-member_of n.address n.value k m h all

  Throughout-optional :
      (f : Node → List Node)
      → ((m : Node) → Throughout m → All Throughout (f m))
      → (n : Node) (k : Bytes) (o : Option Node) → member_node n k ≡ o
      → Throughout n
      → All Throughout (optional f o)
  Throughout-optional f all n k none h own = tt
  Throughout-optional f all n k (some m) h own = all m (Throughout-member n k m h own)

  Throughout-below_each :
      (n : Node) (names : List Bytes) → Throughout n → All Throughout (below_each n names)
  Throughout-below_each n [] own = tt
  Throughout-below_each n (k ∷ names) own =
      All-append Throughout _ _
        (Throughout-optional children (λ m. Throughout-children_of m.address m.value) n k _ refl
          own)
        (Throughout-below_each n names own)

  Throughout-at_each :
      (n : Node) (names : List Bytes) → Throughout n → All Throughout (at_each n names)
  Throughout-at_each n [] own = tt
  Throughout-at_each n (k ∷ names) own =
      All-append Throughout _ _
        (Throughout-optional (λ m. m ∷ []) (λ m all. (all, tt)) n k _ refl own)
        (Throughout-at_each n names own)

  Throughout-not_arrays : (ns : List Node) → All Throughout ns → All Throughout (not_arrays ns)
  Throughout-not_arrays [] all = tt
  Throughout-not_arrays (n ∷ ns) (own, all) =
      elim (is_array n.value)
        as (λ b. All Throughout (if b then not_arrays ns else n ∷ not_arrays ns)) [
          | true ↦ Throughout-not_arrays ns all
          | false ↦ (own, Throughout-not_arrays ns all)
        ]

  pub Throughout-subschemas : (n : Node) → Throughout n → All Throughout (subschemas n)
  unfolding subschemas
  Throughout-subschemas n own =
      All-append Throughout _ _
        (All-append Throughout _ (below_each n list_keywords)
          (All-append Throughout (below_each n map_keywords) (at_each n schema_keywords)
            (Throughout-below_each n map_keywords own) (Throughout-at_each n schema_keywords own))
          (Throughout-below_each n list_keywords own))
        (Throughout-optional (λ d. not_arrays (children d))
          (λ m all.
            Throughout-not_arrays (children m) (Throughout-children_of m.address m.value all))
          n (ascii "dependencies") _ refl own)

  Throughout-item_at :
      (a : Address) (i n : ℕ) (xs : Items) (m : Node)
      → item_at a i n xs ≡ some m
      → All P (nodes_of_items a i xs)
      → Throughout m
  unfolding item_at nodes_of
  Throughout-item_at a i n nil m h all = cc
  Throughout-item_at a i n (cons x xs) m h all =
      let (own, rest) = All-split P (nodes_of (below a (index i)) x) _ all in
      elim (Bool-cases (i == n)) [
        | inl here ↦ subst Throughout (some-inj (ground arith)) own
        | inr further ↦ Throughout-item_at a (suc i) n xs m (ground arith) rest
      ]

  Throughout-token_of :
      {U J E : Type 0} (e : SchemaEngine U J E) (a : Address) (j : Json) (token : Bytes) (m : Node)
      → token_of e a j token ≡ some m
      → All P (nodes_of a j)
      → Throughout m
  unfolding nodes_of
  Throughout-token_of e a (object fs) token m h all =
      Throughout-member_of a (object fs) token m h all
  Throughout-token_of e a (array xs) token m h all = elim (Option-cases (e.array_index token)) [
    | inl thrown ↦ ground arith
    | inr (i, number) ↦ Throughout-item_at a 0 i xs m (ground arith) all.1
  ]
  Throughout-token_of e a null k m h all = cc
  Throughout-token_of e a (boolean b) k m h all = cc
  Throughout-token_of e a (number_unsigned n) k m h all = cc
  Throughout-token_of e a (number_integer z) k m h all = cc
  Throughout-token_of e a (number_float x) k m h all = cc
  Throughout-token_of e a (string s) k m h all = cc
  Throughout-token_of e a (binary b) k m h all = cc
  Throughout-token_of e a discarded k m h all = cc

  pub Throughout-follow :
      {U J E : Type 0} (e : SchemaEngine U J E) (n : Node) (tokens : List Bytes) (m : Node)
      → follow e n tokens ≡ some m
      → Throughout n
      → Throughout m
  unfolding follow
  Throughout-follow e n [] m h own = subst Throughout (some-inj h) own
  Throughout-follow e n (token ∷ tokens) m h own =
      elim (Option-cases (token_of e n.address n.value token)) [
        | inl thrown ↦ ground arith
        | inr (next, found) ↦
            Throughout-follow e next tokens m (ground arith)
              (Throughout-token_of e n.address n.value token next found own)
      ]
