-- ===== src/Schema/Measure.antt =====
-- include/synapse/detail/schema_validator.hpp: what a registration still has to inspect, to load and to
-- enter.
use synapse_mcp.Base.{
  ◌≡◌, refl, sym, subst, ℕ, ◌+◌, ◌*◌, ◌≤◌, ◌<◌, Bool, true, false, not, List, [], ◌∷◌, ◌++◌, some,
  Bytes, bytes_eq, bytes_eq_iff, if◌then◌else◌, any, All, length, map_find, is_some, arith,
  Bool-cases, ◌⊎◌, inl, inr,
}
use synapse_mcp.Json.{Json}
use synapse_mcp.Schema.Nodes.{Node, root, entry, address_eq}
use synapse_mcp.Schema.Universe.{document_nodes, catalog_nodes, universe, address_eq_refl}
use synapse_mcp.Schema.Registration.{Resource, Registration, is_member}

-- How many items pass a test.
module _ {A : Type 0} where
  unfoldable pub tally : (A → Bool) → List A → ℕ
  tally p [] = 0
  tally p (x ∷ xs) = (if p x then 1 else 0) + tally p xs

  pub tally_mono :
      (p q : A → Bool)
      → ((x : A) → p x ≡ true → q x ≡ true)
      → (xs : List A) → tally p xs ≤ tally q xs
  unfolding tally
  tally_mono p q h [] = omega arith
  tally_mono p q h (x ∷ xs) = ground (arith, h x, tally_mono p q h xs)

  pub tally_strict :
      (p q r : A → Bool)
      → ((x : A) → p x ≡ true → q x ≡ true)
      → ((x : A) → r x ≡ true → p x ≡ false)
      → ((x : A) → r x ≡ true → q x ≡ true)
      → (xs : List A) → any r xs ≡ true
      → tally p xs < tally q xs
  unfolding tally
  tally_strict p q r h drop keep [] found = cc
  tally_strict p q r h drop keep (x ∷ xs) found = elim (Bool-cases (r x)) [
    | inl here ↦ ground (arith, drop x here, keep x here, tally_mono p q h xs)
    | inr further ↦ ground (arith, h x, tally_strict p q r h drop keep xs (ground arith))
  ]

  pub tally-length : (p : A → Bool) (xs : List A) → tally p xs ≤ length xs
  unfolding tally
  tally-length p [] = omega arith
  tally-length p (x ∷ xs) = ground (arith, tally-length p xs)

  pub All-mono : (P Q : A → Type 0) → ((x : A) → P x → Q x) → (xs : List A) → All P xs → All Q xs
  All-mono P Q h [] all = tt
  All-mono P Q h (x ∷ xs) (own, all) = (h x own, All-mono P Q h xs all)

-- Whether a value, with its address, is in a list.
abbrev pub Within : List Node → Node → Type 0
Within [] n = true ≡ false
Within (u ∷ us) n = (n ≡ u) ⊎ Within us n

pub Within-any :
    (us : List Node) (n : Node) → Within us n → any (λ u. address_eq n.address u.address) us ≡ true
Within-any [] n h = absurd (ground arith)
Within-any (u ∷ us) n (inl same) =
    let first =
      subst (λ x. address_eq n.address x.address ≡ true) same (address_eq_refl n.address) in
    ground (arith, first)
Within-any (u ∷ us) n (inr later) = ground (arith, Within-any us n later)

Within-append_left : (us vs : List Node) (n : Node) → Within us n → Within (us ++ vs) n
Within-append_left [] vs n h = absurd (ground arith)
Within-append_left (u ∷ us) vs n (inl same) = inl same
Within-append_left (u ∷ us) vs n (inr later) = inr (Within-append_left us vs n later)

Within-append_right : (us vs : List Node) (n : Node) → Within vs n → Within (us ++ vs) n
Within-append_right [] vs n h = h
Within-append_right (u ∷ us) vs n h = inr (Within-append_right us vs n h)

All-Within : (us : List Node) → All (Within us) us
All-Within [] = tt
All-Within (u ∷ us) =
    (inl refl, All-mono (Within us) (Within (u ∷ us)) (λ n h. inr h) us (All-Within us))

pub Within-root :
    (schema : Json) (catalog : List (Bytes × Json))
    → All (Within (universe schema catalog)) (document_nodes root schema)
unfolding universe
Within-root schema catalog =
    All-mono _ _ (Within-append_left (document_nodes root schema) (catalog_nodes catalog)) _
      (All-Within (document_nodes root schema))

Within-catalog :
    (k : Bytes) (j : Json) (catalog : List (Bytes × Json))
    → map_find k catalog ≡ some j
    → All (Within (catalog_nodes catalog)) (document_nodes (entry k) j)
unfolding map_find catalog_nodes
Within-catalog k j [] h = cc
Within-catalog k j ((i, v) ∷ catalog) h = elim (Bool-cases (bytes_eq k i)) [
  | inl found ↦
      let same = (bytes_eq_iff k i).0 found in
      let value : v ≡ j = ground arith in
      let own =
        All-mono _ _ (Within-append_left (document_nodes (entry i) v) (catalog_nodes catalog)) _
          (All-Within (document_nodes (entry i) v)) in
      let P = Within (document_nodes (entry i) v ++ catalog_nodes catalog) in
      subst (λ x. All P (document_nodes (entry x) j)) (sym same)
        (subst (λ x. All P (document_nodes (entry i) x)) value own)
  | inr other ↦
      All-mono _ _ (Within-append_right (document_nodes (entry i) v) (catalog_nodes catalog)) _
        (Within-catalog k j catalog (ground arith))
]

pub Within-entry :
    (schema : Json) (k : Bytes) (j : Json) (catalog : List (Bytes × Json))
    → map_find k catalog ≡ some j
    → All (Within (universe schema catalog)) (document_nodes (entry k) j)
unfolding universe
Within-entry schema k j catalog h =
    All-mono _ _ (Within-append_right (document_nodes root schema) (catalog_nodes catalog)) _
      (Within-catalog k j catalog h)

pub any-map_find :
    {V : Type 0} (k : Bytes) (m : List (Bytes × V))
    → is_some (map_find k m) ≡ true
    → any (λ c. bytes_eq k c.0) m ≡ true
unfolding map_find
any-map_find k [] h = cc
any-map_find k ((j, v) ∷ m) h = elim (Bool-cases (bytes_eq k j)) [
  | inl found ↦ ground arith
  | inr other ↦ ground (arith, any-map_find k m (ground arith))
]

abbrev pub is_inactive : List Bytes → Bytes × Resource → Bool
is_inactive active c = not (is_member c.0 active)

module _ {U J : Type 0} where
  abbrev pub is_uninspected : Registration U J → Node → Bool
  is_uninspected s n = not (any (address_eq n.address) s.inspected)

  abbrev pub is_unloaded : Registration U J → Bytes × Json → Bool
  is_unloaded s c = not (is_some (map_find c.0 s.resources))

  -- What bounds the depth of the recursion, for the dialects that are active.
  unfoldable pub depth : List Node → List (Bytes × Json) → List Bytes → Registration U J → ℕ
  depth us catalog active s =
      2 * tally (is_uninspected s) us
      + 2 * tally (is_unloaded s) catalog
      + tally (is_inactive active) s.resources

  -- What bounds the references that are added.
  unfoldable pub backlog : List Node → Registration U J → ℕ
  backlog us s = length s.references + 2 * tally (is_uninspected s) us
