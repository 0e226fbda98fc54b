-- ===== src/Schema/Registered.antt =====
-- include/synapse/detail/schema_validator.hpp: the loop of the constructor of `registration`.
use synapse_mcp.Base.{
  some-inj, ◌==◌, ◌≡◌, refl, ℕ, zero, suc, ◌+◌, ◌≤◌, ◌<◌, List, [], ◌∷◌, Option, none, some, Bytes,
  length, map_find, arith, sym, ap, subst, ◌∙◌, inl, inr, Bool-cases,
}
use synapse_mcp.Json.{Json, JsonLibrary}
use synapse_mcp.Schema.Backend.{SchemaEngine, KeepsSpelling, done, ◌>>=◌}
use synapse_mcp.Schema.Nodes.{Node, entry, document_node}
use synapse_mcp.Schema.Throughout.{Throughout}
use synapse_mcp.Schema.Registration.{get_elem?, resource_uri, Registration}
use synapse_mcp.Schema.Measure.{Within, depth, backlog}
use synapse_mcp.Schema.Growth.{Fine, fine, ◌>>-◌, Fine-mono, Placed, Grows, Grows-refl, Grows-trans}
use synapse_mcp.Schema.Bodies.{leaves}
use synapse_mcp.Schema.Compile.{inspect_reference, inspect_references}
use synapse_mcp.Schema.Termination.{IsResolved, AllResolved, Grows-inspect_reference}

get_elem-length :
    {A : Type 0} (xs : List A) (i : ℕ) (x : A) → get_elem? xs i ≡ some x → i < length xs
get_elem-length [] i x h = cc
get_elem-length (y ∷ xs) zero x h = omega arith
get_elem-length (y ∷ xs) (suc i) x h = omega (arith, get_elem-length xs i x h)

get_elem-none : {A : Type 0} (xs : List A) (i : ℕ) → get_elem? xs i ≡ none → length xs ≤ i
get_elem-none [] i h = omega arith
get_elem-none (y ∷ xs) zero h = cc
get_elem-none (y ∷ xs) (suc i) h = omega (arith, get_elem-none xs i h)

get_elem-some :
    {A : Type 0} (xs : List A) (i : ℕ) → i < length xs → (x : A) × (get_elem? xs i ≡ some x)
get_elem-some [] i h = absurd (omega arith)
get_elem-some (y ∷ xs) zero h = (y, refl)
get_elem-some (y ∷ xs) (suc i) h = get_elem-some xs i (omega arith)

module _ {U J E : Type 0} (lib : JsonLibrary) (e : SchemaEngine U J E) (us : List Node)
    (catalog : List (Bytes × Json)) (spelled : KeepsSpelling e)
    (documents : (k : Bytes) (j : Json)
      → map_find k catalog ≡ some j
      → Throughout (Within us) (document_node (entry k) j)) where
  -- The references below an index are resolved.
  abbrev Below : ℕ → Registration U J → Type 0
  Below i s = (j : ℕ) (u : U) → j < i → get_elem? s.references j ≡ some u → IsResolved lib e s u

  IsResolved-Grows :
      (s t : Registration U J) (u : U)
      → Grows lib e us catalog 0 0 s t
      → IsResolved lib e s u
      → IsResolved lib e t u
  IsResolved-Grows s t u g h = ground (arith, g.kept (e.uri_string (resource_uri lib e u)))

  Below-Grows :
      (i : ℕ) (s t : Registration U J)
      → Grows lib e us catalog 0 0 s t
      → i ≤ length s.references
      → Below i s
      → Below i t
  Below-Grows i s t g reached below j u less found =
      let (w, here) = get_elem-some s.references j (omega arith) in
      let same = some-inj (sym (g.begins j w here) ∙ found) in
      IsResolved-Grows s t u g (below j u less (here ∙ ap some same))

  Below-suc :
      (i : ℕ) (uri : U) (t : Registration U J)
      → get_elem? t.references i ≡ some uri
      → IsResolved lib e t uri
      → Below i t
      → Below (suc i) t
  Below-suc i uri t here resolved below j u less found = elim (Bool-cases (j == i)) [
    | inl last ↦
        let same : j ≡ i = ground arith in
        subst (IsResolved lib e t)
          (some-inj (sym here ∙ ap (get_elem? t.references) (sym same) ∙ found)) resolved
    | inr before ↦ below j u (ground arith) found
  ]

  module _ (m : ℕ) where
    -- The end of the loop: everything is resolved.
    abbrev Finished : Registration U J → Registration U J → Type 0
    Finished s t = Grows lib e us catalog 0 0 s t × AllResolved lib e t

    Grows-round :
        (rounds i : ℕ) (s : Registration U J) (o : Option U)
        → get_elem? s.references i ≡ o
        → Placed lib e us catalog s
        → depth us catalog s.active_dialects s < m
        → backlog us s < suc rounds + i
        → Below i s
        → ((t : Registration U J)
            → Placed lib e us catalog t
            → depth us catalog t.active_dialects t < m
            → suc i ≤ length t.references
            → backlog us t < rounds + suc i
            → Below (suc i) t
            → Fine (Finished t) (inspect_references lib e catalog rounds m (suc i) t))
        → Fine (Finished s) (elim o [
          | none ↦ done s
          | some uri ↦ do
            t ← inspect_reference lib e catalog m uri s
            inspect_references lib e catalog rounds m (suc i) t
        ])
    Grows-round rounds i s none found places room left below next =
        let last = get_elem-none s.references i found in
        fine (
          Grows-refl lib e us catalog 0 0 s places,
          λ j u h. below j u (omega (arith, last, get_elem-length s.references j u h)) h,
        )
    Grows-round rounds i s (some uri) found places room left below next =
        Grows-inspect_reference lib e us catalog spelled documents m uri s places room
        >>- λ t (g, resolved).
            let reached = get_elem-length s.references i uri found in
            Fine-mono
              (next t g.places (leaves lib e us catalog m 0 0 s t g (omega arith))
                (omega (arith, reached, g.references_le)) (omega (arith, g.backlog_le))
                (Below-suc i uri t (g.begins i uri found) resolved
                  (Below-Grows i s t g (omega arith) below)))
              (λ u (h, all). (Grows-trans lib e us catalog 0 0 0 0 s t u g h, all))

    pub Grows-inspect_references :
        (rounds i : ℕ) (s : Registration U J)
        → Placed lib e us catalog s
        → depth us catalog s.active_dialects s < m
        → i ≤ length s.references
        → backlog us s < rounds + i
        → Below i s
        → Fine (Finished s) (inspect_references lib e catalog rounds m i s)
    unfolding inspect_references backlog
    Grows-inspect_references zero i s places room reached left below = absurd (omega arith)
    Grows-inspect_references (suc rounds) i s places room reached left below =
        Grows-round rounds i s (get_elem? s.references i) refl places room left below
          (Grows-inspect_references rounds (suc i))
