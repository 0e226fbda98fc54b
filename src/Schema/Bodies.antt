-- ===== src/Schema/Bodies.antt =====
-- include/synapse/detail/schema_validator.hpp: the bodies of `registration::inspect` and `check_dialect`,
-- for calls of them that end.
use synapse_mcp.Base.{
  ◌≡◌, refl, sym, subst, ℕ, suc, ◌+◌, ◌<◌, Bool, true, false, not, ◌||◌, List, [], ◌∷◌, Option,
  none, some, Bytes, ascii, if◌then◌else◌, All, arith,
}
use synapse_mcp.Json.{Json, is_object, JsonLibrary, dump}
use synapse_mcp.Schema.Validate.{representable}
use synapse_mcp.Schema.Backend.{SchemaEngine, done, ◌>>=◌, or_thrown}
use synapse_mcp.Schema.Nodes.{Node, member_node, subschemas}
use synapse_mcp.Schema.Throughout.{Throughout, Throughout-subschemas}
use synapse_mcp.Schema.Registration.{
  Registration, convert, validate_schema, invalid_document, identify, check_vocabulary, add_anchor,
  add_reference,
}
use synapse_mcp.Schema.Inspection.{
  Inspect, CheckDialect, mark, is_inspected, inspect_all, check_schema, inspect_new, inspect_with,
}
use synapse_mcp.Schema.Measure.{Within, depth}
use synapse_mcp.Schema.Growth.{
  Fine, fine, refuses, ◌>>-◌, Fine-mono, Placed, Grows, Grows-refl, Grows-trans, Grows-le,
}
use synapse_mcp.Schema.Additions.{Ends, Ends-or_thrown, Ends-text_of, Ends-check_vocabulary}
use synapse_mcp.Schema.Extending.{
  depth-mark, backlog-mark, Grows-identify, Grows-add_anchor, Grows-add_reference,
}

module _ {U J E : Type 0} (lib : JsonLibrary) (e : SchemaEngine U J E) where
  pub Ends-convert : (j : Json) → Ends (convert lib e j)
  unfolding convert
  Ends-convert j = Ends-or_thrown (dump lib j) >>- λ text _. Ends-or_thrown (e.parse_json text)

  pub Ends-validate_schema : (j : Json) → Ends (validate_schema lib e j)
  unfolding validate_schema
  Ends-validate_schema j =
      elim (not (representable j))
        as (λ b. Ends (
          if b then invalid_document lib e else do
            value ← convert lib e j
            satisfied ← or_thrown (e.satisfies_metaschema value)
            if satisfied then done tt else invalid_document lib e)) [
              | true ↦ refuses
              | false ↦ Ends-convert j >>- λ value _.
                  Ends-or_thrown (e.satisfies_metaschema value) >>- λ satisfied _.
                  elim satisfied as (λ b. Ends (if b then done tt else invalid_document lib e)) [
                    | true ↦ fine tt
                    | false ↦ refuses
                  ]
            ]

module _ {U J E : Type 0} (lib : JsonLibrary) (e : SchemaEngine U J E) (us : List Node)
    (catalog : List (Bytes × Json)) where
  -- Calls that end when so much depth is left.
  abbrev pub Inspects : ℕ → Inspect lib e → Type 0
  Inspects m f =
      (n : Node) (base : Bytes) (s : Registration U J)
      → Throughout (Within us) n
      → Placed lib e us catalog s
      → depth us catalog s.active_dialects s < m
      → Fine (Grows lib e us catalog 0 0 s) (f n base s)

  abbrev pub Checks : ℕ → CheckDialect lib e → Type 0
  Checks m g =
      (identifier : Bytes) (s : Registration U J)
      → Placed lib e us catalog s
      → depth us catalog s.active_dialects s < m
      → Fine (Grows lib e us catalog 0 0 s) (g identifier s)

  -- The room that is left in a registration that has grown.
  pub leaves :
      (m p q : ℕ) (s t : Registration U J)
      → Grows lib e us catalog p q s t
      → depth us catalog s.active_dialects s + p < m
      → depth us catalog t.active_dialects t < m
  leaves m p q s t g room =
      subst (λ a. depth us catalog a t < m) (sym g.active)
        (omega (arith, g.depth_le s.active_dialects))

  module _ (m : ℕ) (f : Inspect lib e) (g : CheckDialect lib e) (inspects : Inspects m f)
      (checks : Checks m g) where
    Grows-inspect_all :
        (base : Bytes) (ns : List Node) (s : Registration U J)
        → All (Throughout (Within us)) ns
        → Placed lib e us catalog s
        → depth us catalog s.active_dialects s < m
        → Fine (Grows lib e us catalog 0 0 s) (inspect_all lib e f base ns s)
    unfolding inspect_all
    Grows-inspect_all base [] s all places room = fine (Grows-refl lib e us catalog 0 0 s places)
    Grows-inspect_all base (n ∷ ns) s (own, all) places room =
        inspects n base s own places room >>- λ t h.
        Fine-mono (Grows-inspect_all base ns t all h.places (leaves m 0 0 s t h (omega arith)))
          (λ u. Grows-trans lib e us catalog 0 0 0 0 s t u h)

    Grows-check_schema :
        (o : Option Node) (s : Registration U J)
        → Placed lib e us catalog s
        → depth us catalog s.active_dialects s < m
        → Fine (Grows lib e us catalog 0 0 s) (check_schema lib e g o s)
    Grows-check_schema none s places room = fine (Grows-refl lib e us catalog 0 0 s places)
    Grows-check_schema (some schema) s places room =
        Ends-text_of schema.value >>- λ text _. checks text s places room

    -- The parts behind the mark, which leaves room for one more resource.
    Grows-inspect_new_marked :
        (n : Node) (base : Bytes) (s : Registration U J)
        → Throughout (Within us) n
        → Placed lib e us catalog s
        → depth us catalog s.active_dialects s + 1 < m
        → Fine (Grows lib e us catalog 1 2 s) (do
          r ← identify lib e base n s
          s₁ ← check_schema lib e g (member_node n (ascii "$schema")) r.1
          _ ← check_vocabulary lib e n
          s₂ ← add_anchor lib e r.0 n (ascii "$anchor") s₁
          s₃ ← add_anchor lib e r.0 n (ascii "$dynamicAnchor") s₂
          s₄ ← add_reference lib e r.0 n (ascii "$ref") s₃
          s₅ ← add_reference lib e r.0 n (ascii "$dynamicRef") s₄
          inspect_all lib e f r.0 (subschemas n) s₅)
    Grows-inspect_new_marked n base s own places room =
        Grows-identify lib e us catalog base n s own places >>- λ r g₀.
        Grows-check_schema _ r.1 g₀.places (leaves m 1 0 s r.1 g₀ room) >>- λ s₁ g₁.
        Ends-check_vocabulary lib e n >>- λ _ _.
        Grows-add_anchor lib e us catalog r.0 n (ascii "$anchor") s₁ g₁.places >>- λ s₂ g₂.
        Grows-add_anchor lib e us catalog r.0 n (ascii "$dynamicAnchor") s₂ g₂.places >>- λ s₃ g₃.
        Grows-add_reference lib e us catalog r.0 n (ascii "$ref") s₃ g₃.places >>- λ s₄ g₄.
        Grows-add_reference lib e us catalog r.0 n (ascii "$dynamicRef") s₄ g₄.places >>- λ s₅ g₅.
        let h₁ = Grows-trans lib e us catalog 1 0 0 0 s r.1 s₁ g₀ g₁ in
        let h₂ = Grows-trans lib e us catalog 1 0 0 0 s s₁ s₂ h₁ g₂ in
        let h₃ = Grows-trans lib e us catalog 1 0 0 0 s s₂ s₃ h₂ g₃ in
        let h₄ = Grows-trans lib e us catalog 1 0 0 1 s s₃ s₄ h₃ g₄ in
        let h₅ = Grows-trans lib e us catalog 1 1 0 1 s s₄ s₅ h₄ g₅ in
        Fine-mono
          (Grows-inspect_all r.0 (subschemas n) s₅ (Throughout-subschemas (Within us) n own)
            g₅.places (leaves m 1 2 s s₅ h₅ room))
          (λ s₆. Grows-trans lib e us catalog 1 2 0 0 s s₅ s₆ h₅)

    Grows-inspect_new :
        (n : Node) (base : Bytes) (s : Registration U J)
        → is_inspected lib e n s ≡ false
        → Throughout (Within us) n
        → Placed lib e us catalog s
        → depth us catalog s.active_dialects s < suc m
        → Fine (Grows lib e us catalog 0 0 s) (inspect_new lib e f g n base s)
    unfolding inspect_new
    Grows-inspect_new n base s fresh own places room =
        let marked = mark lib e n s in
        let less = λ (a : List Bytes). depth-mark lib e us catalog n s a own fresh in
        Fine-mono
          (Grows-inspect_new_marked n base marked own places
            (omega (arith, less s.active_dialects)))
          (λ t.
            Grows-le lib e us catalog 1 2 marked t s (λ a. omega (arith, less a))
              (omega (arith, backlog-mark lib e us catalog n s own fresh)) (omega arith) refl
              (λ k h. h) (λ i u h. h))

    Grows-inspect_tested :
        (n : Node) (base : Bytes) (s : Registration U J) (known : Bool)
        → is_inspected lib e n s ≡ known
        → Throughout (Within us) n
        → Placed lib e us catalog s
        → depth us catalog s.active_dialects s < suc m
        → Fine
            (Grows lib e us catalog 0 0 s)
            (if not (is_object n.value) || known then done s else inspect_new lib e f g n base s)
    Grows-inspect_tested n base s true h own places room =
        elim (not (is_object n.value))
          as (λ b.
            Fine (Grows lib e us catalog 0 0 s)
              (if b || true then done s else inspect_new lib e f g n base s)) [
                | true ↦ fine (Grows-refl lib e us catalog 0 0 s places)
                | false ↦ fine (Grows-refl lib e us catalog 0 0 s places)
              ]
    Grows-inspect_tested n base s false fresh own places room =
        elim (not (is_object n.value))
          as (λ b.
            Fine (Grows lib e us catalog 0 0 s)
              (if b || false then done s else inspect_new lib e f g n base s)) [
                | true ↦ fine (Grows-refl lib e us catalog 0 0 s places)
                | false ↦ Grows-inspect_new n base s fresh own places room
              ]

    pub Inspects-inspect_with : Inspects (suc m) (inspect_with lib e f g)
    unfolding inspect_with
    Inspects-inspect_with n base s own places room =
        Grows-inspect_tested n base s (is_inspected lib e n s) refl own places room
