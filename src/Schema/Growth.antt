-- ===== src/Schema/Growth.antt =====
-- include/synapse/detail/schema_validator.hpp: what the parts of an inspection add to a registration.
use synapse_mcp.Base.{
  is_some, ◌≡◌, refl, subst, ◌∙◌, ℕ, ◌+◌, ◌≤◌, List, [], ◌∷◌, Option, none, some, Bytes, bytes_eq,
  All, length, map_find, arith, Bool-cases, inl, inr, true,
}
use synapse_mcp.Json.{Json, JsonLibrary}
use synapse_mcp.Schema.Backend.{SchemaEngine, Outcome, done, refused, thrown, ◌>>=◌, or_thrown}
use synapse_mcp.Schema.Nodes.{Node}
use synapse_mcp.Schema.Throughout.{Throughout}
use synapse_mcp.Schema.Registration.{get_elem?, Resource, Registration, convert}
use synapse_mcp.Schema.Measure.{Within, depth, backlog}

-- A result that satisfies a predicate, or an exception: not the end of the fuel.
pub data Fine {A : Type 0} (P : A → Type 0) : Outcome A → Type 0 where
  fine : {a : A} → P a → Fine P (done a)
  refuses : {message : Bytes} → Fine P (refused message)
  throws : Fine P thrown

infixl 5 ◌>>-◌
pub ◌>>-◌ :
    {A B : Type 0} {P : A → Type 0} {Q : B → Type 0} {x : Outcome A} {f : A → Outcome B}
    → Fine P x
    → ((a : A) → P a → Fine Q (f a))
    → Fine Q (x >>= f)
fine h >>- k = k _ h
refuses >>- k = refuses
throws >>- k = throws

pub Fine-mono :
    {A : Type 0} {P Q : A → Type 0} {x : Outcome A} → Fine P x → ((a : A) → P a → Q a) → Fine Q x
Fine-mono (fine h) k = fine (k _ h)
Fine-mono refuses k = refuses
Fine-mono throws k = throws

-- The result that a computation has when it ends.
pub Fine-self : {A : Type 0} {P : A → Type 0} {x : Outcome A} → Fine P x → Fine (λ a. x ≡ done a) x
Fine-self (fine h) = fine refl
Fine-self refuses = refuses
Fine-self throws = throws

pub Fine-or_thrown : {A : Type 0} (o : Option A) → Fine (λ a. o ≡ some a) (or_thrown o)
Fine-or_thrown none = throws
Fine-or_thrown (some a) = fine refl

module _ {U J E : Type 0} (lib : JsonLibrary) (e : SchemaEngine U J E) (us : List Node)
    (catalog : List (Bytes × Json)) where
  abbrev pub AllWithin : List (Bytes × Resource) → Type 0
  AllWithin m = All (λ c. Throughout (Within us) c.1.node) m

  abbrev pub AllConverted : List (Bytes × J) → Type 0
  AllConverted m =
      All (λ c. (j : Json) × ((map_find c.0 catalog ≡ some j) × (convert lib e j ≡ done c.1))) m

  -- Every resource lies within the documents, and what is converted is an entry of the catalog.
  abbrev pub Placed : Registration U J → Type 0
  Placed s = AllWithin s.resources × AllConverted s.converted

  pub Throughout-map_find :
      (k : Bytes) (r : Resource) (m : List (Bytes × Resource))
      → map_find k m ≡ some r
      → AllWithin m
      → Throughout (Within us) r.node
  unfolding map_find
  Throughout-map_find k r [] h all = cc
  Throughout-map_find k r ((j, q) ∷ m) h (own, all) = elim (Bool-cases (bytes_eq k j)) [
    | inl found ↦
        let same : q ≡ r = ground arith in subst (λ x. Throughout (Within us) x.node) same own
    | inr other ↦ Throughout-map_find k r m (ground arith) all
  ]

  -- The texts that are registered stay, and the references stay where they are.
  abbrev pub Kept : List (Bytes × Resource) → List (Bytes × Resource) → Type 0
  Kept m n = (k : Bytes) → is_some (map_find k m) ≡ true → is_some (map_find k n) ≡ true

  abbrev pub Begins : List U → List U → Type 0
  Begins us vs = (i : ℕ) (u : U) → get_elem? us i ≡ some u → get_elem? vs i ≡ some u

  -- A registration that has grown out of another, by at most so much depth and backlog.
  pub record Grows (p q : ℕ) (s t : Registration U J) : Type 0 where
    pub active : t.active_dialects ≡ s.active_dialects
    pub depth_le : (a : List Bytes) → depth us catalog a t ≤ depth us catalog a s + p
    pub backlog_le : backlog us t ≤ backlog us s + q
    pub references_le : length s.references ≤ length t.references
    pub places : Placed t
    pub kept : Kept s.resources t.resources
    pub begins : Begins s.references t.references

  pub Grows-refl : (p q : ℕ) (s : Registration U J) → Placed s → Grows p q s s
  Grows-refl p q s h = record {
    active = refl;
    depth_le = λ a. omega arith;
    backlog_le = omega arith;
    references_le = omega arith;
    places = h;
    kept = λ k found. found;
    begins = λ i u found. found;
  }

  pub Grows-trans :
      (p q p' q' : ℕ) (s t u : Registration U J)
      → Grows p q s t
      → Grows p' q' t u
      → Grows (p + p') (q + q') s u
  Grows-trans p q p' q' s t u g h = record {
    active = h.active ∙ g.active;
    depth_le = λ a. omega (arith, g.depth_le a, h.depth_le a);
    backlog_le = omega (arith, g.backlog_le, h.backlog_le);
    references_le = omega (arith, g.references_le, h.references_le);
    places = h.places;
    kept = λ k found. h.kept k (g.kept k found);
    begins = λ i v found. h.begins i v (g.begins i v found);
  }

  pub Grows-le :
      (p q : ℕ) (s t u : Registration U J)
      → ((a : List Bytes) → depth us catalog a s + p ≤ depth us catalog a u)
      → backlog us s + q ≤ backlog us u
      → length u.references ≤ length s.references
      → s.active_dialects ≡ u.active_dialects
      → Kept u.resources s.resources
      → Begins u.references s.references
      → Grows p q s t
      → Grows 0 0 u t
  Grows-le p q s t u d b r a kept begins g = record {
    active = g.active ∙ a;
    depth_le = λ x. omega (arith, g.depth_le x, d x);
    backlog_le = omega (arith, g.backlog_le, b);
    references_le = omega (arith, g.references_le, r);
    places = g.places;
    kept = λ k found. g.kept k (kept k found);
    begins = λ i v found. g.begins i v (begins i v found);
  }
