-- ===== src/Schema/Additions.antt =====
-- include/synapse/detail/schema_validator.hpp: `registration::inspect`, the parts before the schemas below.
use synapse_mcp.Base.{
  zero, suc, ◌≡◌, true, false, not, ◌&&◌, List, [], ◌∷◌, ◌++◌, Option, none, some, Bytes, ascii,
  if◌then◌else◌, ℕ,
}
use synapse_mcp.Json.{
  Json, null, boolean, number_unsigned, number_integer, number_float, string, binary, discarded,
  array, object, JsonLibrary,
}
use synapse_mcp.Schema.Backend.{SchemaEngine, Outcome, done, refused, or_thrown, text_of, flag_of}
use synapse_mcp.Schema.Nodes.{Node, member_node}
use synapse_mcp.Schema.Registration.{
  get_elem?, uri_key, vocabularies, supported_vocabulary, entries_of, check_vocabulary,
}
use synapse_mcp.Schema.Growth.{Fine, fine, refuses, throws, ◌>>-◌}

pub get_elem-append :
    {A : Type 0} (xs ys : List A) (i : ℕ) (x : A)
    → get_elem? xs i ≡ some x
    → get_elem? (xs ++ ys) i ≡ some x
get_elem-append [] ys i x h = cc
get_elem-append (y ∷ xs) ys zero x h = h
get_elem-append (y ∷ xs) ys (suc i) x h = get_elem-append xs ys i x h

-- Any value, or an exception.
abbrev pub Ends : {A : Type 0} → Outcome A → Type 0
Ends x = Fine (λ _. Unit) x

pub Ends-or_thrown : {A : Type 0} (o : Option A) → Ends (or_thrown o)
Ends-or_thrown none = throws
Ends-or_thrown (some a) = fine tt

pub Ends-text_of : (j : Json) → Ends (text_of j)
Ends-text_of (string s) = fine tt
Ends-text_of null = throws
Ends-text_of (array xs) = throws
Ends-text_of (object fs) = throws
Ends-text_of (boolean b) = throws
Ends-text_of (number_unsigned n) = throws
Ends-text_of (number_integer z) = throws
Ends-text_of (number_float x) = throws
Ends-text_of (binary b) = throws
Ends-text_of discarded = throws

Ends-flag_of : (j : Json) → Ends (flag_of j)
Ends-flag_of (boolean b) = fine tt
Ends-flag_of null = throws
Ends-flag_of (array xs) = throws
Ends-flag_of (object fs) = throws
Ends-flag_of (string s) = throws
Ends-flag_of (number_unsigned n) = throws
Ends-flag_of (number_integer z) = throws
Ends-flag_of (number_float x) = throws
Ends-flag_of (binary b) = throws
Ends-flag_of discarded = throws

module _ {U J E : Type 0} (lib : JsonLibrary) (e : SchemaEngine U J E) where
  pub Ends-uri_key : (text : Bytes) → Ends (uri_key lib e text)
  Ends-uri_key text = Ends-or_thrown (e.parse_uri text) >>- λ u _. fine tt

  Ends-vocabularies : (entries : List (Bytes × Json)) → Ends (vocabularies lib e entries)
  Ends-vocabularies [] = fine tt
  Ends-vocabularies ((uri, required) ∷ entries) = Ends-flag_of required >>- λ b _.
      elim (b && not (supported_vocabulary uri))
        as (λ c. Ends (
          if c
          then refused (ascii "Unsupported required schema vocabulary")
          else vocabularies lib e entries)) [ true ↦ refuses | false ↦ Ends-vocabularies entries ]

  pub Ends-check_vocabulary : (n : Node) → Ends (check_vocabulary lib e n)
  unfolding check_vocabulary
  Ends-check_vocabulary n =
      elim (member_node n (ascii "$vocabulary"))
        as (λ o.
          Ends (elim o [ none ↦ done tt | some v ↦ vocabularies lib e (entries_of v.value) ])) [
            | none ↦ fine tt
            | some v ↦ Ends-vocabularies (entries_of v.value)
          ]
