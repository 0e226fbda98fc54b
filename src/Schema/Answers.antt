-- ===== src/Schema/Answers.antt =====
-- include/synapse/detail/schema_validator.hpp: when `validate` accepts, and what it discloses.
use synapse_mcp.Base.{
  ◌≡◌, refl, ◌↔◌, ◌⊎◌, inl, inr, subst, Option-cases, true, false, ◌||◌, List, [], ◌∷◌, ◌++◌, ascii,
  bytes_eq, Option, none, some, Bytes, any, if◌then◌else◌, ok, err, arith,
}
use synapse_mcp.Json.{Json, JsonLibrary, dump}
use synapse_mcp.Schema.Types.{instance_mismatch, ValidationFailure}
use synapse_mcp.Schema.Validate.{
  representable, ValidationMessage, Engine, starts_plain, is_unsafe, diagnostic_pointer, failure_of,
  report, validate,
}

report-ok : (messages : List ValidationMessage) → report messages ≡ ok tt → messages ≡ []
unfolding report
report-ok [] h = refl
report-ok (m ∷ []) h = cc
report-ok (m ∷ n ∷ messages) h = ground (arith, report-ok (n ∷ messages))

-- A value is accepted exactly when JSON can represent it, it can be serialised, and the engine ends
-- on its text without a message.
pub validate_iff :
    (lib : JsonLibrary) (engine : Engine) (value : Json)
    → (validate lib (some engine) value ≡ ok tt) ↔ (
        (representable value ≡ true)
        × ((text : Bytes) × (dump lib value ≡ some text) × (engine text ≡ some [])))
unfolding validate
validate_iff lib engine value = (
  λ h. elim (Option-cases (dump lib value)) [
    | inl bad ↦ absurd (ground arith)
    | inr (text, dumped) ↦ elim (Option-cases (engine text)) [
      | inl thrown ↦ absurd (ground arith)
      | inr (messages, ended) ↦ (ground arith, (text, dumped, ground (arith, report-ok messages)))
    ]
  ],
  λ (plain, (text, dumped, ended)). ground arith,
)

-- A pointer that is empty, or begins with a slash and has no control character.
abbrev pub IsPointer : Bytes → Type 0
IsPointer pointer = (starts_plain pointer || any is_unsafe pointer) ≡ false

diagnostic_pointer-IsPointer : (pointer : Bytes) → IsPointer (diagnostic_pointer pointer)
unfolding diagnostic_pointer
diagnostic_pointer-IsPointer pointer = ground arith

abbrev IsMismatch : ValidationFailure → Type 0
IsMismatch f =
    (f.kind ≡ instance_mismatch) × IsPointer f.instance_pointer × IsPointer f.schema_pointer

failure_of-IsMismatch : (m : ValidationMessage) → IsMismatch (failure_of m)
unfolding failure_of
failure_of-IsMismatch m = (
  refl,
  diagnostic_pointer-IsPointer m.instance_location,
  diagnostic_pointer-IsPointer (
      if bytes_eq m.keyword (ascii "type")
      then m.schema_fragment ++ ascii "/type"
      else m.schema_fragment),
)

report-IsPointer :
    (messages : List ValidationMessage) (f : ValidationFailure)
    → report messages ≡ err f
    → IsMismatch f
unfolding report
report-IsPointer [] f h = cc
report-IsPointer (m ∷ []) f h =
    subst IsMismatch {x = failure_of m} {y = f} (ground arith) (failure_of-IsMismatch m)
report-IsPointer (m ∷ n ∷ messages) f h = report-IsPointer (n ∷ messages) f h

-- The pointers of a refusal are empty, or begin with a slash and have no control character; and
-- both are empty unless it is a mismatch.
validate-IsPointer :
    (lib : JsonLibrary) (engine : Option Engine) (value : Json) (f : ValidationFailure)
    → validate lib engine value ≡ err f
    → (IsPointer f.instance_pointer × IsPointer f.schema_pointer)
      × ((f.kind ≡ instance_mismatch) ⊎ ((f.instance_pointer ≡ []) × (f.schema_pointer ≡ [])))
unfolding validate
validate-IsPointer lib none value f h = ground arith
validate-IsPointer lib (some engine) value f h = elim (Option-cases (dump lib value)) [
  | inl bad ↦ ground arith
  | inr (text, dumped) ↦ elim (Option-cases (engine text)) [
    | inl thrown ↦ ground arith
    | inr (messages, ended) ↦ ground (arith, report-IsPointer messages f)
  ]
]
