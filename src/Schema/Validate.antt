-- ===== src/Schema/Validate.antt =====
-- include/synapse/detail/schema_validator.hpp: `validate`, over the engine. The engine is jsoncons: a
-- parameter that gives the messages which it reports for a text, in their order.
use synapse_mcp.Base.{
  ℕ, Bool, true, false, not, ◌&&◌, ◌||◌, List, [], ◌∷◌, ◌++◌, Option, none, some, Bytes, ascii,
  bytes_eq, ltb, ◌==◌, if◌then◌else◌, Expected, ok, err, any,
}
use synapse_mcp.Json.{
  Json, Items, Fields, number_float, binary, discarded, array, object, nil, cons, end, field,
  is_finite, JsonLibrary, dump,
}
use synapse_mcp.Schema.Types.{
  ValidationFailureKind, instance_mismatch, invalid_instance, engine_failure, ValidationFailure,
}

unfoldable mutual
  pub representable : Json → Bool
  representable (binary b) = false
  representable discarded = false
  representable (number_float x) = is_finite x
  representable (array xs) = representable_items xs
  representable (object fs) = representable_fields fs
  representable _ = true

  pub representable_items : Items → Bool
  representable_items nil = true
  representable_items (cons x xs) = representable x && representable_items xs

  pub representable_fields : Fields → Bool
  representable_fields end = true
  representable_fields (field k v fs) = representable v && representable_fields fs

pub record ValidationMessage : Type 0 where
  pub instance_location : Bytes
  pub schema_fragment : Bytes
  pub keyword : Bytes

-- `json::parse` and `evaluator::validate`; `none` is an exception.
abbrev pub Engine : Type 0
Engine = Bytes → Option (List ValidationMessage)

abbrev pub starts_plain : Bytes → Bool
starts_plain [] = false
starts_plain (ch ∷ rest) = not (ch == b'/')

abbrev pub is_unsafe : ℕ → Bool
is_unsafe ch = ltb ch 32 || ch == 127

unfoldable pub diagnostic_pointer : Bytes → Bytes
diagnostic_pointer pointer =
    if starts_plain pointer then [] else if any is_unsafe pointer then [] else pointer

-- What the reporter makes of a message.
unfoldable pub failure_of : ValidationMessage → ValidationFailure
unfolding diagnostic_pointer
failure_of message =
    let typed = message.schema_fragment ++ ascii "/type" in
    record {
      kind = instance_mismatch;
      instance_pointer = diagnostic_pointer message.instance_location;
      schema_pointer =
          diagnostic_pointer
            (if bytes_eq message.keyword (ascii "type") then typed else message.schema_fragment);
    }

-- The reporter writes over what an earlier message left.
unfoldable pub report : List ValidationMessage → Expected (Unit {0}) ValidationFailure
unfolding failure_of
report [] = ok tt
report (m ∷ []) = err (failure_of m)
report (m ∷ n ∷ messages) = report (n ∷ messages)

abbrev pub bare : ValidationFailureKind → Expected (Unit {0}) ValidationFailure
bare kind = err (record { kind = kind; instance_pointer = []; schema_pointer = [] })

abbrev pub evaluated : Option (List ValidationMessage) → Expected (Unit {0}) ValidationFailure
evaluated none = bare engine_failure
evaluated (some messages) = report messages

abbrev pub encoded : Engine → Option Bytes → Expected (Unit {0}) ValidationFailure
encoded engine none = bare invalid_instance
encoded engine (some text) = evaluated (engine text)

-- `none` as the engine is an evaluator that was moved away.
unfoldable pub validate : JsonLibrary → Option Engine → Json → Expected (Unit {0}) ValidationFailure
unfolding report representable
validate lib none instance_value = bare engine_failure
validate lib (some engine) instance_value =
    if not (representable instance_value)
    then bare invalid_instance
    else encoded engine (dump lib instance_value)
