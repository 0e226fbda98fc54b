-- ===== src/Schema/Types.antt =====
-- include/synapse/detail/schema_validator.hpp: the result types.
use synapse_mcp.Base.{Bytes, Expected}
use synapse_mcp.Json.{Json}

pub data ValidationFailureKind : Type 0 where
  instance_mismatch invalid_instance engine_failure : ValidationFailureKind

pub record ValidationFailure : Type 0 where
  pub kind : ValidationFailureKind
  pub instance_pointer : Bytes
  pub schema_pointer : Bytes

-- A compiled schema, as its owner uses it: `validate`.
abbrev pub CompiledSchema : Type 0
CompiledSchema = Json → Expected (Unit {0}) ValidationFailure
