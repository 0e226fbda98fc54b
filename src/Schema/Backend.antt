-- ===== src/Schema/Backend.antt =====
-- include/synapse/detail/schema_validator.hpp: what it calls and does not implement (jsoncons, and JSON
-- pointers), and how a registration ends.
use synapse_mcp.Base.{◌≡◌, ℕ, Bool, List, Option, none, some, Bytes}
use synapse_mcp.Json.{Json, string, boolean}

-- `U` is `jsoncons::uri`, `J` is `jsoncons::json`, `E` is an evaluator; `none` is an exception.
pub record SchemaEngine (U J E : Type 0) : Type 0 where
  pub parse_uri : Bytes → Option U
  -- scheme, user information, host, port, path, query and fragment
  pub uri_of_parts : Bytes → Bytes → Bytes → Bytes → Bytes → Bytes → Bytes → U
  pub scheme : U → Bytes
  pub encoded_userinfo : U → Bytes
  pub host : U → Bytes
  pub port : U → Bytes
  pub encoded_path : U → Bytes
  pub encoded_query : U → Bytes
  pub fragment : U → Bytes
  pub is_absolute : U → Bool
  pub resolve_uri : U → U → U
  pub uri_string : U → Bytes
  pub parse_json : Bytes → Option J
  pub null_json : J
  pub satisfies_metaschema : J → Option Bool
  pub builtin_resources : List (Bytes × J)
  pub default_base_uri : Bytes
  pub draft202012 : Bytes
  pub make_json_schema : J → (U → Option J) → Option E
  -- The tokens of a JSON pointer, and a token as the index of an array.
  pub pointer_tokens : Bytes → Option (List Bytes)
  pub array_index : Bytes → Option ℕ

-- A registration ends with a value, by `policy_error`, or by another exception; `no_fuel`: the fuel of
-- the recursion ran out.
pub data Outcome (A : Type 0) : Type 0 where
  done : A → Outcome A
  refused : Bytes → Outcome A
  thrown no_fuel : Outcome A

infixl 5 ◌>>=◌
abbrev pub ◌>>=◌ : {A B : Type 0} → Outcome A → (A → Outcome B) → Outcome B
done a >>= f = f a
refused message >>= f = refused message
thrown >>= f = thrown
no_fuel >>= f = no_fuel

abbrev pub or_thrown : {A : Type 0} → Option A → Outcome A
or_thrown none = thrown
or_thrown (some a) = done a

-- `get<std::string>()` and `get<bool>()`.
abbrev pub text_of : Json → Outcome Bytes
text_of (string text) = done text
text_of _ = thrown

abbrev pub flag_of : Json → Outcome Bool
flag_of (boolean b) = done b
flag_of _ = thrown

-- A URI is kept in the spelling that it was read from.
abbrev pub KeepsSpelling : {U J E : Type 0} → SchemaEngine U J E → Type 0
KeepsSpelling e = (text : Bytes) (u : _) → e.parse_uri text ≡ some u → e.uri_string u ≡ text
