-- ===== src/Json/Library.antt =====
-- The part of `nlohmann::json` that the program calls and does not implement: serialisation to a
-- stream, parsing, and the conversion of a number to `int`. What the proofs rely on is a record of
-- laws, so that each theorem names what it needs.
use synapse_mcp.Base.{
  ℕ, ℤ, pos, negsuc, ◌≤◌, ◌≡◌, Bool, true, false, List, [], ◌∷◌, ◌++◌, Option, none, some, Bytes,
  Expected,
}
use synapse_mcp.Json.Value.{Json, number_unsigned, number_integer}

-- One call that a serialiser makes on the stream: `put` of a character or `write` of a block.
pub data Write : Type 0 where
  put : ℕ → Write
  write : Bytes → Write

abbrev pub bytes_of : List Write → Bytes
bytes_of [] = []
bytes_of (put c ∷ ws) = c ∷ bytes_of ws
bytes_of (write s ∷ ws) = s ++ bytes_of ws

-- `parse` throws `parse_error`, or `out_of_range` with an id (406: the number has no double).
pub data ParseError : Type 0 where
  parse_error : ParseError
  out_of_range : ℕ → ParseError

pub record JsonLibrary : Type 0 where
  -- The writes of `stream << j`, and whether it ends without an exception of its own.
  pub serialize : Json → List Write × Bool
  pub parse : Bytes → Expected Json ParseError
  -- `get<int>()`; `none` where it throws.
  pub get_int : Json → Option ℤ

-- `j.dump()`: the same serialiser, into a string.
unfoldable pub dump : JsonLibrary → Json → Option Bytes
dump lib j = elim (lib.serialize j).1 [ true ↦ some (bytes_of (lib.serialize j).0) | false ↦ none ]

abbrev pub int_max : ℕ
int_max = 2147483647

-- A value of the C++ type `int` (32 bits).
abbrev pub IsInt : ℤ → Type 0
IsInt (pos n) = n ≤ int_max
IsInt (negsuc n) = n ≤ int_max

-- `get<int>()` of an integer that fits is that integer.
pub record IntLaws (lib : JsonLibrary) : Type 0 where
  pub get_unsigned : (n : ℕ) → n ≤ int_max → lib.get_int (number_unsigned n) ≡ some (pos n)
  pub get_integer : (z : ℤ) → IsInt z → lib.get_int (number_integer z) ≡ some z
