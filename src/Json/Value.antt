-- ===== src/Json/Value.antt =====
-- A JSON value: the kinds of `nlohmann::json::value_t`. A double is its IEEE 754 bit pattern.
use synapse_mcp.Base.{ℕ, ℤ, Bool, true, false, List, [], ◌∷◌, Bytes, ◌/◌, ◌%◌, ◌^◌, ◌==◌, not}

mutual
  pub data Json : Type 0 where
    null : Json
    boolean : Bool → Json
    number_unsigned : ℕ → Json
    number_integer : ℤ → Json
    number_float : ℕ → Json
    string : Bytes → Json
    binary : Bytes → Json
    discarded : Json
    array : Items → Json
    object : Fields → Json

  pub data Items : Type 0 where
    nil : Items
    cons : Json → Items → Items

  -- `std::map<std::string, json>`: iterated by key, in the order of `std::less`.
  pub data Fields : Type 0 where
    end : Fields
    field : Bytes → Json → Fields → Fields

abbrev pub is_null : Json → Bool
is_null null = true
is_null _ = false

abbrev pub is_string : Json → Bool
is_string (string s) = true
is_string _ = false

abbrev pub is_number_unsigned : Json → Bool
is_number_unsigned (number_unsigned n) = true
is_number_unsigned _ = false

-- The library counts unsigned numbers among the integers.
abbrev pub is_number_integer : Json → Bool
is_number_integer (number_unsigned n) = true
is_number_integer (number_integer z) = true
is_number_integer _ = false

abbrev pub is_number_float : Json → Bool
is_number_float (number_float x) = true
is_number_float _ = false

abbrev pub is_array : Json → Bool
is_array (array xs) = true
is_array _ = false

abbrev pub is_object : Json → Bool
is_object (object fs) = true
is_object _ = false

-- `std::isfinite` on the bit pattern: the exponent is not all ones.
abbrev pub is_finite : ℕ → Bool
is_finite x = not (x / 2 ^ 52 % 2048 == 2047)

abbrev pub items_of : List Json → Items
items_of [] = nil
items_of (x ∷ xs) = cons x (items_of xs)

-- A list of values is read back from an array.
abbrev pub to_list : Items → List Json
to_list nil = []
to_list (cons x xs) = x ∷ to_list xs
