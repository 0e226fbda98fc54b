-- ===== src/Json/Objects.antt =====
-- Objects: lookup, insertion in key order, and the accessors that throw.
use synapse_mcp.Base.{
  ◌≡◌, refl, Bool, List, [], ◌∷◌, Option, none, some, Bytes, bytes_eq, bytes_lt, bytes_eq_iff,
  if◌then◌else◌, is_some, arith,
}
use synapse_mcp.Json.Value.{Json, boolean, string, array, object, Fields, end, field, to_list}

unfoldable pub find_field : Bytes → Fields → Option Json
find_field k end = none
find_field k (field j v fs) = if bytes_eq k j then some v else find_field k fs

unfoldable pub set_field : Bytes → Json → Fields → Fields
set_field k v end = field k v end
set_field k v (field j w fs) =
    let rest = field j w (set_field k v fs) in
    if bytes_eq k j then field k v fs else if bytes_lt k j then field k v (field j w fs) else rest

-- `find` by key; a value that is no object holds no key.
abbrev pub member : Json → Bytes → Option Json
member (object fs) k = find_field k fs
member _ k = none

-- `j.contains(k)`.
abbrev pub contains : Json → Bytes → Bool
contains j k = is_some (member j k)

-- `j.at(k)`: a missing key and a value that is no object throw.
abbrev pub at : Json → Bytes → Option Json
at j k = member j k

-- `j.get<std::string>()`, `get<bool>()` and the elements of `get<std::vector<...>>()`.
abbrev pub get_string : Json → Option Bytes
get_string (string s) = some s
get_string _ = none

abbrev pub get_boolean : Json → Option Bool
get_boolean (boolean b) = some b
get_boolean _ = none

abbrev pub get_array : Json → Option (List Json)
get_array (array xs) = some (to_list xs)
get_array _ = none

-- `j.value(k, d)`: the default serves a missing key only; a value of another type throws.
abbrev pub value {ℓ} : {A : Type ℓ} → (Json → Option A) → Json → Bytes → A → Option A
value get (object fs) k d = elim (find_field k fs) [ none ↦ some d | some v ↦ get v ]
value get _ k d = none

abbrev pub object_of : List (Bytes × Json) → Fields
object_of [] = end
object_of ((k, v) ∷ kvs) = set_field k v (object_of kvs)

-- What a lookup sees after an insertion.
pub find_field-set_field :
    (k j : Bytes) (v : Json) (fs : Fields)
    → find_field j (set_field k v fs) ≡ (if bytes_eq j k then some v else find_field j fs)
unfolding find_field set_field
find_field-set_field k j v end = refl
find_field-set_field k j v (field i w fs) =
    ground
      (arith, bytes_eq_iff k i, bytes_eq_iff j k, bytes_eq_iff j i, find_field-set_field k j v fs)
