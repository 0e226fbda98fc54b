-- ===== src/Uri/Defs.antt =====
-- include/synapse/server.hpp: `valid_resource_uri`, RFC 3986 absolute URI syntax over bytes. `find`
-- and `substr` become a cut at the first occurrence.
use synapse_mcp.Base.{
  ℕ, zero, suc, ◌+◌, ◌-◌, ◌*◌, Bool, true, false, not, ◌&&◌, ◌||◌, [], ◌∷◌, Option, none, some,
  Bytes, ascii, ltb, leb, ◌==◌, if◌then◌else◌, any, all, length, is_empty, is_some,
}

-- `char` may be signed: a byte past 127 is in none of these ranges either way.
abbrev pub alpha : ℕ → Bool
alpha ch = (leb b'a' ch && leb ch b'z') || (leb b'A' ch && leb ch b'Z')

abbrev pub digit : ℕ → Bool
digit ch = leb b'0' ch && leb ch b'9'

abbrev pub hex : ℕ → Bool
hex ch = digit ch || (leb b'a' ch && leb ch b'f') || (leb b'A' ch && leb ch b'F')

-- `text.find(ch) != npos`.
abbrev pub is_in : Bytes → ℕ → Bool
is_in text ch = any (λ x. x == ch) text

abbrev pub unreserved : ℕ → Bool
unreserved ch = alpha ch || digit ch || is_in (ascii "-._~") ch

abbrev pub plain : Bytes → ℕ → Bool
plain extra ch = unreserved ch || is_in (ascii "!$&'()*+,;=") ch || is_in extra ch

-- A percent sign takes two hexadecimal digits with it.
unfoldable pub component : Bytes → Bytes → Bool
component extra [] = true
component extra (ch ∷ []) = if ch == b'%' then false else plain extra ch
component extra (ch ∷ a ∷ []) =
    let rest = component extra (a ∷ []) in if ch == b'%' then false else plain extra ch && rest
component extra (ch ∷ a ∷ b ∷ text) =
    let encoded = component extra text in
    let rest = component extra (a ∷ b ∷ text) in
    if ch == b'%' then hex a && hex b && encoded else plain extra ch && rest

-- What stands before the first `c`, and what stands behind it if it occurs.
unfoldable pub cut : ℕ → Bytes → Bytes × Option Bytes
cut c [] = ([], none)
cut c (x ∷ xs) =
    let (before, after) = cut c xs in if x == c then ([], some xs) else (x ∷ before, after)

-- The same for the first pair `cc`.
unfoldable pub cut_pair : ℕ → Bytes → Bytes × Option Bytes
cut_pair c [] = ([], none)
cut_pair c (x ∷ []) = (x ∷ [], none)
cut_pair c (x ∷ y ∷ xs) =
    let (before, after) = cut_pair c (y ∷ xs) in
    if x == c && y == c then ([], some xs) else (x ∷ before, after)

-- `value = value * 10 + ch - '0'`, on digits.
unfoldable pub decimal : ℕ → Bytes → ℕ
decimal value [] = value
decimal value (ch ∷ text) = decimal (value * 10 + (ch - b'0')) text

abbrev pub leading_zero : Bytes → Bool
leading_zero [] = false
leading_zero (ch ∷ text) = ch == b'0' && not (is_empty text)

unfoldable pub valid_octet : Bytes → Bool
unfolding decimal
valid_octet octet =
    not (is_empty octet)
    && leb (length octet) 3
    && not (leading_zero octet)
    && all digit octet
    && leb (decimal 0 octet) 255

-- The loop over four octets: `n` come after this one, and a dot stands before each of them.
unfoldable pub octets : ℕ → Bytes → Bool
unfolding valid_octet cut
octets zero text = let (octet, rest) = cut b'.' text in valid_octet octet && not (is_some rest)
octets (suc n) text = elim (cut b'.' text).1 [
  | none ↦ false
  | some rest ↦ valid_octet (cut b'.' text).0 && octets n rest
]

-- One group of an IPv6 address: how many it counts for. `last` says that no separator follows.
unfoldable pub group_size : Bool → Bool → Bytes → Option ℕ
unfolding octets
group_size tail last group =
    if is_empty group
    then none
    else if is_in group b'.'
    then (if tail && last && octets 3 group then some 2 else none)
    else if leb (length group) 4 && all hex group
    then some 1
    else none

-- The loop of `count_groups`, adding to `groups`; the fuel bounds the groups of the part.
unfoldable pub count_groups : ℕ → Bool → Bytes → ℕ → Option ℕ
unfolding group_size cut
count_groups zero tail part groups = none
count_groups (suc fuel) tail part groups =
    let (group, after) = cut b':' part in
    if is_empty part then some groups else elim (group_size tail (not (is_some after)) group) [
      | none ↦ none
      | some n ↦ elim after [
        | none ↦ some (groups + n)
        | some rest ↦ if is_empty rest then none else count_groups fuel tail rest (groups + n)
      ]
    ]

abbrev pub groups_of : Bool → Bytes → ℕ → Option ℕ
groups_of tail part groups = count_groups (suc (length part)) tail part groups

unfoldable pub valid_ipv6 : Bytes → Bool
unfolding count_groups cut_pair
valid_ipv6 address = elim (cut_pair b':' address).1 [
  | none ↦ elim (groups_of true address 0) [ none ↦ false | some n ↦ n == 8 ]
  | some behind ↦
      if is_some (cut_pair b':' behind).1
      then false
      else elim (groups_of false (cut_pair b':' address).0 0) [
        | none ↦ false
        | some n ↦ elim (groups_of true behind n) [ none ↦ false | some m ↦ ltb m 8 ]
      ]
]

-- IPvFuture, on the text behind the `v`: digits up to the first dot, then a component without
-- percent-encoding.
unfoldable pub valid_future : Bytes → Bool
unfolding cut component
valid_future text = elim (cut b'.' text).1 [
  | none ↦ false
  | some rest ↦
      not (is_empty (cut b'.' text).0)
      && not (is_empty rest)
      && all hex (cut b'.' text).0
      && not (is_in rest b'%')
      && component (ascii ":") rest
]

abbrev pub valid_address : Bytes → Bool
valid_address [] = valid_ipv6 []
valid_address (ch ∷ text) =
    if ch == b'v' || ch == b'V' then valid_future text else valid_ipv6 (ch ∷ text)

-- The port behind an address in brackets: nothing, or a colon and the port.
abbrev pub suffix_port : Bytes → Option Bytes
suffix_port [] = some []
suffix_port (ch ∷ text) = if ch == b':' then some text else none

abbrev pub default_bytes : Option Bytes → Bytes
default_bytes none = []
default_bytes (some text) = text

-- The host and the port.
unfoldable pub valid_host : Bytes → Bool
unfolding valid_ipv6 valid_future cut component
valid_host [] = true
valid_host (ch ∷ text) =
    if ch == b'['
    then elim (cut b']' text).1 [
      | none ↦ false
      | some suffix ↦
          valid_address (cut b']' text).0
          && (elim (suffix_port suffix) [ none ↦ false | some port ↦ all digit port ])
    ]
    else component [] (cut b':' (ch ∷ text)).0 && all digit (default_bytes (cut b':' (ch ∷ text)).1)

unfoldable pub valid_authority : Bytes → Bool
unfolding valid_host cut component
valid_authority text = elim (cut b'@' text).1 [
  | none ↦ valid_host text
  | some host ↦ component (ascii ":") (cut b'@' text).0 && valid_host host
]

-- The authority, behind `//`, and the path.
unfoldable pub valid_hierarchy : Bytes → Bool
unfolding valid_authority cut component
valid_hierarchy (x ∷ y ∷ text) =
    if x == b'/' && y == b'/'
    then valid_authority (cut b'/' text).0 && (elim (cut b'/' text).1 [
      | none ↦ true
      | some path ↦ component (ascii ":@/") (b'/' ∷ path)
    ])
    else component (ascii ":@/") (x ∷ y ∷ text)
valid_hierarchy text = component (ascii ":@/") text

-- A part that is cut off behind its mark, if it is there.
abbrev pub valid_tail : Option Bytes → Bool
valid_tail none = true
valid_tail (some text) = component (ascii ":@/?") text

unfoldable pub valid_scheme : Bytes → Bool
valid_scheme [] = false
valid_scheme (ch ∷ text) =
    alpha ch && all (λ c. alpha c || digit c || c == b'+' || c == b'-' || c == b'.') text

unfoldable pub valid_resource_uri : Bytes → Bool
unfolding valid_hierarchy valid_scheme cut component
valid_resource_uri uri = elim (cut b':' uri).1 [
  | none ↦ false
  | some rest ↦
      let (before_hash, fragment) = cut b'#' rest in
      let (before_query, query) = cut b'?' before_hash in
      valid_scheme (cut b':' uri).0
      && valid_tail fragment
      && valid_tail query
      && valid_hierarchy before_query
]
