-- ===== src/Transport/Depth.antt =====
-- include/synapse/transport.hpp: what `excessive_depth` measures.
use synapse_mcp.Base.{
  ℕ, ◌+◌, ◌-◌, ◌≤◌, ◌≡◌, true, false, ◌||◌, List, [], ◌∷◌, Bytes, arith, ltb, ◌==◌, if◌then◌else◌,
}
use synapse_mcp.Transport.Reader.{depth_exceeds, excessive_depth}
use Prim.Native.Nat.{max}

pub data Bracket : Type 0 where
  opening closing : Bracket

-- The brackets of a line that stand outside its strings. In a string a backslash hides the next
-- character.
mutual
  pub outside : Bytes → List Bracket
  outside [] = []
  outside (ch ∷ line) =
      if ch == b'"'
      then inside line
      else if ch == b'{' || ch == b'['
      then opening ∷ outside line
      else if ch == b'}' || ch == b']'
      then closing ∷ outside line
      else outside line

  pub inside : Bytes → List Bracket
  inside [] = []
  inside (ch ∷ line) =
      if ch == b'"' then outside line else if ch == b'\\' then hidden line else inside line

  pub hidden : Bytes → List Bracket
  hidden [] = []
  hidden (ch ∷ line) = inside line

-- The deepest nesting that a list of brackets reaches from a depth; a closing bracket at depth 0
-- changes nothing.
abbrev pub peak : ℕ → List Bracket → ℕ
peak depth [] = depth
peak depth (opening ∷ bs) = max depth (peak (depth + 1) bs)
peak depth (closing ∷ bs) = max depth (peak (depth - 1) bs)

peak_ge : (depth : ℕ) (bs : List Bracket) → depth ≤ peak depth bs
peak_ge depth [] = omega arith
peak_ge depth (opening ∷ bs) = omega arith
peak_ge depth (closing ∷ bs) = omega arith

mutual
  unfolding depth_exceeds outside

  outside_lem :
      (line : Bytes) (limit depth : ℕ)
      → depth ≤ limit
      → depth_exceeds limit depth false false line ≡ ltb limit (peak depth (outside line))
  outside_lem [] limit depth h = ground arith
  outside_lem (ch ∷ line) limit depth h = ground (
    arith,
    inside_lem line limit depth,
    outside_lem line limit depth,
    outside_lem line limit (depth + 1),
    outside_lem line limit (depth - 1),
    peak_ge (depth + 1) (outside line),
    peak_ge depth (outside line),
  )

  inside_lem :
      (line : Bytes) (limit depth : ℕ)
      → depth ≤ limit
      → depth_exceeds limit depth true false line ≡ ltb limit (peak depth (inside line))
  inside_lem [] limit depth h = ground arith
  inside_lem (ch ∷ line) limit depth h = ground (
    arith,
    inside_lem line limit depth,
    outside_lem line limit depth,
    hidden_lem line limit depth,
  )

  hidden_lem :
      (line : Bytes) (limit depth : ℕ)
      → depth ≤ limit
      → depth_exceeds limit depth true true line ≡ ltb limit (peak depth (hidden line))
  hidden_lem [] limit depth h = ground arith
  hidden_lem (ch ∷ line) limit depth h = inside_lem line limit depth h

-- A line is refused exactly when the brackets outside its strings nest deeper than the limit.
pub excessive_depth-peak :
    (limit : ℕ) (line : Bytes) → excessive_depth limit line ≡ ltb limit (peak 0 (outside line))
unfolding excessive_depth
excessive_depth-peak limit line = outside_lem line limit 0 (omega arith)
