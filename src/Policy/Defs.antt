-- ===== src/Policy/Defs.antt =====
-- include/synapse/detail/server_policy.hpp.
use synapse_mcp.Base.{
  ℕ, ◌+◌, ◌-◌, min, Bool, true, false, not, ◌&&◌, ◌||◌, List, [], ◌∷◌, Option, none, some, Bytes,
  ascii, ltb, ◌==◌, if◌then◌else◌, Expected, ok, err, ◌>>=◌, all, length, is_some,
}
use synapse_mcp.Json.{Json, string, JsonLibrary, dump, Write, put, write}
use synapse_mcp.Handlers.{HandlerError, RequestContext, ServerOptions}
use synapse_mcp.Policy.Double.{DoubleOps, min_double}

-- `tokens_`, `last_` and `clock_started_`.
pub record ServerPolicy (D : Type 0) : Type 0 where
  pub tokens : D
  pub last : ℕ
  pub clock_started : Bool

module _ {D : Type 0} (ops : DoubleOps D) where
  unfoldable pub new_policy : ServerOptions D → ServerPolicy D
  new_policy options = record {
    tokens = ops.of_size options.tool_burst;
    last = 0;
    clock_started = false;
  }

  -- The clock starts at the first call.
  abbrev pub start_clock : ℕ → ServerPolicy D → ServerPolicy D
  start_clock now p = if p.clock_started then p else record p { last = now; clock_started = true }

  abbrev pub refill : ServerOptions D → ℕ → ServerPolicy D → ServerPolicy D
  refill options now p =
      if ltb p.last now
      then record p {
        tokens = min_double ops (ops.of_size options.tool_burst) (
            ops.add p.tokens
              (ops.mul (ops.seconds (now - p.last)) options.tool_requests_per_second));
        last = now;
      }
      else p

  abbrev pub take_token : ServerPolicy D → ServerPolicy D × Bool
  take_token p =
      if ops.lt p.tokens (ops.of_size 1)
      then (p, false)
      else (record p { tokens = ops.sub p.tokens (ops.of_size 1) }, true)

  unfoldable pub consume : ServerOptions D → ℕ → ServerPolicy D → ServerPolicy D × Bool
  consume options now p = take_token (refill options now (start_clock now p))

unfoldable pub allow : {D : Type 0} → ServerOptions D → Bytes → RequestContext → Option Bool
allow options name context = elim options.allow_tool [
  | none ↦ some true
  | some hook ↦ hook name context
]

-- A control character other than tab, newline and carriage return.
abbrev pub is_control : ℕ → Bool
is_control ch =
    (ltb ch 32 && not (ch == b'\t') && not (ch == b'\n') && not (ch == b'\r')) || ch == 127

unfoldable pub valid_text : JsonLibrary → Bytes → Bool
valid_text lib text = all (λ ch. not (is_control ch)) text && is_some (dump lib (string text))

abbrev pub invalid_output : HandlerError
invalid_output = record { public_message = ascii "Invalid output" }

-- What the hook returned.
abbrev pub accept_filtered : JsonLibrary → Expected Bytes HandlerError → Expected Bytes HandlerError
accept_filtered lib (err e) = err invalid_output
accept_filtered lib (ok text) = if valid_text lib text then ok text else err invalid_output

unfoldable pub filter :
    {D : Type 0}
    → JsonLibrary
    → ServerOptions D
    → Bytes
    → Bytes
    → RequestContext
    → Option (Expected Bytes HandlerError)
filter lib options operation text context =
    if not (valid_text lib text) then some (err invalid_output) else elim options.filter_output [
      | none ↦ some (ok text)
      | some hook ↦ do filtered ← hook operation text context; some (accept_filtered lib filtered)
    ]

-- `counting_buffer`, whose state is `size_`. `xsputn` returns how many characters it took.
unfoldable pub xsputn : ℕ → ℕ → ℕ → ℕ × ℕ
xsputn limit size count = let accepted = min (limit - size) count in (size + accepted, accepted)

-- `overflow`: no character stands for end of file; `none` as the result is the failure.
unfoldable pub overflow : ℕ → ℕ → Option ℕ → Option ℕ
overflow limit size none = some size
overflow limit size (some ch) = if size == limit then none else some (size + 1)

-- One write through `std::ostream`: a short count or a failure sets `badbit`, which throws.
unfoldable pub count_write : ℕ → ℕ → Write → Option ℕ
unfolding xsputn overflow
count_write limit size (put ch) = overflow limit size (some ch)
count_write limit size (write s) =
    let (size', accepted) = xsputn limit size (length s) in
    if accepted == length s then some size' else none

unfoldable pub count_writes : ℕ → ℕ → List Write → Option ℕ
unfolding count_write
count_writes limit size [] = some size
count_writes limit size (w ∷ ws) = elim (count_write limit size w) [
  | none ↦ none
  | some size' ↦ count_writes limit size' ws
]

unfoldable pub frame_fits : JsonLibrary → Json → ℕ → Bool
unfolding count_writes
frame_fits lib value limit =
    is_some (count_writes limit 0 (lib.serialize value).0) && (lib.serialize value).1
