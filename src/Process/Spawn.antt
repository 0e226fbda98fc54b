-- ===== src/Process/Spawn.antt =====
-- include/synapse/process_transport.hpp: the constructor on POSIX, in the parent and in the child. What
-- `pipe` and `fork` answer is an argument; `none` is -1.
use synapse_mcp.Base.{
  count, ℕ, ◌+◌, ◌≡◌, refl, List, [], ◌∷◌, ◌++◌, map, Option, none, some, Bytes, ascii,
  if◌then◌else◌, Expected, ok, err, arith, is_ok,
}

-- The descriptors that the object keeps, and its child.
pub record Child : Type 0 where
  pub stdin_fd : ℕ
  pub stdout_fd : ℕ
  pub pid : ℕ

-- The descriptors that `pipe` gave out, and those that were given to `close`.
pub record Descriptors : Type 0 where
  pub given : List ℕ
  pub closed : List ℕ

abbrev pub forked : ℕ × ℕ → ℕ × ℕ → Option ℕ → Descriptors × Expected Child Bytes
forked (in_read, in_write) (out_read, out_write) none = (
  record { given = in_read ∷ in_write ∷ out_read ∷ out_write ∷ []; closed = [] },
  err (ascii "Fork failed"),
)
forked (in_read, in_write) (out_read, out_write) (some pid) = (
  record {
    given = in_read ∷ in_write ∷ out_read ∷ out_write ∷ [];
    closed = in_read ∷ out_write ∷ [];
  },
  ok (record { stdin_fd = in_write; stdout_fd = out_read; pid = pid }),
)

abbrev pub piped : ℕ × ℕ → Option (ℕ × ℕ) → Option ℕ → Descriptors × Expected Child Bytes
piped (in_read, in_write) none pid =
    (record { given = in_read ∷ in_write ∷ []; closed = [] }, err (ascii "Pipe failed"))
piped pipe_in (some pipe_out) pid = forked pipe_in pipe_out pid

-- In the parent.
unfoldable pub spawn :
    Option (ℕ × ℕ) → Option (ℕ × ℕ) → Option ℕ → Descriptors × Expected Child Bytes
spawn none pipe_out pid = (record { given = []; closed = [] }, err (ascii "Pipe failed"))
spawn (some pipe_in) pipe_out pid = piped pipe_in pipe_out pid

-- What `execvp` is given; `none` is the null pointer.
unfoldable pub child_arguments : Bytes → List Bytes → List (Option Bytes)
child_arguments command args = some command ∷ map some args ++ none ∷ []

-- What an object holds; an exception leaves no object.
abbrev pub held : ℕ → Expected Child Bytes → ℕ
held d (err e) = 0
held d (ok c) = count d (c.stdin_fd ∷ c.stdout_fd ∷ [])

-- The constructor either succeeds, and then each descriptor that it got is closed or kept by the
-- object; or it throws, and closes none of those that it got, though no destructor will run.
pub spawn-held :
    (pipe_in pipe_out : Option (ℕ × ℕ)) (pid : Option ℕ) (d : ℕ)
    → let (fds, r) = spawn pipe_in pipe_out pid in
      if is_ok r then count d fds.given ≡ count d fds.closed + held d r else fds.closed ≡ []
unfolding spawn
spawn-held none pipe_out pid d = refl
spawn-held (some (a, b)) none pid d = refl
spawn-held (some (a, b)) (some (c, e)) none d = refl
spawn-held (some (a, b)) (some (c, e)) (some pid) d = omega arith
