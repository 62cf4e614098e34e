-- ===== src/Agent/Shell.antt =====
-- `shell` of crates/hyperbox-agent/src/daemon.rs: the task that opens a session and feeds its command.
-- What the command itself prints is sent by two other tasks, and is not modelled. A client that has
-- gone away is not noticed here, as in the source, which ignores the result of `send`.
use hyperbox.Prelude.{ℕ, Option, none, some, List, [], ◌∷◌, ◌++◌, Text, codes, ℤ, pos}
use hyperbox.Core.Error.{Result, ok, err}
use hyperbox.Status.{Status, status, invalid_argument, internal}
use hyperbox.Agent.{Guest, Agent, sandbox_root, sandbox_id_or_default}

-- `ShellRequest`'s payload
pub data Payload : Type 0 where
  open_shell : Text → List Text → Payload
  stdin : List ℕ → Payload
  close : Payload

-- A message of the client, or the error of receiving it; the end of the list is the stream's end.
abbrev pub Message : Type 0
Message = Result Text (Option Payload)

pub data ShellEvent : Type 0 where
  error : Text → ShellEvent
  exit_code : ℤ → ShellEvent

abbrev pub Sent : Type 0
Sent = Result Status ShellEvent

-- How the command starts: with its pipes, without one of them, or not at all.
pub data Spawned : Type 0 where
  child : Spawned
  missing : Text → Spawned
  not_spawned : Text → Spawned

pub record Children (F : Type 0) : Type 0 where
  pub spawn : Text → List Text → Text → F → Spawned × F
  -- `write_all` and `flush`
  pub write_stdin : List ℕ → F → Result Text (Unit {0}) × F
  pub flush_stdin : F → Result Text (Unit {0}) × F
  -- the input is dropped; the exit status, if there is one
  pub wait : F → Option ℤ × F
  pub kill : F → F

abbrev pub Events : Type 0 → Type 0
Events F = F → List Sent × F

-- The session is refused by one error, or ends in the one exit code that it sends, with at most one
-- message before it.
pub data Ends : List Sent → Type 0 where
  refused : (e : Status) → Ends (err e ∷ [])
  exited : (c : ℤ) → Ends (ok (exit_code c) ∷ [])
  failed : (m : Text) (c : ℤ) → Ends (ok (error m) ∷ ok (exit_code c) ∷ [])

data Pumped : List Sent → Type 0 where
  quiet : Pumped []
  broken : (m : Text) → Pumped (ok (error m) ∷ [])

module _ {F : Type 0} (children : Children F) where
  -- A call on the command's input: its error ends the loop.
  abbrev pub if_written : Result Text (Unit {0}) × F → Events F → List Sent × F
  if_written (ok u, f) k = k f
  if_written (err e, f) k = (ok (error e) ∷ [], f)

  unfoldable pub pump : List Message → Events F
  pump [] f = ([], f)
  pump (err e ∷ messages) f = (ok (error e) ∷ [], f)
  pump (ok none ∷ messages) f = pump messages f
  pump (ok (some (open_shell id command)) ∷ messages) f = pump messages f
  pump (ok (some close) ∷ messages) f = ([], f)
  pump (ok (some (stdin chunk)) ∷ messages) f =
      if_written (children.write_stdin chunk f)
        λ g. if_written (children.flush_stdin g) (pump messages)

  abbrev pub code_or_1 : Option ℤ → ℤ
  code_or_1 none = pos 1
  code_or_1 (some code) = code

  unfoldable pub finish : List Sent × F → List Sent × F
  finish (sent, f) =
      let (code, g) = children.wait f in (sent ++ (ok (exit_code (code_or_1 code)) ∷ []), g)

  unfoldable pub run_shell : List Message → Spawned × F → List Sent × F
  run_shell messages (not_spawned e, f) = (ok (error e) ∷ ok (exit_code (pos 1)) ∷ [], f)
  run_shell messages (missing pipe, f) =
      (err (status internal (codes "shell child missing " ++ pipe)) ∷ [], children.kill f)
  run_shell messages (child, f) = finish (pump messages f)

  abbrev pub default_command : Text × List Text
  default_command = (codes "/bin/sh", [])

  abbrev pub command_of : List Text → Text × List Text
  command_of [] = default_command
  command_of (program ∷ args) = (program, args)

  -- The first message's sandbox and command.
  abbrev pub opening : Option Payload → Text × (Text × List Text)
  opening none = (codes "default", default_command)
  opening (some (stdin chunk)) = (codes "default", default_command)
  opening (some close) = (codes "default", default_command)
  opening (some (open_shell id command)) = (sandbox_id_or_default id, command_of command)

  -- Once the sandbox's root is known
  unfoldable pub start_shell :
      List Message → Text × List Text → Result Status Text × Agent F → List Sent × Agent F
  start_shell messages command (err e, w) = (err e ∷ [], w)
  start_shell messages (program, args) (ok root, w) =
      let (sent, f) = run_shell messages (children.spawn program args root w.files) in
      (sent, record w { files = f })

  unfoldable pub shell : Guest F → Text → List Message → Agent F → List Sent × Agent F
  shell guest root [] w = (
    err (status invalid_argument (codes "shell stream requires an initial open message")) ∷ [],
    w,
  )
  shell guest root (err e ∷ messages) w = (err (status internal e) ∷ [], w)
  shell guest root (ok first ∷ messages) w =
      let (id, command) = opening first in
      start_shell messages command (sandbox_root guest root id w)

  if_written-Pumped :
      (o : Result Text (Unit {0}) × F) (k : Events F)
      → ((f : F) → Pumped (k f).0)
      → Pumped (if_written o k).0
  if_written-Pumped (ok u, f) k h = h f
  if_written-Pumped (err e, f) k h = broken e

  pump-Pumped : (messages : List Message) (f : F) → Pumped (pump messages f).0
  unfolding pump
  pump-Pumped [] f = quiet
  pump-Pumped (err e ∷ messages) f = broken e
  pump-Pumped (ok none ∷ messages) f = pump-Pumped messages f
  pump-Pumped (ok (some (open_shell id command)) ∷ messages) f = pump-Pumped messages f
  pump-Pumped (ok (some close) ∷ messages) f = quiet
  pump-Pumped (ok (some (stdin chunk)) ∷ messages) f =
      if_written-Pumped (children.write_stdin chunk f) _
        λ g. if_written-Pumped (children.flush_stdin g) (pump messages) (pump-Pumped messages)

  finish-Ends : (sent : List Sent) (f : F) → Pumped sent → Ends (finish (sent, f)).0
  unfolding finish
  finish-Ends _ f quiet = exited _
  finish-Ends _ f (broken m) = failed m _

  run_shell-Ends : (messages : List Message) (o : Spawned × F) → Ends (run_shell messages o).0
  unfolding run_shell
  run_shell-Ends messages (not_spawned e, f) = failed e (pos 1)
  run_shell-Ends messages (missing pipe, f) = refused _
  run_shell-Ends messages (child, f) =
      finish-Ends (pump messages f).0 (pump messages f).1 (pump-Pumped messages f)

  start_shell-Ends :
      (messages : List Message) (command : Text × List Text) (o : Result Status Text × Agent F)
      → Ends (start_shell messages command o).0
  unfolding start_shell
  start_shell-Ends messages command (err e, w) = refused e
  start_shell-Ends messages (program, args) (ok root, w) =
      run_shell-Ends messages (children.spawn program args root w.files)

  -- Whatever the client sends and however its command ends, what the service itself sends is one
  -- refusal, or one exit code at the end with at most one error message before it.
  pub shell-Ends :
      (guest : Guest F) (root : Text) (messages : List Message) (w : Agent F)
      → Ends (shell guest root messages w).0
  unfolding shell
  shell-Ends guest root [] w = refused _
  shell-Ends guest root (err e ∷ messages) w = refused _
  shell-Ends guest root (ok first ∷ messages) w =
      start_shell-Ends messages (opening first).1 (sandbox_root guest root (opening first).0 w)
