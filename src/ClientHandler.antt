-- ===== src/ClientHandler.antt =====
-- src/client_handler.c: one line of a client is read, parsed and executed.
pub mod Lines
pub mod Obeys
pub mod Confined
pub mod Lost
pub mod Runs
pub mod Quit
pub mod Freed
pub mod Private
pub mod Authentic
use my_ftp.Prelude.{
  ℕ, Bool, true, false, ◌&&◌, not, Option, none, some, List, [], ◌∷◌, reverse, ◌==◌, null_or,
  if◌then◌else◌, Text, text_eq,
}
use my_ftp.Prelude.Outcome.{Outcome, undefined, done}
use my_ftp.Utils.Trimming.{trim}
use my_ftp.Stdio.{c_string}
use my_ftp.Os.{Os}
use my_ftp.Parser.{Command, parse_buffer}
use my_ftp.Reply.{closing}
use my_ftp.Session.{CommandStatus, success, failure, not_found, quit, written, State}
use my_ftp.Session.Monad.{M, pure, ◌>>=◌, ◌>>◌, deref, gets, sys, log}
use my_ftp.DataSocket.Destroy.{close, describe_client, destroy_connection}
use my_ftp.Executor.{execute_command}

-- `if (line[read - 1] == '\n') line[read - 1] = '\0';`, on the bytes from the last one back
unfoldable pub drop_newline : Text → Text
drop_newline [] = []
drop_newline (c ∷ front) = if c == b'\n' then reverse front else reverse (c ∷ front)

module _ {W : Type 0} (os : Os W) where
  -- The line as a C string; a null pointer at the end of the stream.
  unfoldable pub read_socket : M W (Option Text)
  unfolding drop_newline c_string
  read_socket = do
    stream ← gets (λ s. s.conn.stream)
    fd ← deref stream
    line ← sys (os.getline fd)
    null_or line (pure none) (λ bytes. pure (some (c_string (drop_newline (reverse bytes)))))

  -- a pure computation that may be undefined
  abbrev pub lift : {A : Type 0} → Outcome A → M W A
  lift undefined s = undefined
  lift (done a) s = done (a, s)

  -- the second `malloc` of `parse_buffer`, which it reaches with a buffer that is not blank
  unfoldable pub tokens_malloc : Bool → Text → M W Bool
  tokens_malloc command_allocated buffer =
      if command_allocated && not (text_eq (trim buffer) []) then sys os.malloc else pure false

  -- `parse_buffer(buffer)`
  unfoldable pub parse_line : Text → M W (Option Command)
  parse_line buffer = do
    command_allocated ← sys os.malloc
    tokens_allocated ← tokens_malloc command_allocated buffer
    lift (parse_buffer command_allocated tokens_allocated buffer)

  -- `handle_client_command` with the line in hand; its message reads the address of the client
  unfoldable pub execute_line : Text → M W CommandStatus
  execute_line buffer = do
    describe_client os true
    command ← parse_line buffer
    execute_command os command

  -- `return 1` at the end of the stream is `COMMAND_FAILURE`
  unfoldable pub handle_client_command : M W CommandStatus
  handle_client_command = do
    buffer ← read_socket
    null_or buffer (pure failure) (λ line. execute_line line)

  -- what `handle_connection` does with the status; the result says whether the slot is free again
  unfoldable pub close_after : ℕ → CommandStatus → M W Bool
  unfolding destroy_connection
  close_after fd quit = do
    log (written fd closing)
    destroy_connection os true
    close os fd
    pure true
  close_after fd _ = pure false

  unfoldable pub handle_connection : ℕ → M W Bool
  handle_connection fd = do status ← handle_client_command; close_after fd status
