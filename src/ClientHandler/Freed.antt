-- ===== src/ClientHandler/Freed.antt =====
-- When the server gives a slot back: for a line with the command QUIT, and for nothing else.
use mathlib.Core.Path.{subst}
use my_ftp.Prelude.{
  ℕ, ◌≡◌, refl, sym, ap, ◌∙◌, arith, true, Option, none, some, null_or, Text, codes, reverse,
  Option-cases, inl, inr,
}
use my_ftp.Prelude.Outcome.{done}
use my_ftp.Utils.Case.{touppercase}
use my_ftp.Utils.Trimming.{trim}
use my_ftp.Stdio.{c_string}
use my_ftp.Os.{Os}
use my_ftp.Parser.{Command}
use my_ftp.Parser.Accepted.{Reads}
use my_ftp.Session.{CommandStatus, success, failure, not_found, quit, State}
use my_ftp.Session.Monad.{pure, ◌>>=◌}
use my_ftp.Session.Keeps.{bind_done}
use my_ftp.DataSocket.Destroy.{describe_client}
use my_ftp.Executor.{execute_command}
use my_ftp.Executor
use my_ftp.Executor.Staying.{execute_command-quits}
use my_ftp.Executor.Table.{get_command_handler_iff}
use my_ftp.ClientHandler.{
  drop_newline, read_socket, parse_line, execute_line, handle_client_command, close_after,
  handle_connection,
}
use my_ftp.ClientHandler.Lines.{parse_line-Reads}

-- the line that the code makes of the bytes it has read
abbrev pub line_read : Text → Text
line_read bytes = c_string (drop_newline (reverse bytes))

-- The line is a command of this name, in letters of either case.
pub record Names (name line : Text) : Type 0 where
  pub command : Command
  pub reads : Reads (trim line) command
  pub named : touppercase command.name ≡ name

-- The client has sent a line of this command.
pub record Sends {W : Type 0} (os : Os W) (name : Text) (s : State W) : Type 0 where
  pub stream : ℕ
  pub bytes : Text
  pub streamed : s.conn.stream ≡ some stream
  pub received : (os.getline stream s.world).0 ≡ some bytes
  pub line : Names name (line_read bytes)

module _ {W : Type 0} (os : Os W) where
  close_after-freed :
      (fd : ℕ) (status : CommandStatus) (s t : State W)
      → close_after os fd status s ≡ done (true, t)
      → status ≡ quit
  unfolding close_after
  close_after-freed fd quit s t e = refl
  close_after-freed fd success s t e = cc
  close_after-freed fd failure s t e = cc
  close_after-freed fd not_found s t e = cc

  execute_line-quits :
      (line : Text) (s t : State W)
      → execute_line os line s ≡ done (quit, t)
      → Names (codes "QUIT") line
  unfolding execute_line
  execute_line-quits line s t e =
      let (_, s1, _, e1) =
        bind_done (describe_client os true) (λ _. parse_line os line >>= execute_command os) s e in
      let (command, s2, parsed, e2) = bind_done (parse_line os line) (execute_command os) s1 e1 in
      let (c, is_some, found) = execute_command-quits os command s2 t e2 in
      record {
        command = c;
        reads = parse_line-Reads os line s1 (parsed ∙ ap (λ o. done (o, s2)) is_some);
        named = (get_command_handler_iff c Executor.quit).0 found;
      }

  line-quits :
      (buffer : Option Text) (s t : State W)
      → null_or buffer (pure failure) (λ line. execute_line os line) s ≡ done (quit, t)
      → (line : Text) × (buffer ≡ some line) × Names (codes "QUIT") line
  line-quits none s t e = cc
  line-quits (some line) s t e = (line, refl, execute_line-quits line s t e)

  read_socket-line :
      (s t : State W) (line : Text)
      → read_socket os s ≡ done (some line, t)
      → (stream : ℕ) × (bytes : Text) × (s.conn.stream ≡ some stream)
        × ((os.getline stream s.world).0 ≡ some bytes)
        × (line_read bytes ≡ line)
  unfolding read_socket
  read_socket-line s t line e = elim (Option-cases s.conn.stream) [
    | inl shut ↦ ground arith
    | inr (stream, streamed) ↦ elim (Option-cases (os.getline stream s.world).0) [
      | inl ended ↦ ground arith
      | inr (bytes, received) ↦ (stream, bytes, streamed, received, ground arith)
    ]
  ]

  handle_client_command-quits :
      (s t : State W) → handle_client_command os s ≡ done (quit, t) → Sends os (codes "QUIT") s
  unfolding handle_client_command
  handle_client_command-quits s t e =
      let (buffer, s1, read, e1) =
        bind_done (read_socket os)
          (λ buffer. null_or buffer (pure failure) (λ line. execute_line os line)) s e in
      let (line, is_some, names) = line-quits buffer s1 t e1 in
      let (stream, bytes, streamed, received, same) =
        read_socket-line s s1 line (read ∙ ap (λ o. done (o, s1)) is_some) in
      record {
        stream = stream;
        bytes = bytes;
        streamed = streamed;
        received = received;
        line = subst (Names (codes "QUIT")) (sym same) names;
      }

  -- Where the server gives the slot of a client back, the client has sent a line with the command QUIT, in
  -- letters of either case.
  pub handle_connection-freed :
      (fd : ℕ) (s t : State W)
      → handle_connection os fd s ≡ done (true, t)
      → Sends os (codes "QUIT") s
  unfolding handle_connection
  handle_connection-freed fd s t e =
      let (status, s1, line, closing) =
        bind_done (handle_client_command os) (close_after os fd) s e in
      handle_client_command-quits s s1
        (line ∙ ap (λ o. done (o, s1)) (close_after-freed fd status s1 t closing))
