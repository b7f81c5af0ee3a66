-- ===== src/ClientHandler/Lines.antt =====
-- What one line of a client does to the invariants of its connection.
use my_ftp.Prelude.{ℕ, ◌≡◌, Bool, Option, some, Text, arith}
use my_ftp.Prelude.Outcome.{Outcome, undefined, done}
use my_ftp.Utils.Trimming.{trim}
use my_ftp.Os.{Os}
use my_ftp.Parser.{Command, parse_buffer}
use my_ftp.Parser.Accepted.{Reads, parse_buffer-Reads}
use my_ftp.Session.{Connection, CommandStatus, quit, State}
use my_ftp.Session.Monad.{◌>>=◌, sys}
use my_ftp.Session.Keeps.{Keeps, keeps_rules, bind_done}
use my_ftp.Executor.{execute_command}
use my_ftp.ClientHandler.{
  read_socket, lift, tokens_malloc, parse_line, execute_line, handle_client_command, close_after,
  handle_connection,
}
use my_ftp.DataSocket.Frames.{destroy_connection-Keeps}

module _ {W : Type 0} (os : Os W) where
  module _ (Q : Connection → Type 0) where
    pub read_socket-Keeps : Keeps Q (read_socket os)
    unfolding read_socket
    read_socket-Keeps = search keeps_rules depth 9

    lift-Keeps : {A : Type 0} (o : Outcome A) → Keeps Q (lift os o)
    lift-Keeps undefined = record { at = λ s h. tt }
    lift-Keeps (done a) = record { at = λ s h. h }

    tokens_malloc-Keeps :
        (allocated : Bool) (buffer : Text) → Keeps Q (tokens_malloc os allocated buffer)
    unfolding tokens_malloc
    tokens_malloc-Keeps allocated buffer = search keeps_rules depth 9

    pub parse_line-Keeps : (buffer : Text) → Keeps Q (parse_line os buffer)
    unfolding parse_line
    parse_line-Keeps buffer = search (keeps_rules, lift-Keeps, tokens_malloc-Keeps) depth 9

    -- What every command keeps is kept by a line.
    pub execute_line-Keeps :
        ((command : Option Command) → Keeps Q (execute_command os command))
        → (buffer : Text) → Keeps Q (execute_line os buffer)
    unfolding execute_line
    execute_line-Keeps all buffer = search (keeps_rules, parse_line-Keeps, all) depth 9

    -- What every line keeps is kept by the end of the stream too.
    pub handle_client_command-Keeps :
        ((buffer : Text) → Keeps Q (execute_line os buffer)) → Keeps Q (handle_client_command os)
    unfolding handle_client_command
    handle_client_command-Keeps all = search (keeps_rules, read_socket-Keeps, all) depth 9

    pub close_after-Keeps : (fd : ℕ) (status : CommandStatus) → Keeps Q (close_after os fd status)
    unfolding close_after
    close_after-Keeps fd quit = search (keeps_rules, destroy_connection-Keeps) depth 9
    close_after-Keeps fd _ = search keeps_rules

    -- What a line keeps is kept by the closing of the connection too.
    pub handle_connection-Keeps :
        Keeps Q (handle_client_command os) → (fd : ℕ) → Keeps Q (handle_connection os fd)
    unfolding handle_connection
    handle_connection-Keeps line fd = search (keeps_rules, line, close_after-Keeps) depth 9

  lift_done :
      {A : Type 0} (o : Outcome A) (s : State W) {a : A} {t : State W}
      → lift os o s ≡ done (a, t)
      → o ≡ done a
  lift_done undefined s e = cc
  lift_done (done a) s e = ground arith

  -- The command that a line holds is made of its words.
  pub parse_line-Reads :
      (buffer : Text) (s : State W) {command : Command} {t : State W}
      → parse_line os buffer s ≡ done (some command, t)
      → Reads (trim buffer) command
  unfolding parse_line
  parse_line-Reads buffer s {command} e =
      let rest = λ (a b : Bool). lift os (parse_buffer a b buffer) in
      let (allocated, s1, _, f1) =
        bind_done (sys os.malloc) (λ a. tokens_malloc os a buffer >>= rest a) s e in
      let (tokens, s2, _, f2) =
        bind_done (tokens_malloc os allocated buffer) (rest allocated) s1 f1 in
      parse_buffer-Reads allocated tokens buffer command
        (lift_done (parse_buffer allocated tokens buffer) s2 f2)
