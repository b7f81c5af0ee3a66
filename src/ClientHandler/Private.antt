-- ===== src/ClientHandler/Private.antt =====
-- Whom the server speaks to while it handles a line.
use mathlib.Core.Path.{subst}
use my_ftp.Prelude.{◌≡◌, refl, Bool, Text}
use my_ftp.Prelude.Outcome.{Outcome, undefined, done}
use my_ftp.Os.{Os}
use my_ftp.Session.{CommandStatus, State}
use my_ftp.Session.Speaks.{Speaks, SpokeIfDone, Spoke, Spoke-same, speaks_rules}
use my_ftp.DataSocket.Speaking.{describe_client-Speaks}
use my_ftp.Executor.Speaking.{execute_command-Speaks}
use my_ftp.ClientHandler.{
  read_socket, lift, tokens_malloc, parse_line, execute_line, handle_client_command,
}

module _ {W : Type 0} (os : Os W) where
  read_socket-Speaks : Speaks (read_socket os)
  unfolding read_socket
  read_socket-Speaks = search speaks_rules depth 9

  lift-Speaks : {A : Type 0} (o : Outcome A) → Speaks (lift os o)
  lift-Speaks undefined = record { at = λ control s h. tt }
  lift-Speaks (done a) = record { at = λ control s h. Spoke-same control s s h refl refl }

  tokens_malloc-Speaks :
      (allocated : Bool) (buffer : Text) → Speaks (tokens_malloc os allocated buffer)
  unfolding tokens_malloc
  tokens_malloc-Speaks allocated buffer = search speaks_rules depth 9

  parse_line-Speaks : (buffer : Text) → Speaks (parse_line os buffer)
  unfolding parse_line
  parse_line-Speaks buffer = search (speaks_rules, lift-Speaks, tokens_malloc-Speaks) depth 9

  execute_line-Speaks : (buffer : Text) → Speaks (execute_line os buffer)
  unfolding execute_line
  execute_line-Speaks buffer =
      search (speaks_rules, describe_client-Speaks, parse_line-Speaks, execute_command-Speaks) depth
        9

  line-Speaks : Speaks (handle_client_command os)
  unfolding handle_client_command
  line-Speaks = search (speaks_rules, read_socket-Speaks, execute_line-Speaks) depth 9

  -- Where the code is defined, a line of a client makes the server, and the child processes that it starts,
  -- write replies to the control connection of this client and to no other; only what files and directories
  -- hold is written elsewhere.
  pub handle_client_command-Spoke :
      (s t : State W) (status : CommandStatus)
      → handle_client_command os s ≡ done (status, t)
      → Spoke s.client_sockfd s t
  handle_client_command-Spoke s t status e =
      subst (SpokeIfDone s.client_sockfd s) e (line-Speaks.at s.client_sockfd s refl)
