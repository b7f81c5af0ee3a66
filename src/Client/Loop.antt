-- ===== src/Client/Loop.antt =====
-- bonus/src/client.c, bonus/src/main.c, bonus/src/socket.c and `destroy_client`: the client from its
-- arguments to its exit code.
pub mod Ending
use my_ftp.Prelude.{
  ℕ, zero, suc, ◌%◌, Option, none, some, null_or, Bool, true, false, ◌&&◌, not, List, [], ◌∷◌, ◌==◌,
  Text, codes, text_eq, if◌then◌else◌,
}
use my_ftp.Prelude.Int.{ℤ}
use my_ftp.Prelude.Outcome.{done, ◌>>=◌ as ◌>>=ₒ◌}
use my_ftp.Stdio.{atoi}
use my_ftp.Os.{SockAddr}
use my_ftp.Parser.{Command}
use my_ftp.Session.{CommandStatus, success, quit}
use my_ftp.Startup.{is_bad_port, port_number}
use my_ftp.Client.System.{ClientOs}
use my_ftp.Client.State.{Client, M, pure, ◌>>=◌, ◌>>◌, sys, log, opened, send, close}
use my_ftp.Client.Trimming.{trim}
use my_ftp.Client.Parser.{parse_buffer}
use my_ftp.Client.Reading.{read_input}
use my_ftp.Client.Login.{login}
use my_ftp.Client.Executor.{execute_command}

module _ {W : Type 0} (os : ClientOs W) where
  -- A text that is no address gives a zeroed structure.
  unfoldable pub init_sockin : Text → ℕ → SockAddr
  init_sockin ip port =
      null_or (os.inet_pton ip) (record { address = 0; port = 0 })
        (λ address. record { address = address; port = port % 65536 })

  unfoldable pub init_client : ℕ → Text → ℕ → M W (Option Client)
  init_client sockfd ip port = do
    allocated ← sys os.malloc
    pure (if allocated then some (record { sockfd = sockfd; port = port; ip = ip }) else none)

  unfoldable pub connect_to_server : Text → ℕ → M W (Option Client)
  unfolding init_sockin init_client
  connect_to_server ip port = do
    fd ← sys os.socket
    null_or fd (pure none) (λ sockfd. (do
      log (opened sockfd)
      connected ← sys (os.connect sockfd (init_sockin ip port))
      if connected then init_client sockfd ip port else pure none))

  -- `command = parse_buffer(buffer)`, with its calls of `malloc`
  unfoldable pub parse_line : Text → M W (Option Command)
  parse_line buffer = do
    command_allocated ← sys os.malloc
    tokens_allocated ←
        (if command_allocated && not (text_eq (trim buffer) []) then sys os.malloc else pure false)
    (λ s. parse_buffer command_allocated tokens_allocated buffer >>=ₒ λ command. done (command, s))

  unfoldable pub loop_execution : Client → M W CommandStatus
  unfolding read_input parse_line
  loop_execution client = do
    buffer ← read_input os
    null_or buffer (pure quit) (λ line. (do
      command ← parse_line line
      null_or command (pure quit) (λ c. execute_command os (some c) client)))

  abbrev is_quit : CommandStatus → Bool
  is_quit quit = true
  is_quit _ = false

  -- the loop of `client`, for as many commands as the first number; `none` while it still runs
  unfoldable pub command_loop : ℕ → Client → CommandStatus → M W (Option (Unit {0}))
  unfolding loop_execution
  command_loop zero client last_command = pure none
  command_loop (suc commands) client last_command =
      let next = loop_execution client >>= command_loop commands client in
      if is_quit last_command
      then pure (some tt)
      else (do stopped ← sys os.stopped; if stopped then pure (some tt) else next)

  unfoldable pub destroy_client : Client → M W (Unit {0})
  destroy_client client = do send os client.sockfd (codes "QUIT\r\n"); close os client.sockfd

  -- the two ends of `client`, behind the login
  unfoldable pub run_commands : ℕ → Client → ℕ → M W (Option ℕ)
  unfolding command_loop destroy_client
  run_commands commands client logged_in =
      if logged_in == 84 then (do destroy_client client; pure (some 84)) else (do
        ended ← command_loop commands client success
        null_or ended (pure none) (λ _. (do destroy_client client; pure (some 0))))

  -- `client`, with a bound on the attempts to log in and one on the commands; `none` while it runs
  unfoldable pub run_client : ℕ → ℕ → Text → ℕ → M W (Option ℕ)
  unfolding connect_to_server login run_commands
  run_client attempts commands ip port = do
    connected ← connect_to_server ip port
    null_or connected (pure (some 84)) (λ client. (do
      logged_in ← login os attempts client
      null_or logged_in (pure none) (λ code. run_commands commands client code)))

  -- `main` ignores the result of `client`.
  unfoldable pub start_client : ℕ → ℕ → Text → ℤ → M W (Option ℕ)
  unfolding run_client is_bad_port
  start_client attempts commands ip port =
      if is_bad_port port
      then pure (some 84)
      else null_or (os.inet_pton ip) (pure (some 84)) (λ _. (do
        result ← run_client attempts commands ip (port_number port)
        pure (null_or result none (λ _. some 0))))

  unfoldable pub with_port : ℕ → ℕ → Text → List Text → M W (Option ℕ)
  unfolding start_client atoi
  with_port attempts commands ip (port ∷ []) = start_client attempts commands ip (atoi port)
  with_port attempts commands ip _ = pure (some 84)

  -- `-help` is looked at before the number of the arguments.
  unfoldable pub main : ℕ → ℕ → List Text → M W (Option ℕ)
  unfolding with_port
  main attempts commands (program ∷ option ∷ rest) =
      if text_eq option (codes "-help")
      then pure (some 0)
      else with_port attempts commands option rest
  main attempts commands _ = pure (some 84)
