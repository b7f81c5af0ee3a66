-- ===== src/Executor/Staying.antt =====
-- Which handler ends a session: of all, only that of QUIT returns `COMMAND_QUIT`.
use my_ftp.Prelude.{◌≡◌, refl, ap, ◌⊎◌, inl, inr, Option, none, some, Text}
use my_ftp.Prelude.Outcome.{done}
use my_ftp.Utils.Case.{touppercase}
use my_ftp.Os.{Os}
use my_ftp.Parser.{Command}
use my_ftp.Session.{DataSocket, CommandStatus, failure, quit, State}
use my_ftp.Session.Monad.{M}
use my_ftp.Session.Gives.{Gives, Gives-done, gives_rules}
use my_ftp.DataSocket.Active.{HostPort}
use my_ftp.DataSocket.Transfer.{run_child, execute_data_socket_command}
use my_ftp.Commands.Login.{user_command, process_login, try_login, after_check, pass_command}
use my_ftp.Commands.Simple.{noop_command, help_command, pwd_command, change_type, type_command}
use my_ftp.Commands.Delete.{delete_file, dele_command}
use my_ftp.Commands.Directory.{enter, change_dir, cwd_command, cdup_command}
use my_ftp.Commands.Connect.{
  announce, create_passive_data_socket, pasv_command, open_active, create_active_data_socket,
  port_command,
}
use my_ftp.Commands.Files.{retr_command, stor_command}
use my_ftp.Commands.Listing.{unless_failed, list_command}
use my_ftp.Executor.{Handler, call, run_handler, get_command_handler, execute_command}
use my_ftp.Executor

-- the statuses behind which the connection stays open
abbrev pub IsStaying : CommandStatus → Type 0
IsStaying quit = ⊥
IsStaying _ = Unit

abbrev Stays : {W : Type 0} → M W CommandStatus → Type 0
Stays m = Gives IsStaying m

module _ {W : Type 0} where
  user-Stays : (command : Command) → Stays {W = W} (user_command command)
  unfolding user_command
  user-Stays command = search gives_rules depth 9

  noop-Stays : (command : Command) → Stays {W = W} (noop_command command)
  unfolding noop_command
  noop-Stays command = search gives_rules depth 9

  help-Stays : (command : Command) → Stays {W = W} (help_command command)
  unfolding help_command
  help-Stays command = search gives_rules depth 9

  pwd-Stays : (command : Command) → Stays {W = W} (pwd_command command)
  unfolding pwd_command
  pwd-Stays command = search gives_rules depth 9

  process_login-Stays : (password : Text) → Stays {W = W} (process_login password)
  unfolding process_login
  process_login-Stays password = search gives_rules depth 9

  try_login-Stays : (command : Command) → Stays {W = W} (try_login command)
  unfolding try_login
  try_login-Stays command = search (gives_rules, process_login-Stays) depth 9

  after_check-Stays :
      (status : CommandStatus) (command : Command) → Stays {W = W} (after_check status command)
  unfolding after_check
  after_check-Stays failure command = search gives_rules
  after_check-Stays _ command = try_login-Stays command

  pass-Stays : (command : Command) → Stays {W = W} (pass_command command)
  unfolding pass_command
  pass-Stays command = search (gives_rules, after_check-Stays) depth 9

  change_type-Stays : (type : Text) → Stays {W = W} (change_type type)
  unfolding change_type
  change_type-Stays type = search gives_rules depth 9

  type-Stays : (command : Command) → Stays {W = W} (type_command command)
  unfolding type_command
  type-Stays command = search (gives_rules, change_type-Stays) depth 9

module _ {W : Type 0} (os : Os W) where
  delete_file-Stays : (path : Text) → Stays (delete_file os path)
  unfolding delete_file
  delete_file-Stays path = search gives_rules depth 9

  dele-Stays : (command : Command) → Stays (dele_command os command)
  unfolding dele_command
  dele-Stays command = search (gives_rules, delete_file-Stays) depth 9

  enter-Stays : (path : Text) → Stays (enter os path)
  unfolding enter
  enter-Stays path = search gives_rules depth 16

  change_dir-Stays : (path : Text) → Stays (change_dir os path)
  unfolding change_dir
  change_dir-Stays path = search (gives_rules, enter-Stays) depth 9

  cwd-Stays : (command : Command) → Stays (cwd_command os command)
  unfolding cwd_command
  cwd-Stays command = search (gives_rules, change_dir-Stays) depth 9

  cdup-Stays : (command : Command) → Stays (cdup_command os command)
  unfolding cdup_command
  cdup-Stays command = search (gives_rules, change_dir-Stays) depth 9

  announce-Stays : (d : DataSocket) → Stays (announce os d)
  unfolding announce
  announce-Stays d = search gives_rules depth 9

  create_passive-Stays : Stays (create_passive_data_socket os)
  unfolding create_passive_data_socket
  create_passive-Stays = search (gives_rules, announce-Stays) depth 9

  pasv-Stays : (command : Command) → Stays (pasv_command os command)
  unfolding pasv_command
  pasv-Stays command = search (gives_rules, create_passive-Stays) depth 9

  open_active-Stays : (host_port : HostPort) → Stays (open_active os host_port)
  unfolding open_active
  open_active-Stays host_port = search gives_rules depth 9

  create_active-Stays : (arg : Text) → Stays (create_active_data_socket os arg)
  unfolding create_active_data_socket
  create_active-Stays arg = search (gives_rules, open_active-Stays) depth 9

  port-Stays : (command : Command) → Stays (port_command os command)
  unfolding port_command
  port-Stays command = search (gives_rules, create_active-Stays) depth 9

  run_child-Stays :
      (run : Command → M W CommandStatus) → (command : Command) → Stays (run_child os run command)
  unfolding run_child
  run_child-Stays run command = search gives_rules depth 9

  execute-Stays :
      (run : Command → M W CommandStatus)
      → (command : Command) → Stays (execute_data_socket_command os run command)
  unfolding execute_data_socket_command
  execute-Stays run command = search (gives_rules, run_child-Stays) depth 9

  retr-Stays : (command : Command) → Stays (retr_command os command)
  unfolding retr_command
  retr-Stays command = search (gives_rules, execute-Stays) depth 9

  stor-Stays : (command : Command) → Stays (stor_command os command)
  unfolding stor_command
  stor-Stays command = search (gives_rules, execute-Stays) depth 9

  unless_failed-Stays :
      (status : CommandStatus) (rest : M W CommandStatus)
      → Stays rest
      → Stays (unless_failed os status rest)
  unless_failed-Stays failure rest h = search gives_rules
  unless_failed-Stays _ rest h = h

  list-Stays : (command : Command) → Stays (list_command os command)
  unfolding list_command
  list-Stays command = search (gives_rules, execute-Stays, unless_failed-Stays) depth 9

  call-quits :
      (handler : Handler) (command : Command)
      → (handler ≡ Executor.quit) ⊎ Stays (call os handler command)
  unfolding call
  call-quits Executor.quit command = inl refl
  call-quits Executor.user command = inr (user-Stays command)
  call-quits Executor.pass command = inr (pass-Stays command)
  call-quits Executor.cwd command = inr (cwd-Stays command)
  call-quits Executor.cdup command = inr (cdup-Stays command)
  call-quits Executor.dele command = inr (dele-Stays command)
  call-quits Executor.pwd command = inr (pwd-Stays command)
  call-quits Executor.pasv command = inr (pasv-Stays command)
  call-quits Executor.port command = inr (port-Stays command)
  call-quits Executor.help command = inr (help-Stays command)
  call-quits Executor.noop command = inr (noop-Stays command)
  call-quits Executor.retr command = inr (retr-Stays command)
  call-quits Executor.stor command = inr (stor-Stays command)
  call-quits Executor.list command = inr (list-Stays command)
  call-quits Executor.type command = inr (type-Stays command)

  not_found-Stays : (command : Command) → Stays (run_handler os none command)
  unfolding run_handler
  not_found-Stays command = search gives_rules

  execute_none-Stays : Stays (execute_command os none)
  unfolding execute_command
  execute_none-Stays = search gives_rules

  run_handler-quits :
      (found : Option Handler) (command : Command) (s t : State W)
      → run_handler os found command s ≡ done (quit, t)
      → found ≡ some Executor.quit
  unfolding run_handler
  run_handler-quits none command s t e = absurd (Gives-done {s = s} (not_found-Stays command) e)
  run_handler-quits (some handler) command s t e =
      elim (call-quits handler (record command { name = touppercase command.name })) [
        | inl q ↦ ap some q
        | inr stays ↦ absurd (Gives-done {s = s} stays e)
      ]

  -- A command that ends the session is a command whose name is that of QUIT in the table.
  pub execute_command-quits :
      (command : Option Command) (s t : State W)
      → execute_command os command s ≡ done (quit, t)
      → (c : Command) × (command ≡ some c) × (get_command_handler c ≡ some Executor.quit)
  unfolding execute_command
  execute_command-quits none s t e = absurd (Gives-done {s = s} execute_none-Stays e)
  execute_command-quits (some command) s t e =
      (command, refl, run_handler-quits (get_command_handler command) command s t e)
