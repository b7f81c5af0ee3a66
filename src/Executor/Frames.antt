-- ===== src/Executor/Frames.antt =====
-- The invariants that every command keeps but USER, PASS, CWD and CDUP.
use my_ftp.Prelude.{Option, none, some}
use my_ftp.Utils.Case.{touppercase}
use my_ftp.Os.{Os}
use my_ftp.Parser.{Command}
use my_ftp.Session.{Connection, DataSocket, TransferMode}
use my_ftp.Session.Keeps.{Keeps, keeps_rules}
use my_ftp.Commands.Frames.{
  noop-Keeps, help-Keeps, pwd-Keeps, quit-Keeps, type-Keeps, dele-Keeps, port-Keeps, pasv-Keeps,
  retr-Keeps, stor-Keeps, list-Keeps,
}
use my_ftp.Commands.Login.{user_command, pass_command}
use my_ftp.Commands.Directory.{cwd_command, cdup_command}
use my_ftp.Executor.{
  Handler, user, pass, cwd, cdup, quit, dele, pwd, pasv, port, help, noop, retr, stor, list, type,
  call, not_found_message, run_handler, get_command_handler, execute_command,
}

-- the handlers that write neither the login nor the working directory
abbrev pub IsSteadyHandler : Handler → Type 0
IsSteadyHandler user = ⊥
IsSteadyHandler pass = ⊥
IsSteadyHandler cwd = ⊥
IsSteadyHandler cdup = ⊥
IsSteadyHandler _ = Unit

-- `Q` says nothing of the data socket and of the transfer mode.
pub record IsSteady (Q : Connection → Type 0) : Type 0 where
  pub data_socket :
      (c : Connection) (d : Option DataSocket) → Q c → Q (record c { data_socket = d })
  pub transfer_mode : (c : Connection) (m : TransferMode) → Q c → Q (record c { transfer_mode = m })

module _ {W : Type 0} (os : Os W) (Q : Connection → Type 0) (steady : IsSteady Q) where
  pub steady-Keeps :
      (handler : Handler) (command : Command)
      → IsSteadyHandler handler
      → Keeps Q (call os handler command)
  unfolding call
  steady-Keeps user command n = absurd n
  steady-Keeps pass command n = absurd n
  steady-Keeps cwd command n = absurd n
  steady-Keeps cdup command n = absurd n
  steady-Keeps quit command n = quit-Keeps Q command
  steady-Keeps dele command n = dele-Keeps os Q command
  steady-Keeps pwd command n = pwd-Keeps Q command
  steady-Keeps pasv command n = pasv-Keeps os Q steady.data_socket command
  steady-Keeps port command n = port-Keeps os Q steady.data_socket command
  steady-Keeps help command n = help-Keeps Q command
  steady-Keeps noop command n = noop-Keeps Q command
  steady-Keeps retr command n = retr-Keeps os Q steady.data_socket command
  steady-Keeps stor command n = stor-Keeps os Q steady.data_socket command
  steady-Keeps list command n = list-Keeps os Q steady.data_socket command
  steady-Keeps type command n = type-Keeps Q steady.transfer_mode command

  pub not_found-Keeps : Keeps {W = W} Q not_found_message
  unfolding not_found_message
  not_found-Keeps = search keeps_rules depth 9

  pub execute_none-Keeps : Keeps Q (execute_command os none)
  unfolding execute_command
  execute_none-Keeps = search (keeps_rules, not_found-Keeps) depth 9

  -- What is left to show of an invariant, for it to be kept by every command.
  pub record Rest : Type 0 where
    pub user_keeps : (command : Command) → Keeps Q (user_command {W = W} command)
    pub pass_keeps : (command : Command) → Keeps Q (pass_command {W = W} command)
    pub cwd_keeps : (command : Command) → Keeps Q (cwd_command os command)
    pub cdup_keeps : (command : Command) → Keeps Q (cdup_command os command)

  module _ (rest : Rest) where
    call-Keeps : (handler : Handler) (command : Command) → Keeps Q (call os handler command)
    call-Keeps user command = unfold call in rest.user_keeps command
    call-Keeps pass command = unfold call in rest.pass_keeps command
    call-Keeps cwd command = unfold call in rest.cwd_keeps command
    call-Keeps cdup command = unfold call in rest.cdup_keeps command
    call-Keeps _ command = steady-Keeps _ command tt

    run_handler-Keeps :
        (found : Option Handler) (command : Command) → Keeps Q (run_handler os found command)
    unfolding run_handler
    run_handler-Keeps none command = search (keeps_rules, not_found-Keeps) depth 9
    run_handler-Keeps (some handler) command =
        call-Keeps handler (record command { name = touppercase command.name })

    pub execute_command-Keeps : (command : Option Command) → Keeps Q (execute_command os command)
    unfolding execute_command
    execute_command-Keeps none = execute_none-Keeps
    execute_command-Keeps (some command) = run_handler-Keeps (get_command_handler command) command
