-- ===== src/Executor/Speaking.antt =====
-- A command speaks to its own client only.
use my_ftp.Prelude.{Option, none, some}
use my_ftp.Utils.Case.{touppercase}
use my_ftp.Os.{Os}
use my_ftp.Parser.{Command}
use my_ftp.Session.Speaks.{Speaks, speaks_rules}
use my_ftp.Commands.Speaking.{
  user-Speaks, pass-Speaks, noop-Speaks, help-Speaks, pwd-Speaks, quit-Speaks, type-Speaks,
  dele-Speaks, cwd-Speaks, cdup-Speaks,
}
use my_ftp.Commands.DataSpeaking.{pasv-Speaks, port-Speaks, retr-Speaks, stor-Speaks, list-Speaks}
use my_ftp.Executor.{
  Handler, user, pass, cwd, cdup, quit, dele, pwd, pasv, port, help, noop, retr, stor, list, type,
  call, run_handler, get_command_handler, not_found_message, execute_command,
}

module _ {W : Type 0} (os : Os W) where
  call-Speaks : (handler : Handler) (command : Command) → Speaks (call os handler command)
  unfolding call
  call-Speaks user command = user-Speaks command
  call-Speaks pass command = pass-Speaks command
  call-Speaks noop command = noop-Speaks command
  call-Speaks help command = help-Speaks command
  call-Speaks pwd command = pwd-Speaks command
  call-Speaks quit command = quit-Speaks command
  call-Speaks type command = type-Speaks command
  call-Speaks dele command = dele-Speaks os command
  call-Speaks cwd command = cwd-Speaks os command
  call-Speaks cdup command = cdup-Speaks os command
  call-Speaks pasv command = pasv-Speaks os command
  call-Speaks port command = port-Speaks os command
  call-Speaks retr command = retr-Speaks os command
  call-Speaks stor command = stor-Speaks os command
  call-Speaks list command = list-Speaks os command

  not_found-Speaks : Speaks {W = W} not_found_message
  unfolding not_found_message
  not_found-Speaks = search speaks_rules depth 9

  run_handler-Speaks :
      (found : Option Handler) (command : Command) → Speaks (run_handler os found command)
  unfolding run_handler
  run_handler-Speaks none command = search (speaks_rules, not_found-Speaks) depth 9
  run_handler-Speaks (some handler) command =
      call-Speaks handler (record command { name = touppercase command.name })

  pub execute_command-Speaks : (command : Option Command) → Speaks (execute_command os command)
  unfolding execute_command
  execute_command-Speaks none = search (speaks_rules, not_found-Speaks) depth 9
  execute_command-Speaks (some command) = run_handler-Speaks (get_command_handler command) command
