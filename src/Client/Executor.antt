-- ===== src/Client/Executor.antt =====
-- bonus/src/command_executor.c
use my_ftp.Prelude.{Option, List, [], ◌∷◌, null_or, Text, codes}
use my_ftp.Utils.Case.{touppercase}
use my_ftp.Parser.{Command}
use my_ftp.Executor.{find_handler}
use my_ftp.Session.{CommandStatus, not_found}
use my_ftp.Client.System.{ClientOs}
use my_ftp.Client.State.{Client, M, pure}
use my_ftp.Client.Commands.{quit_command, exit_command, help_command, cd_command, pwd_command}
use my_ftp.Client.Transfer.{ls_command, get_command, put_command}

-- The handlers that the table points to.
pub data Handler : Type 0 where
  quit exit help ls cd pwd get put : Handler

-- `command_handlers`, without the closing pair of null pointers
abbrev pub command_handlers : List (Text × Handler)
command_handlers =
    (codes "QUIT", quit)
    ∷ (codes "EXIT", exit)
    ∷ (codes "HELP", help)
    ∷ (codes "LS", ls)
    ∷ (codes "CD", cd)
    ∷ (codes "PWD", pwd)
    ∷ (codes "GET", get)
    ∷ (codes "PUT", put)
    ∷ []

-- The handler, for the name in upper case.
unfoldable pub get_command_handler : Command → Option Handler
unfolding find_handler
get_command_handler command = find_handler command_handlers (touppercase command.name)

module _ {W : Type 0} (os : ClientOs W) where
  -- the call through the table's pointer
  unfoldable pub call : Handler → Command → Client → M W CommandStatus
  call quit = quit_command os
  call exit = exit_command os
  call help = help_command os
  call ls = ls_command os
  call cd = cd_command os
  call pwd = pwd_command os
  call get = get_command os
  call put = put_command os

  -- Of a null command `loop_execution` does not call it.
  unfoldable pub execute_command : Option Command → Client → M W CommandStatus
  unfolding call get_command_handler
  execute_command command client = null_or command (pure not_found) λ c.
      null_or (get_command_handler c) (pure not_found)
        λ handler. call handler (record c { name = touppercase c.name }) client
