-- ===== src/Executor.antt =====
-- src/command_executor.c: the table of the handlers, and the call of the one that a command names.
pub mod Guards
pub mod Frames
pub mod Staying
pub mod Speaking
pub mod Table
use my_ftp.Prelude.{Option, none, some, List, [], ◌∷◌, if◌then◌else◌, Text, codes, text_eq}
use my_ftp.Utils.Case.{touppercase}
use my_ftp.Os.{Os}
use my_ftp.Parser.{Command}
use my_ftp.Reply.{unknown_command, please_login}
use my_ftp.Session.{CommandStatus, not_found, State}
use my_ftp.Session.Monad.{M, pure, ◌>>=◌, ◌>>◌, gets, reply}
use my_ftp.Commands.Login.{user_command, pass_command}
use my_ftp.Commands.Simple.{noop_command, help_command, pwd_command, quit_command, type_command}
use my_ftp.Commands.Directory.{cwd_command, cdup_command}
use my_ftp.Commands.Delete.{dele_command}
use my_ftp.Commands.Connect.{pasv_command, port_command}
use my_ftp.Commands.Files.{retr_command, stor_command}
use my_ftp.Commands.Listing.{list_command}

-- The handlers that the table points to.
pub data Handler : Type 0 where
  user pass cwd cdup quit dele pwd pasv port help noop retr stor list type : Handler

-- `command_handlers`, without the closing pair of null pointers
abbrev pub command_handlers : List (Text × Handler)
command_handlers =
    (codes "USER", user)
    ∷ (codes "PASS", pass)
    ∷ (codes "CWD", cwd)
    ∷ (codes "CDUP", cdup)
    ∷ (codes "QUIT", quit)
    ∷ (codes "DELE", dele)
    ∷ (codes "PWD", pwd)
    ∷ (codes "PASV", pasv)
    ∷ (codes "PORT", port)
    ∷ (codes "HELP", help)
    ∷ (codes "NOOP", noop)
    ∷ (codes "RETR", retr)
    ∷ (codes "STOR", stor)
    ∷ (codes "LIST", list)
    ∷ (codes "TYPE", type)
    ∷ []

-- the loop of `get_command_handler`
unfoldable pub find_handler : {H : Type 0} → List (Text × H) → Text → Option H
find_handler [] name = none
find_handler ((command_name, handler) ∷ handlers) name =
    if text_eq command_name name then some handler else find_handler handlers name

-- The handler, for the name in upper case.
unfoldable pub get_command_handler : Command → Option Handler
unfolding find_handler
get_command_handler command = find_handler command_handlers (touppercase command.name)

module _ {W : Type 0} where
  unfoldable pub not_found_message : M W (Unit {0})
  not_found_message = do
    logged_in ← gets (λ s. s.logged_in)
    reply (if logged_in then unknown_command else please_login)

module _ {W : Type 0} (os : Os W) where
  -- the call through the table's pointer
  unfoldable pub call : Handler → Command → M W CommandStatus
  call user command = user_command command
  call pass command = pass_command command
  call cwd command = cwd_command os command
  call cdup command = cdup_command os command
  call quit command = quit_command command
  call dele command = dele_command os command
  call pwd command = pwd_command command
  call pasv command = pasv_command os command
  call port command = port_command os command
  call help command = help_command command
  call noop command = noop_command command
  call retr command = retr_command os command
  call stor command = stor_command os command
  call list command = list_command os command
  call type command = type_command command

  -- the handler that was found, on the command with its name in upper case
  unfoldable pub run_handler : Option Handler → Command → M W CommandStatus
  run_handler none command = do not_found_message; pure not_found
  run_handler (some handler) command =
      call handler (record command { name = touppercase command.name })

  unfoldable pub execute_command : Option Command → M W CommandStatus
  execute_command none = do not_found_message; pure not_found
  execute_command (some command) = run_handler (get_command_handler command) command
