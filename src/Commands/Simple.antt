-- ===== src/Commands/Simple.antt =====
-- src/commands/noop.c, help.c, pwd.c, quit.c and type.c
use my_ftp.Prelude.{◌==◌, if◌then◌else◌, Text, codes, text_eq}
use my_ftp.Utils.Case.{touppercase}
use my_ftp.Parser.{Command}
use my_ftp.Reply.{
  please_login, noop_okay, help_header, help_commands, help_end, pwd, ascii_mode, binary_mode,
  unrecognised_type,
}
use my_ftp.Session.{CommandStatus, success, failure, quit, TransferMode, ascii, binary}
use my_ftp.Session.Monad.{M, pure, ◌>>=◌, ◌>>◌, deref, gets, modify, reply}
use my_ftp.Commands.Login.{first_argument}

module _ {W : Type 0} where
  -- The test that most handlers begin with: `if (!connection->logged_in) …`
  abbrev pub logged_in_or_refuse : M W CommandStatus → M W CommandStatus
  logged_in_or_refuse body = do
    logged_in ← gets (λ s. s.logged_in)
    if logged_in then body else (do reply please_login; pure failure)

  unfoldable pub noop_command : Command → M W CommandStatus
  noop_command command = logged_in_or_refuse (do reply noop_okay; pure success)

  unfoldable pub help_command : Command → M W CommandStatus
  help_command command =
      logged_in_or_refuse (do reply help_header; reply help_commands; reply help_end; pure success)

  unfoldable pub pwd_command : Command → M W CommandStatus
  pwd_command command = logged_in_or_refuse (do
    directory ← gets (λ s. s.working_directory)
    path ← deref directory
    reply (pwd path)
    pure success)

  unfoldable pub quit_command : Command → M W CommandStatus
  quit_command command = pure quit

  abbrev set_mode : TransferMode → M W (Unit {0})
  set_mode mode = modify (λ c. record c { transfer_mode = mode })

  unfoldable pub change_type : Text → M W CommandStatus
  change_type type =
      let upper = touppercase type in
      if text_eq upper (codes "A")
      then (do set_mode ascii; reply ascii_mode; pure success)
      else if text_eq upper (codes "I")
      then (do set_mode binary; reply binary_mode; pure success)
      else (do reply unrecognised_type; pure failure)

  unfoldable pub type_command : Command → M W CommandStatus
  unfolding change_type
  type_command command = logged_in_or_refuse (
      if command.argc == 1
      then (do type ← first_argument command; change_type type)
      else (do reply unrecognised_type; pure failure))
