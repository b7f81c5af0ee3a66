-- ===== src/Commands/Delete.antt =====
-- src/commands/dele.c
use my_ftp.Prelude.{◌==◌, if◌then◌else◌, Text}
use my_ftp.Os.{Os}
use my_ftp.Parser.{Command}
use my_ftp.Reply.{delete_failed, file_action_okay}
use my_ftp.Session.{CommandStatus, success, failure}
use my_ftp.Session.Monad.{M, pure, ◌>>=◌, ◌>>◌, deref, gets, sys, reply}
use my_ftp.Commands.Login.{first_argument}
use my_ftp.Commands.Simple.{logged_in_or_refuse}

module _ {W : Type 0} (os : Os W) where
  unfoldable pub delete_file : Text → M W CommandStatus
  delete_file filepath = do
    directory ← gets (λ s. s.working_directory)
    path ← deref directory
    sys (os.chdir path)
    removed ← sys (os.remove filepath)
    if removed
        then (do reply file_action_okay; pure success)
        else (do reply delete_failed; pure failure)

  unfoldable pub dele_command : Command → M W CommandStatus
  unfolding delete_file
  dele_command command = logged_in_or_refuse (
      if command.argc == 1
      then (do filepath ← first_argument command; delete_file filepath)
      else (do reply delete_failed; pure failure))
