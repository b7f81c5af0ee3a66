-- ===== src/Commands/Directory.antt =====
-- src/commands/cwd.c and src/commands/cdup.c, whose helpers are the same text
use my_ftp.Prelude.{Bool, true, false, Option, ◌==◌, if◌then◌else◌, Text, codes, starts_with}
use my_ftp.Os.{Os}
use my_ftp.Parser.{Command}
use my_ftp.Reply.{change_directory_failed, directory_changed}
use my_ftp.Session.{CommandStatus, success, failure}
use my_ftp.Session.Monad.{M, pure, ◌>>=◌, ◌>>◌, deref, gets, sys, modify, reply}
use my_ftp.Commands.Login.{first_argument}
use my_ftp.Commands.Simple.{logged_in_or_refuse}

module _ {W : Type 0} (os : Os W) where
  -- whether the path is missing
  unfoldable pub check_exists : Text → M W Bool
  check_exists path = do
    exists ← sys (os.access_exists path)
    if exists then pure false else (do reply change_directory_failed; pure true)

  -- whether the directory could not be opened
  unfoldable pub check_directory : Bool → M W Bool
  check_directory opened =
      if opened then pure false else (do reply change_directory_failed; pure true)

  abbrev set_directory : Option Text → M W (Unit {0})
  set_directory path = modify (λ c. record c { working_directory = path })

  unfoldable pub check_new_path : M W (Unit {0})
  check_new_path = do
    directory ← gets (λ s. s.working_directory)
    path ← deref directory
    root ← gets (λ s. s.server.path)
    if starts_with path root then pure tt else (do current ← sys os.getcwd; set_directory current)

  -- `change_dir` behind its two tests
  unfoldable pub enter : Text → M W CommandStatus
  unfolding check_new_path
  enter path = do
    directory ← gets (λ s. s.working_directory)
    old ← deref directory
    sys (os.chdir old)
    sys (os.chdir path)
    new ← sys os.getcwd
    set_directory new
    root ← gets (λ s. s.server.path)
    sys (os.chdir root)
    check_new_path
    reply directory_changed
    pure success

  unfoldable pub change_dir : Text → M W CommandStatus
  unfolding check_exists check_directory enter
  change_dir path = do
    missing ← check_exists path
    if missing then pure failure else (do
      opened ← sys (os.opendir path)
      invalid ← check_directory opened
      if invalid then pure failure else enter path)

  unfoldable pub cwd_command : Command → M W CommandStatus
  unfolding change_dir
  cwd_command command = logged_in_or_refuse (
      if command.argc == 1
      then (do path ← first_argument command; change_dir path)
      else (do reply change_directory_failed; pure failure))

  unfoldable pub cdup_command : Command → M W CommandStatus
  unfolding change_dir
  cdup_command command = logged_in_or_refuse (change_dir (codes ".."))
