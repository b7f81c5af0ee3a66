-- ===== src/Commands/Listing.antt =====
-- src/commands/list.c
use my_ftp.Prelude.{
  Bool, true, false, Option, none, some, leb, null_or, if◌then◌else◌, Text, codes, length,
  get_elem?, starts_with,
}
use my_ftp.Stdio.Lines.{fgets_loop}
use my_ftp.Os.{Os}
use my_ftp.Parser.{Command}
use my_ftp.Reply.{list_failed, local_error, listing, directory_sent}
use my_ftp.Session.{CommandStatus, success, failure}
use my_ftp.Session.Monad.{M, pure, ◌>>=◌, ◌>>◌, deref, gets, sys, reply}
use my_ftp.DataSocket.Transfer.{execute_data_socket_command}
use my_ftp.Commands.Login.{first_argument}
use my_ftp.Commands.Simple.{logged_in_or_refuse}
use my_ftp.Commands.Files.{data_sockfd, send_all, with_data_socket}

module _ {W : Type 0} (os : Os W) where
  -- whether the path is missing
  unfoldable pub check_exists : Text → M W Bool
  check_exists path = do
    exists ← sys (os.access_exists path)
    if exists then pure false else (do reply list_failed; pure true)

  -- `command->argv[0] ? command->argv[0] : "."`
  abbrev path_or_dot : Option Text → Text
  path_or_dot none = codes "."
  path_or_dot (some path) = path

  -- `chdir(connection->working_directory)`, and then whether `chdir(path)` succeeds
  abbrev go_to : Text → M W Bool
  go_to path = do
    directory ← gets (λ s. s.working_directory)
    working ← deref directory
    sys (os.chdir working)
    sys (os.chdir path)

  unfoldable pub goto_path : Command → M W CommandStatus
  goto_path command = do
    entered ← go_to (path_or_dot (get_elem? command.argv 0))
    if entered then pure success else (do reply list_failed; pure failure)

  -- `chdir(connection->server->path)`
  abbrev leave : M W Bool
  leave = do root ← gets (λ s. s.server.path); sys (os.chdir root)

  -- `check_directory_access` once the directory is entered
  unfoldable pub check_inside : M W CommandStatus
  check_inside = do
    current ← sys os.getcwd
    current_directory ← deref current
    root ← gets (λ s. s.server.path)
    if starts_with current_directory root
        then (do leave; pure success)
        else (do leave; reply list_failed; pure failure)

  unfoldable pub check_directory_access : Text → M W CommandStatus
  unfolding check_inside
  check_directory_access path = do
    entered ← go_to path
    if entered then check_inside else (do reply list_failed; pure failure)

  unfoldable pub list_directory : M W CommandStatus
  unfolding send_all fgets_loop
  list_directory = do
    output ← sys os.popen_ls
    null_or output (do reply local_error; pure failure)
        (λ bytes. (do
          reply listing
          fd ← data_sockfd os
          send_all os fd (fgets_loop (length bytes) bytes)
          pure success))

  -- A handler's next step, unless the step before it failed.
  abbrev pub unless_failed : CommandStatus → M W CommandStatus → M W CommandStatus
  unless_failed failure next = pure failure
  unless_failed _ next = next

  unfoldable pub execute_ls_command : Command → M W CommandStatus
  unfolding goto_path list_directory
  execute_ls_command command = do
    status ← goto_path command
    unless_failed status (do
      listed ← list_directory
      unless_failed listed (do leave; reply directory_sent; pure success))

  -- `command->argc >= 1 && (check_exists(…) == 1 || check_directory_access(…) == COMMAND_FAILURE)`,
  -- as the status that the handler goes on with
  unfoldable pub check_path : Command → M W CommandStatus
  unfolding check_exists check_directory_access
  check_path command =
      if leb 1 command.argc
      then (do
        path ← first_argument command
        missing ← check_exists path
        if missing then pure failure else check_directory_access path)
      else pure success

  unfoldable pub list_command : Command → M W CommandStatus
  unfolding check_path
  list_command command = logged_in_or_refuse (
      with_data_socket os (do
        status ← check_path command
        unless_failed status (execute_data_socket_command os execute_ls_command command)))
