-- ===== src/Commands/Files.antt =====
-- src/commands/retr.c and src/commands/stor.c
use my_ftp.Prelude.{
  ℕ, Bool, true, false, Option, none, some, List, [], ◌∷◌, ◌==◌, null_or, if◌then◌else◌, Text,
  length,
}
use my_ftp.Stdio.{c_string}
use my_ftp.Stdio.Lines.{fgets_loop, getline_loop}
use my_ftp.Os.{Os}
use my_ftp.Parser.{Command}
use my_ftp.Reply.{
  permission_denied, local_error, opening_data, transfer_complete, no_data_socket, open_failed,
  content,
}
use my_ftp.Session.{CommandStatus, success, failure, written}
use my_ftp.Session.Monad.{M, pure, ◌>>=◌, ◌>>◌, deref, gets, sys, log, reply}
use my_ftp.DataSocket.Destroy.{close}
use my_ftp.DataSocket.Transfer.{execute_data_socket_command}
use my_ftp.Commands.Login.{first_argument}
use my_ftp.Commands.Simple.{logged_in_or_refuse}

module _ {W : Type 0} (os : Os W) where
  -- `connection->data_socket->client_sockfd`
  abbrev pub data_sockfd : M W (Option ℕ)
  data_sockfd = do
    data_socket ← gets (λ s. s.data_socket)
    d ← deref data_socket
    pure d.client_sockfd

  -- `dprintf(fd, "%s", buffer)` for each buffer; a descriptor of -1 takes nothing
  unfoldable pub send_all : Option ℕ → List Text → M W (Unit {0})
  unfolding c_string
  send_all none buffers = pure tt
  send_all (some fd) [] = pure tt
  send_all (some fd) (buffer ∷ buffers) = do
    log (written fd (content (c_string buffer)))
    send_all (some fd) buffers

  -- `chdir(connection->working_directory); fp = fopen(name, "r"); chdir(connection->server->path);`
  unfoldable pub open_file : Text → M W (Option Text)
  open_file name = do
    directory ← gets (λ s. s.working_directory)
    path ← deref directory
    sys (os.chdir path)
    file ← sys (os.fopen_read name)
    root ← gets (λ s. s.server.path)
    sys (os.chdir root)
    pure file

  -- whether the file is there and can be read
  unfoldable pub check_file_exists : Command → M W Bool
  unfolding open_file
  check_file_exists command = do
    name ← first_argument command
    file ← open_file name
    null_or file
        (do
          readable ← sys (os.access_readable name)
          if readable
              then (do reply local_error; pure false)
              else (do reply permission_denied; pure false))
        (λ _. pure true)

  unfoldable pub execute_retr_command : Command → M W CommandStatus
  unfolding open_file send_all fgets_loop
  execute_retr_command command = do
    reply opening_data
    name ← first_argument command
    file ← open_file name
    null_or file (do reply local_error; pure failure)
        (λ bytes. (do
          fd ← data_sockfd
          send_all fd (fgets_loop (length bytes) bytes)
          reply transfer_complete
          pure success))

  -- The guards that `RETR` and `STOR` share: a data socket, and one argument.
  abbrev pub with_data_socket : M W CommandStatus → M W CommandStatus
  with_data_socket body = do
    data_socket ← gets (λ s. s.data_socket)
    null_or data_socket (do reply no_data_socket; pure failure) (λ _. body)

  abbrev with_one_argument : Command → M W CommandStatus → M W CommandStatus
  with_one_argument command body =
      if command.argc == 1 then body else (do reply open_failed; pure failure)

  unfoldable pub retr_command : Command → M W CommandStatus
  unfolding check_file_exists
  retr_command command = logged_in_or_refuse (
      with_data_socket (
        with_one_argument command (do
          readable ← check_file_exists command
          if readable
              then execute_data_socket_command os execute_retr_command command
              else pure failure)))

  -- `fwrite(line, 1, read_bytes, file)` for each line
  unfoldable pub write_all : ℕ → List Text → M W (Unit {0})
  write_all file [] = pure tt
  write_all file (line ∷ lines) = do sys (λ w. (tt, os.fwrite file line w)); write_all file lines

  -- `fdopen` of the data socket, the loop of `getline` and `fwrite`, and the `fclose`
  unfoldable pub transfer_file_data : ℕ → Option ℕ → M W (Unit {0})
  unfolding write_all getline_loop
  transfer_file_data file none = pure tt
  transfer_file_data file (some fd) = do
    received ← sys (os.receive fd)
    null_or received (pure tt)
        (λ bytes. (do write_all file (getline_loop (length bytes) bytes); close os fd))

  unfoldable pub execute_stor_command : Command → M W CommandStatus
  unfolding transfer_file_data
  execute_stor_command command = do
    name ← first_argument command
    file ← sys (os.fopen_write name)
    reply opening_data
    null_or file (do reply local_error; pure failure)
        (λ stream. (do
          fd ← data_sockfd
          transfer_file_data stream fd
          reply transfer_complete
          pure success))

  unfoldable pub stor_command : Command → M W CommandStatus
  stor_command command = logged_in_or_refuse (
      with_data_socket
        (with_one_argument command (execute_data_socket_command os execute_stor_command command)))
