-- ===== src/Client/Transfer.antt =====
-- bonus/src/commands: get.c, put.c and ls.c. A data stream is closed by `fclose`, and its socket once
-- more by `destroy_data_socket`.
pub mod Release
pub mod Answered
pub mod Get
pub mod Put
use my_ftp.Prelude.{
  ℕ, Option, none, some, null_or, Bool, true, false, List, [], ◌∷◌, ◌++◌, ◌==◌, Text, codes,
  if◌then◌else◌, get_elem?, length,
}
use my_ftp.Stdio.{c_string}
use my_ftp.Stdio.Lines.{getline_loop}
use my_ftp.Parser.{Command}
use my_ftp.Session.{CommandStatus, success, failure, not_found, quit}
use my_ftp.Client.System.{ClientOs}
use my_ftp.Client.State.{
  Client, DataSocket, M, pure, ◌>>=◌, ◌>>◌, deref, sys, act, send, close, get_data_socket,
}
use my_ftp.Client.Reading.{expect}
use my_ftp.Client.DataSocket.{initialize_client_data_socket, drop_data_socket}
use my_ftp.Client.Filename.{get_filename_from_filepath}

-- `if (… == COMMAND_FAILURE) … else …`
abbrev pub unless_failed : {A : Type 0} → CommandStatus → A → A → A
unless_failed failure stop go = stop
unless_failed success stop go = go
unless_failed not_found stop go = go
unless_failed quit stop go = go

module _ {W : Type 0} (os : ClientOs W) where
  -- `client->data_socket->sockfd`
  abbrev pub data_sockfd : M W ℕ
  data_sockfd = do data_socket ← get_data_socket; d ← deref data_socket; pure d.sockfd

  -- `fwrite(line, 1, read_bytes, file)` for each line
  unfoldable pub write_lines : ℕ → List Text → M W (Unit {0})
  write_lines file [] = pure tt
  write_lines file (line ∷ lines) = do act (os.fwrite file line); write_lines file lines

  unfoldable pub get_result : ℕ → Text → M W (Unit {0})
  unfolding write_lines getline_loop
  get_result sockfd filename = do
    streamed ← sys (os.fdopen_read sockfd)
    file ← sys (os.fopen_write filename)
    if streamed
        then null_or file (pure tt) (λ stream. (do
          bytes ← sys (os.receive sockfd)
          write_lines stream (getline_loop (length bytes) bytes)
          close os sockfd))
        else pure tt

  -- the two responses to RETR, which come before the data are read
  unfoldable pub check_get_response : ℕ → M W CommandStatus
  unfolding expect
  check_get_response sockfd = do
    opening ← expect os sockfd (codes "150")
    unless_failed opening (pure failure) (expect os sockfd (codes "226"))

  unfoldable pub execute_get_command : Client → Text → M W CommandStatus
  unfolding check_get_response get_result drop_data_socket get_filename_from_filepath
  execute_get_command client filepath = do
    send os client.sockfd (codes "RETR " ++ (filepath ++ codes "\r\n"))
    answer ← check_get_response client.sockfd
    unless_failed answer (do drop_data_socket os; pure failure)
        (do
          sockfd ← data_sockfd
          get_result sockfd (get_filename_from_filepath filepath)
          drop_data_socket os
          pure success)

  unfoldable pub get_command : Command → Client → M W CommandStatus
  unfolding execute_get_command initialize_client_data_socket
  get_command command client =
      if command.argc == 1
      then (do
        ready ← initialize_client_data_socket os client
        unless_failed ready (pure failure)
            (do filepath ← deref (get_elem? command.argv 0); execute_get_command client filepath))
      else pure failure

  -- `printf("%s", line)` for each line
  unfoldable pub print_lines : List Text → M W (Unit {0})
  unfolding c_string
  print_lines [] = pure tt
  print_lines (line ∷ lines) = do act (os.print (c_string line)); print_lines lines

  unfoldable pub list_result : ℕ → M W (Unit {0})
  unfolding print_lines getline_loop
  list_result sockfd = do
    streamed ← sys (os.fdopen_read sockfd)
    if streamed
        then (do
          bytes ← sys (os.receive sockfd)
          print_lines (getline_loop (length bytes) bytes)
          close os sockfd)
        else pure tt

  -- the two responses to LIST
  unfoldable pub check_list_response : ℕ → M W CommandStatus
  unfolding expect
  check_list_response sockfd = do
    opening ← expect os sockfd (codes "150")
    unless_failed opening (pure failure) (expect os sockfd (codes "226"))

  -- The null pointer behind the arguments stands for the current directory.
  unfoldable pub execute_ls_command : Client → Command → M W CommandStatus
  unfolding check_list_response list_result drop_data_socket
  execute_ls_command client command = do
    let path = null_or (get_elem? command.argv 0) (codes ".") (λ name. name)
    send os client.sockfd (codes "LIST " ++ (path ++ codes "\r\n"))
    answer ← check_list_response client.sockfd
    unless_failed answer (do drop_data_socket os; pure failure)
        (do sockfd ← data_sockfd; list_result sockfd; drop_data_socket os; pure success)

  unfoldable pub ls_command : Command → Client → M W CommandStatus
  unfolding execute_ls_command initialize_client_data_socket
  ls_command command client = do
    ready ← initialize_client_data_socket os client
    unless_failed ready (pure failure) (execute_ls_command client command)

  -- `fwrite` of each line to the stream of the data socket
  unfoldable pub send_lines : ℕ → List Text → M W (Unit {0})
  send_lines sockfd [] = pure tt
  send_lines sockfd (line ∷ lines) = do send os sockfd line; send_lines sockfd lines

  unfoldable pub put_result : ℕ → Text → M W (Unit {0})
  unfolding send_lines getline_loop
  put_result sockfd filepath = do
    streamed ← sys (os.fdopen_write sockfd)
    file ← sys (os.fopen_read filepath)
    if streamed
        then null_or file (pure tt)
            (λ bytes. (do send_lines sockfd (getline_loop (length bytes) bytes); close os sockfd))
        else pure tt

  unfoldable pub check_put_response : Client → Text → M W CommandStatus
  unfolding expect put_result
  check_put_response client filepath = do
    opening ← expect os client.sockfd (codes "150")
    unless_failed opening (pure failure)
        (do sockfd ← data_sockfd; put_result sockfd filepath; expect os client.sockfd (codes "226"))

  -- A file that cannot be read leaves the data socket open.
  unfoldable pub execute_put_command : Client → Text → M W CommandStatus
  unfolding check_put_response drop_data_socket get_filename_from_filepath
  execute_put_command client filepath = do
    readable ← sys (os.access_readable filepath)
    if readable
        then (do
          send os client.sockfd
              (codes "STOR " ++ (get_filename_from_filepath filepath ++ codes "\r\n"))
          answer ← check_put_response client filepath
          drop_data_socket os
          unless_failed answer (pure failure) (pure success))
        else pure failure

  unfoldable pub put_command : Command → Client → M W CommandStatus
  unfolding execute_put_command initialize_client_data_socket
  put_command command client =
      if command.argc == 1
      then (do
        ready ← initialize_client_data_socket os client
        unless_failed ready (pure failure)
            (do filepath ← deref (get_elem? command.argv 0); execute_put_command client filepath))
      else pure failure
