-- ===== src/Commands/DataSpeaking.antt =====
-- The handlers that use a data connection speak to their own client only on the control connection.
use my_ftp.Prelude.{ℕ, Option, none, some, List, [], ◌∷◌, Text}
use my_ftp.Os.{Os}
use my_ftp.Parser.{Command}
use my_ftp.Session.{CommandStatus, failure, DataSocket}
use my_ftp.Session.Monad.{M}
use my_ftp.Session.Speaks.{Speaks, Speaks-content, Speaks-bind, Speaks-sys, speaks_rules}
use my_ftp.DataSocket.Active.{HostPort}
use my_ftp.DataSocket.Speaking.{
  setup_passive-Speaks, setup_active-Speaks, execute_data_socket_command-Speaks,
}
use my_ftp.Commands.Connect.{
  announce, create_passive_data_socket, pasv_command, get_host_port, open_active,
  create_active_data_socket, port_command,
}
use my_ftp.Commands.Files.{
  send_all, open_file, check_file_exists, execute_retr_command, retr_command, write_all,
  transfer_file_data, execute_stor_command, stor_command,
}
use my_ftp.Commands.Listing as Listing
use my_ftp.Commands.Listing.{
  goto_path, check_inside, check_directory_access, list_directory, unless_failed,
  execute_ls_command, check_path, list_command,
}

module _ {W : Type 0} (os : Os W) where
  announce-Speaks : (d : DataSocket) → Speaks (announce os d)
  unfolding announce
  announce-Speaks d = search speaks_rules depth 12

  create_passive-Speaks : Speaks (create_passive_data_socket os)
  unfolding create_passive_data_socket
  create_passive-Speaks = search (speaks_rules, setup_passive-Speaks, announce-Speaks) depth 12

  pub pasv-Speaks : (command : Command) → Speaks (pasv_command os command)
  unfolding pasv_command
  pasv-Speaks command = search (speaks_rules, create_passive-Speaks) depth 12

  get_host_port-Speaks : (arg : Text) → Speaks (get_host_port os arg)
  unfolding get_host_port
  get_host_port-Speaks arg = search speaks_rules depth 12

  open_active-Speaks : (host_port : HostPort) → Speaks (open_active os host_port)
  unfolding open_active
  open_active-Speaks host_port = search (speaks_rules, setup_active-Speaks) depth 12

  create_active-Speaks : (arg : Text) → Speaks (create_active_data_socket os arg)
  unfolding create_active_data_socket
  create_active-Speaks arg =
      search (speaks_rules, get_host_port-Speaks, open_active-Speaks) depth 12

  pub port-Speaks : (command : Command) → Speaks (port_command os command)
  unfolding port_command
  port-Speaks command = search (speaks_rules, create_active-Speaks) depth 12

  send_all-Speaks : (fd : Option ℕ) (buffers : List Text) → Speaks (send_all os fd buffers)
  unfolding send_all
  send_all-Speaks none buffers = search speaks_rules
  send_all-Speaks (some fd) [] = search speaks_rules
  send_all-Speaks (some fd) (buffer ∷ buffers) =
      Speaks-bind _ _ (Speaks-content fd _) (λ _. send_all-Speaks (some fd) buffers)

  open_file-Speaks : (path : Text) → Speaks (open_file os path)
  unfolding open_file
  open_file-Speaks path = search speaks_rules depth 12

  check_file_exists-Speaks : (command : Command) → Speaks (check_file_exists os command)
  unfolding check_file_exists
  check_file_exists-Speaks command = search (speaks_rules, open_file-Speaks) depth 12

  execute_retr-Speaks : (command : Command) → Speaks (execute_retr_command os command)
  unfolding execute_retr_command
  execute_retr-Speaks command = search (speaks_rules, open_file-Speaks, send_all-Speaks) depth 12

  pub retr-Speaks : (command : Command) → Speaks (retr_command os command)
  unfolding retr_command
  retr-Speaks command =
      search
        (
          speaks_rules, check_file_exists-Speaks, execute_data_socket_command-Speaks,
          execute_retr-Speaks,
        )
        depth 12

  write_all-Speaks : (file : ℕ) (lines : List Text) → Speaks (write_all os file lines)
  unfolding write_all
  write_all-Speaks file [] = search speaks_rules
  write_all-Speaks file (line ∷ lines) =
      Speaks-bind _ _ (Speaks-sys (λ w. (tt, os.fwrite file line w)))
        (λ _. write_all-Speaks file lines)

  transfer-Speaks : (file : ℕ) (fd : Option ℕ) → Speaks (transfer_file_data os file fd)
  unfolding transfer_file_data
  transfer-Speaks file none = search speaks_rules
  transfer-Speaks file (some fd) = search (speaks_rules, write_all-Speaks) depth 9

  execute_stor-Speaks : (command : Command) → Speaks (execute_stor_command os command)
  unfolding execute_stor_command
  execute_stor-Speaks command = search (speaks_rules, transfer-Speaks) depth 12

  pub stor-Speaks : (command : Command) → Speaks (stor_command os command)
  unfolding stor_command
  stor-Speaks command =
      search (speaks_rules, execute_data_socket_command-Speaks, execute_stor-Speaks) depth 12

  list_exists-Speaks : (path : Text) → Speaks (Listing.check_exists os path)
  unfolding Listing.check_exists
  list_exists-Speaks path = search speaks_rules depth 12

  goto_path-Speaks : (command : Command) → Speaks (goto_path os command)
  unfolding goto_path
  goto_path-Speaks command = search speaks_rules depth 12

  check_inside-Speaks : Speaks (check_inside os)
  unfolding check_inside
  check_inside-Speaks = search speaks_rules depth 12

  check_directory_access-Speaks : (path : Text) → Speaks (check_directory_access os path)
  unfolding check_directory_access
  check_directory_access-Speaks path = search (speaks_rules, check_inside-Speaks) depth 12

  list_directory-Speaks : Speaks (list_directory os)
  unfolding list_directory
  list_directory-Speaks = search (speaks_rules, send_all-Speaks) depth 12

  unless_failed-Speaks :
      (status : CommandStatus) (rest : M W CommandStatus)
      → Speaks rest
      → Speaks (unless_failed os status rest)
  unless_failed-Speaks failure rest h = search speaks_rules
  unless_failed-Speaks _ rest h = h

  execute_ls-Speaks : (command : Command) → Speaks (execute_ls_command os command)
  unfolding execute_ls_command
  execute_ls-Speaks command =
      search (speaks_rules, goto_path-Speaks, list_directory-Speaks, unless_failed-Speaks) depth 12

  check_path-Speaks : (command : Command) → Speaks (check_path os command)
  unfolding check_path
  check_path-Speaks command =
      search (speaks_rules, list_exists-Speaks, check_directory_access-Speaks) depth 12

  pub list-Speaks : (command : Command) → Speaks (list_command os command)
  unfolding list_command
  list-Speaks command =
      search
        (
          speaks_rules, check_path-Speaks, unless_failed-Speaks, execute_data_socket_command-Speaks,
          execute_ls-Speaks,
        )
        depth 12
