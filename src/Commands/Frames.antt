-- ===== src/Commands/Frames.antt =====
-- What the handlers leave alone: an invariant of the connection that does not speak of the fields
-- that a handler writes is kept by it.
use my_ftp.Prelude.{Option, Text}
use my_ftp.Os.{Os}
use my_ftp.Parser.{Command}
use my_ftp.Session.{Connection, CommandStatus, failure, DataSocket, TransferMode}
use my_ftp.Session.Monad.{M}
use my_ftp.Session.Keeps.{Keeps, keeps_rules}
use my_ftp.DataSocket.Active.{HostPort}
use my_ftp.DataSocket.Frames.{
  setup_passive-Keeps, setup_active-Keeps, execute_data_socket_command-Keeps,
}
use my_ftp.DataSocket.Transfer.{execute_data_socket_command}
use my_ftp.Commands.Simple.{
  noop_command, help_command, pwd_command, quit_command, type_command, change_type,
}
use my_ftp.Commands.Delete.{dele_command, delete_file}
use my_ftp.Commands.Connect.{
  announce, create_passive_data_socket, pasv_command, get_host_port, open_active,
  create_active_data_socket, port_command,
}
use my_ftp.Commands.Files.{open_file, check_file_exists, retr_command, stor_command}
use my_ftp.Commands.Listing.{
  check_exists, check_inside, check_directory_access, check_path, unless_failed, list_command,
}

module _ {W : Type 0} (Q : Connection → Type 0) where
  pub noop-Keeps : (command : Command) → Keeps {W = W} Q (noop_command command)
  unfolding noop_command
  noop-Keeps command = search keeps_rules depth 9

  pub help-Keeps : (command : Command) → Keeps {W = W} Q (help_command command)
  unfolding help_command
  help-Keeps command = search keeps_rules depth 9

  pub pwd-Keeps : (command : Command) → Keeps {W = W} Q (pwd_command command)
  unfolding pwd_command
  pwd-Keeps command = search keeps_rules depth 9

  pub quit-Keeps : (command : Command) → Keeps {W = W} Q (quit_command command)
  unfolding quit_command
  quit-Keeps command = search keeps_rules

  module _
      (mode : (c : Connection) (m : TransferMode) → Q c → Q (record c { transfer_mode = m })) where
    change_type-Keeps : (type : Text) → Keeps {W = W} Q (change_type type)
    unfolding change_type
    change_type-Keeps type = search (keeps_rules, mode) depth 9

    pub type-Keeps : (command : Command) → Keeps {W = W} Q (type_command command)
    unfolding type_command
    type-Keeps command = search (keeps_rules, change_type-Keeps) depth 9

module _ {W : Type 0} (os : Os W) (Q : Connection → Type 0) where
  delete_file-Keeps : (filepath : Text) → Keeps Q (delete_file os filepath)
  unfolding delete_file
  delete_file-Keeps filepath = search keeps_rules depth 12

  pub dele-Keeps : (command : Command) → Keeps Q (dele_command os command)
  unfolding dele_command
  dele-Keeps command = search (keeps_rules, delete_file-Keeps) depth 9

  pub announce-Keeps : (d : DataSocket) → Keeps Q (announce os d)
  unfolding announce
  announce-Keeps d = search keeps_rules depth 12

  get_host_port-Keeps : (arg : Text) → Keeps Q (get_host_port os arg)
  unfolding get_host_port
  get_host_port-Keeps arg = search keeps_rules depth 9

  open_file-Keeps : (name : Text) → Keeps Q (open_file os name)
  unfolding open_file
  open_file-Keeps name = search keeps_rules depth 12

  check_file_exists-Keeps : (command : Command) → Keeps Q (check_file_exists os command)
  unfolding check_file_exists
  check_file_exists-Keeps command = search (keeps_rules, open_file-Keeps) depth 12

  check_exists-Keeps : (path : Text) → Keeps Q (check_exists os path)
  unfolding check_exists
  check_exists-Keeps path = search keeps_rules depth 12

  check_inside-Keeps : Keeps Q (check_inside os)
  unfolding check_inside
  check_inside-Keeps = search keeps_rules depth 12

  check_directory_access-Keeps : (path : Text) → Keeps Q (check_directory_access os path)
  unfolding check_directory_access
  check_directory_access-Keeps path = search (keeps_rules, check_inside-Keeps) depth 12

  check_path-Keeps : (command : Command) → Keeps Q (check_path os command)
  unfolding check_path
  check_path-Keeps command =
      search (keeps_rules, check_exists-Keeps, check_directory_access-Keeps) depth 12

  unless_failed-Keeps :
      (status : CommandStatus) (next : M W CommandStatus)
      → Keeps Q next
      → Keeps Q (unless_failed os status next)
  unless_failed-Keeps failure next h = search keeps_rules
  unless_failed-Keeps _ next h = h

  module _
      (free : (c : Connection) (d : Option DataSocket)
        → Q c
        → Q (record c { data_socket = d })) where
    open_active-Keeps : (host_port : HostPort) → Keeps Q (open_active os host_port)
    unfolding open_active
    open_active-Keeps host_port = search (keeps_rules, setup_active-Keeps, free) depth 9

    create_active-Keeps : (arg : Text) → Keeps Q (create_active_data_socket os arg)
    unfolding create_active_data_socket
    create_active-Keeps arg = search (keeps_rules, get_host_port-Keeps, open_active-Keeps) depth 9

    pub port-Keeps : (command : Command) → Keeps Q (port_command os command)
    unfolding port_command
    port-Keeps command = search (keeps_rules, create_active-Keeps) depth 9

    create_passive-Keeps : Keeps Q (create_passive_data_socket os)
    unfolding create_passive_data_socket
    create_passive-Keeps = search (keeps_rules, setup_passive-Keeps, announce-Keeps, free) depth 9

    pub pasv-Keeps : (command : Command) → Keeps Q (pasv_command os command)
    unfolding pasv_command
    pasv-Keeps command = search (keeps_rules, create_passive-Keeps) depth 9

    execute-Keeps :
        (run : Command → M W CommandStatus) (command : Command)
        → Keeps Q (execute_data_socket_command os run command)
    execute-Keeps = execute_data_socket_command-Keeps os Q free

    pub retr-Keeps : (command : Command) → Keeps Q (retr_command os command)
    unfolding retr_command
    retr-Keeps command = search (keeps_rules, check_file_exists-Keeps, execute-Keeps) depth 12

    pub stor-Keeps : (command : Command) → Keeps Q (stor_command os command)
    unfolding stor_command
    stor-Keeps command = search (keeps_rules, execute-Keeps) depth 12

    pub list-Keeps : (command : Command) → Keeps Q (list_command os command)
    unfolding list_command
    list-Keeps command =
        search (keeps_rules, check_path-Keeps, unless_failed-Keeps, execute-Keeps) depth 12
