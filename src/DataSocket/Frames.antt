-- ===== src/DataSocket/Frames.antt =====
-- The setup and the use of a data socket write no field of the connection but `data_socket`.
use my_ftp.Prelude.{ℕ, Bool, Option, none, some}
use my_ftp.Os.{Os, Fork, not_forked, forked}
use my_ftp.Parser.{Command}
use my_ftp.Session.{
  Connection, CommandStatus, failure, State, DataSocket, DataSocketMode, passive, active,
}
use my_ftp.Session.Monad.{M}
use my_ftp.Session.Keeps.{Keeps, Leaves, keeps_rules}
use my_ftp.DataSocket.Passive.{
  setup_socket_fd, set_final_port, bind_socket, listen_socket, init_passive_data_socket, listen_on,
  setup_passive_data_socket,
}
use my_ftp.DataSocket.Active.{HostPort, init_active_data_socket, setup_active_data_socket}
use my_ftp.DataSocket.Destroy.{describe, describe_client, destroy_data_socket, destroy_connection}
use my_ftp.DataSocket.Transfer.{
  establish_in, establish_data_socket_connection, in_processes, fork_execution, drop_data_socket,
  report, run_child, execute_data_socket_command,
}

module _ {W : Type 0} (os : Os W) (Q : Connection → Type 0) where
  setup_socket_fd-Keeps : Keeps Q (setup_socket_fd os)
  unfolding setup_socket_fd
  setup_socket_fd-Keeps = search keeps_rules depth 9

  init_passive-Keeps : Keeps Q (init_passive_data_socket os)
  unfolding init_passive_data_socket
  init_passive-Keeps = search keeps_rules depth 9

  listen_on-Keeps : (d : DataSocket) (sockfd : ℕ) → Keeps Q (listen_on os d sockfd)
  unfolding listen_on set_final_port bind_socket listen_socket
  listen_on-Keeps d sockfd = search keeps_rules depth 12

  pub setup_passive-Keeps : Keeps Q (setup_passive_data_socket os)
  unfolding setup_passive_data_socket
  setup_passive-Keeps =
      search (keeps_rules, setup_socket_fd-Keeps, init_passive-Keeps, listen_on-Keeps) depth 9

  init_active-Keeps : Keeps Q (init_active_data_socket os)
  unfolding init_active_data_socket
  init_active-Keeps = search keeps_rules depth 12

  pub setup_active-Keeps : (host_port : HostPort) → Keeps Q (setup_active_data_socket os host_port)
  unfolding setup_active_data_socket
  setup_active-Keeps host_port = search (keeps_rules, init_active-Keeps) depth 9

  describe-Keeps :
      (mode : DataSocketMode) (d : DataSocket) (verbose : Bool)
      → Keeps Q (describe os mode d verbose)
  unfolding describe
  describe-Keeps passive d verbose = search keeps_rules
  describe-Keeps active d verbose = search keeps_rules

  destroy_data_socket-Keeps :
      (d : Option DataSocket) (verbose : Bool) → Keeps Q (destroy_data_socket os d verbose)
  unfolding destroy_data_socket
  destroy_data_socket-Keeps none verbose = search keeps_rules
  destroy_data_socket-Keeps (some d) verbose = search (keeps_rules, describe-Keeps) depth 9

  pub describe_client-Keeps : (verbose : Bool) → Keeps Q (describe_client os verbose)
  describe_client-Keeps verbose = search keeps_rules depth 9

  pub destroy_connection-Keeps : (verbose : Bool) → Keeps Q (destroy_connection os verbose)
  unfolding destroy_connection
  destroy_connection-Keeps verbose =
      search (keeps_rules, describe_client-Keeps, destroy_data_socket-Keeps) depth 9

  in_processes-Leaves :
      (run : Command → M W CommandStatus) (command : Command) (s : State W) (o : Fork W)
      → Q s.conn
      → Leaves Q (in_processes os run command s o)
  unfolding in_processes
  in_processes-Leaves run command s (not_forked w) h = h
  in_processes-Leaves run command s (forked child_world w) h = h

  fork_execution-Keeps :
      (run : Command → M W CommandStatus) (command : Command)
      → Keeps Q (fork_execution os run command)
  unfolding fork_execution
  fork_execution-Keeps run command = record {
    at = λ s. in_processes-Leaves run command s (os.fork s.world);
  }

  report-Keeps : (status : CommandStatus) → Keeps Q (report os status)
  unfolding report
  report-Keeps failure = search keeps_rules
  report-Keeps _ = search keeps_rules

  module _
      (free : (c : Connection) (d : Option DataSocket)
        → Q c
        → Q (record c { data_socket = d })) where
    establish_in-Keeps : (mode : DataSocketMode) (d : DataSocket) → Keeps Q (establish_in os mode d)
    unfolding establish_in
    establish_in-Keeps passive d = search (keeps_rules, free) depth 12
    establish_in-Keeps active d = search keeps_rules depth 9

    establish-Keeps : Keeps Q (establish_data_socket_connection os)
    unfolding establish_data_socket_connection
    establish-Keeps = search (keeps_rules, establish_in-Keeps) depth 9

    drop_data_socket-Keeps : Keeps Q (drop_data_socket os)
    unfolding drop_data_socket
    drop_data_socket-Keeps = search (keeps_rules, destroy_data_socket-Keeps, free) depth 9

    run_child-Keeps :
        (run : Command → M W CommandStatus) (command : Command) → Keeps Q (run_child os run command)
    unfolding run_child
    run_child-Keeps run command =
        search (keeps_rules, fork_execution-Keeps, report-Keeps, drop_data_socket-Keeps) depth 9

    pub execute_data_socket_command-Keeps :
        (run : Command → M W CommandStatus) (command : Command)
        → Keeps Q (execute_data_socket_command os run command)
    unfolding execute_data_socket_command
    execute_data_socket_command-Keeps run command =
        search (keeps_rules, establish-Keeps, run_child-Keeps, drop_data_socket-Keeps) depth 9
