-- ===== src/DataSocket/Speaking.antt =====
-- Setting up, using and dropping a data socket, the server speaks to its own client only.
use mathlib.Core.Path.{subst}
use my_ftp.Prelude.{ℕ, ◌≡◌, refl, sym, ap, ◌∙◌, ◌++◌, Bool, Option, none, some, All, []}
use my_ftp.Prelude.Outcome.{Outcome, undefined, done}
use my_ftp.Os.{Os, Fork, not_forked, forked}
use my_ftp.Parser.{Command}
use my_ftp.Session.{CommandStatus, failure, State, DataSocket, DataSocketMode, passive, active}
use my_ftp.Session.Monad.{M}
use my_ftp.Session.Speaks.{
  Speaks, SpokeIfDone, Spoke-same, Extends-one, Extends-same, IsOwnChild, IsOwn, speaks_rules,
}
use my_ftp.DataSocket.Passive.{
  setup_socket_fd, set_final_port, bind_socket, listen_socket, init_passive_data_socket, listen_on,
  setup_passive_data_socket,
}
use my_ftp.DataSocket.Active.{HostPort, init_active_data_socket, setup_active_data_socket}
use my_ftp.DataSocket.Destroy.{describe, describe_client, destroy_data_socket, destroy_connection}
use my_ftp.DataSocket.Transfer.{
  accept_connection, active_connection, establish_in, establish_data_socket_connection, child,
  events_of, in_processes, fork_execution, drop_data_socket, report, run_child,
  execute_data_socket_command,
}

module _ {W : Type 0} (os : Os W) where
  setup_socket_fd-Speaks : Speaks (setup_socket_fd os)
  unfolding setup_socket_fd
  setup_socket_fd-Speaks = search speaks_rules depth 12

  init_passive-Speaks : Speaks (init_passive_data_socket os)
  unfolding init_passive_data_socket
  init_passive-Speaks = search speaks_rules depth 12

  listen_on-Speaks : (d : DataSocket) → (sockfd : ℕ) → Speaks (listen_on os d sockfd)
  unfolding listen_on set_final_port bind_socket listen_socket
  listen_on-Speaks d sockfd = search speaks_rules depth 12

  pub setup_passive-Speaks : Speaks (setup_passive_data_socket os)
  unfolding setup_passive_data_socket
  setup_passive-Speaks =
      search (speaks_rules, setup_socket_fd-Speaks, init_passive-Speaks, listen_on-Speaks) depth 12

  init_active-Speaks : Speaks (init_active_data_socket os)
  unfolding init_active_data_socket
  init_active-Speaks = search speaks_rules depth 12

  pub setup_active-Speaks : (host_port : HostPort) → Speaks (setup_active_data_socket os host_port)
  unfolding setup_active_data_socket
  setup_active-Speaks host_port = search (speaks_rules, init_active-Speaks) depth 12

  describe-Speaks :
      (mode : DataSocketMode) (d : DataSocket) (verbose : Bool)
      → Speaks (describe os mode d verbose)
  unfolding describe
  describe-Speaks passive d verbose = search speaks_rules
  describe-Speaks active d verbose = search speaks_rules

  destroy_data_socket-Speaks :
      (d : Option DataSocket) (verbose : Bool) → Speaks (destroy_data_socket os d verbose)
  unfolding destroy_data_socket
  destroy_data_socket-Speaks none verbose = search speaks_rules
  destroy_data_socket-Speaks (some d) verbose = search (speaks_rules, describe-Speaks) depth 9

  pub describe_client-Speaks : (verbose : Bool) → Speaks (describe_client os verbose)
  describe_client-Speaks verbose = search speaks_rules depth 9

  pub destroy_connection-Speaks : (verbose : Bool) → Speaks (destroy_connection os verbose)
  unfolding destroy_connection
  destroy_connection-Speaks verbose =
      search (speaks_rules, describe_client-Speaks, destroy_data_socket-Speaks) depth 12

  accept_connection-Speaks : (d : DataSocket) → Speaks (accept_connection os d)
  unfolding accept_connection
  accept_connection-Speaks d = search speaks_rules depth 12

  establish_in-Speaks : (mode : DataSocketMode) (d : DataSocket) → Speaks (establish_in os mode d)
  unfolding establish_in active_connection
  establish_in-Speaks passive d = accept_connection-Speaks d
  establish_in-Speaks active d = search speaks_rules depth 9

  establish-Speaks : Speaks (establish_data_socket_connection os)
  unfolding establish_data_socket_connection
  establish-Speaks = search (speaks_rules, establish_in-Speaks) depth 12

  drop_data_socket-Speaks : Speaks (drop_data_socket os)
  unfolding drop_data_socket
  drop_data_socket-Speaks = search (speaks_rules, destroy_data_socket-Speaks) depth 12

  report-Speaks : (status : CommandStatus) → Speaks (report os status)
  unfolding report
  report-Speaks failure = search speaks_rules
  report-Speaks _ = search speaks_rules

  module _ (run : Command → M W CommandStatus)
      (own : (command : Command) → Speaks (run command)) where
    child-Speaks : (command : Command) → Speaks (child os run command)
    unfolding child
    child-Speaks command = search (speaks_rules, own, destroy_connection-Speaks) depth 12

    child_events :
        (control : ℕ) (s : State W) (o : Outcome (Unit {0} × State W))
        → s.trace ≡ []
        → SpokeIfDone control s o
        → IsOwnChild control (events_of os o)
    child_events control s undefined e h = tt
    child_events control s (done (_, t)) e h =
        subst (All (IsOwn control)) (sym (h.own.joins ∙ ap (λ l. l ++ h.own.added) e)) h.own.each

    in_processes-spoke :
        (command : Command) (control : ℕ) (s : State W) (o : Fork W)
        → s.client_sockfd ≡ control
        → SpokeIfDone control s (in_processes os run command s o)
    unfolding in_processes
    in_processes-spoke command control s (not_forked w) h = Spoke-same control s _ h refl refl
    in_processes-spoke command control s (forked child_world w) h =
        let start = record s { world = child_world; trace = []; spawned = [] } in
        record {
          still = h;
          own = Extends-same s.trace;
          children = Extends-one s.spawned (events_of os (child os run command start)) (
              child_events control start (child os run command start) refl
                ((child-Speaks command).at control start h));
        }

    fork_execution-Speaks : (command : Command) → Speaks (fork_execution os run command)
    unfolding fork_execution
    fork_execution-Speaks command = record {
      at = λ control s h. in_processes-spoke command control s (os.fork s.world) h;
    }

    run_child-Speaks : (command : Command) → Speaks (run_child os run command)
    unfolding run_child
    run_child-Speaks command =
        search (speaks_rules, fork_execution-Speaks, report-Speaks, drop_data_socket-Speaks) depth 9

    pub execute_data_socket_command-Speaks :
        (command : Command) → Speaks (execute_data_socket_command os run command)
    unfolding execute_data_socket_command
    execute_data_socket_command-Speaks command =
        search (speaks_rules, establish-Speaks, run_child-Speaks, drop_data_socket-Speaks) depth 9
