-- ===== src/DataSocket/Transfer.antt =====
-- src/data_socket_executor.c: the data connection is opened, and a child process does the transfer.
use my_ftp.Prelude.{
  Bool, true, false, Option, none, some, List, [], ◌∷◌, ◌++◌, null_or, if◌then◌else◌,
}
use my_ftp.Prelude.Outcome.{Outcome, undefined, done}
use my_ftp.Os.{Os, Fork, not_forked, forked}
use my_ftp.Parser.{Command}
use my_ftp.Reply.{connection_failed, local_error}
use my_ftp.Session.{
  DataSocket, DataSocketMode, passive, active, CommandStatus, success, failure, Event, opened,
  State,
}
use my_ftp.Session.Monad.{M, pure, ◌>>=◌, ◌>>◌, deref, gets, sys, modify, log, reply}
use my_ftp.DataSocket.Destroy.{close, destroy_data_socket, destroy_connection}

module _ {W : Type 0} where
  abbrev pub set_data_socket : Option DataSocket → M W (Unit {0})
  set_data_socket d = modify (λ c. record c { data_socket = d })

module _ {W : Type 0} (os : Os W) where
  -- whether a client was accepted
  unfoldable pub accept_connection : DataSocket → M W Bool
  accept_connection d = do
    listener ← deref d.data_sockfd
    peer ← sys (os.accept listener)
    null_or peer (do set_data_socket (some (record d { client_sockfd = none })); pure false)
        (λ (fd, addr). (do
          log (opened fd)
          set_data_socket (some (record d { client_sockfd = some fd; addr = addr }))
          pure true))

  -- whether the connection to the client was made
  unfoldable pub active_connection : DataSocket → M W Bool
  active_connection d = do fd ← deref d.client_sockfd; sys (os.connect fd d.addr)

  unfoldable pub establish_in : DataSocketMode → DataSocket → M W Bool
  unfolding accept_connection active_connection
  establish_in passive d = accept_connection d
  establish_in active d = active_connection d

  unfoldable pub establish_data_socket_connection : M W Bool
  unfolding establish_in
  establish_data_socket_connection = do
    data_socket ← gets (λ s. s.data_socket)
    d ← deref data_socket
    establish_in d.data_socket_mode d

  -- what the child does until its `exit`
  unfoldable pub child : (Command → M W CommandStatus) → Command → M W (Unit {0})
  unfolding destroy_connection
  child command_execution command = do
    command_execution command
    listener ← gets (λ s. s.server.sockfd)
    close os listener
    destroy_connection os false

  abbrev pub events_of : Outcome (Unit {0} × State W) → Option (List Event)
  events_of undefined = none
  events_of (done (_, s)) = some s.trace

  -- The child runs on its own copy of the state.
  unfoldable pub in_processes :
      (Command → M W CommandStatus) → Command → State W → Fork W → Outcome (CommandStatus × State W)
  unfolding child
  in_processes command_execution command s (not_forked w) = done (failure, record s { world = w })
  in_processes command_execution command s (forked child_world w) =
      let start = record s { world = child_world; trace = []; spawned = [] } in
      let events = events_of (child command_execution command start) in
      done (success, record s { world = w; spawned = s.spawned ++ events ∷ [] })

  unfoldable pub fork_execution : (Command → M W CommandStatus) → Command → M W CommandStatus
  unfolding in_processes
  fork_execution command_execution command s =
      in_processes command_execution command s (os.fork s.world)

  -- `destroy_data_socket(connection->data_socket, true); connection->data_socket = NULL;`
  unfoldable pub drop_data_socket : M W (Unit {0})
  unfolding destroy_data_socket
  drop_data_socket = do
    data_socket ← gets (λ s. s.data_socket)
    destroy_data_socket os data_socket true
    set_data_socket none

  unfoldable pub report : CommandStatus → M W (Unit {0})
  report failure = reply local_error
  report _ = pure tt

  -- `execute_data_socket_command` once the connection is there
  unfoldable pub run_child : (Command → M W CommandStatus) → Command → M W CommandStatus
  unfolding fork_execution report drop_data_socket
  run_child command_execution command = do
    status ← fork_execution command_execution command
    report status
    drop_data_socket
    pure success

  unfoldable pub execute_data_socket_command :
      (Command → M W CommandStatus) → Command → M W CommandStatus
  unfolding establish_data_socket_connection run_child drop_data_socket
  execute_data_socket_command command_execution command = do
    connected ← establish_data_socket_connection
    if connected
        then run_child command_execution command
        else (do reply connection_failed; drop_data_socket; pure failure)
