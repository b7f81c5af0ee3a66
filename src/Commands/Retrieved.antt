-- ===== src/Commands/Retrieved.antt =====
-- RETR as a whole, from its guards to the end of the child: src/commands/retr.c over
-- src/data_socket_executor.c, with a passive data socket.
use my_ftp.Prelude.{
  ℕ, ◌≡◌, refl, ap, ◌∙◌, true, Option, none, some, List, [], ◌∷◌, ◌++◌, if◌then◌else◌, Text,
  get_elem?,
}
use my_ftp.Prelude.Outcome.{Outcome, done}
use my_ftp.Stdio.Lines.{NoNul, concat}
use my_ftp.Os.{Os, SockAddr, forked}
use my_ftp.Parser.{Command}
use my_ftp.Reply.{connection_failed}
use my_ftp.Session.{
  DataSocket, passive, CommandStatus, success, failure, Event, opened, closed, State,
}
use my_ftp.Session.Monad.{M, pure, ◌>>=◌, ◌>>◌, reply}
use my_ftp.DataSocket.Destroy.{describe, destroy_data_socket}
use my_ftp.DataSocket.Transfer.{
  accept_connection, establish_in, establish_data_socket_connection, child, events_of, in_processes,
  fork_execution, report, drop_data_socket, run_child, execute_data_socket_command,
}
use my_ftp.Commands.Files.{open_file, check_file_exists, execute_retr_command, retr_command}
use my_ftp.Commands.Contents.{delivery}
use my_ftp.Commands.Child.{and_closes, IsPassive, joined, child-Delivers}

module _ {W : Type 0} (os : Os W) where
  -- RETR delivers these bytes by a child: it succeeds, it has accepted the data connection and closed it,
  -- the connection has no data socket behind it, and the child writes the bytes, between the two replies.
  pub record Transfers (fd stream : ℕ) (bytes : Text) (s : State W)
      (o : Outcome (CommandStatus × State W)) : Type 0 where
    pub after : State W
    pub pieces : List Text
    pub runs : o ≡ done (success, after)
    pub parent : after.trace ≡ (s.trace ++ opened fd ∷ []) ++ closed fd ∷ []
    pub spawned_child :
        after.spawned
        ≡ s.spawned
          ++ some (and_closes (delivery s.client_sockfd fd pieces) s.server.sockfd fd stream) ∷ []
    pub dropped : after.data_socket ≡ none
    pub whole : concat pieces ≡ bytes

  -- the state in which the process forks
  abbrev pub forking : DataSocket → ℕ → SockAddr → State W → W → State W
  forking d fd addr s w = record {
    conn = record s.conn { data_socket = some (joined d fd addr) };
    world = w;
    trace = s.trace ++ opened fd ∷ [];
    spawned = s.spawned;
  }

  -- the system once `check_file_exists` has opened the file and gone back to the root
  abbrev pub checked : Text → Text → State W → W
  checked name path s = (os.chdir s.server.path (os.fopen_read name (os.chdir path s.world).1).1).1

  check_file-there :
      (command : Command) (name path bytes : Text) (s : State W)
      → get_elem? command.argv 0 ≡ some name
      → s.working_directory ≡ some path
      → (os.fopen_read name (os.chdir path s.world).1).0 ≡ some bytes
      → check_file_exists os command s ≡ done (true, record s { world = checked name path s })
  unfolding check_file_exists open_file
  check_file-there command name path bytes s named directory found =
      rw (named, directory, found) refl

  establish-joined :
      (d : DataSocket) (l fd : ℕ) (addr : SockAddr) (s : State W)
      → s.data_socket ≡ some d
      → IsPassive l d
      → (os.accept l s.world).0 ≡ some (fd, addr)
      → establish_data_socket_connection os s
        ≡ done (true, forking d fd addr s (os.accept l s.world).1)
  unfolding establish_data_socket_connection establish_in accept_connection
  establish-joined d l fd addr s socket ready accepted =
      rw (socket, ready.mode, ready.listener, accepted) refl

  -- the child's copy of a state, and what the parent goes on with
  abbrev child_start : State W → W → State W
  child_start u w = record { conn = u.conn; world = w; trace = []; spawned = [] }

  abbrev forked_end : State W → Option (List Event) → W → State W
  forked_end u events w = record u { world = w; spawned = u.spawned ++ events ∷ [] }

  abbrev parent_end : State W → ℕ → Option (List Event) → W → State W
  parent_end u fd events w = record {
    conn = record u.conn { data_socket = none };
    world = os.close fd w;
    trace = u.trace ++ closed fd ∷ [];
    spawned = u.spawned ++ events ∷ [];
  }

  drop-passive :
      (d : DataSocket) (fd : ℕ) (u : State W) (events : Option (List Event)) (w : W)
      → u.data_socket ≡ some d
      → d.data_socket_mode ≡ passive
      → d.client_sockfd ≡ some fd
      → (report os success >> (drop_data_socket os >> pure success)) (forked_end u events w)
        ≡ done (success, parent_end u fd events w)
  unfolding report drop_data_socket destroy_data_socket describe
  drop-passive d fd u events w socket mode connected = rw (socket, mode, connected) refl

  run_child-forked :
      (run : Command → M W CommandStatus) (command : Command) (d : DataSocket) (fd : ℕ)
      (u : State W) (child_world parent_world : W)
      → u.data_socket ≡ some d
      → d.data_socket_mode ≡ passive
      → d.client_sockfd ≡ some fd
      → os.fork u.world ≡ forked child_world parent_world
      → run_child os run command u
        ≡ done (
          success,
          parent_end u fd
              (events_of os (child os run command (child_start u child_world)))
              parent_world,
        )
  unfolding run_child fork_execution in_processes
  run_child-forked run command d fd u child_world parent_world socket mode connected fork =
      ap
        (λ o.
          ((λ _. in_processes os run command u o) >>= λ status.
          (report os status >> (drop_data_socket os >> pure success)))
            u)
        fork
      ∙ drop-passive d fd u (events_of os (child os run command (child_start u child_world)))
          parent_world socket mode connected

  retr-guarded :
      (command : Command) (d : DataSocket) (s : State W)
      → s.logged_in ≡ true
      → s.data_socket ≡ some d
      → command.argc ≡ 1
      → retr_command os command s
        ≡ (check_file_exists os command >>= λ readable.
              if readable
              then execute_data_socket_command os (execute_retr_command os) command
              else pure failure)
            s
  unfolding retr_command
  retr-guarded command d s logged socket one = rw (logged, socket, one) refl

module _ {W : Type 0} (os : Os W) (command : Command) (name path bytes : Text) (d : DataSocket)
    (l fd stream : ℕ) (addr : SockAddr) (s : State W) (child_world parent_world : W) where
  abbrev run : Command → M W CommandStatus
  run = execute_retr_command os

  -- the state in which the process forks
  abbrev fork_state : State W
  fork_state =
      let s' : State W = record s { world = checked os name path s } in
      forking os d fd addr s' (os.accept l s'.world).1

  abbrev child_state : State W
  child_state = child_start os fork_state child_world

  retr-runs :
      s.logged_in ≡ true
      → s.data_socket ≡ some d
      → IsPassive l d
      → command.argc ≡ 1
      → get_elem? command.argv 0 ≡ some name
      → s.working_directory ≡ some path
      → (os.fopen_read name (os.chdir path s.world).1).0 ≡ some bytes
      → (os.accept l (checked os name path s)).0 ≡ some (fd, addr)
      → os.fork fork_state.world ≡ forked child_world parent_world
      → retr_command os command s
        ≡ done (
          success,
          parent_end os fork_state fd
              (events_of os (child os run command child_state))
              parent_world,
        )
  unfolding execute_data_socket_command
  retr-runs logged socket ready one named directory found accepted fork =
      let s' : State W = record s { world = checked os name path s } in
      retr-guarded os command d s logged socket one
      ∙ ap
          (λ o.
            ((λ _. o) >>= λ readable.
            if readable then execute_data_socket_command os run command else pure failure)
              s)
          (check_file-there os command name path bytes s named directory found)
      ∙ ap
          (λ o.
            ((λ _. o) >>= λ connected.
            if connected
            then run_child os run command
            else (do reply connection_failed; drop_data_socket os; pure failure))
              s')
          (establish-joined os d l fd addr s' socket ready accepted)
      ∙ run_child-forked os run command (joined d fd addr) fd fork_state child_world parent_world
          refl ready.mode refl fork

  -- RETR of a file by a client that is logged in, over a passive data socket: where the file can be opened by
  -- the server and again by its child, the peer connects and the process forks, the command returns and
  -- succeeds, and its child writes the bytes of the file, which has no NUL byte.
  pub retr_command-Transfers :
      s.logged_in ≡ true
      → s.data_socket ≡ some d
      → IsPassive l d
      → s.conn.stream ≡ some stream
      → command.argc ≡ 1
      → get_elem? command.argv 0 ≡ some name
      → s.working_directory ≡ some path
      → (os.fopen_read name (os.chdir path s.world).1).0 ≡ some bytes
      → (os.accept l (checked os name path s)).0 ≡ some (fd, addr)
      → os.fork fork_state.world ≡ forked child_world parent_world
      → (os.fopen_read name (os.chdir path child_world).1).0 ≡ some bytes
      → NoNul bytes
      → Transfers os fd stream bytes s (retr_command os command s)
  retr_command-Transfers logged socket ready streamed one named directory found accepted fork again
        clean =
      let c =
        child-Delivers os command name path bytes (joined d fd addr) fd stream child_state refl
          named directory refl ready.mode refl streamed again clean in
      record {
        after = _;
        pieces = c.pieces;
        runs = retr-runs logged socket ready one named directory found accepted fork;
        parent = refl;
        spawned_child = ap (λ e. s.spawned ++ e ∷ []) c.events;
        dropped = refl;
        whole = c.whole;
      }
