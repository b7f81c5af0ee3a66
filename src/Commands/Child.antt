-- ===== src/Commands/Child.antt =====
-- What the child of a RETR does: src/commands/retr.c in `fork_execution` of src/data_socket_executor.c.
use my_ftp.Prelude.{ℕ, ◌≡◌, refl, ap, ◌∙◌, false, some, List, [], ◌∷◌, ◌++◌, Text, get_elem?}
use my_ftp.Stdio.Lines.{NoNul, concat}
use my_ftp.Os.{Os, SockAddr}
use my_ftp.Parser.{Command}
use my_ftp.Session.{DataSocket, passive, Connection, Event, closed, State}
use my_ftp.Session.Monad.{◌>>=◌, ◌>>◌, gets}
use my_ftp.DataSocket.Destroy.{close, describe, destroy_data_socket, destroy_connection}
use my_ftp.DataSocket.Transfer.{child, events_of}
use my_ftp.Commands.Files.{execute_retr_command}
use my_ftp.Commands.Contents.{delivery, execute_retr_command-Delivers}

-- what a child closes before its `exit`, behind other events
abbrev pub and_closes : List Event → ℕ → ℕ → ℕ → List Event
and_closes events listener fd stream =
    ((events ++ closed listener ∷ []) ++ closed fd ∷ []) ++ closed stream ∷ []

-- A passive data socket, on the connection of a client that is logged in.
pub record IsPassive (l : ℕ) (d : DataSocket) : Type 0 where
  pub mode : d.data_socket_mode ≡ passive
  pub listener : d.data_sockfd ≡ some l

-- the data socket behind `accept_connection`
abbrev pub joined : DataSocket → ℕ → SockAddr → DataSocket
joined d fd addr = record d { client_sockfd = some fd; addr = addr }

module _ {W : Type 0} (os : Os W) where
  child_end :
      (d : DataSocket) (fd stream : ℕ) (t : State W)
      → t.data_socket ≡ some d
      → d.data_socket_mode ≡ passive
      → d.client_sockfd ≡ some fd
      → t.conn.stream ≡ some stream
      → events_of os (
          (gets (λ s. s.server.sockfd) >>= λ listener.
          (close os listener >> destroy_connection os false))
            t)
        ≡ some (and_closes t.trace t.server.sockfd fd stream)
  unfolding destroy_connection destroy_data_socket describe
  child_end d fd stream t socket mode connected streamed =
      rw (socket, mode, connected, streamed) refl

  -- the child of a RETR, where it starts
  pub record ChildDelivers (fd stream : ℕ) (bytes : Text) (command : Command) (s : State W)
      : Type 0 where
    pub pieces : List Text
    pub events :
        events_of os (child os (execute_retr_command os) command s)
        ≡ some (and_closes (delivery s.client_sockfd fd pieces) s.server.sockfd fd stream)
    pub whole : concat pieces ≡ bytes

  pub child-Delivers :
      (command : Command) (name path bytes : Text) (d : DataSocket) (fd stream : ℕ) (s : State W)
      → s.trace ≡ []
      → get_elem? command.argv 0 ≡ some name
      → s.working_directory ≡ some path
      → s.data_socket ≡ some d
      → d.data_socket_mode ≡ passive
      → d.client_sockfd ≡ some fd
      → s.conn.stream ≡ some stream
      → (os.fopen_read name (os.chdir path s.world).1).0 ≡ some bytes
      → NoNul bytes
      → ChildDelivers fd stream bytes command s
  unfolding child
  child-Delivers command name path bytes d fd stream s starts named directory socket mode connected
        streamed found clean =
      let sends =
        execute_retr_command-Delivers os command name path bytes d fd s named directory socket
          connected found clean in
      record {
        pieces = sends.pieces;
        events =
            ap
              (λ o. events_of os (
                ((λ _. o)
                    >> (gets (λ s. s.server.sockfd) >>= λ listener.
                        (close os listener >> destroy_connection os false)))
                  s))
              sends.runs
            ∙ child_end d fd stream sends.after (ap Connection.data_socket sends.same ∙ socket) mode
                connected (ap Connection.stream sends.same ∙ streamed)
            ∙ ap (λ c. some (and_closes sends.after.trace c.server.sockfd fd stream)) sends.same
            ∙ ap (λ r. some (and_closes r s.server.sockfd fd stream))
                (sends.events ∙ ap (λ r. r ++ delivery s.client_sockfd fd sends.pieces) starts);
        whole = sends.whole;
      }
