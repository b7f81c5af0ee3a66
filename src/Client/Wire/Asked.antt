-- ===== src/Client/Wire/Asked.antt =====
-- A GET of bonus/src/commands/get.c up to its RETR: PASV, the connection, and what the server's RETR and its
-- child process deliver.
use mathlib.Core.Path.{subst}
use my_ftp.Prelude.{
  ℕ, [], Option, ◌≡◌, ◌==◌, refl, sym, ap, ◌∙◌, false, some, none, List, Text, get_elem?,
  if◌then◌else◌,
}
use my_ftp.Prelude.Outcome.{Outcome}
use my_ftp.Os.{Os, SockAddr}
use my_ftp.Parser.{Command}
use my_ftp.Session.{CommandStatus, success, failure, not_found, quit, Connection, Event}
use my_ftp.Session as Session
use my_ftp.Session.Keeps.{Keeps-done}
use my_ftp.Commands.Frames.{pasv-Keeps}
use my_ftp.Commands.PassiveUp.{pasv_command-succeeds}
use my_ftp.Client.Transfer.{unless_failed, execute_get_command, get_command}
use my_ftp.Client.Transfer.Get.{Appends, execute_get_command-stores}
use my_ftp.Client.Transfer.Get as Get
use my_ftp.Client.Link.Lines.{behind_mallocs}
use my_ftp.Client.State.{Client, DataSocket, State, with_socket, pure, ◌>>=◌, deref}
use my_ftp.Client.State as State
use my_ftp.Client.DataSocket.{initialize_client_data_socket}
use my_ftp.Client.Wire.{Wire, Transport, wired, deliver}
use my_ftp.Client.Wire.Lines.{pasv_request, wire_with, fresh}
use my_ftp.Client.Wire.Pasv.{IsFair, IsReached, Ready}
use my_ftp.Client.Wire.Connect.{carries, ready, joined, initialize_client_data_socket-joined}
use my_ftp.Client.Wire.Retr.{IsUp, IsServing}

-- the client's state when it runs GET
abbrev pub before_get : {W : Type 0} → Session.State W → Text → State (Wire W)
before_get s arriving = record { data_socket = none; world = wire_with s arriving; trace = [] }

-- The command comes to the request for the file, with a data socket, and what the server does then is so.
pub record Asks {W : Type 0} (os : Os W) (net : Transport W) (name : Text) (P : Wire W → Type 0)
    (client : Client) (o : Outcome (CommandStatus × State (Wire W))) : Type 0 where
  pub data_socket : DataSocket
  pub world : Wire W
  pub trace : List State.Event
  pub runs :
      o ≡ execute_get_command (wired os net) client name (with_socket data_socket world trace)
  pub told : P (deliver os net (Get.retr_line name) world)

module _ {W : Type 0} (os : Os W) (net : Transport W) (stream : ℕ) (name path bytes : Text)
    (peer : SockAddr) (fair : IsFair net.order) (up : IsUp os name bytes net.data_fd)
    (known_to : IsReached os net.listens) (P : Wire W → Type 0)
    (delivers : (t : Session.State W) (arriving : Text)
      → IsServing stream path peer t.conn
      → Ready net t.client_sockfd t
      → (t.client_sockfd == net.data_fd) ≡ false
      → P (deliver os net (Get.retr_line name) (wire_with t arriving))) where
  abbrev Serves : ℕ → Connection → Type 0
  Serves control c = (c.client_sockfd ≡ control) × IsServing stream path peer c

  pub get_command-Asks :
      (client : Client) (command : Command) (s : Session.State W) (arriving : Text)
      → command.argc ≡ 1
      → get_elem? command.argv 0 ≡ some name
      → IsServing stream path peer s.conn
      → (s.client_sockfd == net.data_fd) ≡ false
      → Asks os net name P client
          (get_command (wired os net) command client (before_get s arriving))
  unfolding get_command
  get_command-Asks client command s arriving one given serving apart =
      let (t, ran) =
        pasv_command-succeeds os up.sockets pasv_request (behind_mallocs os (fresh s))
          serving.logged in
      let link = wired os net in
      let start : State (Wire W) = record {
        data_socket = none;
        world = wire_with s arriving;
        trace = [];
      } in
      let run =
        λ (o : Option Text). deref o >>= λ filepath. execute_get_command link client filepath in
      let go =
        λ (r : CommandStatus). unless_failed r (pure failure) (run (get_elem? command.argv 0)) in
      let r =
        ready os net fair known_to up.sockets.room up.named s t peer serving.logged serving.known
          ran in
      let (same, still) =
        Keeps-done {s = behind_mallocs os (fresh s)}
          (pasv-Keeps os (Serves s.client_sockfd)
            (λ c d h. (
              h.0,
              record {
                logged = h.1.logged;
                directory = h.1.directory;
                streamed = h.1.streamed;
                known = h.1.known;
              },
            ))
            pasv_request)
          (refl, serving) ran in
      let r' : Ready net t.client_sockfd t = subst (λ n. Ready net n t) (sym same) r in
      let w : State (Wire W) =
        joined os net fair known_to up.sockets.room up.named s t peer serving.logged serving.known
          ran client in
      record {
        data_socket = _;
        world = w.world;
        trace = w.trace;
        runs =
            ap
              (λ n.
                (if n == 1 then initialize_client_data_socket link client >>= go else pure failure)
                  start)
              one
            ∙ ap (λ o. ((λ _. o) >>= go) start)
                (initialize_client_data_socket-joined os net fair known_to up.sockets.room up.named
                  s t peer serving.logged serving.known ran client arriving)
            ∙ ap (λ o. run o w) given;
        told =
            delivers t (carries os net fair t) still r' (ap (λ n. n == net.data_fd) same ∙ apart);
      }
