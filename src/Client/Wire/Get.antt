-- ===== src/Client/Wire/Get.antt =====
-- A GET from the client's command to the file that it stores: bonus/src/commands/get.c over the server's
-- PASV, RETR and child process.
use mathlib.Core.Path.{subst}
use mathlib.Core.List.{append-nil, append_assoc}
use my_ftp.Prelude.{
  ℕ, ◌≤◌, length, [], ◌∷◌, Option, ◌≡◌, ◌==◌, refl, sym, ap, ◌∙◌, false, some, none, List, ◌++◌,
  Text, codes, get_elem?, starts_with,
}
use my_ftp.Prelude.Outcome.{Outcome, undefined, done}
use my_ftp.Stdio.{c_string}
use my_ftp.Stdio.Lines.{NoNul}
use my_ftp.Os.{Os, SockAddr}
use my_ftp.Parser.{Command}
use my_ftp.Reply.{text, opening_data, transfer_complete}
use my_ftp.Session.{CommandStatus, success, failure, not_found, quit, Connection, Event}
use my_ftp.Session as Session
use my_ftp.Client.Transfer.{execute_get_command, get_command}
use my_ftp.Client.Transfer.Get.{Appends, execute_get_command-stores}
use my_ftp.Client.Transfer.Get as Get
use my_ftp.Client.Transfer.Answered.{Answers, heard}
use my_ftp.Client.State.{Client, DataSocket, State, with_socket, pure, ◌>>=◌, deref}
use my_ftp.Client.State as State
use my_ftp.Client.Wire.{Wire, Transport, wired, deliver}
use my_ftp.Client.Wire.Lines.{IsFileName}
use my_ftp.Client.Wire.Pasv.{IsFair, IsReached}
use my_ftp.Client.Wire.Retr.{IsDelivered, deliver-retr, IsUp, IsServing, delivered}
use my_ftp.Client.Wire.Asked.{before_get, get_command-Asks}

-- the file that a command of the client has stored, if it has succeeded
abbrev pub fetched : {W : Type 0} → Outcome (CommandStatus × State (Wire W)) → Option Text
fetched undefined = none
fetched (done (status, s)) = elim status as (λ _. Option Text) [
  | success ↦ some s.world.stored
  | failure ↦ none
  | not_found ↦ none
  | quit ↦ none
]

module _ {W : Type 0} (os : Os W) (net : Transport W) (stream : ℕ) (name path bytes : Text)
    (peer : SockAddr) (fair : IsFair net.order) (up : IsUp os name bytes net.data_fd)
    (known_to : IsReached os net.listens) (is_name : IsFileName name) (clean : NoNul bytes)
    (fits : length bytes ≤ net.room) (timely : net.taken (text transfer_complete ∷ []) ≡ 0) where
  wired-Appends : Appends (wired os net) 0
  wired-Appends = record {
    nothing = λ w. ap (λ f. record w { stored = f }) (append-nil w.stored);
    joins = λ x y w. ap (λ f. record w { stored = f }) (append_assoc w.stored x y);
  }

  -- the wire behind the two replies
  abbrev both_heard : Client → Wire W → Wire W
  both_heard client w = heard (wired os net) client.sockfd (heard (wired os net) client.sockfd w)

  delivered_opening :
      (client : Client) (after : Session.State W)
      → Answers (wired os net) client.sockfd (codes "150") (delivered bytes after)
  unfolding text c_string starts_with
  delivered_opening client after = record { line = text opening_data; came = refl; begins = refl }

  delivered_complete :
      (client : Client) (after : Session.State W)
      → Answers
          (wired os net)
          client.sockfd
          (codes "226")
          (heard (wired os net) client.sockfd (delivered bytes after))
  unfolding text c_string starts_with
  delivered_complete client after =
      rw timely (record { line = text transfer_complete; came = refl; begins = refl })

  all_heard :
      (client : Client) (after : Session.State W)
      → (both_heard client (delivered bytes after)).stored
          ++ (both_heard client (delivered bytes after)).arriving
        ≡ bytes
  all_heard client after = rw timely refl

  -- A client that has connected, and whose request makes the server deliver, stores the bytes.
  execute_get_command-fetched :
      (client : Client) (d : DataSocket) (w : Wire W) (trace : List State.Event)
      (after : Session.State W)
      → deliver os net (Get.retr_line name) w ≡ delivered bytes after
      → fetched (execute_get_command (wired os net) client name (with_socket d w trace))
        ≡ some bytes
  execute_get_command-fetched client d w trace after e =
      let link = wired os net in
      let asked = deliver os net (Get.retr_line name) w in
      let told = both_heard client asked in
      ap fetched (
        execute_get_command-stores link client name told.arriving 0 d w told told told trace
          (subst (Answers link client.sockfd (codes "150")) (sym e)
            (delivered_opening client after))
          (subst (λ w. Answers link client.sockfd (codes "226") (heard link client.sockfd w))
            (sym e) (delivered_complete client after))
          refl refl refl wired-Appends)
      ∙ ap (λ w. some ((both_heard client w).stored ++ (both_heard client w).arriving)) e
      ∙ ap some (all_heard client after)

  -- A client that is connected to a server which has it logged in, and asks for a file with GET, succeeds and
  -- stores that file, where the file fits what the data connection holds unread, and the reply 226 has not come
  -- in yet when the client reads the reply 150. The server's system is up for a transfer, and its listening
  -- sockets can be reached at the port that `getsockname` gives; the file has no NUL byte; the data connection
  -- is apart from the control connection; the events of the server's two processes come in any order.
  pub get_command-fetches :
      (client : Client) (command : Command) (s : Session.State W) (arriving : Text)
      → command.argc ≡ 1
      → get_elem? command.argv 0 ≡ some name
      → IsServing stream path peer s.conn
      → (s.client_sockfd == net.data_fd) ≡ false
      → fetched (get_command (wired os net) command client (before_get s arriving)) ≡ some bytes
  get_command-fetches client command s arriving one given serving apart =
      let a =
        get_command-Asks os net stream name path bytes peer fair up known_to (IsDelivered bytes)
          (deliver-retr os net stream name path bytes peer fair up is_name clean fits) client
          command s arriving one given serving apart in
      ap fetched a.runs
      ∙ execute_get_command-fetched client a.data_socket a.world a.trace a.told.after a.told.same
