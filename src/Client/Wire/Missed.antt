-- ===== src/Client/Wire/Missed.antt =====
-- A GET of bonus/src/commands/get.c that never gets its second response.
use mathlib.Core.Path.{subst}
use my_ftp.Prelude.{
  ℕ, zero, suc, ◌≤◌, ◌<◌, length, leb, List, [], ◌∷◌, ◌++◌, ◌⊎◌, inl, inr, Bool-cases, ◌≡◌, ◌==◌,
  refl, sym, ap, ◌∙◌, false, some, none, Text, codes, get_elem?, starts_with, arith,
}
use my_ftp.Prelude.Outcome.{Outcome, done}
use my_ftp.Stdio.{c_string}
use my_ftp.Stdio.Lines.{NoNul}
use my_ftp.Os.{Os, SockAddr}
use my_ftp.Parser.{Command}
use my_ftp.Reply.{text, opening_data, transfer_complete}
use my_ftp.Session.{CommandStatus, failure}
use my_ftp.Session as Session
use my_ftp.Client.State.{Client, DataSocket, State, with_socket, ◌>>=◌}
use my_ftp.Client.State as State
use my_ftp.Client.DataSocket.{destroy_data_socket, drop_data_socket}
use my_ftp.Client.Filename.{get_filename_from_filepath}
use my_ftp.Client.Transfer.{get_result, get_command, execute_get_command}
use my_ftp.Client.Transfer.Get as Get
use my_ftp.Client.Transfer.Answered.{Answers, heard, check_get_response-silent}
use my_ftp.Client.Transfer.Release.{transfer_then}
use my_ftp.Client.Wire.{Wire, Transport, drop, wired, deliver}
use my_ftp.Client.Wire.Lines.{IsFileName, wire_with}
use my_ftp.Client.Wire.Pasv.{IsFair, IsReached, Ready}
use my_ftp.Client.Wire.Retr.{IsUp, IsServing, IsDelivered, deliver-retr}
use my_ftp.Client.Wire.Stopped.{HasOpening, deliver-HasOpening}
use my_ftp.Client.Wire.Asked.{before_get, get_command-Asks}

-- The command has stored nothing and does not succeed; with the null pointer for a line that does not come,
-- it is the model's failure.
pub record Misses {W : Type 0} (o : Outcome (CommandStatus × State (Wire W))) : Type 0 where
  pub after : State (Wire W)
  pub runs : o ≡ done (failure, after)
  pub nothing : after.world.stored ≡ []

-- The client is told that its file is coming, and gets no other reply; it has stored nothing.
pub record IsSilent {W : Type 0} (os : Os W) (net : Transport W) (fd : ℕ) (w : Wire W)
    : Type 0 where
  pub opening : Answers (wired os net) fd (codes "150") w
  pub no_more : ((wired os net).response fd (heard (wired os net) fd w)).0 ≡ none
  pub nothing : (heard (wired os net) fd (heard (wired os net) fd w)).stored ≡ []

drop_one : (n : ℕ) (t : Text) → 1 ≤ n → drop n (t ∷ []) ≡ []
drop_one zero t h = absurd (omega (arith, h))
drop_one (suc n) t h = refl

module _ {W : Type 0} (os : Os W) (net : Transport W) where
  delivered-IsSilent :
      (fd : ℕ) (bytes : Text) (w : Wire W)
      → 1 ≤ net.taken (text transfer_complete ∷ [])
      → IsDelivered bytes w
      → IsSilent os net fd w
  unfolding text c_string starts_with
  delivered-IsSilent fd bytes w late d =
      let none_left =
        drop_one (net.taken (text transfer_complete ∷ [])) (text transfer_complete) late in
      subst (IsSilent os net fd) (sym d.same) (record {
        opening = record { line = text opening_data; came = refl; begins = refl };
        no_more = unfold text in rw none_left refl;
        nothing = unfold text in rw none_left refl;
      })

  opening-IsSilent : (fd : ℕ) (w : Wire W) → HasOpening w → IsSilent os net fd w
  unfolding text c_string starts_with
  opening-IsSilent fd w d =
      let same : record w { unread = text opening_data ∷ []; stored = [] } ≡ w =
        ap (λ l. record w { unread = l; stored = [] }) (sym d.opening)
        ∙ ap (λ l. record w { stored = l }) (sym d.nothing) in
      subst (IsSilent os net fd) same (record {
        opening = record { line = text opening_data; came = refl; begins = refl };
        no_more = refl;
        nothing = refl;
      })

  execute_get_command-Misses :
      (client : Client) (name : Text) (d : DataSocket) (w : Wire W) (trace : List State.Event)
      → IsSilent os net client.sockfd (deliver os net (Get.retr_line name) w)
      → Misses (execute_get_command (wired os net) client name (with_socket d w trace))
  unfolding execute_get_command drop_data_socket destroy_data_socket
  execute_get_command-Misses client name d w trace silent =
      let link = wired os net in
      let fd = client.sockfd in
      let told =
        with_socket d (deliver os net (Get.retr_line name) w)
          (trace ++ State.sent fd (Get.retr_line name) ∷ []) in
      record {
        after = _;
        runs =
            ap
              (λ o.
                ((λ _. o)
                    >>= transfer_then link
                        (λ n. get_result link n (get_filename_from_filepath name)))
                  told)
              (check_get_response-silent link fd told silent.opening silent.no_more);
        nothing = silent.nothing;
      }

module _ {W : Type 0} (os : Os W) (net : Transport W) (stream : ℕ) (name path bytes : Text)
    (peer : SockAddr) (fair : IsFair net.order) (up : IsUp os name bytes net.data_fd)
    (known_to : IsReached os net.listens) (is_name : IsFileName name) (clean : NoNul bytes)
    (trouble : (1 ≤ net.taken (text transfer_complete ∷ [])) ⊎ (net.room < length bytes)) where
  retr-IsSilent :
      (fd : ℕ) (t : Session.State W) (arriving : Text)
      → IsServing stream path peer t.conn
      → Ready net t.client_sockfd t
      → (t.client_sockfd == net.data_fd) ≡ false
      → IsSilent os net fd (deliver os net (Get.retr_line name) (wire_with t arriving))
  retr-IsSilent fd t arriving c r apart =
      let over : net.room < length bytes
          → IsSilent os net fd (deliver os net (Get.retr_line name) (wire_with t arriving)) =
        λ h. opening-IsSilent os net fd _ (
          deliver-HasOpening os net stream name path bytes peer fair up is_name clean h t arriving c
            r apart) in
      elim (Bool-cases (leb (length bytes) net.room)) [
        | inr long ↦ over (ground arith)
        | inl fits ↦ elim trouble [
          | inr long ↦ over long
          | inl late ↦ delivered-IsSilent os net fd bytes _ late (
              deliver-retr os net stream name path bytes peer fair up is_name clean (ground arith) t
                arriving c r apart)
        ]
      ]

  -- Where the reply 226 has come in when the client reads the reply 150, or where the file is longer than what
  -- the data connection holds unread, GET does not succeed, and nothing is stored: the reply that the client
  -- waits for does not come, which is a null pointer in the model. All else is as it should be: the client is
  -- connected to a server which has it logged in and which is up for the transfer, its listening sockets can be
  -- reached, the file has no NUL byte, the data connection is apart from the control connection, and the
  -- events of the server's two processes come in any order.
  pub get_command-Misses :
      (client : Client) (command : Command) (s : Session.State W) (arriving : Text)
      → command.argc ≡ 1
      → get_elem? command.argv 0 ≡ some name
      → IsServing stream path peer s.conn
      → (s.client_sockfd == net.data_fd) ≡ false
      → Misses (get_command (wired os net) command client (before_get s arriving))
  get_command-Misses client command s arriving one given serving apart =
      let a =
        get_command-Asks os net stream name path bytes peer fair up known_to
          (IsSilent os net client.sockfd) (retr-IsSilent client.sockfd) client command s arriving
          one given serving apart in
      subst Misses (sym a.runs)
        (execute_get_command-Misses os net client name a.data_socket a.world a.trace a.told)
