-- ===== src/Client/Wire/Stopped.antt =====
-- RETR over the wire, for a file that the data connection does not hold: the child process is stopped.
use mathlib.Core.List.{append_assoc}
use my_ftp.Prelude.{
  ℕ, ◌<◌, ◌≡◌, ◌==◌, ap, ◌∙◌, true, false, List, [], ◌∷◌, ◌++◌, Text, arith, length,
}
use my_ftp.Stdio.Lines.{NoNul, concat}
use my_ftp.Os.{Os, SockAddr}
use my_ftp.Reply.{text, opening_data, transfer_complete}
use my_ftp.Session.{Event, written, opened, closed}
use my_ftp.Session as Session
use my_ftp.Commands.Contents.{delivery, pieces_to}
use my_ftp.Commands.Child.{and_closes}
use my_ftp.Client.Transfer.Get as Get
use my_ftp.Client.Link.{replies_to}
use my_ftp.Client.Link.Retrieve.{only_child, replies_to-Interleaves}
use my_ftp.Client.Wire.{Wire, Transport, until_full, deliver}
use my_ftp.Client.Wire.Room.{until_full_stops}
use my_ftp.Client.Wire.Lines.{IsFileName, wire_with}
use my_ftp.Client.Wire.Pasv.{IsFair, Ready}
use my_ftp.Client.Wire.Retr.{IsUp, IsServing, retr-Transfers, deliver-behind}

-- The wire has the reply 150 and no other, and the client has stored nothing.
pub record HasOpening {W : Type 0} (w : Wire W) : Type 0 where
  pub opening : w.unread ≡ text opening_data ∷ []
  pub nothing : w.stored ≡ []

three_closes :
    (xs : List Event) (a b c : Event)
    → ((xs ++ a ∷ []) ++ b ∷ []) ++ c ∷ [] ≡ xs ++ (a ∷ b ∷ c ∷ [])
three_closes xs a b c =
    append_assoc (xs ++ a ∷ []) (b ∷ []) (c ∷ []) ∙ append_assoc xs (a ∷ []) (b ∷ c ∷ [])

-- what the child of a transfer writes, with what follows the pieces of the file in one list
child_list :
    (control fd listener stream : ℕ) (pieces : List Text)
    → and_closes (delivery control fd pieces) listener fd stream
      ≡ written control opening_data
        ∷ (pieces_to fd pieces
            ++ (written control transfer_complete
                ∷ closed listener
                ∷ closed fd
                ∷ closed stream
                ∷ []))
child_list control fd listener stream pieces =
    three_closes (delivery control fd pieces) (closed listener) (closed fd) (closed stream)
    ∙ ap (λ l. written control opening_data ∷ l)
        (append_assoc (pieces_to fd pieces) (written control transfer_complete ∷ [])
          (closed listener ∷ closed fd ∷ closed stream ∷ []))

opening_only :
    (control fd room : ℕ) (pieces : List Text) (events : List Event)
    → (control == fd) ≡ false
    → room < length (concat pieces)
    → replies_to control
        (until_full room fd (written control opening_data ∷ (pieces_to fd pieces ++ events)))
      ≡ text opening_data ∷ []
unfolding until_full replies_to
opening_only control fd room pieces events apart h = rw apart (
    rw (own control) (
      ap (λ l. text opening_data ∷ l)
        (until_full_stops control fd room pieces events (ground arith) h)))
  where
    own : (n : ℕ) → (n == n) ≡ true
    own n = ground arith

module _ {W : Type 0} (os : Os W) (net : Transport W) (stream : ℕ) (name path bytes : Text)
    (peer : SockAddr) (fair : IsFair net.order) (up : IsUp os name bytes net.data_fd)
    (is_name : IsFileName name) (clean : NoNul bytes) (over : net.room < length bytes) where
  pub deliver-HasOpening :
      (t : Session.State W) (arriving : Text)
      → IsServing stream path peer t.conn
      → Ready net t.client_sockfd t
      → (t.client_sockfd == net.data_fd) ≡ false
      → HasOpening (deliver os net (Get.retr_line name) (wire_with t arriving))
  deliver-HasOpening t arriving c r apart =
      let sends =
        retr-Transfers os net stream name path bytes peer fair up is_name clean t.client_sockfd t c
          r in
      let control = t.client_sockfd in
      let told =
        deliver-behind os net stream name path bytes peer fair up is_name clean t arriving c r in
      let cut = until_full net.room net.data_fd in
      record {
        opening =
            ap (λ w. w.unread) told
            ∙ ap (λ p. replies_to control (net.order p (cut (only_child sends.after.spawned))))
                sends.parent
            ∙ ap
                (λ l.
                  replies_to control
                    (net.order (opened net.data_fd ∷ closed net.data_fd ∷ []) (cut (only_child l))))
                sends.spawned_child
            ∙ replies_to-Interleaves control (fair _ _) (tt, (tt, tt))
            ∙ ap (λ l. replies_to control (cut l))
                (child_list control net.data_fd t.server.sockfd stream sends.pieces)
            ∙ opening_only control net.data_fd net.room sends.pieces _ apart
                (omega (arith, over, ap length sends.whole));
        nothing = ap (λ w. w.stored) told;
      }
