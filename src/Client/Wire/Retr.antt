-- ===== src/Client/Wire/Retr.antt =====
-- RETR over the wire: what the server delivers to a client that has asked for a file.
use mathlib.Core.List.{append_assoc}
use my_ftp.Prelude.{
  ℕ, ◌≤◌, length, ◌≡◌, ◌==◌, refl, sym, ap, ◌∙◌, true, false, some, [], ◌++◌, Text, codes, arith,
  All-append,
}
use my_ftp.Prelude.Outcome.{Outcome, done}
use my_ftp.Stdio.Lines.{NoNul, concat}
use my_ftp.Os.{Os, SockAddr, forked}
use my_ftp.Session.{CommandStatus, success, failure, not_found, quit, Connection, Event}
use my_ftp.Session as Session
use my_ftp.Commands.Files.{retr_command}
use my_ftp.Commands.Contents.{delivery}
use my_ftp.Commands.Retrieved.{Transfers, checked, retr_command-Transfers}
use my_ftp.Commands.PassiveUp.{HasSockets}
use my_ftp.ClientHandler.{close_after}
use my_ftp.Client.Transfer.Get.{Appends, execute_get_command-stores}
use my_ftp.Client.Transfer.Get as Get
use my_ftp.Client.Link.{replies_to}
use my_ftp.Client.Link.Copy.{both_replies, delivery-replies, delivery-pieces}
use my_ftp.Client.Link.Lines.{behind_mallocs}
use my_ftp.Client.Link.Retrieve.{only_child, replies_to-Interleaves, replies_to-and_closes}
use my_ftp.Client.Wire.{Wire, Transport, until_full, deliver}
use my_ftp.Client.Wire.Room.{until_full_fits}
use my_ftp.Client.Wire.Lines.{IsFileName, retr_request, retr_line, wire_with, fresh, deliver-line}
use my_ftp.Client.Wire.Pasv.{IsFair, Ready}

-- The server's system is up for a transfer: sockets can be made; the file of this name can be opened, in whatever state, and holds
-- these bytes; a peer connects, and its socket has this number; and the process can fork.
pub record IsUp {W : Type 0} (os : Os W) (name bytes : Text) (data_fd : ℕ) : Type 0 where
  pub sockets : HasSockets os
  pub named : os.inet_ntoa 0x7f00_0001 ≡ codes "127.0.0.1"
  pub opens : (w : W) → (os.fopen_read name w).0 ≡ some bytes
  pub accepts : (l : ℕ) (w : W) → (addr : SockAddr) × ((os.accept l w).0 ≡ some (data_fd, addr))
  pub forks : (w : W) → (child : W) × (parent : W) × (os.fork w ≡ forked child parent)

-- the server has this client logged in
pub record IsServing (stream : ℕ) (path : Text) (peer : SockAddr) (c : Connection) : Type 0 where
  pub logged : c.logged_in ≡ true
  pub directory : c.working_directory ≡ some path
  pub streamed : c.stream ≡ some stream
  pub known : c.client_addr ≡ some peer

-- the wire behind a RETR that has delivered the file
abbrev pub delivered : {W : Type 0} → Text → Session.State W → Wire W
delivered bytes after = record {
  server = done after;
  unread = both_replies;
  arriving = bytes;
  stored = [];
}

module _ {W : Type 0} (os : Os W) (net : Transport W) (stream : ℕ) (name path bytes : Text)
    (peer : SockAddr) (fair : IsFair net.order) (up : IsUp os name bytes net.data_fd)
    (is_name : IsFileName name) (clean : NoNul bytes) where
  -- RETR with the data socket ready
  pub retr-Transfers :
      (control : ℕ) (t : Session.State W)
      → IsServing stream path peer t.conn
      → Ready net control t
      → Transfers os net.data_fd stream bytes
          (behind_mallocs os (fresh t))
          (retr_command os (retr_request name) (behind_mallocs os (fresh t)))
  retr-Transfers control t c r =
      let s = behind_mallocs os (fresh t) in
      let (addr, accepted) = up.accepts r.listener (checked os name path s) in
      let (child, parent, fork) = up.forks (os.accept r.listener (checked os name path s)).1 in
      retr_command-Transfers os (retr_request name) name path bytes r.data_socket r.listener
        net.data_fd stream addr s child parent c.logged r.stored
        (record { mode = r.mode; listener = r.listens }) c.streamed refl refl c.directory
        (up.opens _) accepted fork (up.opens _) clean

  line-NoNul : NoNul (codes "RETR " ++ (name ++ codes "\r"))
  line-NoNul = (
    refl,
    (
      refl,
      (
        refl,
        (
          refl,
          (refl, All-append (λ c. (c == 0) ≡ false) name (codes "\r") is_name.no_nul (refl, tt)),
        ),
      ),
    ),
  )

  -- what the wire gets of a RETR
  abbrev pub behind_retr :
      (t : Session.State W)
      → IsServing stream path peer t.conn
      → Ready net t.client_sockfd t
      → Wire W
  behind_retr t c r =
      let sends = retr-Transfers t.client_sockfd t c r in
      let events =
        net.order sends.after.trace
          (until_full net.room net.data_fd (only_child sends.after.spawned)) in
      record {
        server = done sends.after;
        unread = replies_to t.client_sockfd events;
        arriving = concat (replies_to net.data_fd events);
        stored = [];
      }

  pub deliver-behind :
      (t : Session.State W) (arriving : Text) (c : IsServing stream path peer t.conn)
      (r : Ready net t.client_sockfd t)
      → deliver os net (Get.retr_line name) (wire_with t arriving) ≡ behind_retr t c r
  unfolding close_after
  deliver-behind t arriving c r =
      let sends = retr-Transfers t.client_sockfd t c r in
      ap (λ l. deliver os net (codes "RETR " ++ l) (wire_with t arriving))
        (sym (append_assoc name (codes "\r") (codes "\n")))
      ∙ deliver-line os net (codes "RETR " ++ (name ++ codes "\r")) t sends.after arriving success
          line-NoNul
          (retr_line os up.sockets.room.memory name (fresh t) peer is_name c.known ∙ sends.runs)
          (λ fd u. refl)

-- What the wire gets of a RETR whose file is delivered.
pub record IsDelivered {W : Type 0} (bytes : Text) (w : Wire W) : Type 0 where
  pub after : Session.State W
  pub same : w ≡ delivered bytes after

module _ {W : Type 0} (os : Os W) (net : Transport W) (stream : ℕ) (name path bytes : Text)
    (peer : SockAddr) (fair : IsFair net.order) (up : IsUp os name bytes net.data_fd)
    (is_name : IsFileName name) (clean : NoNul bytes) (fits : length bytes ≤ net.room) where
  -- The child of this transfer is not stopped.
  child-whole :
      (t : Session.State W) (o : Outcome (CommandStatus × Session.State W))
      (sends : Transfers os net.data_fd stream bytes (behind_mallocs os (fresh t)) o)
      → (t.client_sockfd == net.data_fd) ≡ false
      → until_full net.room net.data_fd (only_child sends.after.spawned)
        ≡ only_child sends.after.spawned
  child-whole t o sends apart =
      let control = t.client_sockfd in
      let written_there : concat (replies_to net.data_fd (only_child sends.after.spawned)) ≡ bytes =
        ap (λ c. concat (replies_to net.data_fd (only_child c))) sends.spawned_child
        ∙ ap concat (
            replies_to-and_closes net.data_fd t.server.sockfd net.data_fd stream
              (delivery control net.data_fd sends.pieces)
            ∙ delivery-pieces control net.data_fd sends.pieces apart)
        ∙ sends.whole in
      until_full_fits net.room net.data_fd (only_child sends.after.spawned)
        (omega (arith, fits, ap length written_there))

  transfer-replies :
      (t : Session.State W) (o : Outcome (CommandStatus × Session.State W))
      (sends : Transfers os net.data_fd stream bytes (behind_mallocs os (fresh t)) o) (n : ℕ)
      → (t.client_sockfd == net.data_fd) ≡ false
      → replies_to n (
          net.order sends.after.trace
            (until_full net.room net.data_fd (only_child sends.after.spawned)))
        ≡ replies_to n (delivery t.client_sockfd net.data_fd sends.pieces)
  transfer-replies t o sends n apart =
      ap (λ c. replies_to n (net.order sends.after.trace c)) (child-whole t o sends apart)
      ∙ ap (λ p. replies_to n (net.order p (only_child sends.after.spawned))) sends.parent
      ∙ ap (λ c. replies_to n (net.order _ (only_child c))) sends.spawned_child
      ∙ replies_to-Interleaves n (fair _ _) (tt, (tt, tt))
      ∙ replies_to-and_closes n t.server.sockfd net.data_fd stream
          (delivery t.client_sockfd net.data_fd sends.pieces)

  pub deliver-retr :
      (t : Session.State W) (arriving : Text) (c : IsServing stream path peer t.conn)
      (r : Ready net t.client_sockfd t)
      → (t.client_sockfd == net.data_fd) ≡ false
      → IsDelivered bytes (deliver os net (Get.retr_line name) (wire_with t arriving))
  deliver-retr t arriving c r apart =
      let sends =
        retr-Transfers os net stream name path bytes peer fair up is_name clean t.client_sockfd t c
          r in
      let control = t.client_sockfd in
      record {
        after = sends.after;
        same =
            deliver-behind os net stream name path bytes peer fair up is_name clean t arriving c r
            ∙ ap
                (λ l. record {
                  server = done sends.after;
                  unread = l;
                  arriving = concat (
                      replies_to net.data_fd (
                        net.order sends.after.trace
                          (until_full net.room net.data_fd (only_child sends.after.spawned))));
                  stored = [];
                })
                (transfer-replies t _ sends control apart
                  ∙ delivery-replies control net.data_fd sends.pieces (ground arith))
            ∙ ap
                (λ b. record {
                  server = done sends.after;
                  unread = both_replies;
                  arriving = b;
                  stored = [];
                })
                (ap concat (
                    transfer-replies t _ sends net.data_fd apart
                    ∙ delivery-pieces control net.data_fd sends.pieces apart)
                  ∙ sends.whole);
      }
