-- ===== src/Client/Wire/Connect.antt =====
-- A client that asks for a data socket over the wire is connected to the one that the server listens on.
use my_ftp.Prelude.{
  ℕ, Option, ◌≡◌, refl, ap, ◌∙◌, true, some, none, null_or, [], ◌∷◌, Text, codes, starts_with,
  if◌then◌else◌,
}
use my_ftp.Prelude.Outcome.{done}
use my_ftp.Stdio.Lines.{concat}
use my_ftp.Os.{Os, SockAddr}
use my_ftp.Reply.{text, passive}
use my_ftp.Session.{success, failure}
use my_ftp.Session as Session
use my_ftp.Commands.Connect.{pasv_command}
use my_ftp.Commands.PassiveSetup.{HasRoom}
use my_ftp.ClientHandler.{close_after}
use my_ftp.Client.DataSocket.{
  parse_pasv_response, data_socket_of, init_active_data_socket, setup_data_socket,
  send_pasv_command, create_data_socket, connect_data_socket, initialize_client_data_socket,
}
use my_ftp.Client.Reading.{read_response}
use my_ftp.Client.Link.{replies_to}
use my_ftp.Client.Link.Lines.{behind_mallocs, own_reply}
use my_ftp.Client.Link.Retrieve.{only_child}
use my_ftp.Client.State.{
  Client, DataSocket, State, sent, opened, M, pure, ◌>>=◌, ◌>>◌, sys, set_data_socket,
}
use my_ftp.Client.Wire.{Wire, Transport, until_full, wired, deliver, accepts_at}
use my_ftp.Client.Wire.Lines.{pasv_request, pasv_line, wire_with, fresh, deliver-line}
use my_ftp.Client.Wire.PasvReply.{
  loopback, reply_text, reply_code, numbers_of, parse_pasv_response-loopback, data_socket_of-addr,
}
use my_ftp.Client.Wire.Pasv.{IsFair, IsReached, Interleaves-alone, Ready, pasv-Ready}

-- `send_pasv_command` behind its response
abbrev is_pasv : {W : Type 0} → Option Text → M W (Option Text)
is_pasv response =
    null_or response (pure none)
      (λ r. if starts_with r (codes "227") then pure (some r) else pure none)

module _ {W : Type 0} (os : Os W) (net : Transport W) (fair : IsFair net.order) where
  -- the bytes that the data connection has, behind a run of the server
  abbrev pub carries : Session.State W → Text
  carries t = concat (
      replies_to net.data_fd
        (net.order t.trace (until_full net.room net.data_fd (only_child t.spawned))))

  pasv_replies :
      (control : ℕ) (t : Session.State W) (r : Ready net control t)
      → replies_to control
          (net.order t.trace (until_full net.room net.data_fd (only_child t.spawned)))
        ≡ text (passive loopback r.high r.low) ∷ []
  unfolding replies_to until_full
  pasv_replies control t r =
      ap
        (λ c.
          replies_to control (net.order t.trace (until_full net.room net.data_fd (only_child c))))
        r.unforked
      ∙ ap (replies_to control) (Interleaves-alone (fair t.trace []) ∙ r.said)
      ∙ own_reply control (passive loopback r.high r.low)

  module _ (known_to : IsReached os net.listens) (room : HasRoom os)
      (named : os.inet_ntoa 0x7f00_0001 ≡ codes "127.0.0.1") (s t : Session.State W)
      (peer : SockAddr) (logged : s.logged_in ≡ true) (known : s.conn.client_addr ≡ some peer)
      (ran : pasv_command os pasv_request (behind_mallocs os (fresh s)) ≡ done (success, t)) where
    abbrev pub ready : Ready net s.client_sockfd t
    ready = pasv-Ready os net known_to room named s t logged ran

    abbrev told : Wire W
    told = record {
      server = done t;
      unread = text (passive loopback ready.high ready.low) ∷ [];
      arriving = carries t;
      stored = [];
    }

    deliver-pasv :
        (arriving : Text) → deliver os net (codes "PASV\r\n") (wire_with s arriving) ≡ told
    unfolding close_after
    deliver-pasv arriving =
        deliver-line os net (codes "PASV\r") s t arriving success
          (refl, (refl, (refl, (refl, (refl, tt)))))
          (pasv_line os room.memory (fresh s) peer known ∙ ran) (λ fd u. refl)
        ∙ ap (λ l. record { server = done t; unread = l; arriving = carries t; stored = [] })
            (pasv_replies s.client_sockfd t ready)

    send_pasv-told :
        (client : Client) (arriving : Text)
        → send_pasv_command
            (wired os net)
            client
            (record { data_socket = none; world = wire_with s arriving; trace = [] })
          ≡ done (
            some (text (passive loopback ready.high ready.low)),
            record {
              data_socket = none;
              world = wire_with t (carries t);
              trace = sent client.sockfd (codes "PASV\r\n") ∷ [];
            },
          )
    unfolding send_pasv_command read_response
    send_pasv-told client arriving =
        let reply = text (passive loopback ready.high ready.low) in
        let trace = sent client.sockfd (codes "PASV\r\n") ∷ [] in
        let heard : State (Wire W) = record {
          data_socket = none;
          world = wire_with t (carries t);
          trace = trace;
        } in
        ap
          (λ w.
            (read_response (wired os net) client.sockfd >>= is_pasv)
              (record { data_socket = none; world = w; trace = trace }))
          (deliver-pasv arriving)
        ∙ ap (λ r. is_pasv (some r) heard)
            (reply_text ready.high ready.low ready.high_byte ready.low_byte)
        ∙ ap (λ b. (if b then pure (some reply) else pure none) heard)
            (reply_code ready.high ready.low)

    connects :
        accepts_at net (done t) (data_socket_of (numbers_of ready.high ready.low) 4).addr ≡ true
    connects =
        ap (net.listens t.world)
          (data_socket_of-addr ready.high ready.low 4 ready.high_byte ready.low_byte)
        ∙ ready.heard

    abbrev target : DataSocket
    target = data_socket_of (numbers_of ready.high ready.low) 4

    -- the client's state once it is connected
    abbrev pub joined : Client → State (Wire W)
    joined client = record {
      data_socket = some target;
      world = wire_with t (carries t);
      trace = sent client.sockfd (codes "PASV\r\n") ∷ opened 4 ∷ [];
    }

    -- `create_data_socket` behind the reply
    abbrev set_up : Option Text → M (Wire W) (Option DataSocket)
    set_up response = null_or response (pure none) (λ r. (do
      allocated ← sys (wired os net).malloc
      if allocated then setup_data_socket (wired os net) (parse_pasv_response r) else pure none))

    create-target :
        (client : Client) (arriving : Text)
        → create_data_socket
            (wired os net)
            client
            (record { data_socket = none; world = wire_with s arriving; trace = [] })
          ≡ done (some target, record (joined client) { data_socket = none })
    unfolding create_data_socket setup_data_socket init_active_data_socket
    create-target client arriving =
        let start : State (Wire W) = record {
          data_socket = none;
          world = wire_with s arriving;
          trace = [];
        } in
        let heard : State (Wire W) = record {
          data_socket = none;
          world = wire_with t (carries t);
          trace = sent client.sockfd (codes "PASV\r\n") ∷ [];
        } in
        ap (λ o. ((λ _. o) >>= set_up) start) (send_pasv-told client arriving)
        ∙ ap (λ numbers. setup_data_socket (wired os net) numbers heard)
            (parse_pasv_response-loopback ready.high ready.low ready.high_byte ready.low_byte)

    pub initialize_client_data_socket-joined :
        (client : Client) (arriving : Text)
        → initialize_client_data_socket
            (wired os net)
            client
            (record { data_socket = none; world = wire_with s arriving; trace = [] })
          ≡ done (success, joined client)
    unfolding initialize_client_data_socket connect_data_socket
    initialize_client_data_socket-joined client arriving =
        ap
          (λ o.
            ((λ _. o) >>= λ d.
            (set_data_socket d
              >> null_or d (pure failure) (λ d. connect_data_socket (wired os net) d)))
              (record { data_socket = none; world = wire_with s arriving; trace = [] }))
          (create-target client arriving)
        ∙ ap (λ b. (if b then pure success else pure failure) (joined client)) connects
