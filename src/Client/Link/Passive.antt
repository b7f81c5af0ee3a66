-- ===== src/Client/Link/Passive.antt =====
-- The reply to PASV, on both ends of the connection: what src/commands/pasv.c prints and what
-- bonus/src/data_socket.c reads.
use mathlib.Core.Path.{subst}
use my_ftp.Prelude.{
  ℕ, ◌+◌, ◌*◌, ◌/◌, ◌%◌, ◌^◌, ◌≤◌, ◌<◌, ◌≡◌, refl, sym, ap, ◌∙◌, true, null_or, Option, some, none,
  [], ◌∷◌, ◌++◌, Text, codes, arith,
}
use my_ftp.Prelude.Int.{pos}
use my_ftp.Prelude.Outcome.{done}
use my_ftp.Utils.Case.{replace_dots_with_commas}
use my_ftp.Utils.Ports.{merge_port}
use my_ftp.Os.{Os, SockAddr}
use my_ftp.Os.Listener.{IsListener}
use my_ftp.Parser.{Command}
use my_ftp.Session as Session
use my_ftp.Session.{DataSocket, State, success, opened, written}
use my_ftp.Commands.Connect.{pasv_command}
use my_ftp.Commands.PassiveSetup.{HasRoom}
use my_ftp.Commands.PassivePort.{Announced, Answers, pasv_command-Answers}
use my_ftp.Reply.{Reply, decimal, text, passive}
use my_ftp.Client.DataSocket.{parse_pasv_response, data_socket_of}
use my_ftp.Client.Link.Numbers.{separated, parse_pasv_response-passive}

merge_port-halves :
    (port : ℕ) → port ≤ 65535 → merge_port (some (pos (port / 256), pos (port % 256))) ≡ pos port
unfolding merge_port
merge_port-halves port h = ground arith

bytes_sum :
    (a : ℕ)
    → a < 2 ^ 32
    → ((a / 2 ^ 24) % 2 ^ 32 * 2 ^ 24
          + a / 2 ^ 16 % 256 % 2 ^ 32 * 2 ^ 16
          + a / 2 ^ 8 % 256 % 2 ^ 32 * 2 ^ 8
          + a % 256 % 2 ^ 32)
        % 2 ^ 32
      ≡ a
bytes_sum a h = omega arith

small : (port : ℕ) → port ≤ 65535 → port % 2 ^ 16 ≡ port
small port h = omega arith

-- The address in dotted notation, which `inet_ntoa` returns.
abbrev pub dotted : ℕ → Text
dotted a = separated b'.' (a / 2 ^ 24) (a / 2 ^ 16 % 256) (a / 2 ^ 8 % 256) (a % 256)

-- The socket address that the client takes from a reply; `none` where it cannot read the reply.
abbrev pub target : Text → Option SockAddr
target response = null_or (parse_pasv_response response) none (λ h. some (data_socket_of h 0).addr)

-- The client takes from a reply the very address and port that the server has printed.
target-passive :
    {W : Type 0} (os : Os W) (address port : ℕ)
    → address < 2 ^ 32
    → port ≤ 65535
    → os.inet_ntoa address ≡ dotted address
    → target
        (text (passive (replace_dots_with_commas (os.inet_ntoa address)) (port / 256) (port % 256)))
      ≡ some (record { address = address; port = port })
unfolding data_socket_of
target-passive os address port fits named writes = rw writes (
    rw
      (parse_pasv_response-passive (address / 2 ^ 24) (address / 2 ^ 16 % 256)
        (address / 2 ^ 8 % 256) (address % 256) (port / 256) (port % 256) (ground arith)
        (ground arith) (ground arith) (ground arith) (ground arith) (ground arith))
      (rw (merge_port-halves port named) (
        ap (λ a. some (record { address = a; port = port % 2 ^ 16 })) (bytes_sum address fits)
        ∙ ap (λ p. some (record { address = address; port = p })) (small port named))))

-- The server's data socket was bound and made to listen, and the client takes from the reply the address
-- that it was bound to and the port that `getsockname` gave for it.
pub record Reached {W : Type 0} (os : Os W) (s t : State W) : Type 0 where
  pub data_socket : DataSocket
  pub sockfd : ℕ
  pub port : ℕ
  pub answer : Reply
  pub stored : t.data_socket ≡ some data_socket
  pub listens : data_socket.data_sockfd ≡ some sockfd
  pub mode : data_socket.data_socket_mode ≡ Session.passive
  pub unforked : t.spawned ≡ s.spawned
  pub numbered : data_socket.port ≡ pos port
  pub loopback : data_socket.addr.address ≡ 0x7f00_0001
  pub set_up : W
  pub listener : IsListener os sockfd data_socket.addr port (os.malloc s.world).1 set_up
  pub left : t.world ≡ (os.malloc set_up).1
  pub said : t.trace ≡ s.trace ++ (opened sockfd ∷ written s.client_sockfd answer ∷ [])
  pub reads :
      target (text answer) ≡ some (record { address = data_socket.addr.address; port = port })

loopback_text : dotted 0x7f00_0001 ≡ codes "127.0.0.1"
unfolding decimal
loopback_text = refl

high_of : (high low : ℕ) → low ≤ 255 → (high * 256 + low) / 256 ≡ high
high_of high low h = omega arith

low_of : (high low : ℕ) → low ≤ 255 → (high * 256 + low) % 256 ≡ low
low_of high low h = omega arith

module _ {W : Type 0} (os : Os W) (room : HasRoom os) where
  pub target-loopback :
      (high low : ℕ)
      → high ≤ 255
      → low ≤ 255
      → os.inet_ntoa 0x7f00_0001 ≡ codes "127.0.0.1"
      → target (text (passive (replace_dots_with_commas (os.inet_ntoa 0x7f00_0001)) high low))
        ≡ some (record { address = 0x7f00_0001; port = high * 256 + low })
  target-loopback high low h l named =
      let address = replace_dots_with_commas (os.inet_ntoa 0x7f00_0001) in
      ap (λ n. target (text (passive address n low))) (sym (high_of high low l))
      ∙ ap (λ n. target (text (passive address ((high * 256 + low) / 256) n)))
          (sym (low_of high low l))
      ∙ target-passive os 0x7f00_0001 (high * 256 + low) (ground arith) (ground arith)
          (named ∙ sym loopback_text)

  reached :
      (s t : State W)
      → os.inet_ntoa 0x7f00_0001 ≡ codes "127.0.0.1"
      → Announced os s t
      → Reached os s t
  reached s t named a = record {
    data_socket = a.data_socket;
    sockfd = a.sockfd;
    port = a.high * 256 + a.low;
    answer =
        passive (replace_dots_with_commas (os.inet_ntoa a.data_socket.addr.address)) a.high a.low;
    stored = a.stored;
    listens = a.listens;
    mode = a.mode;
    unforked = a.unforked;
    numbered = a.names;
    loopback = ap (λ addr. addr.address) a.loopback;
    set_up = a.set_up;
    listener = a.listener;
    left = a.left;
    said = a.said;
    reads =
        subst
          (λ addr.
            target
              (text (passive (replace_dots_with_commas (os.inet_ntoa addr.address)) a.high a.low))
            ≡ some (record { address = addr.address; port = a.high * 256 + a.low }))
          (sym a.loopback) (target-loopback a.high a.low a.high_byte a.low_byte named);
  }

  -- A client that has logged in and sends PASV is told where to connect to: where the command succeeds,
  -- the data socket that the connection now has was bound to the loopback address and made to listen, by
  -- calls that succeeded, and the client reads from the reply that address and the port that `getsockname`
  -- gave for the socket behind `bind`. There is memory, ports fit 16 bits, and `inet_ntoa` writes the
  -- loopback address as `127.0.0.1`.
  pub pasv_command-Reached :
      (command : Command) (s t : State W)
      → s.logged_in ≡ true
      → os.inet_ntoa 0x7f00_0001 ≡ codes "127.0.0.1"
      → pasv_command os command s ≡ done (success, t)
      → Reached os s t
  pasv_command-Reached command s t logged_in named ran =
      reached s t named
        (subst (Answers os s) ran (pasv_command-Answers os room command s logged_in))
