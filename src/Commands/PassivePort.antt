-- ===== src/Commands/PassivePort.antt =====
-- src/commands/pasv.c and src/passive_data_socket.c: the port that PASV announces is the port that the
-- server listens on.
use mathlib.Core.Path.{subst}
use mathlib.Core.List.{append_assoc}
use my_ftp.Prelude.{
  if◌then◌else◌, ℕ, ◌+◌, ◌*◌, ◌/◌, ◌%◌, ◌≤◌, ◌≡◌, refl, sym, ap, ◌∙◌, true, Option, none, some, [],
  ◌∷◌, ◌++◌, null_or, arith,
}
use my_ftp.Prelude.Int.{pos}
use my_ftp.Prelude.Outcome.{Outcome, undefined, done}
use my_ftp.Utils.Case.{replace_dots_with_commas}
use my_ftp.Utils.Ports.{split_port}
use my_ftp.Os.{Os}
use my_ftp.Os.Listener.{IsListener}
use my_ftp.Parser.{Command}
use my_ftp.Reply.{local_error, please_login}
use my_ftp.Reply
use my_ftp.Session.{
  DataSocket, passive, CommandStatus, success, failure, not_found, quit, opened, written, State,
}
use my_ftp.Session.Monad.{M, pure, ◌>>=◌, ◌>>◌, reply}
use my_ftp.DataSocket.Passive.{init_sockin, setup_passive_data_socket}
use my_ftp.DataSocket.Transfer.{set_data_socket}
use my_ftp.Commands.Connect.{announce, create_passive_data_socket, pasv_command}
use my_ftp.Commands.PassiveSetup.{HasRoom, Listening, MaybeListening, setup-Listening}

-- The data socket was made, bound to the loopback address and made to listen, and the two numbers of the
-- reply name the port that `getsockname` gave for it behind `bind`.
pub record Announced {W : Type 0} (os : Os W) (s t : State W) : Type 0 where
  pub data_socket : DataSocket
  pub sockfd : ℕ
  pub high : ℕ
  pub low : ℕ
  pub stored : t.data_socket ≡ some data_socket
  pub loopback : data_socket.addr ≡ init_sockin
  pub listens : data_socket.data_sockfd ≡ some sockfd
  pub mode : data_socket.data_socket_mode ≡ passive
  pub unforked : t.spawned ≡ s.spawned
  pub names : data_socket.port ≡ pos (high * 256 + low)
  pub set_up : W
  pub listener :
      IsListener os sockfd data_socket.addr (high * 256 + low) (os.malloc s.world).1 set_up
  pub left : t.world ≡ (os.malloc set_up).1
  pub high_byte : high ≤ 255
  pub low_byte : low ≤ 255
  pub said :
      t.trace
      ≡ s.trace
        ++ (opened sockfd
            ∷ written s.client_sockfd (
                Reply.passive
                  (replace_dots_with_commas (os.inet_ntoa data_socket.addr.address))
                  high
                  low)
            ∷ [])

-- The command returns; it fails and leaves no data socket, or it announces one.
abbrev pub Answers : {W : Type 0} → Os W → State W → Outcome (CommandStatus × State W) → Type 0
Answers os s undefined = ⊥
Answers os s (done (success, t)) = Announced os s t
Answers os s (done (failure, t)) = t.data_socket ≡ none
Answers os s (done (not_found, t)) = ⊥
Answers os s (done (quit, t)) = ⊥

split_port-halves :
    (port : ℕ)
    → port ≤ 65535
    → split_port true (pos port) ≡ some (pos (port / 256), pos (port % 256))
unfolding split_port
split_port-halves port h = ground arith

halves-port : (port : ℕ) → port / 256 * 256 + port % 256 ≡ port
halves-port port = omega arith

high_byte_fits : (port : ℕ) → port ≤ 65535 → port / 256 ≤ 255
high_byte_fits port h = omega arith

low_byte_fits : (port : ℕ) → port % 256 ≤ 255
low_byte_fits port = omega arith

module _ {W : Type 0} (os : Os W) (room : HasRoom os) where
  abbrev reply_of : DataSocket → ℕ → Reply.Reply
  reply_of d port =
      Reply.passive (replace_dots_with_commas (os.inet_ntoa d.addr.address)) (port / 256)
        (port % 256)

  announce-Announced :
      (s t : State W) (d : DataSocket)
      → Listening os s d t
      → t.data_socket ≡ some d
      → Answers os s (announce os d t)
  unfolding announce
  announce-Announced s t d h stored = rw (room.memory t.world) (
      rw h.numbered (
        rw (split_port-halves h.port h.fits) (record {
          data_socket = d;
          sockfd = h.sockfd;
          high = h.port / 256;
          low = h.port % 256;
          stored = stored;
          loopback = h.loopback;
          listens = h.listens;
          mode = h.mode;
          unforked = h.unforked;
          names = h.numbered ∙ ap pos (sym (halves-port h.port));
          set_up = t.world;
          listener =
              subst (λ n. IsListener os h.sockfd d.addr n (os.malloc s.world).1 t.world)
                (sym (halves-port h.port)) h.listener;
          left = refl;
          high_byte = high_byte_fits h.port h.fits;
          low_byte = low_byte_fits h.port;
          said =
              ap (λ n. t.trace ++ written n (reply_of d h.port) ∷ []) h.same
              ∙ ap (λ r. r ++ written s.client_sockfd (reply_of d h.port) ∷ []) h.said
              ∙ append_assoc s.trace (opened h.sockfd ∷ [])
                  (written s.client_sockfd (reply_of d h.port) ∷ []);
        })))

  -- `create_passive_data_socket` behind the setup of the socket
  abbrev pub answer : Option DataSocket → M W CommandStatus
  answer data_socket = do
    set_data_socket data_socket
    null_or data_socket (do reply local_error; pure failure) (λ d. announce os d)

  answer-Answers :
      (s : State W) (o : Outcome (Option DataSocket × State W))
      → MaybeListening os s o
      → Answers os s (((λ _. o) >>= answer) s)
  answer-Answers s undefined h = h
  answer-Answers s (done (none, t)) h = refl
  answer-Answers s (done (some d, t)) h =
      announce-Announced s (record t { conn = record t.conn { data_socket = some d } }) d
        (record {
          sockfd = h.sockfd;
          port = h.port;
          fits = h.fits;
          numbered = h.numbered;
          listener = h.listener;
          loopback = h.loopback;
          listens = h.listens;
          mode = h.mode;
          unforked = h.unforked;
          same = h.same;
          said = h.said;
        })
        refl

  -- PASV from a client that has logged in returns: it leaves no data socket and fails, or the data socket
  -- of the connection was bound to the loopback address and made to listen, by calls that succeeded, and
  -- the two bytes of the reply name the port that `getsockname` gave for it behind `bind`. There is
  -- memory, and ports fit 16 bits.
  pub pasv_command-Answers :
      (command : Command) (s : State W)
      → s.logged_in ≡ true
      → Answers os s (pasv_command os command s)
  unfolding pasv_command create_passive_data_socket
  pasv_command-Answers command s logged_in =
      subst
        (λ b.
          Answers os s (
            (if b then create_passive_data_socket os else (do reply please_login; pure failure)) s))
        (sym logged_in)
        (answer-Answers s (setup_passive_data_socket os s) (setup-Listening os room s))
