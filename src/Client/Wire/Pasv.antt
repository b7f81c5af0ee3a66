-- ===== src/Client/Wire/Pasv.antt =====
-- PASV over the wire: the client's bonus/src/data_socket.c against the server's src/commands/pasv.c.
use mathlib.Core.Path.{subst}
use my_ftp.Prelude.{
  ℕ, ◌+◌, ◌*◌, ◌≤◌, ◌≡◌, refl, sym, ap, ◌∙◌, Bool, true, some, List, [], ◌∷◌, codes,
}
use my_ftp.Prelude.Outcome.{done}
use my_ftp.Utils.Case.{comma_byte, replace_dots_with_commas}
use my_ftp.Os.{Os, SockAddr}
use my_ftp.Os.Listener.{IsListener}
use my_ftp.Reply.{passive}
use my_ftp.Session.{CommandStatus, success, Event, written, opened}
use my_ftp.Session as Session
use my_ftp.Session.Orders.{Interleaves, both_over, left_first}
use my_ftp.DataSocket.Passive.{init_sockin}
use my_ftp.Commands.Connect.{pasv_command}
use my_ftp.Commands.PassiveSetup.{HasRoom}
use my_ftp.Commands.PassivePort.{Announced, Answers, pasv_command-Answers}
use my_ftp.Client.Link.Lines.{behind_mallocs}
use my_ftp.Client.Wire.{Order, Transport}
use my_ftp.Client.Wire.Lines.{pasv_request, fresh}
use my_ftp.Client.Wire.PasvReply.{loopback}

-- An order of the events of two processes, in which each keeps its own.
abbrev pub IsFair : Order → Type 0
IsFair order = (xs ys : List Event) → Interleaves xs ys (order xs ys)

pub Interleaves-alone : {xs zs : List Event} → Interleaves xs [] zs → zs ≡ xs
Interleaves-alone both_over = refl
Interleaves-alone (left_first x z) = ap (λ l. x ∷ l) (Interleaves-alone z)

-- What the network knows of a system: behind a bind that asks for any port, and behind `listen`, the socket
-- can be reached at its address and the port that `getsockname` gives for it, and `malloc` does not end that.
pub record IsReached {W : Type 0} (os : Os W) (listens : W → SockAddr → Bool) : Type 0 where
  pub bound :
      (sockfd address port : ℕ) (before after : W)
      → IsListener os sockfd (record { address = address; port = 0 }) port before after
      → listens after (record { address = address; port = port }) ≡ true
  pub stays :
      (w : W) (addr : SockAddr) → listens w addr ≡ true → listens (os.malloc w).1 addr ≡ true

-- what PASV leaves of the server: a socket that listens where its reply says
pub record Ready {W : Type 0} (net : Transport W) (control : ℕ) (t : Session.State W) : Type 0 where
  pub high : ℕ
  pub low : ℕ
  pub high_byte : high ≤ 255
  pub low_byte : low ≤ 255
  pub data_socket : Session.DataSocket
  pub listener : ℕ
  pub stored : t.data_socket ≡ some data_socket
  pub mode : data_socket.data_socket_mode ≡ Session.passive
  pub listens : data_socket.data_sockfd ≡ some listener
  pub at : data_socket.addr ≡ init_sockin
  pub heard : net.listens t.world (record { address = 0x7f00_0001; port = high * 256 + low }) ≡ true
  pub said : t.trace ≡ opened listener ∷ written control (passive loopback high low) ∷ []
  pub unforked : t.spawned ≡ []

dots_to_commas : replace_dots_with_commas (codes "127.0.0.1") ≡ loopback
unfolding replace_dots_with_commas comma_byte
dots_to_commas = refl

module _ {W : Type 0} (os : Os W) (net : Transport W) (known : IsReached os net.listens)
    (room : HasRoom os) (named : os.inet_ntoa 0x7f00_0001 ≡ codes "127.0.0.1") where
  printed_address :
      (d : Session.DataSocket)
      → d.addr ≡ init_sockin
      → replace_dots_with_commas (os.inet_ntoa d.addr.address) ≡ loopback
  printed_address d at =
      ap (λ a. replace_dots_with_commas (os.inet_ntoa a.address)) at
      ∙ ap replace_dots_with_commas named
      ∙ dots_to_commas

  pub pasv-Ready :
      (s t : Session.State W)
      → s.logged_in ≡ true
      → pasv_command os pasv_request (behind_mallocs os (fresh s)) ≡ done (success, t)
      → Ready net s.client_sockfd t
  pasv-Ready s t logged ran =
      let before = behind_mallocs os (fresh s) in
      let a : Announced os before t =
        subst (Answers os before) ran (pasv_command-Answers os room pasv_request before logged) in
      let there : SockAddr = record { address = 0x7f00_0001; port = a.high * 256 + a.low } in
      record {
        high = a.high;
        low = a.low;
        high_byte = a.high_byte;
        low_byte = a.low_byte;
        data_socket = a.data_socket;
        listener = a.sockfd;
        stored = a.stored;
        mode = a.mode;
        listens = a.listens;
        at = a.loopback;
        heard =
            subst (λ w. net.listens w there ≡ true) (sym a.left)
              (known.stays a.set_up there (
                known.bound a.sockfd 0x7f00_0001 (a.high * 256 + a.low) _ a.set_up (
                  subst
                    (λ addr.
                      IsListener os a.sockfd addr (a.high * 256 + a.low) (os.malloc before.world).1
                        a.set_up)
                    a.loopback a.listener)));
        said =
            a.said
            ∙ ap (λ n. opened a.sockfd ∷ written s.client_sockfd (passive n a.high a.low) ∷ [])
                (printed_address a.data_socket a.loopback);
        unforked = a.unforked;
      }
