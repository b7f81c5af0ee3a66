-- ===== src/Commands/PassiveUp.antt =====
-- PASV succeeds wherever the system has sockets.
use mathlib.Core.Path.{subst}
use my_ftp.Prelude.{ℕ, ◌≡◌, refl, sym, ◌∙◌, true, Option, some, if◌then◌else◌}
use my_ftp.Prelude.Outcome.{Outcome, undefined, done}
use my_ftp.Os.{Os, SockAddr}
use my_ftp.Parser.{Command}
use my_ftp.Session.{DataSocket, CommandStatus, success, failure, not_found, quit, Connection, State}
use my_ftp.Reply.{please_login}
use my_ftp.Session.Monad.{pure, reply, ◌>>=◌, ◌>>◌}
use my_ftp.Session.Keeps.{Leaves}
use my_ftp.DataSocket.Passive.{
  set_final_port, bind_socket, listen_socket, new_data_socket, listen_on, setup_passive_data_socket,
}
use my_ftp.Commands.Connect.{create_passive_data_socket, pasv_command}
use my_ftp.Commands.Frames.{announce-Keeps}
use my_ftp.Commands.PassiveSetup.{HasRoom, init_some, socket_some, listen_if}
use my_ftp.Commands.PassivePort.{Answers, answer, pasv_command-Answers}

-- There is memory, ports fit 16 bits, and a socket can be made, bound and listened on.
pub record HasSockets {W : Type 0} (os : Os W) : Type 0 where
  pub room : HasRoom os
  pub sockets : (w : W) → (fd : ℕ) × ((os.socket w).0 ≡ some fd)
  pub binds : (fd : ℕ) (addr : SockAddr) (w : W) → (os.bind fd addr w).0 ≡ true
  pub listens : (fd : ℕ) (w : W) → (os.listen fd w).0 ≡ true

-- The outcome has a data socket.
record Made {W : Type 0} (o : Outcome (Option DataSocket × State W)) : Type 0 where
  data_socket : DataSocket
  after : State W
  runs : o ≡ done (some data_socket, after)

abbrev HasDataSocket : Connection → Type 0
HasDataSocket c = (d : DataSocket) × (c.data_socket ≡ some d)

module _ {W : Type 0} (os : Os W) (up : HasSockets os) where
  listen_on-Made : (d : DataSocket) (sockfd : ℕ) (s : State W) → Made (listen_on os d sockfd s)
  unfolding listen_on bind_socket set_final_port listen_socket
  listen_on-Made d sockfd s =
      rw (up.binds sockfd _ s.world)
        (rw (up.listens sockfd _) (record { data_socket = _; after = _; runs = refl }))

  setup-Made : (s : State W) → Made (setup_passive_data_socket os s)
  unfolding setup_passive_data_socket
  setup-Made s =
      let t : State W = record s { world = (os.malloc s.world).1 } in
      let (fd, given) = up.sockets t.world in
      rw (init_some os up.room s, ◌>>=◌)
        (subst (λ o. Made (((λ _. o) >>= listen_if os up.room new_data_socket) t))
          (sym (socket_some os up.room t fd given)) (listen_on-Made new_data_socket fd _))

  answer-HasDataSocket :
      (o : Outcome (Option DataSocket × State W)) (s : State W)
      → Made o
      → Leaves HasDataSocket (((λ _. o) >>= answer os up.room) s)
  answer-HasDataSocket o s m =
      subst (λ o. Leaves HasDataSocket (((λ _. o) >>= answer os up.room) s)) (sym m.runs)
        ((announce-Keeps os HasDataSocket m.data_socket).at _ (m.data_socket, refl))

  pasv-HasDataSocket :
      (command : Command) (s : State W)
      → s.logged_in ≡ true
      → Leaves HasDataSocket (pasv_command os command s)
  unfolding pasv_command create_passive_data_socket
  pasv-HasDataSocket command s logged =
      subst
        (λ b.
          Leaves HasDataSocket (
            (if b then create_passive_data_socket os else (do reply please_login; pure failure)) s))
        (sym logged) (answer-HasDataSocket (setup_passive_data_socket os s) s (setup-Made s))

  succeeded :
      (s : State W) (o : Outcome (CommandStatus × State W))
      → Answers os s o
      → Leaves HasDataSocket o
      → (t : State W) × (o ≡ done (success, t))
  succeeded s undefined a h = absurd a
  succeeded s (done (success, t)) a h = (t, refl)
  succeeded s (done (failure, t)) a h = absurd (cc (sym a ∙ h.1))
  succeeded s (done (not_found, t)) a h = absurd a
  succeeded s (done (quit, t)) a h = absurd a

  -- Where a socket can be made, bound and listened on, PASV from a client that has logged in succeeds.
  pub pasv_command-succeeds :
      (command : Command) (s : State W)
      → s.logged_in ≡ true
      → (t : State W) × (pasv_command os command s ≡ done (success, t))
  pasv_command-succeeds command s logged =
      succeeded s (pasv_command os command s) (pasv_command-Answers os up.room command s logged)
        (pasv-HasDataSocket command s logged)
