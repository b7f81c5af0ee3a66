-- ===== src/Commands/PassiveSetup.antt =====
-- src/passive_data_socket.c: what `setup_passive_data_socket` returns.
use mathlib.Core.Path.{subst}
use my_ftp.Prelude.{
  ℕ, ◌≤◌, ◌≡◌, refl, sym, true, Option, none, some, [], ◌∷◌, ◌++◌, null_or, Bool-cases,
  Option-cases, inl, inr,
}
use my_ftp.Prelude.Int.{pos}
use my_ftp.Prelude.Outcome.{Outcome, undefined, done}
use my_ftp.Os.{Os}
use my_ftp.Os.Listener.{IsListener}
use my_ftp.Session.{DataSocket, passive, opened, State}
use my_ftp.Session.Monad.{M, pure, ◌>>=◌}
use my_ftp.DataSocket.Passive.{
  setup_socket_fd, set_final_port, bind_socket, listen_socket, init_passive_data_socket,
  init_sockin, new_data_socket, listen_on, setup_passive_data_socket,
}

-- There is memory, and the port of a socket fits 16 bits.
pub record HasRoom {W : Type 0} (os : Os W) : Type 0 where
  pub memory : (w : W) → (os.malloc w).0 ≡ true
  pub sixteen_bits : (fd : ℕ) (w : W) → (os.getsockname_port fd w).0 ≤ 65535

-- what `setup_passive_data_socket` returns
pub record Listening {W : Type 0} (os : Os W) (s : State W) (d : DataSocket) (t : State W)
    : Type 0 where
  pub sockfd : ℕ
  pub port : ℕ
  pub fits : port ≤ 65535
  pub numbered : d.port ≡ pos port
  pub listener : IsListener os sockfd d.addr port (os.malloc s.world).1 t.world
  pub loopback : d.addr ≡ init_sockin
  pub listens : d.data_sockfd ≡ some sockfd
  pub mode : d.data_socket_mode ≡ passive
  pub unforked : t.spawned ≡ s.spawned
  pub same : t.client_sockfd ≡ s.client_sockfd
  pub said : t.trace ≡ s.trace ++ opened sockfd ∷ []

abbrev pub MaybeListening :
    {W : Type 0} → Os W → State W → Outcome (Option DataSocket × State W) → Type 0
MaybeListening os s undefined = ⊥
MaybeListening os s (done (none, t)) = Unit
MaybeListening os s (done (some d, t)) = Listening os s d t

module _ {W : Type 0} (os : Os W) (room : HasRoom os) where
  -- the state once `socket` has returned this descriptor
  abbrev behind_socket : State W → ℕ → State W
  behind_socket s sockfd = record s {
    world = (os.socket (os.malloc s.world).1).1;
    trace = s.trace ++ opened sockfd ∷ [];
  }

  listen_on-Listening :
      (d : DataSocket) (sockfd : ℕ) (s : State W)
      → d.data_socket_mode ≡ passive
      → (os.socket (os.malloc s.world).1).0 ≡ some sockfd
      → MaybeListening os s (listen_on os d sockfd (behind_socket s sockfd))
  unfolding listen_on bind_socket set_final_port listen_socket
  listen_on-Listening d sockfd s mode given =
      let w = (os.bind sockfd init_sockin (os.socket (os.malloc s.world).1).1).1 in
      elim (Bool-cases (os.bind sockfd init_sockin (os.socket (os.malloc s.world).1).1).0) [
        | inr loose ↦ rw loose tt
        | inl tied ↦
            rw tied (elim (Bool-cases (os.listen sockfd (os.getsockname_port sockfd w).1).0) [
              | inr deaf ↦ rw (deaf, MaybeListening) tt
              | inl heard ↦
                  rw (heard, MaybeListening)
                    (record {
                      sockfd = sockfd;
                      port = (os.getsockname_port sockfd w).0;
                      fits = room.sixteen_bits sockfd w;
                      numbered = refl;
                      listener = record {
                        made = given;
                        bound = tied;
                        named = refl;
                        hears = heard;
                        left = refl;
                      };
                      loopback = refl;
                      listens = refl;
                      mode = mode;
                      unforked = refl;
                      same = refl;
                      said = refl;
                    })
            ])
      ]

  socket_none :
      (s : State W)
      → (os.socket s.world).0 ≡ none
      → setup_socket_fd os s ≡ done (none, record s { world = (os.socket s.world).1 })
  unfolding setup_socket_fd
  socket_none s e = rw e refl

  pub socket_some :
      (s : State W) (fd : ℕ)
      → (os.socket s.world).0 ≡ some fd
      → setup_socket_fd os s
        ≡ done
            (some fd, record s { world = (os.socket s.world).1; trace = s.trace ++ opened fd ∷ [] })
  unfolding setup_socket_fd
  socket_some s fd e = rw e refl

  -- `setup_passive_data_socket` behind the two calls
  abbrev pub listen_if : DataSocket → Option ℕ → M W (Option DataSocket)
  listen_if d fd = null_or fd (pure none) (λ sockfd. listen_on os d sockfd)

  socket-Listening :
      (d : DataSocket) (s before : State W) (o : Outcome (Option ℕ × State W)) (fd : Option ℕ)
      (t : State W)
      → o ≡ done (fd, t)
      → MaybeListening os s (listen_if d fd t)
      → MaybeListening os s (((λ _. o) >>= listen_if d) before)
  socket-Listening d s before o fd t e h =
      subst (λ o. MaybeListening os s (((λ _. o) >>= listen_if d) before)) (sym e) h

  pub init_some :
      (s : State W)
      → init_passive_data_socket os s
        ≡ done (some new_data_socket, record s { world = (os.malloc s.world).1 })
  unfolding init_passive_data_socket
  init_some s = rw (room.memory s.world) refl

  socket_if-Listening :
      (s : State W)
      → MaybeListening os s (
          ((setup_socket_fd os) >>= listen_if new_data_socket)
            (record s { world = (os.malloc s.world).1 }))
  socket_if-Listening s =
      let t : State W = record s { world = (os.malloc s.world).1 } in
      elim (Option-cases (os.socket t.world).0) [
        | inl none_left ↦
            socket-Listening _ s t (setup_socket_fd os t) none _ (socket_none t none_left) tt
        | inr (sockfd, given) ↦
            socket-Listening _ s t (setup_socket_fd os t) (some sockfd) _
              (socket_some t sockfd given) (listen_on-Listening _ sockfd s refl given)
      ]

  pub setup-Listening : (s : State W) → MaybeListening os s (setup_passive_data_socket os s)
  unfolding setup_passive_data_socket
  setup-Listening s = rw (init_some s, ◌>>=◌) (socket_if-Listening s)
