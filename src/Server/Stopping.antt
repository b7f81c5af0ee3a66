-- ===== src/Server/Stopping.antt =====
-- `destroy_server` of src/destroyers.c: every client is told, and every socket is closed.
use mathlib.Core.Path.{subst}
use mathlib.Core.List.{append-nil, append_assoc}
use my_ftp.Prelude.{
  ℕ, ◌≡◌, refl, sym, ap, ◌∙◌, true, Option, none, some, List, [], ◌∷◌, ◌++◌, null_or, All,
}
use my_ftp.Prelude.Outcome.{Outcome, undefined, done}
use my_ftp.Os.{Os, SockAddr}
use my_ftp.Reply.{closing}
use my_ftp.Session.{
  Server, Connection, DataSocket, DataSocketMode, passive, active, Address, Event, written, closed,
  State,
}
use my_ftp.Session.Monad.{M, pure, ◌>>=◌, ◌>>◌, log, gets, deref}
use my_ftp.DataSocket.Destroy.{
  close, describe_client, describe, destroy_data_socket, destroy_connection,
}
use my_ftp.Server.{Globals, Slot, with_connection}
use my_ftp.Server.Loop.{globals_after, then_globals, destroy_slot, destroy_slots, destroy_server}

-- a data socket as `PASV` and `PORT` make them: an active one has its address
abbrev pub HasAddress : DataSocketMode → Option Address → Type 0
HasAddress passive address = Unit
HasAddress active none = ⊥
HasAddress active (some _) = Unit

abbrev pub IsMade : Option DataSocket → Type 0
IsMade none = Unit
IsMade (some d) = HasAddress d.data_socket_mode d.address

-- a connection as `init_connection` makes it where no call fails
pub record IsOpen (c : Connection) : Type 0 where
  pub peer : SockAddr
  pub known : c.client_addr ≡ some peer
  pub stream : ℕ
  pub streamed : c.stream ≡ some stream
  pub prepared : IsMade c.data_socket

-- a slot is free, or has an open connection
abbrev pub OpenIfTaken : Option ℕ → Option Connection → Type 0
OpenIfTaken none c = Unit
OpenIfTaken (some fd) none = ⊥
OpenIfTaken (some fd) (some c) = IsOpen c

abbrev pub IsReady : Slot → Type 0
IsReady slot = OpenIfTaken slot.fd slot.connection

-- what is closed with a data socket, with a stream, and with a slot
abbrev pub closes : Option ℕ → List Event
closes none = []
closes (some fd) = closed fd ∷ []

abbrev pub data_closes : Option DataSocket → List Event
data_closes none = []
data_closes (some d) = closes d.client_sockfd

abbrev pub farewell : ℕ → Option Connection → List Event
farewell fd none = []
farewell fd (some c) =
    written fd closing ∷ (data_closes c.data_socket ++ (closes c.stream ++ closed fd ∷ []))

abbrev pub slot_farewell : Slot → List Event
slot_farewell slot = null_or slot.fd [] (λ fd. farewell fd slot.connection)

abbrev pub farewells : List Slot → List Event
farewells [] = []
farewells (slot ∷ slots) = slot_farewell slot ++ farewells slots

-- the outcome is defined, and these are the events that it adds
abbrev pub Adds : {W : Type 0} → List Event → Globals W → Outcome (Globals W) → Type 0
Adds events g undefined = ⊥
Adds events g (done h) = h.trace ≡ g.trace ++ events

-- the same for an action on a connection, which it leaves as it was
abbrev pub Says : {W : Type 0} → List Event → State W → Outcome (Unit {0} × State W) → Type 0
Says events s undefined = ⊥
Says events s (done (_, t)) = (t.conn ≡ s.conn) × (t.trace ≡ s.trace ++ events)

module _ {W : Type 0} (os : Os W) where
  Says-bind :
      (o : Outcome (Unit {0} × State W)) (k : M W (Unit {0})) (s : State W) (x y : List Event)
      → Says x s o
      → ((t : State W) → t.conn ≡ s.conn → Says y t (k t))
      → Says (x ++ y) s (((λ _. o) >> k) s)
  Says-bind undefined k s x y h all = h
  Says-bind (done (_, t)) k s x y (same, said) all = joined (k t) (all t same)
    where
      joined : (o : Outcome (Unit {0} × State W)) → Says y t o → Says (x ++ y) s o
      joined undefined h = h
      joined (done (_, u)) (p, q) = (p ∙ same, q ∙ ap (λ r. r ++ y) said ∙ append_assoc s.trace x y)

  socket-Says :
      (mode : DataSocketMode) (d : DataSocket) (s : State W) (address : Option Address)
      (fd : Option ℕ)
      → d.address ≡ address
      → d.client_sockfd ≡ fd
      → HasAddress mode address
      → Says
          (closes fd)
          s
          ((describe os mode d true >> null_or d.client_sockfd (pure tt) (λ n. close os n)) s)
  unfolding describe
  socket-Says passive d s address none a f h = rw f (refl, sym (append-nil s.trace))
  socket-Says passive d s address (some fd) a f h = rw f (refl, refl)
  socket-Says active d s none fd a f h = absurd h
  socket-Says active d s (some _) none a f h = rw (a, f) (refl, sym (append-nil s.trace))
  socket-Says active d s (some _) (some fd) a f h = rw (a, f) (refl, refl)

  destroy_data_socket-Says :
      (d : Option DataSocket) (s : State W)
      → IsMade d
      → Says (data_closes d) s (destroy_data_socket os d true s)
  unfolding destroy_data_socket
  destroy_data_socket-Says none s h = (refl, sym (append-nil s.trace))
  destroy_data_socket-Says (some d) s h =
      socket-Says d.data_socket_mode d s d.address d.client_sockfd refl refl h

  -- the last steps of `destroy_connection`
  abbrev close_stream : M W (Unit {0})
  close_stream = do stream ← gets (λ s. s.conn.stream); fd ← deref stream; close os fd

  abbrev close_both : M W (Unit {0})
  close_both = do
    data_socket ← gets (λ s. s.data_socket)
    destroy_data_socket os data_socket true
    close_stream

  close_stream-Says :
      (s : State W) (stream : ℕ)
      → s.conn.stream ≡ some stream
      → Says (closes s.conn.stream) s (close_stream s)
  close_stream-Says s stream e = rw e (refl, refl)

  abbrev connection_closes : Connection → List Event
  connection_closes c = data_closes c.data_socket ++ closes c.stream

  close_both-Says : (s : State W) → IsOpen s.conn → Says (connection_closes s.conn) s (close_both s)
  close_both-Says s h =
      Says-bind (destroy_data_socket os s.data_socket true s) close_stream s _ _
        (destroy_data_socket-Says s.data_socket s h.prepared)
        (λ t same.
          subst (λ c. Says (closes c.stream) t (close_stream t)) same
            (close_stream-Says t h.stream (ap (λ c. c.stream) same ∙ h.streamed)))

  describe_client-Says :
      (s : State W) (peer : SockAddr)
      → s.conn.client_addr ≡ some peer
      → Says [] s (describe_client os true s)
  describe_client-Says s peer e = rw e (refl, sym (append-nil s.trace))

  destroy_connection-Says :
      (s : State W)
      → IsOpen s.conn
      → Says (connection_closes s.conn) s (destroy_connection os true s)
  unfolding destroy_connection
  destroy_connection-Says s h =
      Says-bind (describe_client os true s) close_both s [] (connection_closes s.conn)
        (describe_client-Says s h.peer h.known)
        (λ t same.
          subst (λ c. Says (connection_closes c) t (close_both t)) same
            (close_both-Says t (subst IsOpen (sym same) h)))

  pub farewell-Says :
      (fd : ℕ) (s : State W)
      → IsOpen s.conn
      → Says
          (farewell fd (some s.conn))
          s
          ((log (written fd closing) >> (destroy_connection os true >> close os fd)) s)
  farewell-Says fd s h =
      Says-bind (log (written fd closing) s) (destroy_connection os true >> close os fd) s
        (written fd closing ∷ [])
        (data_closes s.data_socket ++ (closes s.conn.stream ++ closed fd ∷ [])) (refl, refl)
        (λ t same.
          subst (λ e. Says e t ((destroy_connection os true >> close os fd) t))
            (append_assoc (data_closes s.data_socket) (closes s.conn.stream) (closed fd ∷ []))
            (subst
              (λ c.
                Says (connection_closes c ++ closed fd ∷ []) t
                  ((destroy_connection os true >> close os fd) t))
              same
              (Says-bind (destroy_connection os true t) (close os fd) t (connection_closes t.conn)
                (closed fd ∷ []) (destroy_connection-Says t (subst IsOpen (sym same) h))
                (λ u same'. (refl, refl)))))

  Says-Adds :
      (events : List Event) (g : Globals W) (c : Connection) (o : Outcome (Unit {0} × State W))
      → Says events (with_connection g c) o
      → Adds events g (globals_after os o)
  Says-Adds events g c undefined h = h
  Says-Adds events g c (done (_, t)) h = h.1

  destroy_slot-Adds :
      (fd : Option ℕ) (c : Option Connection) (slot : Slot) (g : Globals W)
      → slot.fd ≡ fd
      → slot.connection ≡ c
      → OpenIfTaken fd c
      → Adds (slot_farewell slot) g (destroy_slot os slot g)
  unfolding destroy_slot
  destroy_slot-Adds none c slot g f e h = rw f (sym (append-nil g.trace))
  destroy_slot-Adds (some fd) none slot g f e h = absurd h
  destroy_slot-Adds (some fd) (some c) slot g f e h =
      rw (f, e) (Says-Adds (farewell fd (some c)) g c _ (farewell-Says fd (with_connection g c) h))

  Adds-then :
      (o : Outcome (Globals W)) (k : Globals W → Outcome (Globals W)) (x y : List Event)
      (g : Globals W)
      → Adds x g o
      → ((h : Globals W) → Adds y h (k h))
      → Adds (x ++ y) g (then_globals os o k)
  Adds-then undefined k x y g h all = h
  Adds-then (done h) k x y g said all = joined (k h) (all h)
    where
      joined : (o : Outcome (Globals W)) → Adds y h o → Adds (x ++ y) g o
      joined undefined p = p
      joined (done u) p = p ∙ ap (λ r. r ++ y) said ∙ append_assoc g.trace x y

  destroy_slots-Adds :
      (slots : List Slot) (g : Globals W)
      → All IsReady slots
      → Adds (farewells slots) g (destroy_slots os slots g)
  unfolding destroy_slots
  destroy_slots-Adds [] g h = sym (append-nil g.trace)
  destroy_slots-Adds (slot ∷ slots) g (h, hs) =
      Adds-then (destroy_slot os slot g) (destroy_slots os slots) _ _ g
        (destroy_slot-Adds slot.fd slot.connection slot g refl refl h)
        (λ k. destroy_slots-Adds slots k hs)

  -- Where every slot is free or has an open connection, stopping the server is defined: each client in
  -- turn is told 221, and its data connection, its stream and its socket are closed, and at last the
  -- listening socket is.
  pub destroy_server-Adds :
      (server : Server) (slots : List Slot) (g : Globals W)
      → All IsReady slots
      → Adds (farewells slots ++ closed server.sockfd ∷ []) g (destroy_server os server slots g)
  unfolding destroy_server
  destroy_server-Adds server slots g h =
      Adds-then (destroy_slots os slots g) _ (farewells slots) (closed server.sockfd ∷ []) g
        (destroy_slots-Adds slots g h) (λ k. refl)
