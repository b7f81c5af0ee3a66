-- ===== src/Server.antt =====
-- src/connection.c, `destroy_server` of src/destroyers.c and src/signal.c: the loop that polls the
-- sockets, accepts clients and runs their commands.
pub mod Loop
pub mod Rounds
pub mod Slots
pub mod Turns
pub mod Stopping
pub mod Clients
pub mod Logins
pub mod LoginRounds
use my_ftp.Prelude.{
  ℕ, zero, suc, Bool, true, false, ◌||◌, Option, none, some, List, [], ◌∷◌, ◌++◌, null_or,
  if◌then◌else◌, Text,
}
use my_ftp.Prelude.Outcome.{Outcome, undefined, done}
use my_ftp.Os.{Os, SockAddr}
use my_ftp.Reply.{service_ready, closing}
use my_ftp.Session.{Server, Connection, binary, Event, written, opened, closed, State}
use my_ftp.Session.Monad.{M, pure, ◌>>=◌, ◌>>◌, log}
use my_ftp.DataSocket.Destroy.{close, destroy_connection}
use my_ftp.ClientHandler.{handle_connection}

-- What the clients share: the system, and what has happened so far.
pub record Globals (W : Type 0) : Type 0 where
  pub world : W
  pub trace : List Event
  pub spawned : List (Option (List Event))

-- `fds[i]` and `connections[i]` for one i from 1 on. A descriptor of -1 is `none`; a connection is
-- `none` before its first use, and where `init_connection` returned a zeroed structure.
pub record Slot : Type 0 where
  pub fd : Option ℕ
  pub connection : Option Connection

abbrev pub max_clients : ℕ
max_clients = 128

abbrev pub free_slot : Slot
free_slot = record { fd = none; connection = none }

-- `init_poll_fds`, for the slots behind the one of the server
unfoldable pub init_slots : ℕ → List Slot
init_slots zero = []
init_slots (suc n) = free_slot ∷ init_slots n

module _ {W : Type 0} where
  abbrev pub note : Globals W → Event → Globals W
  note g e = record g { trace = g.trace ++ e ∷ [] }

  abbrev pub with_connection : Globals W → Connection → State W
  with_connection g c = record { conn = c; world = g.world; trace = g.trace; spawned = g.spawned }

  abbrev pub globals_of : State W → Globals W
  globals_of s = record { world = s.world; trace = s.trace; spawned = s.spawned }

module _ {W : Type 0} (os : Os W) where
  -- The new connection, or a zeroed structure once the socket is closed.
  unfoldable pub init_connection : Server → ℕ → SockAddr → Globals W → Option Connection × Globals W
  init_connection server client_sockfd client_addr g =
      let (allocated, w) = os.malloc g.world in
      let (streamed, w') = os.fdopen client_sockfd w in
      if streamed
      then (
        some (record {
          server = server;
          client_sockfd = client_sockfd;
          client_addr = if allocated then some client_addr else none;
          stream = some client_sockfd;
          logged_in = false;
          user = none;
          working_directory = some server.path;
          data_socket = none;
          transfer_mode = binary;
        }),
        record g { world = w' },
      )
      else (none, note (record g { world = os.close client_sockfd w' }) (closed client_sockfd))

  -- the loop of `accept_new_connection`: the first free slot takes the client
  unfoldable pub assign : Server → ℕ → SockAddr → List Slot → Globals W → List Slot × Globals W
  unfolding init_connection
  assign server fd addr [] g = ([], g)
  assign server fd addr (slot ∷ slots) g =
      let (rest, g') = assign server fd addr slots g in
      let (c, h) = init_connection server fd addr g in
      null_or slot.fd (record { fd = some fd; connection = c } ∷ slots, h) (λ _. (slot ∷ rest, g'))

  unfoldable pub accept_new_connection : Server → List Slot → Globals W → List Slot × Globals W
  unfolding assign
  accept_new_connection server slots g =
      let (peer, w) = os.accept server.sockfd g.world in
      let h = record g { world = w } in
      null_or peer (slots, h)
        (λ (fd, addr).
          assign server fd addr slots (note (note h (opened fd)) (written fd service_ready)))

  -- the slot behind a call of `handle_connection`
  abbrev pub slot_after : ℕ → Outcome (Bool × State W) → Outcome (Slot × Globals W)
  slot_after fd undefined = undefined
  slot_after fd (done (freed, s)) =
      done (record { fd = if freed then none else some fd; connection = some s.conn }, globals_of s)

  -- a client whose socket is readable
  unfoldable pub handle_slot : ℕ → Option Connection → Globals W → Outcome (Slot × Globals W)
  handle_slot fd none g = undefined
  handle_slot fd (some c) g = slot_after fd (handle_connection os fd (with_connection g c))

  -- the body of the loop of `process_client_events`; the flag is `revents & POLLIN`
  unfoldable pub process_slot : Slot → Bool → Globals W → Outcome (Slot × Globals W)
  process_slot slot readable g =
      null_or slot.fd (done (slot, g))
        (λ fd. if readable then handle_slot fd slot.connection g else done (slot, g))

  abbrev pub and_then :
      {A B : Type 0} → Outcome (A × Globals W) → (A → Globals W → Outcome B) → Outcome B
  and_then undefined f = undefined
  and_then (done (a, g)) f = f a g

  -- A slot that `poll` says nothing of is not readable.
  unfoldable pub process_client_events :
      List Slot → List Bool → Globals W → Outcome (List Slot × Globals W)
  process_client_events [] revents g = done ([], g)
  process_client_events (slot ∷ slots) [] g = done (slot ∷ slots, g)
  process_client_events (slot ∷ slots) (readable ∷ revents) g =
      and_then (process_slot slot readable g) λ slot' g'.
        and_then (process_client_events slots revents g') λ slots' g''. done (slot' ∷ slots', g'')
