-- ===== src/Server/Rounds.antt =====
-- The invariants of the clients, over any number of rounds of the server's loop.
use mathlib.Core.Path.{subst}
use my_ftp.Prelude.{
  ℕ, zero, suc, ◌≡◌, refl, ap, Bool, true, false, Option, none, some, List, [], ◌∷◌, null_or,
  if◌then◌else◌, All, Bool-cases, inl, inr, starts_with_refl,
}
use my_ftp.Prelude.Outcome.{Outcome, undefined, done}
use my_ftp.Os.{Os, SockAddr}
use my_ftp.Session.{Server, Connection}
use my_ftp.Session.Keeps.{Keeps}
use my_ftp.Commands.Confinement.{Within, RootStays}
use my_ftp.ClientHandler.{handle_connection}
use my_ftp.ClientHandler.Lines.{handle_connection-Keeps}
use my_ftp.ClientHandler.Authentic.{IsAuthentic, handle_client_command-Authentic}
use my_ftp.ClientHandler.Confined.{handle_client_command-Confined}
use my_ftp.Server.{
  Globals, Slot, init_slots, max_clients, init_connection, assign, accept_new_connection,
}
use my_ftp.Server.Clients.{Holds, SlotHolds, SlotsHold, process_client_events-Holds, assign-Holds}
use my_ftp.Server.Loop.{
  Round, serve_events, process_connection, handle_signal, go_on, then_round, serve,
}

abbrev RoundHolds : {W : Type 0} → (Connection → Type 0) → Outcome (Round W) → Type 0
RoundHolds Q undefined = Unit
RoundHolds Q (done r) = All (SlotHolds Q) r.slots

init_slots-Holds : (Q : Connection → Type 0) (n : ℕ) → All (SlotHolds Q) (init_slots n)
unfolding init_slots
init_slots-Holds Q zero = tt
init_slots-Holds Q (suc n) = (tt, init_slots-Holds Q n)

module _ {W : Type 0} (os : Os W) (server : Server) (Q : Connection → Type 0)
    (keeps : (fd : ℕ) → Keeps Q (handle_connection os fd))
    (fresh : (fd : ℕ) (addr : SockAddr) (g : Globals W)
      → Holds Q (init_connection os server fd addr g).0) where
  accepted-Holds :
      (peer : Option (ℕ × SockAddr)) (slots : List Slot) (g : Globals W) (h : ℕ → Globals W)
      → All (SlotHolds Q) slots
      → All
          (SlotHolds Q)
          (null_or peer (slots, g) (λ (fd, addr). assign os server fd addr slots (h fd))).0
  accepted-Holds none slots g h k = k
  accepted-Holds (some (fd, addr)) slots g h k =
      assign-Holds os server Q keeps fresh fd addr slots (h fd) k

  accept_new_connection-Holds :
      (slots : List Slot) (g : Globals W)
      → All (SlotHolds Q) slots
      → All (SlotHolds Q) (accept_new_connection os server slots g).0
  unfolding accept_new_connection
  accept_new_connection-Holds slots g k =
      accepted-Holds (os.accept server.sockfd g.world).0 slots _ _ k

  serve_events-Holds :
      (slots : List Slot) (revents : List Bool) (g : Globals W)
      → All (SlotHolds Q) slots
      → SlotsHold Q (serve_events os server slots revents g)
  unfolding serve_events
  serve_events-Holds slots [] g k = k
  serve_events-Holds slots (true ∷ revents) g k =
      process_client_events-Holds os server Q keeps fresh _ revents _
        (accept_new_connection-Holds slots g k)
  serve_events-Holds slots (false ∷ revents) g k =
      process_client_events-Holds os server Q keeps fresh slots revents g k

  go_on-Holds : (o : Outcome (List Slot × Globals W)) → SlotsHold Q o → RoundHolds Q (go_on os o)
  go_on-Holds undefined k = tt
  go_on-Holds (done (slots, g)) k = k

  polled-Holds :
      (flags : Option (List Bool)) (slots : List Slot) (g : Globals W)
      → All (SlotHolds Q) slots
      → RoundHolds Q (
          null_or flags
            (done (record { interrupted = true; slots = slots; globals = g }))
            (λ revents. go_on os (serve_events os server slots revents g)))
  polled-Holds none slots g k = k
  polled-Holds (some revents) slots g k =
      go_on-Holds (serve_events os server slots revents g) (serve_events-Holds slots revents g k)

  process_connection-Holds :
      (slots : List Slot) (g : Globals W)
      → All (SlotHolds Q) slots
      → RoundHolds Q (process_connection os server slots g)
  unfolding process_connection
  process_connection-Holds slots g k = polled-Holds _ slots _ k

  next-Holds :
      (o : Outcome (Round W)) (next : Round W → Outcome (Round W))
      → RoundHolds Q o
      → ((r : Round W) → All (SlotHolds Q) r.slots → RoundHolds Q (next r))
      → RoundHolds Q (then_round os o next)
  next-Holds undefined next k all = tt
  next-Holds (done r) next k all = all r k

  if-Holds :
      (b : Bool) (x y : Outcome (Round W))
      → RoundHolds Q x
      → RoundHolds Q y
      → RoundHolds Q (if b then x else y)
  if-Holds true x y h k = h
  if-Holds false x y h k = k

  serve-Holds :
      (rounds : ℕ) (stop : Bool) (slots : List Slot) (g : Globals W)
      → All (SlotHolds Q) slots
      → RoundHolds Q (serve os rounds server stop slots g)
  unfolding serve
  serve-Holds zero stop slots g k = k
  serve-Holds (suc rounds) stop slots g k =
      if-Holds (handle_signal (os.signalled g.world).0 stop) _ _ k (
        next-Holds (process_connection os server slots _) _ (process_connection-Holds slots _ k)
          λ r h. if-Holds r.interrupted _ _ h (serve-Holds rounds _ r.slots r.globals h))

init_connection-Holds :
    {W : Type 0} (Q : Connection → Type 0) (os : Os W) (server : Server) (fd : ℕ) (addr : SockAddr)
    (g : Globals W)
    → ((c : Connection)
        → c.server ≡ server
        → c.working_directory ≡ some server.path
        → c.logged_in ≡ false
        → c.user ≡ none
        → Q c)
    → Holds Q (init_connection os server fd addr g).0
unfolding init_connection
init_connection-Holds Q os server fd addr g h =
    elim (Bool-cases (os.fdopen fd (os.malloc g.world).1).0) [
      | inl streamed ↦ rw streamed (h _ refl refl refl refl)
      | inr failed ↦ rw failed tt
    ]

init_connection-IsAuthentic :
    {W : Type 0} (os : Os W) (server : Server) (fd : ℕ) (addr : SockAddr) (g : Globals W)
    → Holds IsAuthentic (init_connection os server fd addr g).0
init_connection-IsAuthentic os server fd addr g =
    init_connection-Holds IsAuthentic os server fd addr g (λ c s d l u. rw l (rw u tt))

init_connection-Within :
    {W : Type 0} (os : Os W) (server : Server) (fd : ℕ) (addr : SockAddr) (g : Globals W)
    → Holds (Within server.path) (init_connection os server fd addr g).0
init_connection-Within os server fd addr g =
    init_connection-Holds (Within server.path) os server fd addr g (λ c s d l u. record {
      path = server.path;
      served = ap Server.path s;
      directory = d;
      prefix = starts_with_refl server.path;
    })

-- After any number of rounds of the server's loop in which the code is defined, whatever the clients
-- send and whatever the system answers, only the anonymous user is logged in, on every connection.
pub serve-IsAuthentic :
    {W : Type 0} (os : Os W) (rounds : ℕ) (server : Server) (g : Globals W) (r : Round W)
    → serve os rounds server false (init_slots max_clients) g ≡ done r
    → All (SlotHolds IsAuthentic) r.slots
serve-IsAuthentic os rounds server g r e = subst (RoundHolds IsAuthentic) e (
    serve-Holds os server IsAuthentic
      (handle_connection-Keeps os IsAuthentic (handle_client_command-Authentic os))
      (init_connection-IsAuthentic os server) rounds false (init_slots max_clients) g
      (init_slots-Holds IsAuthentic max_clients))

-- After any number of rounds of the server's loop in which the code is defined, while the root of the
-- server stays in place, the working directory of every connection begins with the path of the root.
pub serve-Within :
    {W : Type 0} (os : Os W) (rounds : ℕ) (server : Server) (g : Globals W) (r : Round W)
    → RootStays os server.path
    → serve os rounds server false (init_slots max_clients) g ≡ done r
    → All (SlotHolds (Within server.path)) r.slots
serve-Within os rounds server g r stays e = subst (RoundHolds (Within server.path)) e (
    serve-Holds os server (Within server.path)
      (handle_connection-Keeps os (Within server.path)
        (handle_client_command-Confined os server.path stays))
      (init_connection-Within os server) rounds false (init_slots max_clients) g
      (init_slots-Holds (Within server.path) max_clients))
