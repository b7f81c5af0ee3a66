-- ===== src/Server/LoginRounds.antt =====
-- The rounds of the loop of src/connection.c are rounds of the machine of `Login.Table`.
use mathlib.Core.Path.{subst}
use my_ftp.Prelude.{
  ℕ, zero, suc, ◌≡◌, Bool, true, false, Option, none, some, List, [], ◌∷◌, null_or, if◌then◌else◌,
}
use my_ftp.Prelude.Outcome.{Outcome, undefined, done}
use my_ftp.Os.{Os, SockAddr}
use my_ftp.Session.{Server}
use my_ftp.Login.Table.{
  Table, Turn, idles, obeys, leaves, Turns, all_done, turn, Turns-idle, Arrives, turned_away,
  seated, passes, quiet, arrival, Rounds, over, next,
}
use my_ftp.Login.Table
use my_ftp.Server.{Globals, Slot, assign, accept_new_connection, process_client_events}
use my_ftp.Server.Loop.{
  Round, serve_events, process_connection, handle_signal, go_on, then_round, serve,
}
use my_ftp.Server.Logins.{logins, SlotsTurn, process_client_events-Turns, assign-Arrives}

abbrev SlotsRound : {W : Type 0} → Table → Outcome (List Slot × Globals W) → Type 0
SlotsRound t undefined = Unit
SlotsRound t (done (slots, g)) = Table.Round t (logins slots)

abbrev RoundGoes : {W : Type 0} → Table → Outcome (Round W) → Type 0
RoundGoes t undefined = Unit
RoundGoes t (done r) = Table.Round t (logins r.slots)

abbrev RoundsGo : {W : Type 0} → Table → Outcome (Round W) → Type 0
RoundsGo t undefined = Unit
RoundsGo t (done r) = Rounds t (logins r.slots)

behind-Go :
    {W : Type 0} (t u : Table) (o : Outcome (Round W))
    → Table.Round t u
    → RoundsGo u o
    → RoundsGo t o
behind-Go t u undefined h k = tt
behind-Go t u (done r) h k = next h k

module _ {W : Type 0} (os : Os W) where
  arrival-Round :
      (t : Table) (slots : List Slot) (o : Outcome (List Slot × Globals W))
      → Arrives t (logins slots)
      → SlotsTurn (logins slots) o
      → SlotsRound t o
  arrival-Round t slots undefined h k = tt
  arrival-Round t slots (done (slots', g)) h k = arrival h k

  quiet-Round : (t : Table) (o : Outcome (List Slot × Globals W)) → SlotsTurn t o → SlotsRound t o
  quiet-Round t undefined k = tt
  quiet-Round t (done (slots, g)) k = quiet k

  accepted-Round :
      (server : Server) (peer : Option (ℕ × SockAddr)) (slots : List Slot) (g : Globals W)
      (h : ℕ → Globals W) (revents : List Bool)
      → let (slots', g') =
          null_or peer (slots, g) (λ (fd, addr). assign os server fd addr slots (h fd)) in
        SlotsRound (logins slots) (process_client_events os slots' revents g')
  accepted-Round server none slots g h revents =
      quiet-Round (logins slots) (process_client_events os slots revents g)
        (process_client_events-Turns os slots revents g)
  accepted-Round server (some (fd, addr)) slots g h revents =
      let (slots', g') = assign os server fd addr slots (h fd) in
      arrival-Round (logins slots) slots' (process_client_events os slots' revents g')
        (assign-Arrives os server fd addr slots (h fd))
        (process_client_events-Turns os slots' revents g')

  serve_events-Round :
      (server : Server) (slots : List Slot) (revents : List Bool) (g : Globals W)
      → SlotsRound (logins slots) (serve_events os server slots revents g)
  unfolding serve_events accept_new_connection
  serve_events-Round server slots [] g = quiet (Turns-idle (logins slots))
  serve_events-Round server slots (true ∷ revents) g =
      accepted-Round server (os.accept server.sockfd g.world).0 slots _ _ revents
  serve_events-Round server slots (false ∷ revents) g =
      quiet-Round (logins slots) (process_client_events os slots revents g)
        (process_client_events-Turns os slots revents g)

  go_on-Goes :
      (t : Table) (o : Outcome (List Slot × Globals W)) → SlotsRound t o → RoundGoes t (go_on os o)
  go_on-Goes t undefined h = tt
  go_on-Goes t (done (slots, g)) h = h

  polled-Goes :
      (server : Server) (flags : Option (List Bool)) (slots : List Slot) (g : Globals W)
      → RoundGoes (logins slots) (
          null_or flags
            (done (record { interrupted = true; slots = slots; globals = g }))
            (λ revents. go_on os (serve_events os server slots revents g)))
  polled-Goes server none slots g = quiet (Turns-idle (logins slots))
  polled-Goes server (some revents) slots g =
      go_on-Goes (logins slots) (serve_events os server slots revents g)
        (serve_events-Round server slots revents g)

  process_connection-Goes :
      (server : Server) (slots : List Slot) (g : Globals W)
      → RoundGoes (logins slots) (process_connection os server slots g)
  unfolding process_connection
  process_connection-Goes server slots g = polled-Goes server _ slots _

  then_round-Go :
      (t : Table) (o : Outcome (Round W)) (rest : Round W → Outcome (Round W))
      → RoundGoes t o
      → ((r : Round W) → RoundsGo (logins r.slots) (rest r))
      → RoundsGo t (then_round os o rest)
  then_round-Go t undefined rest h k = tt
  then_round-Go t (done r) rest h k = behind-Go t (logins r.slots) (rest r) h (k r)

  if-Go :
      (t : Table) (b : Bool) (x y : Outcome (Round W))
      → RoundsGo t x
      → RoundsGo t y
      → RoundsGo t (if b then x else y)
  if-Go t true x y h k = h
  if-Go t false x y h k = k

  serve-Go :
      (rounds : ℕ) (server : Server) (stop : Bool) (slots : List Slot) (g : Globals W)
      → RoundsGo (logins slots) (serve os rounds server stop slots g)
  unfolding serve
  serve-Go zero server stop slots g = over (logins slots)
  serve-Go (suc rounds) server stop slots g =
      if-Go (logins slots) (handle_signal (os.signalled g.world).0 stop) _ _ (over (logins slots)) (
        then_round-Go (logins slots) (process_connection os server slots _) _
          (process_connection-Goes server slots _)
          λ r.
            if-Go (logins r.slots) r.interrupted _ _ (over (logins r.slots))
              (serve-Go rounds server _ r.slots r.globals))

  -- Where the code is defined, the rounds of the server's loop are rounds of the machine of logins: in each,
  -- at most one client arrives, in the first free place and with no user, and then each client in turn stays
  -- as it is, has one command change its login as `auth_step` says, or leaves.
  pub serve-Rounds :
      (rounds : ℕ) (server : Server) (stop : Bool) (slots : List Slot) (g : Globals W) (r : Round W)
      → serve os rounds server stop slots g ≡ done r
      → Rounds (logins slots) (logins r.slots)
  serve-Rounds rounds server stop slots g r e =
      subst (RoundsGo (logins slots)) e (serve-Go rounds server stop slots g)
