-- ===== src/Server/Logins.antt =====
-- The loop of src/connection.c moves the logins of its clients as the machine of `Login.Table` moves.
use mathlib.Core.Path.{subst}
use my_ftp.Prelude.{
  ℕ, ◌≡◌, refl, sym, Bool, true, false, Option, none, some, List, [], ◌∷◌, map, null_or,
  Option-cases, Bool-cases, inl, inr,
}
use my_ftp.Prelude.Outcome.{Outcome, undefined, done}
use my_ftp.Os.{Os, SockAddr}
use my_ftp.Session.{Server, Connection, State}
use my_ftp.Session.Keeps.{Leaves}
use my_ftp.ClientHandler.{handle_connection}
use my_ftp.ClientHandler.Obeys.{Obeyed, handle_connection-Obeyed}
use my_ftp.Login.Spec.{Auth, no_user, auth_of}
use my_ftp.Login.Table.{
  Table, Turn, idles, obeys, leaves, Turns, all_done, turn, Turns-idle, Arrives, turned_away,
  seated, passes,
}
use my_ftp.Server.{
  Globals, Slot, with_connection, init_connection, assign, slot_after, handle_slot, process_slot,
  process_client_events, and_then,
}

-- A connection that could not be set up has no user.
abbrev pub client_login : Option Connection → Auth
client_login none = no_user
client_login (some c) = auth_of c

abbrev pub slot_login : Slot → Option Auth
slot_login slot = null_or slot.fd none (λ _. some (client_login slot.connection))

abbrev pub logins : List Slot → Table
logins slots = map slot_login slots

abbrev SlotTurns : {W : Type 0} → Option Auth → Outcome (Slot × Globals W) → Type 0
SlotTurns x undefined = Unit
SlotTurns x (done (slot, g)) = Turn x (slot_login slot)

abbrev pub SlotsTurn : {W : Type 0} → Table → Outcome (List Slot × Globals W) → Type 0
SlotsTurn t undefined = Unit
SlotsTurn t (done (slots, g)) = Turns t (logins slots)

Turn-of_Obeyed : {a b : Auth} → Obeyed a b → Turn (some a) (some b)
Turn-of_Obeyed {a} h = subst (λ b. Turn (some a) (some b)) (sym h.stepped) (obeys h.found h.word a)

module _ {W : Type 0} (os : Os W) where
  slot_after-Turns :
      (fd : ℕ) (a : Auth) (o : Outcome (Bool × State W))
      → Leaves (λ c. Obeyed a (auth_of c)) o
      → SlotTurns (some a) (slot_after os fd o)
  slot_after-Turns fd a undefined h = tt
  slot_after-Turns fd a (done (true, s)) h = leaves a
  slot_after-Turns fd a (done (false, s)) h = Turn-of_Obeyed h

  handle_slot-Turns :
      (fd : ℕ) (c : Option Connection) (g : Globals W)
      → SlotTurns (some (client_login c)) (handle_slot os fd c g)
  unfolding handle_slot
  handle_slot-Turns fd none g = tt
  handle_slot-Turns fd (some c) g =
      slot_after-Turns fd (auth_of c) (handle_connection os fd (with_connection g c))
        (handle_connection-Obeyed os fd (with_connection g c))

  fd-Turns :
      (fd : Option ℕ) (connection : Option Connection) (readable : Bool) (g : Globals W)
      → let slot : Slot = record { fd = fd; connection = connection } in
        SlotTurns (slot_login slot) (process_slot os slot readable g)
  unfolding process_slot
  fd-Turns none c readable g = idles none
  fd-Turns (some fd) c true g = handle_slot-Turns fd c g
  fd-Turns (some fd) c false g = idles (some (client_login c))

  cons-Turn :
      (x : Option Auth) (t : Table) (slot : Slot) (o : Outcome (List Slot × Globals W))
      → Turn x (slot_login slot)
      → SlotsTurn t o
      → SlotsTurn (x ∷ t) (and_then os o (λ slots g. done (slot ∷ slots, g)))
  cons-Turn x t slot undefined h k = tt
  cons-Turn x t slot (done (slots, g)) h k = turn h k

  after-Turn :
      (x : Option Auth) (o : Outcome (Slot × Globals W)) (slots : List Slot) (revents : List Bool)
      → SlotTurns x o
      → ((g : Globals W) → SlotsTurn (logins slots) (process_client_events os slots revents g))
      → SlotsTurn (x ∷ logins slots) (
          and_then os o (λ slot' g'.
            and_then os
              (process_client_events os slots revents g')
              (λ slots' g''. done (slot' ∷ slots', g''))))
  after-Turn x undefined slots revents h k = tt
  after-Turn x (done (slot', g')) slots revents h k =
      cons-Turn x (logins slots) slot' (process_client_events os slots revents g') h (k g')

  pub process_client_events-Turns :
      (slots : List Slot) (revents : List Bool) (g : Globals W)
      → SlotsTurn (logins slots) (process_client_events os slots revents g)
  unfolding process_client_events
  process_client_events-Turns [] revents g = all_done
  process_client_events-Turns (slot ∷ slots) [] g = Turns-idle (logins (slot ∷ slots))
  process_client_events-Turns (slot ∷ slots) (readable ∷ revents) g =
      after-Turn (slot_login slot) (process_slot os slot readable g) slots revents
        (fd-Turns slot.fd slot.connection readable g)
        (λ g'. process_client_events-Turns slots revents g')

  init_connection-login :
      (server : Server) (fd : ℕ) (addr : SockAddr) (g : Globals W)
      → client_login (init_connection os server fd addr g).0 ≡ no_user
  unfolding init_connection
  init_connection-login server fd addr g =
      elim (Bool-cases (os.fdopen fd (os.malloc g.world).1).0) [
        | inl streamed ↦ rw streamed refl
        | inr failed ↦ rw failed refl
      ]

  pub assign-Arrives :
      (server : Server) (fd : ℕ) (addr : SockAddr) (slots : List Slot) (g : Globals W)
      → Arrives (logins slots) (logins (assign os server fd addr slots g).0)
  unfolding assign
  assign-Arrives server fd addr [] g = turned_away
  assign-Arrives server fd addr (slot ∷ slots) g = elim (Option-cases slot.fd) [
    | inl free ↦ rw (free, init_connection-login server fd addr g) (seated (logins slots))
    | inr (n, taken) ↦
        rw taken (passes (client_login slot.connection) (assign-Arrives server fd addr slots g))
  ]
