-- ===== src/Server/Clients.antt =====
-- What every command of one client keeps of its connection, the server keeps for all clients.
use my_ftp.Prelude.{
  ℕ, Bool, true, false, Option, none, some, List, [], ◌∷◌, null_or, if◌then◌else◌, All,
  Option-cases, inl, inr,
}
use my_ftp.Prelude.Outcome.{Outcome, undefined, done}
use my_ftp.Os.{Os, SockAddr}
use my_ftp.Session.{Server, Connection, State}
use my_ftp.Session.Keeps.{Keeps, Leaves}
use my_ftp.ClientHandler.{handle_connection}
use my_ftp.Server.{
  Globals, Slot, with_connection, init_connection, assign, slot_after, handle_slot, process_slot,
  process_client_events, and_then,
}

-- the invariant of the connection, if there is one
abbrev pub Holds : (Connection → Type 0) → Option Connection → Type 0
Holds Q none = Unit
Holds Q (some c) = Q c

abbrev pub SlotHolds : (Connection → Type 0) → Slot → Type 0
SlotHolds Q slot = Holds Q slot.connection

-- the invariant of every slot, where the outcome is defined
abbrev pub SlotsHold :
    {W : Type 0} → (Connection → Type 0) → Outcome (List Slot × Globals W) → Type 0
SlotsHold Q undefined = Unit
SlotsHold Q (done (slots, _)) = All (SlotHolds Q) slots

abbrev OneHolds : {W : Type 0} → (Connection → Type 0) → Outcome (Slot × Globals W) → Type 0
OneHolds Q undefined = Unit
OneHolds Q (done (slot, _)) = SlotHolds Q slot

module _ {W : Type 0} (os : Os W) (server : Server) (Q : Connection → Type 0)
    (keeps : (fd : ℕ) → Keeps Q (handle_connection os fd))
    (fresh : (fd : ℕ) (addr : SockAddr) (g : Globals W)
      → Holds Q (init_connection os server fd addr g).0) where
  slot_after-Holds :
      (fd : ℕ) (o : Outcome (Bool × State W)) → Leaves Q o → OneHolds Q (slot_after os fd o)
  slot_after-Holds fd undefined h = tt
  slot_after-Holds fd (done (freed, s)) h = h

  handle_slot-Holds :
      (fd : ℕ) (c : Option Connection) (g : Globals W)
      → Holds Q c
      → OneHolds Q (handle_slot os fd c g)
  unfolding handle_slot
  handle_slot-Holds fd none g h = tt
  handle_slot-Holds fd (some c) g h =
      slot_after-Holds fd (handle_connection os fd (with_connection g c))
        ((keeps fd).at (with_connection g c) h)

  process_fd-Holds :
      (fd : Option ℕ) (slot : Slot) (readable : Bool) (g : Globals W)
      → SlotHolds Q slot
      → OneHolds Q (
          null_or fd
            (done (slot, g))
            (λ n. if readable then handle_slot os n slot.connection g else done (slot, g)))
  process_fd-Holds none slot readable g h = h
  process_fd-Holds (some fd) slot true g h = handle_slot-Holds fd slot.connection g h
  process_fd-Holds (some fd) slot false g h = h

  process_slot-Holds :
      (slot : Slot) (readable : Bool) (g : Globals W)
      → SlotHolds Q slot
      → OneHolds Q (process_slot os slot readable g)
  unfolding process_slot
  process_slot-Holds slot readable g h = process_fd-Holds slot.fd slot readable g h

  cons-Holds :
      (slot : Slot) (o : Outcome (List Slot × Globals W))
      → SlotHolds Q slot
      → SlotsHold Q o
      → SlotsHold Q (and_then os o (λ slots g. done (slot ∷ slots, g)))
  cons-Holds slot undefined h k = tt
  cons-Holds slot (done (slots, g)) h k = (h, k)

  after-Holds :
      (o : Outcome (Slot × Globals W)) (slots : List Slot) (revents : List Bool)
      → OneHolds Q o
      → ((g : Globals W) → SlotsHold Q (process_client_events os slots revents g))
      → SlotsHold Q (
          and_then os o (λ slot' g'.
            and_then os
              (process_client_events os slots revents g')
              (λ slots' g''. done (slot' ∷ slots', g''))))
  after-Holds undefined slots revents h k = tt
  after-Holds (done (slot', g')) slots revents h k =
      cons-Holds slot' (process_client_events os slots revents g') h (k g')

  pub process_client_events-Holds :
      (slots : List Slot) (revents : List Bool) (g : Globals W)
      → All (SlotHolds Q) slots
      → SlotsHold Q (process_client_events os slots revents g)
  unfolding process_client_events
  process_client_events-Holds [] revents g h = tt
  process_client_events-Holds (slot ∷ slots) [] g h = h
  process_client_events-Holds (slot ∷ slots) (readable ∷ revents) g h =
      after-Holds (process_slot os slot readable g) slots revents
        (process_slot-Holds slot readable g h.0)
        (λ g'. process_client_events-Holds slots revents g' h.1)

  pub assign-Holds :
      (fd : ℕ) (addr : SockAddr) (slots : List Slot) (g : Globals W)
      → All (SlotHolds Q) slots
      → All (SlotHolds Q) (assign os server fd addr slots g).0
  unfolding assign
  assign-Holds fd addr [] g h = tt
  assign-Holds fd addr (slot ∷ slots) g h = elim (Option-cases slot.fd) [
    | inl free ↦ rw free (fresh fd addr g, h.1)
    | inr (n, taken) ↦ rw taken (h.0, assign-Holds fd addr slots g h.1)
  ]
