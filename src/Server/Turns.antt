-- ===== src/Server/Turns.antt =====
-- src/connection.c: which clients a round serves.
use my_ftp.Prelude.{
  ℕ, zero, suc, ◌≡◌, refl, sym, ap, ◌∙◌, Bool, true, Option, some, List, [], ◌∷◌, get_elem?,
}
use my_ftp.Prelude.Outcome.{done}
use my_ftp.Os.{Os}
use my_ftp.Session.{Connection}
use my_ftp.Server.{Globals, Slot, handle_slot, process_slot, process_client_events}
use my_ftp.Server.Slots.{then_done, cons_slots}

-- the turn of the client with this descriptor, in a round that leaves this in its slot
pub record Turn {W : Type 0} (os : Os W) (fd : ℕ) (connection : Option Connection)
    (left : Option Slot) : Type 0 where
  pub before : Globals W
  pub after : Globals W
  pub slot : Slot
  pub handled : handle_slot os fd connection before ≡ done (slot, after)
  pub kept : left ≡ some slot

module _ {W : Type 0} (os : Os W) where
  readable_slot :
      (slot slot1 : Slot) (fd : ℕ) (readable : Bool) (g g1 : Globals W)
      → slot.fd ≡ some fd
      → readable ≡ true
      → process_slot os slot readable g ≡ done (slot1, g1)
      → Turn os fd slot.connection (some slot1)
  unfolding process_slot
  readable_slot slot slot1 fd readable g g1 taken ready p = record {
    before = g;
    after = g1;
    slot = slot1;
    handled = sym (rw (taken, ready) refl) ∙ p;
    kept = refl;
  }

  move :
      (fd : ℕ) (connection : Option Connection) (left left' : Option Slot)
      → left' ≡ left
      → Turn os fd connection left
      → Turn os fd connection left'
  move fd connection left left' e turn = record {
    before = turn.before;
    after = turn.after;
    slot = turn.slot;
    handled = turn.handled;
    kept = e ∙ turn.kept;
  }

  -- In a round where every command is defined, each client whose socket `poll` reports as readable has
  -- its turn, wherever its slot is and whatever the other clients do: `handle_connection` runs for its
  -- descriptor and its connection, and its slot holds what that leaves.
  pub process_client_events-Turn :
      (slots : List Slot) (revents : List Bool) (g : Globals W) (i fd : ℕ) (slot : Slot)
      (slots' : List Slot) (g' : Globals W)
      → get_elem? slots i ≡ some slot
      → slot.fd ≡ some fd
      → get_elem? revents i ≡ some true
      → process_client_events os slots revents g ≡ done (slots', g')
      → Turn os fd slot.connection (get_elem? slots' i)
  unfolding process_client_events
  process_client_events-Turn [] revents g i fd slot slots' g' at taken ready e = cc
  process_client_events-Turn (s ∷ slots) [] g i fd slot slots' g' at taken ready e = cc
  process_client_events-Turn (s ∷ slots) (readable ∷ revents) g zero fd slot slots' g' at taken
        ready e =
      let (slot1, g1, p, q) = then_done os (process_slot os s readable g) _ e in
      let (rest, g2, r, same) =
        cons_slots os slot1 (process_client_events os slots revents g1) slots' g' q in
      let here : s ≡ slot = cc in
      let p' : process_slot os slot readable g ≡ done (slot1, g1) =
        ap (λ x. process_slot os x readable g) (sym here) ∙ p in
      move fd slot.connection (some slot1) (get_elem? slots' 0) (ap (λ l. get_elem? l 0) (sym same))
        (readable_slot slot slot1 fd readable g g1 taken (cc ready) p')
  process_client_events-Turn (s ∷ slots) (readable ∷ revents) g (suc i) fd slot slots' g' at taken
        ready e =
      let (slot1, g1, p, q) = then_done os (process_slot os s readable g) _ e in
      let (rest, g2, r, same) =
        cons_slots os slot1 (process_client_events os slots revents g1) slots' g' q in
      move fd slot.connection (get_elem? rest i) (get_elem? slots' (suc i))
        (ap (λ l. get_elem? l (suc i)) (sym same))
        (process_client_events-Turn slots revents g1 i fd slot rest g2 at taken ready r)
