-- ===== src/Server/Slots.antt =====
-- src/connection.c: how many clients there are, and which of them a round leaves alone.
use mathlib.Core.Path.{subst}
use my_ftp.Prelude.{
  ℕ, zero, suc, ◌≡◌, refl, sym, ap, ◌∙◌, Bool, false, Option, none, some, List, [], ◌∷◌, ◌++◌, All,
  Option-cases, inl, inr, length, get_elem?,
}
use my_ftp.Prelude.Outcome.{Outcome, undefined, done}
use my_ftp.Os.{Os, SockAddr}
use my_ftp.Reply.{service_ready}
use my_ftp.Session.{Server, written, opened}
use my_ftp.Server.{
  Globals, Slot, assign, accept_new_connection, process_slot, process_client_events, and_then,
}

abbrev pub IsSome : Option ℕ → Type 0
IsSome none = ⊥
IsSome (some _) = Unit

-- the slot has a client
abbrev pub IsTaken : Slot → Type 0
IsTaken slot = IsSome slot.fd

module _ {W : Type 0} (os : Os W) where
  pub assign-full :
      (server : Server) (fd : ℕ) (addr : SockAddr) (slots : List Slot) (g : Globals W)
      → All IsTaken slots
      → assign os server fd addr slots g ≡ (slots, g)
  unfolding assign
  assign-full server fd addr [] g h = refl
  assign-full server fd addr (slot ∷ slots) g (h, hs) = elim (Option-cases slot.fd) [
    | inl free ↦ absurd (subst IsSome free h)
    | inr (n, taken) ↦ rw taken (rw (assign-full server fd addr slots g hs) refl)
  ]

  length-assign :
      (server : Server) (fd : ℕ) (addr : SockAddr) (slots : List Slot) (g : Globals W)
      → length (assign os server fd addr slots g).0 ≡ length slots
  unfolding assign
  length-assign server fd addr [] g = refl
  length-assign server fd addr (slot ∷ slots) g = elim (Option-cases slot.fd) [
    | inl free ↦ rw free refl
    | inr (n, taken) ↦ rw taken (ap suc (length-assign server fd addr slots g))
  ]

  pub then_done :
      {A B : Type 0} (o : Outcome (A × Globals W)) (f : A → Globals W → Outcome B) {b : B}
      → and_then os o f ≡ done b
      → (a : A) × (g : Globals W) × (o ≡ done (a, g)) × (f a g ≡ done b)
  then_done undefined f e = cc
  then_done (done (a, g)) f e = (a, g, refl, e)

  process_slot-quiet : (slot : Slot) (g : Globals W) → process_slot os slot false g ≡ done (slot, g)
  unfolding process_slot
  process_slot-quiet slot g = elim (Option-cases slot.fd) [
    | inl free ↦ rw free refl
    | inr (n, taken) ↦ rw taken refl
  ]

  done_slots :
      (l l' : List Slot) (g g' : Globals W) (o : Outcome (List Slot × Globals W))
      → o ≡ done (l', g')
      → o ≡ done (l, g)
      → l ≡ l'
  done_slots l l' g g' o e' e = ap (λ o. elim o [ undefined ↦ l | done (x, _) ↦ x ]) (sym e ∙ e')

  pub cons_slots :
      (slot : Slot) (o : Outcome (List Slot × Globals W)) (slots' : List Slot) (g' : Globals W)
      → and_then os {B = List Slot × Globals W} o (λ slots g. done (slot ∷ slots, g))
        ≡ done (slots', g')
      → (rest : List Slot) × (h : Globals W) × (o ≡ done (rest, h)) × (slot ∷ rest ≡ slots')
  cons_slots slot o slots' g' e =
      let (rest, h, p, q) = then_done o (λ slots g. done (slot ∷ slots, g)) e in
      (rest, h, p, done_slots (slot ∷ rest) slots' h g' _ q refl)

  slot_of_done :
      (a b : Slot) (g h : Globals W) (o : Outcome (Slot × Globals W))
      → o ≡ done (a, g)
      → o ≡ done (b, h)
      → a ≡ b
  slot_of_done a b g h o e e' = ap (λ o. elim o [ undefined ↦ a | done (x, _) ↦ x ]) (sym e ∙ e')

  quiet_slot :
      (slot slot1 : Slot) (readable : Bool) (g g1 : Globals W)
      → readable ≡ false
      → process_slot os slot readable g ≡ done (slot1, g1)
      → slot1 ≡ slot
  quiet_slot slot slot1 readable g g1 quiet p =
      slot_of_done slot1 slot g1 g (process_slot os slot readable g) p
        (ap (λ b. process_slot os slot b g) quiet ∙ process_slot-quiet slot g)

  -- In a round where every command is defined, a slot that is not readable is left as it was,
  -- whatever the other clients of the round do.
  pub process_client_events-quiet :
      (slots : List Slot) (revents : List Bool) (g : Globals W) (i : ℕ) (slots' : List Slot)
      (g' : Globals W)
      → get_elem? revents i ≡ some false
      → process_client_events os slots revents g ≡ done (slots', g')
      → get_elem? slots' i ≡ get_elem? slots i
  unfolding process_client_events
  process_client_events-quiet [] revents g i slots' g' quiet e =
      ap (λ l. get_elem? l i) (sym (done_slots [] slots' g g' _ e refl))
  process_client_events-quiet (slot ∷ slots) [] g i slots' g' quiet e =
      ap (λ l. get_elem? l i) (sym (done_slots (slot ∷ slots) slots' g g' _ e refl))
  process_client_events-quiet (slot ∷ slots) (readable ∷ revents) g zero slots' g' quiet e =
      let (slot1, g1, p, q) = then_done (process_slot os slot readable g) _ e in
      let (rest, g2, r, same) =
        cons_slots slot1 (process_client_events os slots revents g1) slots' g' q in
      ap (λ l. get_elem? l 0) (sym same)
      ∙ ap some (quiet_slot slot slot1 readable g g1 (cc quiet) p)
  process_client_events-quiet (slot ∷ slots) (readable ∷ revents) g (suc i) slots' g' quiet e =
      let (slot1, g1, p, q) = then_done (process_slot os slot readable g) _ e in
      let (rest, g2, r, same) =
        cons_slots slot1 (process_client_events os slots revents g1) slots' g' q in
      ap (λ l. get_elem? l (suc i)) (sym same)
      ∙ process_client_events-quiet slots revents g1 i rest g2 quiet r

  -- With a client in every slot, a new client is accepted and greeted, and nobody keeps its socket:
  -- no slot takes it, and it is not closed.
  pub accept_new_connection-full :
      (server : Server) (slots : List Slot) (g : Globals W) (fd : ℕ) (addr : SockAddr)
      → All IsTaken slots
      → (os.accept server.sockfd g.world).0 ≡ some (fd, addr)
      → accept_new_connection os server slots g ≡ (
        slots,
        record g {
          world = (os.accept server.sockfd g.world).1;
          trace = (g.trace ++ opened fd ∷ []) ++ written fd service_ready ∷ [];
        },
      )
  unfolding accept_new_connection
  accept_new_connection-full server slots g fd addr full accepted =
      rw accepted (assign-full server fd addr slots _ full)
