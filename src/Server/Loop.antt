-- ===== src/Server/Loop.antt =====
-- `process_connection`, `process_connections`, `destroy_server`, and the flag of src/signal.c.
use my_ftp.Prelude.{
  ℕ, zero, suc, Bool, true, false, ◌||◌, some, List, [], ◌∷◌, map, null_or, if◌then◌else◌,
}
use my_ftp.Prelude.Outcome.{Outcome, undefined, done}
use my_ftp.Os.{Os}
use my_ftp.Reply.{closing}
use my_ftp.Session.{Server, written, closed, State}
use my_ftp.Session.Monad.{◌>>◌, log}
use my_ftp.DataSocket.Destroy.{close, destroy_connection}
use my_ftp.Server.{
  Globals, Slot, note, with_connection, globals_of, max_clients, init_slots, accept_new_connection,
  process_client_events,
}

-- `handle_signal` sets `stop_server`, and nothing resets it.
unfoldable pub handle_signal : Bool → Bool → Bool
handle_signal signalled stop_server = signalled || stop_server

-- whether the loop goes on, and what the clients are then
pub record Round (W : Type 0) : Type 0 where
  pub interrupted : Bool
  pub slots : List Slot
  pub globals : Globals W

module _ {W : Type 0} (os : Os W) where
  -- `process_connection` behind `poll`; the first flag is the server's socket
  unfoldable pub serve_events :
      Server → List Slot → List Bool → Globals W → Outcome (List Slot × Globals W)
  serve_events server slots [] g = done (slots, g)
  serve_events server slots (incoming ∷ revents) g =
      let (slots', g') = if incoming then accept_new_connection os server slots g else (slots, g) in
      process_client_events os slots' revents g'

  abbrev pub go_on : Outcome (List Slot × Globals W) → Outcome (Round W)
  go_on undefined = undefined
  go_on (done (slots, g)) = done (record { interrupted = false; slots = slots; globals = g })

  unfoldable pub process_connection : Server → List Slot → Globals W → Outcome (Round W)
  unfolding serve_events
  process_connection server slots g =
      let (revents, w) = os.poll (some server.sockfd ∷ map (λ slot. slot.fd) slots) g.world in
      let h = record g { world = w } in
      null_or revents (done (record { interrupted = true; slots = slots; globals = h }))
        (λ flags. go_on (serve_events server slots flags h))

  -- the loop of `destroy_server`
  abbrev pub globals_after : Outcome (Unit {0} × State W) → Outcome (Globals W)
  globals_after undefined = undefined
  globals_after (done (_, s)) = done (globals_of s)

  unfoldable pub destroy_slot : Slot → Globals W → Outcome (Globals W)
  destroy_slot slot g = null_or slot.fd (done g) λ fd. null_or slot.connection undefined λ c.
      globals_after (
        (log (written fd closing) >> (destroy_connection os true >> close os fd))
          (with_connection g c))

  abbrev pub then_globals :
      Outcome (Globals W) → (Globals W → Outcome (Globals W)) → Outcome (Globals W)
  then_globals undefined f = undefined
  then_globals (done g) f = f g

  unfoldable pub destroy_slots : List Slot → Globals W → Outcome (Globals W)
  unfolding destroy_slot
  destroy_slots [] g = done g
  destroy_slots (slot ∷ slots) g = then_globals (destroy_slot slot g) (destroy_slots slots)

  unfoldable pub destroy_server : Server → List Slot → Globals W → Outcome (Globals W)
  unfolding destroy_slots
  destroy_server server slots g =
      then_globals (destroy_slots slots g) λ h.
        done (note (record h { world = os.close server.sockfd h.world }) (closed server.sockfd))

  abbrev pub then_round : Outcome (Round W) → (Round W → Outcome (Round W)) → Outcome (Round W)
  then_round undefined f = undefined
  then_round (done r) f = f r

  -- The loop of `process_connections`, in `rounds` rounds at most: the server may run for ever.
  unfoldable pub serve : ℕ → Server → Bool → List Slot → Globals W → Outcome (Round W)
  unfolding process_connection
  serve zero server stop slots g = done (record { interrupted = false; slots = slots; globals = g })
  serve (suc rounds) server stop slots g =
      let (signalled, w) = os.signalled g.world in
      let h = record g { world = w } in
      let stop' = handle_signal signalled stop in
      let next = λ (r : Round W).
        let rest = serve rounds server stop' r.slots r.globals in
        if r.interrupted then done r else rest in
      let go = then_round (process_connection server slots h) next in
      if stop' then done (record { interrupted = true; slots = slots; globals = h }) else go

  abbrev stopped_at : Round W → Outcome (Globals W) → Outcome (Round W)
  stopped_at r undefined = undefined
  stopped_at r (done g) = done (record r { globals = g })

  -- `process_connections`; where the rounds are over, the server still runs.
  unfoldable pub process_connections : ℕ → Server → Globals W → Outcome (Round W)
  unfolding serve init_slots destroy_server
  process_connections rounds server g =
      then_round (serve rounds server false (init_slots max_clients) g) λ r.
        if r.interrupted then stopped_at r (destroy_server server r.slots r.globals) else done r
