-- ===== src/Session/Monad.antt =====
-- Actions on the state of a handler. An action may be undefined, as C code is.
use my_ftp.Prelude.{Option, none, some, [], ◌∷◌, ◌++◌}
use my_ftp.Prelude.Outcome.{Outcome, undefined, done}
use my_ftp.Reply.{Reply}
use my_ftp.Session.{Connection, Event, written, State}

abbrev pub M : Type 0 → Type 0 → Type 0
M W A = State W → Outcome (A × State W)

module _ {W : Type 0} where
  abbrev pub pure : {A : Type 0} → A → M W A
  pure a s = done (a, s)

  infixl 5 ◌>>=◌ ◌>>◌
  abbrev pub ◌>>=◌ : {A B : Type 0} → M W A → (A → M W B) → M W B
  ◌>>=◌ m f s = elim (m s) [ undefined ↦ undefined | done (a, s') ↦ f a s' ]

  abbrev pub ◌>>◌ : {A B : Type 0} → M W A → M W B → M W B
  m >> k = m >>= λ _. k

  -- A null pointer where the code needs an object.
  abbrev pub deref : {A : Type 0} → Option A → M W A
  deref none s = undefined
  deref (some a) s = done (a, s)

  abbrev pub gets : {A : Type 0} → (State W → A) → M W A
  gets f s = done (f s, s)

  -- a call of the system
  abbrev pub sys : {A : Type 0} → (W → A × W) → M W A
  sys call s = let (a, w) = call s.world in done (a, record s { world = w })

  abbrev pub modify : (Connection → Connection) → M W (Unit {0})
  modify f s = done (tt, record s { conn = f s.conn })

  abbrev pub log : Event → M W (Unit {0})
  log e s = done (tt, record s { trace = s.trace ++ e ∷ [] })

  -- `dprintf(connection->client_sockfd, …)`
  abbrev pub reply : Reply → M W (Unit {0})
  reply r s = log (written s.conn.client_sockfd r) s
