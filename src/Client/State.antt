-- ===== src/Client/State.antt =====
-- bonus/include/myftp.h: the structures of the client, and actions on its state. An action may be
-- undefined, as C code is.
use my_ftp.Prelude.{ℕ, Option, none, some, List, [], ◌∷◌, ◌++◌, Text}
use my_ftp.Prelude.Int.{ℤ}
use my_ftp.Prelude.Outcome.{Outcome, undefined, done}
use my_ftp.Os.{SockAddr}
use my_ftp.Session.{Address}
use my_ftp.Client.System.{ClientOs}

-- `data_socket_t`
pub record DataSocket : Type 0 where
  pub sockfd : ℕ
  pub addr : SockAddr
  pub address : Address
  pub port : ℤ

-- `client_t`, but for the pointer to the data socket, which `State` holds
pub record Client : Type 0 where
  pub sockfd : ℕ
  pub port : ℕ
  pub ip : Text

-- What others can see of the process: a text sent, a socket opened or closed.
pub data Event : Type 0 where
  sent : ℕ → Text → Event
  opened : ℕ → Event
  closed : ℕ → Event

-- `client->data_socket`, the system, and what has happened so far. The code assigns the pointer before
-- each use; it is `none` at first.
pub record State (W : Type 0) : Type 0 where
  pub data_socket : Option DataSocket
  pub world : W
  pub trace : List Event

-- a client with this data socket
abbrev pub with_socket : {W : Type 0} → DataSocket → W → List Event → State W
with_socket d world trace = record { data_socket = some d; world = world; trace = trace }

abbrev pub M : Type 0 → Type 0 → Type 0
M W A = State W → Outcome (A × State W)

module _ {W : Type 0} where
  abbrev pub pure : {A : Type 0} → A → M W A
  pure a s = done (a, s)

  infixl 5 ◌>>=◌ ◌>>◌
  abbrev pub ◌>>=◌ : {A B : Type 0} → M W A → (A → M W B) → M W B
  ◌>>=◌ m f s = elim (m s) [ undefined ↦ undefined | done (a, s') ↦ f a s' ]

  abbrev pub ◌>>◌ : {A B : Type 0} → M W A → M W B → M W B
  m >> k = m >>= λ _. k

  -- A null pointer where the code needs an object.
  abbrev pub deref : {A : Type 0} → Option A → M W A
  deref none s = undefined
  deref (some a) s = done (a, s)

  -- a call of the system
  abbrev pub sys : {A : Type 0} → (W → A × W) → M W A
  sys call s = let (a, w) = call s.world in done (a, record s { world = w })

  abbrev pub act : (W → W) → M W (Unit {0})
  act call s = done (tt, record s { world = call s.world })

  abbrev pub log : Event → M W (Unit {0})
  log e s = done (tt, record s { trace = s.trace ++ e ∷ [] })

  abbrev pub get_data_socket : M W (Option DataSocket)
  get_data_socket s = done (s.data_socket, s)

  abbrev pub set_data_socket : Option DataSocket → M W (Unit {0})
  set_data_socket d s = done (tt, record s { data_socket = d })

module _ {W : Type 0} (os : ClientOs W) where
  -- `dprintf(sockfd, …)`
  abbrev pub send : ℕ → Text → M W (Unit {0})
  send fd text = do log (sent fd text); act (os.send fd text)

  abbrev pub close : ℕ → M W (Unit {0})
  close fd = do log (closed fd); act (os.close fd)
