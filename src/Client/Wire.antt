-- ===== src/Client/Wire.antt =====
-- The client and the server with a data connection between them: the client's system is the model of the
-- server, on any system of the server's own that forks. A line that the client sends is handled before
-- the client goes on; the replies that come in together, and the data that does not fit the connection,
-- are the transport's.
pub mod Lines
pub mod Room
pub mod PasvReply
pub mod Pasv
pub mod Connect
pub mod Retr
pub mod Stopped
pub mod Asked
pub mod Get
pub mod Missed
use my_ftp.Prelude.{
  ℕ, zero, suc, ◌-◌, Bool, true, false, leb, ◌==◌, ◌&&◌, not, length, if◌then◌else◌, Option, none,
  some, List, [], ◌∷◌, ◌++◌, reverse, Text,
}
use my_ftp.Prelude.Outcome.{Outcome, undefined, done}
use my_ftp.Stdio.{c_string}
use my_ftp.Stdio.Lines.{concat}
use my_ftp.Os.{Os, SockAddr}
use my_ftp.Reply.{text}
use my_ftp.Session.{Event, written, opened, closed}
use my_ftp.Session as Session
use my_ftp.Session.Monad.{◌>>=◌}
use my_ftp.ClientHandler.{drop_newline, execute_line, close_after}
use my_ftp.Client.System.{ClientOs}
use my_ftp.Client.Link.{replies_to}
use my_ftp.Client.Link.Retrieve.{only_child}

-- The server behind the last line that it has read, its replies that the client has not read, the bytes on
-- the data connection, and what the client has stored.
pub record Wire (W : Type 0) : Type 0 where
  pub server : Outcome (Session.State W)
  pub unread : List Text
  pub arriving : Text
  pub stored : Text

-- an order for the events of a process and of its child
abbrev pub Order : Type 0
Order = List Event → List Event → List Event

-- What the network and the two kernels do, and neither program decides.
pub record Transport (W : Type 0) : Type 0 where
  -- the order in which the events of a process and of its child come
  pub order : Order
  -- the descriptor of the data connection on the server's side
  pub data_fd : ℕ
  -- whether a socket of the server's system listens on this address and port
  pub listens : W → SockAddr → Bool
  -- the bytes that the data connection holds while the client does not read it
  pub room : ℕ
  -- When the client reads a reply while these others are on their way behind it, this many of them have
  -- come in with it. The stream that the client opens for the one reply has taken them in, and they are
  -- lost with it.
  pub taken : List Text → ℕ

-- A write to the data connection that does not fit stops its process: the client reads the data
-- connection when it has read both replies, and the second one is not written before.
unfoldable pub until_full : ℕ → ℕ → List Event → List Event
unfolding text
until_full room fd [] = []
until_full room fd (written n r ∷ events) =
    let left = if n == fd then room - length (text r) else room in
    let rest = until_full left fd events in
    if n == fd && not (leb (length (text r)) room) then [] else written n r ∷ rest
until_full room fd (opened n ∷ events) = opened n ∷ until_full room fd events
until_full room fd (closed n ∷ events) = closed n ∷ until_full room fd events

abbrev pub drop {ℓ} : {A : Type ℓ} → ℕ → List A → List A
drop n [] = []
drop zero (x ∷ xs) = x ∷ xs
drop (suc n) (x ∷ xs) = drop n xs

module _ {W : Type 0} (net : Transport W) where
  -- whether the server's system accepts a connection to this address
  abbrev pub accepts_at : Outcome (Session.State W) → SockAddr → Bool
  accepts_at undefined addr = false
  accepts_at (done s) addr = net.listens s.world addr

  -- One response: a line, or a null pointer for a client that waits for a line that does not come.
  abbrev pub read_line : Wire W → Option Text × Wire W
  read_line w = elim w.unread as (λ _. Option Text × Wire W) [
    | [] ↦ (none, w)
    | t ∷ ts ↦ (some t, record w { unread = drop (net.taken ts) ts })
  ]

module _ {W : Type 0} (os : Os W) (net : Transport W) where
  -- What a line leaves of the wire: the client gets what either process writes, in the order of the events,
  -- up to where the child process is stopped.
  abbrev pub arrived : ℕ → Wire W → Outcome (Bool × Session.State W) → Wire W
  arrived fd wire undefined = record wire { server = undefined }
  arrived fd wire (done (_, s)) =
      let child = until_full net.room net.data_fd (only_child s.spawned) in
      let events = net.order s.trace child in
      record wire {
        server = done s;
        unread = wire.unread ++ replies_to fd events;
        arriving = concat (replies_to net.data_fd events);
      }

  -- one line, as `handle_connection` of the server handles it behind `getline`
  unfoldable pub deliver : Text → Wire W → Wire W
  unfolding replies_to until_full
  deliver line wire = elim wire.server as (λ _. Wire W) [
    | undefined ↦ wire
    | done s ↦ arrived s.client_sockfd wire (
        (execute_line os (c_string (drop_newline (reverse line)))
            >>= close_after os s.client_sockfd)
          (record s { trace = []; spawned = [] }))
  ]

  -- The client can connect to a data socket of the server, and write one file.
  abbrev pub wired : ClientOs (Wire W)
  wired = record {
    malloc = λ w. (true, w);
    socket = λ w. (some 4, w);
    connect = λ fd addr w. (accepts_at net w.server addr, w);
    close = λ fd w. w;
    inet_pton = λ ip. none;
    send = λ fd line w. deliver line w;
    response = λ fd w. read_line net w;
    input = λ w. (none, w);
    print = λ line w. w;
    fdopen_read = λ fd w. (true, w);
    receive = λ fd w. (w.arriving, w);
    fdopen_write = λ fd w. (false, w);
    access_readable = λ path w. (false, w);
    fopen_read = λ path w. (none, w);
    fopen_write = λ path w. (some 0, w);
    fwrite = λ fd bytes w. record w { stored = w.stored ++ bytes };
    stopped = λ w. (false, w);
  }
