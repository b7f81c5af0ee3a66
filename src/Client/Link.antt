-- ===== src/Client/Link.antt =====
-- The client and the server on the two ends of one control connection: the client's system is the
-- model of the server, on any system of the server's own.
pub mod Lines
pub mod Login
pub mod Attempts
pub mod Numbers
pub mod Passive
pub mod Path
pub mod Copy
pub mod Retrieve
pub mod Quit
use my_ftp.Prelude.{
  ℕ, Bool, true, false, ◌==◌, Option, none, some, List, [], ◌∷◌, ◌++◌, map, reverse, if◌then◌else◌,
  Text,
}
use my_ftp.Prelude.Outcome.{Outcome, undefined, done}
use my_ftp.Stdio.{c_string}
use my_ftp.Os.{Os}
use my_ftp.Reply.{Reply, text}
use my_ftp.Session.{CommandStatus, Event, written, opened, closed}
use my_ftp.Session as Session
use my_ftp.Session.Monad.{◌>>=◌}
use my_ftp.ClientHandler.{drop_newline, execute_line, close_after}
use my_ftp.Client.System.{ClientOs}

-- The server behind the last line that it has read, its replies that the client has not read, the lines
-- that the user will type, and what the client has printed.
pub record Link (W : Type 0) : Type 0 where
  pub server : Outcome (Session.State W)
  pub unread : List Text
  pub typed : List Text
  pub printed : Text

-- the texts written to this descriptor
unfoldable pub replies_to : ℕ → List Event → List Text
unfolding text
replies_to fd [] = []
replies_to fd (written n r ∷ events) =
    let rest = replies_to fd events in if n == fd then text r ∷ rest else rest
replies_to fd (opened _ ∷ events) = replies_to fd events
replies_to fd (closed _ ∷ events) = replies_to fd events

-- the first of the texts, if there is one, and the others
abbrev pub next_text : List Text → Option Text × List Text
next_text [] = (none, [])
next_text (t ∷ ts) = (some t, ts)

module _ {W : Type 0} where
  -- what a line leaves of the link
  abbrev pub arrived : ℕ → Link W → Outcome (Bool × Session.State W) → Link W
  arrived fd link undefined = record link { server = undefined }
  arrived fd link (done (_, s)) = record link {
    server = done s;
    unread = link.unread ++ replies_to fd s.trace;
  }

  -- one line, as `handle_connection` of the server handles it behind `getline`
  unfoldable pub deliver : Os W → Text → Link W → Link W
  unfolding replies_to
  deliver os line link = elim link.server as (λ _. Link W) [
    | undefined ↦ link
    | done s ↦ arrived s.client_sockfd link (
        (execute_line os (c_string (drop_newline (reverse line)))
            >>= close_after os s.client_sockfd)
          (record s { trace = [] }))
  ]

  -- There are no files and no data connections behind this link.
  abbrev pub linked : Os W → ClientOs (Link W)
  linked os = record {
    malloc = λ w. (true, w);
    socket = λ w. (none, w);
    connect = λ fd addr w. (false, w);
    close = λ fd w. w;
    inet_pton = λ ip. none;
    send = λ fd line w. deliver os line w;
    response = λ fd w. let (t, ts) = next_text w.unread in (t, record w { unread = ts });
    input = λ w. let (t, ts) = next_text w.typed in (t, record w { typed = ts });
    print = λ line w. record w { printed = w.printed ++ line };
    fdopen_read = λ fd w. (false, w);
    receive = λ fd w. ([], w);
    fdopen_write = λ fd w. (false, w);
    access_readable = λ path w. (false, w);
    fopen_read = λ path w. (none, w);
    fopen_write = λ path w. (none, w);
    fwrite = λ fd bytes w. w;
    stopped = λ w. (false, w);
  }
