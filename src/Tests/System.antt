-- ===== src/Tests/System.antt =====
-- A small system to run the server on: the peers and the files are lists that its state holds.
use my_ftp.Prelude.{Bool, true, false, Option, none, some, List, [], ◌∷◌, ◌++◌, Text, codes}
use my_ftp.Prelude.Int.{pos}
use my_ftp.Os.{Os, SockAddr, not_forked}
use my_ftp.Parser.{Command}
use my_ftp.Session.{Server, Connection, DataSocket, passive, binary, State}
use my_ftp.Server.{Globals}

pub record World : Type 0 where
  pub cwd : Text
  -- the lines that clients send, and what each call of `poll` finds
  pub lines : List Text
  pub polls : List (List Bool)
  -- what was written to the file that is open
  pub file : Text

abbrev pub next_line : World → List Text → Option Text × World
next_line w [] = (none, w)
next_line w (line ∷ lines) = (some line, record w { lines = lines })

abbrev pub next_poll : World → List (List Bool) → Option (List Bool) × World
next_poll w [] = (none, w)
next_poll w (flags ∷ polls) = (some flags, record w { polls = polls })

abbrev pub peer : SockAddr
peer = record { address = 2130706433; port = 40000 }

abbrev pub system : Os World
system = record {
  malloc = λ w. (true, w);
  chdir = λ path w. (true, record w { cwd = path });
  getcwd = λ w. (some w.cwd, w);
  access_exists = λ path w. (true, w);
  access_readable = λ path w. (true, w);
  opendir = λ path w. (true, w);
  remove = λ path w. (false, w);
  fopen_read = λ path w. (some (codes "one\ntwo"), w);
  fopen_write = λ path w. (some 7, w);
  fwrite = λ fd bytes w. record w { file = w.file ++ bytes };
  popen_ls = λ w. (some (codes "total 0\n"), w);
  receive = λ fd w. (some (codes "a\nb"), w);
  getline = λ fd w. next_line w w.lines;
  socket = λ w. (some 5, w);
  bind = λ fd addr w. (true, w);
  listen = λ fd w. (true, w);
  getsockname_port = λ fd w. (2121, w);
  accept = λ fd w. (some (4, peer), w);
  connect = λ fd addr w. (true, w);
  fdopen = λ fd w. (true, w);
  close = λ fd w. w;
  poll = λ fds w. next_poll w w.polls;
  signalled = λ w. (false, w);
  fork = λ w. not_forked w;
  inet_ntoa = λ address. codes "127.0.0.1";
}

abbrev pub server : Server
server = record {
  sockfd = 3;
  addr = record { address = 0; port = 2121 };
  port = 2121;
  path = codes "/srv";
}

abbrev pub connection : Connection
connection = record {
  server = server;
  client_sockfd = 4;
  client_addr = some peer;
  stream = some 4;
  logged_in = false;
  user = none;
  working_directory = some (codes "/srv");
  data_socket = none;
  transfer_mode = binary;
}

abbrev pub world : List Text → List (List Bool) → World
world lines polls = record { cwd = codes "/srv"; lines = lines; polls = polls; file = [] }

-- a client that has just connected, and sends these lines
abbrev pub sending : List Text → State World
sending lines = record { conn = connection; world = world lines []; trace = []; spawned = [] }

abbrev pub globals : List Text → List (List Bool) → Globals World
globals lines polls = record { world = world lines polls; trace = []; spawned = [] }

-- a data connection of a passive socket
abbrev pub data_socket : DataSocket
data_socket = record {
  data_socket_mode = passive;
  data_sockfd = some 5;
  addr = peer;
  address = none;
  port = pos 2121;
  client_sockfd = some 6;
}

abbrev pub connected : State World
connected = record (sending []) {
  conn = record connection { data_socket = some data_socket; logged_in = true };
}

abbrev pub retr_notes : Command
retr_notes = record { name = codes "RETR"; argc = 1; argv = codes "notes" ∷ [] }
