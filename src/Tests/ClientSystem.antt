-- ===== src/Tests/ClientSystem.antt =====
-- A small system to run the client on: the responses are a list that its state holds.
use my_ftp.Prelude.{true, false, Option, none, some, List, [], ◌∷◌, ◌++◌, Text, codes}
use my_ftp.Prelude.Int.{pos}
use my_ftp.Client.System.{ClientOs}
use my_ftp.Client.State.{Client, DataSocket}

-- the responses that are still to come, and what was written to the file that is open
pub record Disk : Type 0 where
  pub responses : List Text
  pub file : Text

abbrev pub next_response : Disk → List Text → Option Text × Disk
next_response w [] = (none, w)
next_response w (r ∷ rs) = (some r, record w { responses = rs })

abbrev pub client_system : ClientOs Disk
client_system = record {
  malloc = λ w. (true, w);
  socket = λ w. (some 5, w);
  connect = λ fd addr w. (true, w);
  close = λ fd w. w;
  inet_pton = λ ip. some 0x7f00_0001;
  send = λ fd line w. w;
  response = λ fd w. next_response w w.responses;
  input = λ w. (some (codes "exit\n"), w);
  print = λ line w. w;
  fdopen_read = λ fd w. (true, w);
  receive = λ fd w. (codes "a\nb", w);
  fdopen_write = λ fd w. (true, w);
  access_readable = λ path w. (true, w);
  fopen_read = λ path w. (some (codes "one\ntwo"), w);
  fopen_write = λ path w. (some 7, w);
  fwrite = λ fd bytes w. record w { file = w.file ++ bytes };
  stopped = λ w. (false, w);
}

abbrev pub client : Client
client = record { sockfd = 3; port = 2121; ip = codes "127.0.0.1" }

abbrev pub client_data_socket : DataSocket
client_data_socket = record {
  sockfd = 5;
  addr = record { address = 0x7f00_0001; port = 40001 };
  address = record { first = pos 127; second = pos 0; third = pos 0; fourth = pos 1 };
  port = pos 40001;
}

abbrev pub disk : List Text → Disk
disk responses = record { responses = responses; file = [] }

abbrev pub both : List Text
both = codes "150 Opening.\r\n" ∷ codes "226 Done.\r\n" ∷ []
