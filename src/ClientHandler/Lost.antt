-- ===== src/ClientHandler/Lost.antt =====
-- src/client_handler.c: what a client that hangs up leaves behind.
use my_ftp.Prelude.{arith, ℕ, ◌≡◌, false, none, some}
use my_ftp.Prelude.Outcome.{done}
use my_ftp.Os.{Os}
use my_ftp.Session.{State}
use my_ftp.ClientHandler.{read_socket, handle_client_command, close_after, handle_connection}

-- At the end of a client's stream the code keeps the connection: it closes no socket, writes
-- nothing, and does not free the slot.
pub handle_connection-lost :
    {W : Type 0} (os : Os W) (fd stream : ℕ) (s : State W)
    → s.conn.stream ≡ some stream
    → (os.getline stream s.world).0 ≡ none
    → handle_connection os fd s ≡ done (false, record s { world = (os.getline stream s.world).1 })
unfolding handle_connection handle_client_command read_socket close_after
handle_connection-lost os fd stream s streamed ended = ground arith
