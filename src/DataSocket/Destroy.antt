-- ===== src/DataSocket/Destroy.antt =====
-- `destroy_data_socket` and `destroy_connection` of src/destroyers.c. What they free is gone with
-- the connection; messages on the server's own terminal are left out.
use my_ftp.Prelude.{ℕ, Bool, Option, none, some, null_or, if◌then◌else◌}
use my_ftp.Os.{Os}
use my_ftp.Session.{DataSocket, DataSocketMode, passive, active, closed}
use my_ftp.Session.Monad.{M, pure, ◌>>=◌, ◌>>◌, deref, gets, sys, log}

module _ {W : Type 0} (os : Os W) where
  -- `close(fd)`
  abbrev pub close : ℕ → M W (Unit {0})
  close fd = do log (closed fd); sys (λ w. (tt, os.close fd w))

  -- the message of an active socket reads the array of its address
  unfoldable pub describe : DataSocketMode → DataSocket → Bool → M W (Unit {0})
  describe passive d verbose = pure tt
  describe active d verbose = if verbose then (do deref d.address; pure tt) else pure tt

  unfoldable pub destroy_data_socket : Option DataSocket → Bool → M W (Unit {0})
  unfolding describe
  destroy_data_socket none verbose = pure tt
  destroy_data_socket (some d) verbose = do
    describe d.data_socket_mode d verbose
    null_or d.client_sockfd (pure tt) (λ fd. close fd)

  -- the messages of a verbose call read the address of the client
  abbrev pub describe_client : Bool → M W (Unit {0})
  describe_client verbose =
      if verbose then (do addr ← gets (λ s. s.conn.client_addr); deref addr; pure tt) else pure tt

  -- `fclose` closes the descriptor that the stream was opened on.
  unfoldable pub destroy_connection : Bool → M W (Unit {0})
  unfolding destroy_data_socket
  destroy_connection verbose = do
    describe_client verbose
    data_socket ← gets (λ s. s.data_socket)
    destroy_data_socket data_socket verbose
    stream ← gets (λ s. s.conn.stream)
    fd ← deref stream
    close fd
