-- ===== src/DataSocket/Passive.antt =====
-- src/passive_data_socket.c
use my_ftp.Prelude.{ℕ, Bool, Option, none, some, null_or, if◌then◌else◌}
use my_ftp.Prelude.Int.{pos}
use my_ftp.Os.{Os, SockAddr}
use my_ftp.Session.{DataSocket, passive, opened}
use my_ftp.Session.Monad.{M, pure, ◌>>=◌, ◌>>◌, sys, log}

-- `htonl(INADDR_LOOPBACK)` and `htons(0)`
abbrev pub init_sockin : SockAddr
init_sockin = record { address = 0x7f00_0001; port = 0 }

-- A passive structure before its socket. What `malloc` leaves in the fields `data_sockfd`, `addr` and
-- `port` is not read before `setup_passive_data_socket` sets them; they are empty here.
abbrev pub new_data_socket : DataSocket
new_data_socket = record {
  data_socket_mode = passive;
  data_sockfd = none;
  addr = record { address = 0; port = 0 };
  address = none;
  port = pos 0;
  client_sockfd = none;
}

module _ {W : Type 0} (os : Os W) where
  unfoldable pub setup_socket_fd : M W (Option ℕ)
  setup_socket_fd = do
    fd ← sys os.socket
    null_or fd (pure none) (λ sockfd. (do log (opened sockfd); pure (some sockfd)))

  -- `set_final_port` gives the port that the caller stores in the structure.
  unfoldable pub set_final_port : ℕ → M W ℕ
  set_final_port sockfd = sys (os.getsockname_port sockfd)

  unfoldable pub bind_socket : ℕ → SockAddr → M W Bool
  bind_socket sockfd addr = sys (os.bind sockfd addr)

  unfoldable pub listen_socket : ℕ → M W Bool
  listen_socket sockfd = sys (os.listen sockfd)

  unfoldable pub init_passive_data_socket : M W (Option DataSocket)
  init_passive_data_socket = do
    allocated ← sys os.malloc
    if allocated then pure (some new_data_socket) else pure none

  -- `setup_passive_data_socket` once the structure and the socket are there
  unfoldable pub listen_on : DataSocket → ℕ → M W (Option DataSocket)
  unfolding set_final_port bind_socket listen_socket
  listen_on data_socket sockfd = do
    bound ← bind_socket sockfd init_sockin
    if bound
        then (do
          final_port ← set_final_port sockfd
          listening ← listen_socket sockfd
          if listening
              then pure (
                  some (record data_socket {
                    data_sockfd = some sockfd;
                    addr = init_sockin;
                    port = pos final_port;
                  }))
              else pure none)
        else pure none

  unfoldable pub setup_passive_data_socket : M W (Option DataSocket)
  unfolding setup_socket_fd init_passive_data_socket listen_on
  setup_passive_data_socket = do
    data_socket ← init_passive_data_socket
    fd ← setup_socket_fd
    null_or data_socket (pure none) (λ d. null_or fd (pure none) (λ sockfd. listen_on d sockfd))
