-- ===== src/DataSocket/Active.antt =====
-- src/active_data_socket.c
use my_ftp.Prelude.{ℕ, ◌+◌, ◌*◌, ◌%◌, ◌^◌, Option, none, some, null_or, if◌then◌else◌}
use my_ftp.Prelude.Int.{ℤ, to_unsigned}
use my_ftp.Utils.Ports.{merge_port}
use my_ftp.Os.{Os, SockAddr}
use my_ftp.Session.{Address, DataSocket, active, opened}
use my_ftp.Session.Monad.{M, pure, ◌>>=◌, ◌>>◌, sys, log}

-- the six numbers of a `PORT` command
pub record HostPort : Type 0 where
  pub host : Address
  pub high : ℤ
  pub low : ℤ

-- `htons` takes the port modulo 2 ^ 16, and `htonl` the sum modulo 2 ^ 32. The sum is that of
-- two's complement: C leaves a shift of a number below 0 or past 127 into bit 31 undefined.
unfoldable pub init_sockin : Address → ℤ → SockAddr
init_sockin a port = record {
  address =
      (to_unsigned 32 a.first * 2 ^ 24
        + to_unsigned 32 a.second * 2 ^ 16
        + to_unsigned 32 a.third * 2 ^ 8
        + to_unsigned 32 a.fourth)
      % 2 ^ 32;
  port = to_unsigned 16 port;
}

module _ {W : Type 0} (os : Os W) where
  -- the socket of the new structure; `none` if there is no memory or no socket
  unfoldable pub init_active_data_socket : M W (Option ℕ)
  init_active_data_socket = do
    allocated ← sys os.malloc
    if allocated
        then (do
          fd ← sys os.socket
          null_or fd (pure none) (λ sockfd. (do log (opened sockfd); pure (some sockfd))))
        else pure none

  abbrev active_socket : HostPort → ℕ → DataSocket
  active_socket host_port sockfd =
      let port = merge_port (some (host_port.high, host_port.low)) in
      record {
        data_socket_mode = active;
        data_sockfd = none;
        addr = init_sockin host_port.host port;
        address = some host_port.host;
        port = port;
        client_sockfd = some sockfd;
      }

  unfoldable pub setup_active_data_socket : HostPort → M W (Option DataSocket)
  unfolding init_active_data_socket
  setup_active_data_socket host_port = do
    fd ← init_active_data_socket
    allocated ← sys os.malloc
    if allocated
        then null_or fd (pure none) (λ sockfd. pure (some (active_socket host_port sockfd)))
        else pure none
