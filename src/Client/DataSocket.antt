-- ===== src/Client/DataSocket.antt =====
-- bonus/src/data_socket.c: the client asks for a passive data socket, and connects to it.
pub mod Scan
pub mod Digits
use my_ftp.Prelude.{
  ℕ, ◌+◌, ◌*◌, ◌%◌, ◌^◌, Option, none, some, null_or, Bool, true, false, List, [], ◌∷◌, Text, codes,
  starts_with, if◌then◌else◌,
}
use my_ftp.Prelude.Int.{ℤ, to_unsigned}
use my_ftp.Utils.Ports.{merge_port}
use my_ftp.Os.{SockAddr}
use my_ftp.Session.{Address, CommandStatus, success, failure}
use my_ftp.DataSocket.Active.{HostPort}
use my_ftp.Client.System.{ClientOs}
use my_ftp.Client.State.{
  Client, DataSocket, M, pure, ◌>>=◌, ◌>>◌, deref, sys, log, opened, send, close, get_data_socket,
  set_data_socket,
}
use my_ftp.Client.Reading.{read_response}
use my_ftp.Client.DataSocket.Scan.{scan, reply_format}

-- `htons` takes the port modulo 2 ^ 16, and `htonl` the sum modulo 2 ^ 32. The sum is that of two's
-- complement: C leaves a shift of a number below 0 or past 127 into bit 31 undefined.
unfoldable pub init_data_socket_sockin : Address → ℤ → SockAddr
init_data_socket_sockin a port = record {
  address =
      (to_unsigned 32 a.first * 2 ^ 24
        + to_unsigned 32 a.second * 2 ^ 16
        + to_unsigned 32 a.third * 2 ^ 8
        + to_unsigned 32 a.fourth)
      % 2 ^ 32;
  port = to_unsigned 16 port;
}

-- The six numbers, of which `sscanf` may set fewer: the array was never written behind those.
abbrev pub host_port_of : List ℤ → Option HostPort
host_port_of (a ∷ b ∷ c ∷ d ∷ high ∷ low ∷ []) = some (record {
  host = record { first = a; second = b; third = c; fourth = d };
  high = high;
  low = low;
})
host_port_of _ = none

-- the numbers of the response, where all six are there
unfoldable pub parse_pasv_response : Text → Option HostPort
unfolding scan
parse_pasv_response response = host_port_of (scan reply_format response)

-- the fields that `setup_data_socket` fills in
unfoldable pub data_socket_of : HostPort → ℕ → DataSocket
unfolding init_data_socket_sockin merge_port
data_socket_of host_port sockfd =
    let port = merge_port (some (host_port.high, host_port.low)) in
    record {
      sockfd = sockfd;
      addr = init_data_socket_sockin host_port.host port;
      address = host_port.host;
      port = port;
    }

module _ {W : Type 0} (os : ClientOs W) where
  unfoldable pub init_active_data_socket : M W (Option ℕ)
  init_active_data_socket = do
    allocated ← sys os.malloc
    if allocated
        then (do
          fd ← sys os.socket
          null_or fd (pure none) (λ sockfd. (do log (opened sockfd); pure (some sockfd))))
        else pure none

  -- Numbers that were not set are read here.
  unfoldable pub setup_data_socket : Option HostPort → M W (Option DataSocket)
  unfolding init_active_data_socket data_socket_of
  setup_data_socket numbers = do
    fd ← init_active_data_socket
    allocated ← sys os.malloc
    host_port ← deref numbers
    if allocated
        then null_or fd (pure none) (λ sockfd. pure (some (data_socket_of host_port sockfd)))
        else pure none

  unfoldable pub send_pasv_command : Client → M W (Option Text)
  unfolding read_response
  send_pasv_command client = do
    send os client.sockfd (codes "PASV\r\n")
    response ← read_response os client.sockfd
    null_or response (pure none)
        (λ r. if starts_with r (codes "227") then pure (some r) else pure none)

  unfoldable pub create_data_socket : Client → M W (Option DataSocket)
  unfolding send_pasv_command parse_pasv_response setup_data_socket
  create_data_socket client = do
    response ← send_pasv_command client
    null_or response (pure none) (λ r. (do
      allocated ← sys os.malloc
      if allocated then setup_data_socket (parse_pasv_response r) else pure none))

  unfoldable pub connect_data_socket : DataSocket → M W CommandStatus
  connect_data_socket d = do
    connected ← sys (os.connect d.sockfd d.addr)
    if connected then pure success else pure failure

  unfoldable pub initialize_client_data_socket : Client → M W CommandStatus
  unfolding create_data_socket connect_data_socket
  initialize_client_data_socket client = do
    data_socket ← create_data_socket client
    set_data_socket data_socket
    null_or data_socket (pure failure) (λ d. connect_data_socket d)

  unfoldable pub destroy_data_socket : Option DataSocket → M W (Unit {0})
  destroy_data_socket none = pure tt
  destroy_data_socket (some d) = close os d.sockfd

  -- `destroy_data_socket(client->data_socket); client->data_socket = NULL;`
  unfoldable pub drop_data_socket : M W (Unit {0})
  unfolding destroy_data_socket
  drop_data_socket = do
    data_socket ← get_data_socket
    destroy_data_socket data_socket
    set_data_socket none
