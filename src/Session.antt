-- ===== src/Session.antt =====
-- include/myftp.h: the structures of a connection, and the state that a command handler works on.
pub mod Monad
pub mod Keeps
pub mod Gives
pub mod Orders
pub mod Speaks
use my_ftp.Prelude.{ℕ, Bool, Option, List, Text}
use my_ftp.Prelude.Int.{ℤ}
use my_ftp.Os.{SockAddr}
use my_ftp.Reply.{Reply}

-- `server_t`
pub record Server : Type 0 where
  pub sockfd : ℕ
  pub addr : SockAddr
  pub port : ℕ
  pub path : Text

-- `data_socket_mode_t`
pub data DataSocketMode : Type 0 where
  passive active : DataSocketMode

-- `transfer_mode_t`
pub data TransferMode : Type 0 where
  binary ascii : TransferMode

-- the four numbers of an address, as the client sends them
pub record Address : Type 0 where
  pub first : ℤ
  pub second : ℤ
  pub third : ℤ
  pub fourth : ℤ

-- `data_socket_t`; a descriptor of -1 is `none`, and `address` is the array of `PORT` mode
pub record DataSocket : Type 0 where
  pub data_socket_mode : DataSocketMode
  pub data_sockfd : Option ℕ
  pub addr : SockAddr
  pub address : Option Address
  pub port : ℤ
  pub client_sockfd : Option ℕ

-- `connection_t`; a null pointer is `none`. The stream is the descriptor that it was opened on.
pub record Connection : Type 0 where
  pub server : Server
  pub client_sockfd : ℕ
  pub client_addr : Option SockAddr
  pub stream : Option ℕ
  pub logged_in : Bool
  pub user : Option Text
  pub working_directory : Option Text
  pub data_socket : Option DataSocket
  pub transfer_mode : TransferMode

-- `command_status_t`
pub data CommandStatus : Type 0 where
  success failure not_found quit : CommandStatus

-- What others can see of the process: a text written to a descriptor, a socket opened or closed.
pub data Event : Type 0 where
  written : ℕ → Reply → Event
  opened : ℕ → Event
  closed : ℕ → Event

-- The state of a handler: the connection, the system, and what has happened so far. `spawned` holds
-- the events of each child process, in the order of the forks; `none` if the child's code is undefined.
pub record State (W : Type 0) : Type 0 where
  pub conn : Connection
  pub open conn use {
    server, client_sockfd, logged_in, user, working_directory, data_socket, transfer_mode,
  }
  pub world : W
  pub trace : List Event
  pub spawned : List (Option (List Event))
