-- ===== src/Commands/Connect.antt =====
-- src/commands/pasv.c and src/commands/port.c. A data socket that the connection already has is
-- overwritten, as in the code.
use my_ftp.Prelude.{
  ℕ, zero, suc, Option, none, some, List, [], ◌∷◌, ◌==◌, null_or, if◌then◌else◌, Text,
}
use my_ftp.Prelude.Int.{ℤ, pos}
use my_ftp.Utils.Case.{replace_dots_with_commas}
use my_ftp.Utils.Ports.{split_port}
use my_ftp.Stdio.{atoi}
use my_ftp.Os.{Os}
use my_ftp.Parser.{Command}
use my_ftp.Parser.Strtok.{strtok}
use my_ftp.Reply.{local_error, illegal_port, port_successful}
use my_ftp.Reply
use my_ftp.Session.{DataSocket, CommandStatus, success, failure}
use my_ftp.Session.Monad.{M, pure, ◌>>=◌, ◌>>◌, deref, sys, reply}
use my_ftp.DataSocket.Passive.{setup_passive_data_socket}
use my_ftp.DataSocket.Active.{HostPort, setup_active_data_socket}
use my_ftp.DataSocket.Transfer.{set_data_socket}
use my_ftp.Commands.Login.{first_argument}
use my_ftp.Commands.Simple.{logged_in_or_refuse}

abbrev cons_number : Text → Option (List ℤ) → Option (List ℤ)
cons_number token none = none
cons_number token (some numbers) = some (atoi token ∷ numbers)

-- The first `count` numbers of the argument, between commas.
unfoldable pub parse_numbers : ℕ → Text → Option (List ℤ)
unfolding strtok
parse_numbers zero arg = some []
parse_numbers (suc count) arg = elim (strtok b',' arg) [
  | none ↦ none
  | some (token, rest) ↦ cons_number token (parse_numbers count rest)
]

abbrev pub host_port_of : Option (List ℤ) → Option HostPort
host_port_of (some (a ∷ b ∷ c ∷ d ∷ high ∷ low ∷ [])) = some (record {
  host = record { first = a; second = b; third = c; fourth = d };
  high = high;
  low = low;
})
host_port_of _ = none

unfoldable pub parse_host_port_values : Text → Option HostPort
unfolding parse_numbers
parse_host_port_values arg = host_port_of (parse_numbers 6 arg)

-- the two numbers that `PASV` prints; a null pointer is not tested for
abbrev printed : Option (ℤ × ℤ) → Option (ℕ × ℕ)
printed (some (pos hi, pos lo)) = some (hi, lo)
printed _ = none

module _ {W : Type 0} (os : Os W) where
  -- `create_passive_data_socket` behind its test
  unfoldable pub announce : DataSocket → M W CommandStatus
  unfolding split_port replace_dots_with_commas
  announce d = do
    allocated ← sys os.malloc
    (hi, lo) ← deref (printed (split_port allocated d.port))
    reply (Reply.passive (replace_dots_with_commas (os.inet_ntoa d.addr.address)) hi lo)
    pure success

  unfoldable pub create_passive_data_socket : M W CommandStatus
  unfolding setup_passive_data_socket announce
  create_passive_data_socket = do
    data_socket ← setup_passive_data_socket os
    set_data_socket data_socket
    null_or data_socket (do reply local_error; pure failure) (λ d. announce d)

  unfoldable pub pasv_command : Command → M W CommandStatus
  unfolding create_passive_data_socket
  pasv_command command = logged_in_or_refuse create_passive_data_socket

  unfoldable pub get_host_port : Text → M W (Option HostPort)
  unfolding parse_host_port_values
  get_host_port arg = do
    allocated ← sys os.malloc
    pure (if allocated then parse_host_port_values arg else none)

  -- `create_active_data_socket` behind its first test
  unfoldable pub open_active : HostPort → M W CommandStatus
  unfolding setup_active_data_socket
  open_active host_port = do
    data_socket ← setup_active_data_socket os host_port
    set_data_socket data_socket
    null_or data_socket (do reply local_error; pure failure)
        (λ _. (do reply port_successful; pure success))

  unfoldable pub create_active_data_socket : Text → M W CommandStatus
  unfolding get_host_port open_active
  create_active_data_socket arg = do
    host_port ← get_host_port arg
    null_or host_port (do reply illegal_port; pure failure) (λ numbers. open_active numbers)

  unfoldable pub port_command : Command → M W CommandStatus
  unfolding create_active_data_socket
  port_command command = logged_in_or_refuse (
      if command.argc == 1
      then (do arg ← first_argument command; create_active_data_socket arg)
      else (do reply illegal_port; pure failure))
