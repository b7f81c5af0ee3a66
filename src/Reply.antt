-- ===== src/Reply.antt =====
-- The texts that the server writes with `dprintf`, one constructor for each format string under
-- src/; `pwd`, `passive` and `content` carry what the format prints.
use my_ftp.Prelude.{ℕ, zero, suc, ◌+◌, ◌/◌, ◌%◌, [], ◌∷◌, ◌++◌, ltb, if◌then◌else◌, Text, codes}

pub data Reply : Type 0 where
  service_ready closing unknown_command please_login : Reply
  cannot_change_user specify_password already_logged_in user_first : Reply
  login_successful login_incorrect : Reply
  change_directory_failed directory_changed delete_failed file_action_okay : Reply
  pwd : Text → Reply
  help_header help_commands help_end noop_okay : Reply
  ascii_mode binary_mode unrecognised_type : Reply
  illegal_port port_successful local_error : Reply
  passive : Text → ℕ → ℕ → Reply
  no_data_socket connection_failed open_failed permission_denied : Reply
  opening_data transfer_complete : Reply
  list_failed listing directory_sent : Reply
  content : Text → Reply

-- `%d` of a number that is not negative; no number here has more digits than the fuel
unfoldable pub decimal : ℕ → ℕ → Text
decimal zero n = []
decimal (suc fuel) n =
    let front = decimal fuel (n / 10) in
    if ltb n 10 then (b'0' + n) ∷ [] else front ++ (b'0' + n % 10) ∷ []

-- the bytes written
unfoldable pub text : Reply → Text
unfolding decimal
text service_ready = codes "220 Service ready for new user. (myftp)\r\n"
text closing = codes "221 Service closing control connection.\r\n"
text unknown_command = codes "500 Unknown command.\r\n"
text please_login = codes "530 Please login with USER and PASS.\r\n"
text cannot_change_user = codes "530 Can't change to another user.\r\n"
text specify_password = codes "331 Please specify the password.\r\n"
text already_logged_in = codes "230 Already logged in.\r\n"
text user_first = codes "503 Login with USER first.\r\n"
text login_successful = codes "230 Login successful.\r\n"
text login_incorrect = codes "530 Login incorrect.\r\n"
text change_directory_failed = codes "550 Failed to change directory.\r\n"
text directory_changed = codes "250 Directory successfully changed.\r\n"
text delete_failed = codes "550 Delete operation failed.\r\n"
text file_action_okay = codes "250 Requested file action okay.\r\n"
text (pwd path) = codes "257 \"" ++ (path ++ codes "\"\r\n")
text help_header = codes "214-The following commands are recognized.\r\n"
text help_commands = codes "USER PASS CWD CDUP QUIT DELE PWD PASV PORT HELP NOOP RETR STOR LIST\r\n"
text help_end = codes "214 Help OK.\r\n"
text noop_okay = codes "200 NOOP ok.\r\n"
text ascii_mode = codes "200 Switching to ASCII mode.\r\n"
text binary_mode = codes "200 Switching to Binary mode.\r\n"
text unrecognised_type = codes "500 Unrecognised TYPE command.\r\n"
text illegal_port = codes "500 Illegal PORT command.\r\n"
text port_successful = codes "200 PORT command successful. Consider using PASV.\r\n"
text local_error = codes "451 Requested action aborted: local error in processing.\r\n"
text (passive address hi lo) =
    codes "227 Entering Passive Mode ("
    ++ (address
        ++ (codes "," ++ (decimal 20 hi ++ (codes "," ++ (decimal 20 lo ++ codes ").\r\n")))))
text no_data_socket = codes "425 Use PASV or PORT first.\r\n"
text connection_failed = codes "425 Failed to establish connection.\r\n"
text open_failed = codes "550 Failed to open file.\r\n"
text permission_denied = codes "550 Permission denied.\r\n"
text opening_data = codes "150 Opening BINARY mode data connection.\r\n"
text transfer_complete = codes "226 Transfer complete.\r\n"
text list_failed = codes "550 Failed to list directory.\r\n"
text listing = codes "150 Here comes the directory listing.\r\n"
text directory_sent = codes "226 Directory send OK.\r\n"
text (content bytes) = bytes
