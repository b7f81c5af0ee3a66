-- ===== src/Login/Frames.antt =====
-- USER and PASS write no field of the connection but the user and the login.
use my_ftp.Prelude.{Bool, Option, Text}
use my_ftp.Parser.{Command}
use my_ftp.Session.{Connection, CommandStatus, failure}
use my_ftp.Session.Keeps.{Keeps, keeps_rules}
use my_ftp.Commands.Login.{
  new_user, user_command, get_password, check_preconditions, process_login, try_login, pass_command,
  after_check,
}

module _ {W : Type 0} (Q : Connection → Type 0) where
  new_user-Keeps : (command : Command) → Keeps {W = W} Q (new_user command)
  unfolding new_user
  new_user-Keeps command = search keeps_rules depth 9

  get_password-Keeps : (command : Command) → Keeps {W = W} Q (get_password command)
  unfolding get_password
  get_password-Keeps command = search keeps_rules depth 9

  check_preconditions-Keeps : Keeps {W = W} Q check_preconditions
  unfolding check_preconditions
  check_preconditions-Keeps = search keeps_rules depth 12

  -- PASS keeps what `process_login` keeps.
  module _ (login : (password : Text) → Keeps {W = W} Q (process_login password)) where
    try_login-Keeps : (command : Command) → Keeps {W = W} Q (try_login command)
    unfolding try_login
    try_login-Keeps command = search (keeps_rules, get_password-Keeps, login) depth 9

    after_check-Keeps :
        (status : CommandStatus) (command : Command) → Keeps {W = W} Q (after_check status command)
    unfolding after_check
    after_check-Keeps failure command = search keeps_rules
    after_check-Keeps _ command = try_login-Keeps command

    pub pass-Keeps : (command : Command) → Keeps {W = W} Q (pass_command command)
    unfolding pass_command
    pass-Keeps command = search (keeps_rules, check_preconditions-Keeps, after_check-Keeps) depth 9

  module _ (user : (c : Connection) (name : Option Text) → Q c → Q (record c { user = name }))
      (logged_in : (c : Connection) (b : Bool) → Q c → Q (record c { logged_in = b })) where
    pub user-Keeps : (command : Command) → Keeps {W = W} Q (user_command command)
    unfolding user_command
    user-Keeps command = search (keeps_rules, new_user-Keeps, user) depth 12

    pub process_login-Keeps : (password : Text) → Keeps {W = W} Q (process_login password)
    unfolding process_login
    process_login-Keeps password = search (keeps_rules, user, logged_in) depth 12
