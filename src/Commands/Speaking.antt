-- ===== src/Commands/Speaking.antt =====
-- The handlers that need no data connection speak to their own client only.
use my_ftp.Prelude.{Bool, Text}
use my_ftp.Os.{Os}
use my_ftp.Parser.{Command}
use my_ftp.Session.{CommandStatus, failure}
use my_ftp.Session.Speaks.{Speaks, speaks_rules}
use my_ftp.Commands.Login.{
  new_user, user_command, get_password, check_preconditions, process_login, try_login, after_check,
  pass_command,
}
use my_ftp.Commands.Simple.{
  noop_command, help_command, pwd_command, quit_command, change_type, type_command,
}
use my_ftp.Commands.Delete.{delete_file, dele_command}
use my_ftp.Commands.Directory.{
  check_exists, check_directory, check_new_path, enter, change_dir, cwd_command, cdup_command,
}

module _ {W : Type 0} where
  new_user-Speaks : (command : Command) → Speaks {W = W} (new_user command)
  unfolding new_user
  new_user-Speaks command = search speaks_rules depth 12

  pub user-Speaks : (command : Command) → Speaks {W = W} (user_command command)
  unfolding user_command
  user-Speaks command = search (speaks_rules, new_user-Speaks) depth 12

  get_password-Speaks : (command : Command) → Speaks {W = W} (get_password command)
  unfolding get_password
  get_password-Speaks command = search speaks_rules depth 12

  check_preconditions-Speaks : Speaks {W = W} (check_preconditions)
  unfolding check_preconditions
  check_preconditions-Speaks = search speaks_rules depth 12

  process_login-Speaks : (password : Text) → Speaks {W = W} (process_login password)
  unfolding process_login
  process_login-Speaks password = search speaks_rules depth 12

  try_login-Speaks : (command : Command) → Speaks {W = W} (try_login command)
  unfolding try_login
  try_login-Speaks command =
      search (speaks_rules, get_password-Speaks, process_login-Speaks) depth 12

  after_check-Speaks :
      (status : CommandStatus) (command : Command) → Speaks {W = W} (after_check status command)
  unfolding after_check
  after_check-Speaks failure command = search speaks_rules
  after_check-Speaks _ command = try_login-Speaks command

  pub pass-Speaks : (command : Command) → Speaks {W = W} (pass_command command)
  unfolding pass_command
  pass-Speaks command =
      search (speaks_rules, check_preconditions-Speaks, after_check-Speaks) depth 12

  pub noop-Speaks : (command : Command) → Speaks {W = W} (noop_command command)
  unfolding noop_command
  noop-Speaks command = search speaks_rules depth 12

  pub help-Speaks : (command : Command) → Speaks {W = W} (help_command command)
  unfolding help_command
  help-Speaks command = search speaks_rules depth 12

  pub pwd-Speaks : (command : Command) → Speaks {W = W} (pwd_command command)
  unfolding pwd_command
  pwd-Speaks command = search speaks_rules depth 12

  pub quit-Speaks : (command : Command) → Speaks {W = W} (quit_command command)
  unfolding quit_command
  quit-Speaks command = search speaks_rules depth 12

  change_type-Speaks : (type : Text) → Speaks {W = W} (change_type type)
  unfolding change_type
  change_type-Speaks type = search speaks_rules depth 12

  pub type-Speaks : (command : Command) → Speaks {W = W} (type_command command)
  unfolding type_command
  type-Speaks command = search (speaks_rules, change_type-Speaks) depth 12

module _ {W : Type 0} (os : Os W) where
  delete_file-Speaks : (path : Text) → Speaks (delete_file os path)
  unfolding delete_file
  delete_file-Speaks path = search speaks_rules depth 12

  pub dele-Speaks : (command : Command) → Speaks (dele_command os command)
  unfolding dele_command
  dele-Speaks command = search (speaks_rules, delete_file-Speaks) depth 12

  check_exists-Speaks : (path : Text) → Speaks (check_exists os path)
  unfolding check_exists
  check_exists-Speaks path = search speaks_rules depth 12

  check_directory-Speaks : (opened : Bool) → Speaks (check_directory os opened)
  unfolding check_directory
  check_directory-Speaks opened = search speaks_rules depth 12

  check_new_path-Speaks : Speaks (check_new_path os)
  unfolding check_new_path
  check_new_path-Speaks = search speaks_rules depth 12

  enter-Speaks : (path : Text) → Speaks (enter os path)
  unfolding enter
  enter-Speaks path = search (speaks_rules, check_new_path-Speaks) depth 16

  change_dir-Speaks : (path : Text) → Speaks (change_dir os path)
  unfolding change_dir
  change_dir-Speaks path =
      search (speaks_rules, check_exists-Speaks, check_directory-Speaks, enter-Speaks) depth 12

  pub cwd-Speaks : (command : Command) → Speaks (cwd_command os command)
  unfolding cwd_command
  cwd-Speaks command = search (speaks_rules, change_dir-Speaks) depth 12

  pub cdup-Speaks : (command : Command) → Speaks (cdup_command os command)
  unfolding cdup_command
  cdup-Speaks command = search (speaks_rules, change_dir-Speaks) depth 12
