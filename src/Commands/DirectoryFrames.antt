-- ===== src/Commands/DirectoryFrames.antt =====
-- CWD and CDUP write no field of the connection but the working directory.
use my_ftp.Prelude.{Option, Text, Bool}
use my_ftp.Os.{Os}
use my_ftp.Parser.{Command}
use my_ftp.Session.{Connection}
use my_ftp.Session.Keeps.{Keeps, keeps_rules}
use my_ftp.Commands.Directory.{
  check_exists, check_directory, check_new_path, enter, change_dir, cwd_command, cdup_command,
}

module _ {W : Type 0} (os : Os W) (Q : Connection → Type 0) where
  pub check_exists-Keeps : (path : Text) → Keeps Q (check_exists os path)
  unfolding check_exists
  check_exists-Keeps path = search keeps_rules depth 9

  pub check_directory-Keeps : (opened : Bool) → Keeps Q (check_directory os opened)
  unfolding check_directory
  check_directory-Keeps opened = search keeps_rules depth 9

  -- CWD and CDUP keep what `enter` keeps.
  module _ (enter-Keeps : (path : Text) → Keeps Q (enter os path)) where
    change_dir-Keeps : (path : Text) → Keeps Q (change_dir os path)
    unfolding change_dir
    change_dir-Keeps path =
        search (keeps_rules, check_exists-Keeps, check_directory-Keeps, enter-Keeps) depth 12

    pub cwd-Keeps : (command : Command) → Keeps Q (cwd_command os command)
    unfolding cwd_command
    cwd-Keeps command = search (keeps_rules, change_dir-Keeps) depth 9

    pub cdup-Keeps : (command : Command) → Keeps Q (cdup_command os command)
    unfolding cdup_command
    cdup-Keeps command = search (keeps_rules, change_dir-Keeps) depth 9

  module _
      (free : (c : Connection) (path : Option Text)
        → Q c
        → Q (record c { working_directory = path })) where
    check_new_path-Keeps : Keeps Q (check_new_path os)
    unfolding check_new_path
    check_new_path-Keeps = search (keeps_rules, free) depth 12

    pub enter-Keeps : (path : Text) → Keeps Q (enter os path)
    unfolding enter
    enter-Keeps path = search (keeps_rules, check_new_path-Keeps, free) depth 14
