-- ===== src/Commands/Login.antt =====
-- src/commands/user.c and src/commands/pass.c
use my_ftp.Prelude.{
  Bool, true, ◌&&◌, ◌||◌, Option, none, some, [], ◌==◌, null_or, if◌then◌else◌, Text, codes,
  text_eq, get_elem?,
}
use my_ftp.Parser.{Command}
use my_ftp.Reply.{
  cannot_change_user, specify_password, already_logged_in, user_first, login_successful,
  login_incorrect,
}
use my_ftp.Session.{CommandStatus, success, failure}
use my_ftp.Session.Monad.{M, pure, ◌>>=◌, ◌>>◌, deref, gets, modify, reply}

-- A string constant that a user name is compared with.
abbrev pub capital_anonymous : Text
capital_anonymous = codes "Anonymous"

abbrev pub anonymous : Text
anonymous = codes "anonymous"

-- the test of `process_login`
unfoldable pub accepts : Text → Text → Bool
accepts user password =
    (text_eq user capital_anonymous || text_eq user anonymous) && text_eq password []

module _ {W : Type 0} where
  -- `command->argv[0]`, handed to a function that needs a string
  abbrev pub first_argument : Command → M W Text
  first_argument command = deref (get_elem? command.argv 0)

  abbrev set_user : Option Text → M W (Unit {0})
  set_user user = modify (λ c. record c { user = user })

  -- the new value of `connection->user`
  unfoldable pub new_user : Command → M W (Option Text)
  new_user command =
      if command.argc == 0 then pure none else (do name ← first_argument command; pure (some name))

  unfoldable pub user_command : Command → M W CommandStatus
  unfolding new_user
  user_command command = do
    logged_in ← gets (λ s. s.logged_in)
    if logged_in
        then (do reply cannot_change_user; pure failure)
        else (do user ← new_user command; set_user user; reply specify_password; pure success)

  unfoldable pub get_password : Command → M W Text
  get_password command = if command.argc == 0 then pure [] else first_argument command

  unfoldable pub check_preconditions : M W CommandStatus
  check_preconditions = do
    logged_in ← gets (λ s. s.logged_in)
    user ← gets (λ s. s.user)
    if logged_in
        then (do reply already_logged_in; pure failure)
        else null_or user (do reply user_first; pure failure) (λ _. pure success)

  unfoldable pub process_login : Text → M W CommandStatus
  unfolding accepts
  process_login password = do
    user ← gets (λ s. s.user)
    name ← deref user
    if accepts name password
        then (do reply login_successful; modify (λ c. record c { logged_in = true }); pure success)
        else (do set_user none; reply login_incorrect; pure failure)

  -- `pass_command` behind the preconditions
  unfoldable pub try_login : Command → M W CommandStatus
  unfolding get_password process_login
  try_login command = do password ← get_password command; process_login password

  unfoldable pub after_check : CommandStatus → Command → M W CommandStatus
  unfolding try_login
  after_check failure command = pure failure
  after_check _ command = try_login command

  unfoldable pub pass_command : Command → M W CommandStatus
  unfolding check_preconditions after_check
  pass_command command = do status ← check_preconditions; after_check status command
