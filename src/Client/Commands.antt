-- ===== src/Client/Commands.antt =====
-- bonus/src/commands: cd.c, pwd.c, quit.c, exit.c and help.c. What the commands find out goes to the
-- standard output; messages of errors are left out, but not what they read.
use my_ftp.Prelude.{
  Option, none, some, null_or, [], ◌∷◌, ◌++◌, ◌==◌, Text, codes, starts_with, if◌then◌else◌,
  get_elem?,
}
use my_ftp.Parser.{Command}
use my_ftp.Session.{CommandStatus, success, failure, quit}
use my_ftp.Client.System.{ClientOs}
use my_ftp.Client.State.{Client, M, pure, ◌>>=◌, ◌>>◌, deref, act, send}
use my_ftp.Client.Reading.{read_response, behind_code}

-- what stands behind the first quote of a text: `strchr(response, '"') + 1`
unfoldable pub after_quote : Text → Option Text
after_quote [] = none
after_quote (c ∷ text) = let rest = after_quote text in if c == b'"' then some text else rest

-- the text before its first quote, or all of it
unfoldable pub before_quote : Text → Text
before_quote [] = []
before_quote (c ∷ text) = let rest = before_quote text in if c == b'"' then [] else c ∷ rest

module _ {W : Type 0} (os : ClientOs W) where
  -- the two functions of this name, which differ in the label that they print
  unfoldable pub display_current_path : Text → Text → M W (Unit {0})
  unfolding after_quote before_quote
  display_current_path label response =
      null_or (after_quote response) (pure tt)
        (λ path. act (os.print (label ++ (before_quote path ++ codes "\n"))))

  -- `Error: %s` with `response + 4`
  abbrev pub report_error : Text → M W CommandStatus
  report_error response = do deref (behind_code response); pure failure

  -- The code goes on after a null response, and with a response that it has freed.
  unfoldable pub display_new_path : Client → M W (Unit {0})
  unfolding read_response display_current_path
  display_new_path client = do
    send os client.sockfd (codes "PWD\r\n")
    response ← read_response os client.sockfd
    r ← deref response
    deref (if starts_with r (codes "257") then some r else none)
    display_current_path (codes "New directory: ") r

  unfoldable pub change_directory : Client → Text → M W CommandStatus
  unfolding read_response display_new_path
  change_directory client directory = do
    send os client.sockfd (codes "CWD " ++ (directory ++ codes "\r\n"))
    response ← read_response os client.sockfd
    null_or response (pure failure) (λ r.
        if starts_with r (codes "250")
        then (do display_new_path client; pure success)
        else report_error r)

  unfoldable pub cd_command : Command → Client → M W CommandStatus
  unfolding change_directory
  cd_command command client =
      if command.argc == 1
      then (do directory ← deref (get_elem? command.argv 0); change_directory client directory)
      else pure failure

  unfoldable pub ask_path : Client → M W CommandStatus
  unfolding read_response display_current_path
  ask_path client = do
    send os client.sockfd (codes "PWD\r\n")
    response ← read_response os client.sockfd
    null_or response (pure failure) (λ r.
        if starts_with r (codes "257")
        then (do display_current_path (codes "Current directory: ") r; pure success)
        else report_error r)

  unfoldable pub pwd_command : Command → Client → M W CommandStatus
  unfolding ask_path
  pwd_command command client = if command.argc == 0 then ask_path client else pure failure

  unfoldable pub quit_command : Command → Client → M W CommandStatus
  unfolding read_response
  quit_command command client = do
    send os client.sockfd (codes "QUIT\r\n")
    response ← read_response os client.sockfd
    null_or response (pure failure)
        (λ r. if starts_with r (codes "221") then pure quit else pure failure)

  unfoldable pub exit_command : Command → Client → M W CommandStatus
  exit_command command client = pure quit

  unfoldable pub help_command : Command → Client → M W CommandStatus
  help_command command client = do
    act (os.print (codes "Available commands:\nHELP QUIT EXIT LS PWD CD GET PUT\n"))
    pure success
