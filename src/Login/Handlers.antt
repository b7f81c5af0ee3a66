-- ===== src/Login/Handlers.antt =====
-- `user_command` and `pass_command` against the machine of `Spec`: what each returns, on every
-- branch, for a command whose `argc` counts its arguments.
use my_ftp.Prelude.{
  ◌≡◌, refl, Bool, true, false, Option, none, some, List, [], ◌∷◌, ◌++◌, arith, Text, length,
  get_elem?,
}
use my_ftp.Prelude.Outcome.{Outcome, done}
use my_ftp.Parser.{Command}
use my_ftp.Reply.{Reply}
use my_ftp.Session.{Connection, CommandStatus, written, State}
use my_ftp.Commands.Login.{user_command, pass_command}
use my_ftp.Login.Spec.{Auth, no_user, named, authenticated, auth_of, user_step, pass_step}

-- `argc` counts the arguments, as the parser sees to
abbrev pub IsCounted : Command → Type 0
IsCounted command = command.argc ≡ length command.argv

abbrev pub with_auth : Auth → Connection → Connection
with_auth no_user c = record c { logged_in = false; user = none }
with_auth (named name) c = record c { logged_in = false; user = some name }
with_auth (authenticated name) c = record c { logged_in = true; user = name }

-- The outcome of a handler that answers so: the status, one reply, and the connection with the new
-- login. No call of the system was made.
abbrev pub answered :
    {W : Type 0} → State W → Auth × CommandStatus × Reply → Outcome (CommandStatus × State W)
answered s (auth, status, r) = done (
  status,
  record s { conn = with_auth auth s.conn; trace = s.trace ++ written s.client_sockfd r ∷ [] },
)

abbrev pub argument : Command → Option Text
argument command = get_elem? command.argv 0

module _ {W : Type 0} (command : Command) (s : State W) (counted : IsCounted command) where
  user_on :
      (argv : List Text) (logged_in : Bool) (user : Option Text)
      → command.argv ≡ argv
      → s.logged_in ≡ logged_in
      → s.user ≡ user
      → user_command command s ≡ answered s (user_step (auth_of s.conn) (get_elem? argv 0))
  unfolding user_command
  user_on [] true user e l u = ground arith
  user_on [] false none e l u = ground arith
  user_on [] false (some n) e l u = ground arith
  user_on (a ∷ argv) true user e l u = ground arith
  user_on (a ∷ argv) false none e l u = ground arith
  user_on (a ∷ argv) false (some n) e l u = ground arith

  -- USER answers as the machine does: it sets or clears the name, and refuses once logged in.
  pub user_command_lem :
      user_command command s ≡ answered s (user_step (auth_of s.conn) (argument command))
  user_command_lem = user_on command.argv s.logged_in s.user refl refl refl

  pass_on :
      (argv : List Text) (logged_in : Bool) (user : Option Text)
      → command.argv ≡ argv
      → s.logged_in ≡ logged_in
      → s.user ≡ user
      → pass_command command s ≡ answered s (pass_step (auth_of s.conn) (get_elem? argv 0))
  unfolding pass_command
  pass_on [] true user e l u = ground arith
  pass_on [] false none e l u = ground arith
  pass_on [] false (some n) e l u = ground arith
  pass_on (a ∷ argv) true user e l u = ground arith
  pass_on (a ∷ argv) false none e l u = ground arith
  pass_on (a ∷ argv) false (some n) e l u = ground arith

  -- PASS answers as the machine does: it logs in the anonymous user with an empty password, and
  -- forgets the name on any other attempt.
  pub pass_command_lem :
      pass_command command s ≡ answered s (pass_step (auth_of s.conn) (argument command))
  pass_command_lem = pass_on command.argv s.logged_in s.user refl refl refl
