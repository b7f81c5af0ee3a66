-- ===== src/Login/Spec.antt =====
-- The login as a machine with three kinds of state. It knows nothing of connections: `Refinement`
-- shows that the handlers move a connection as the machine moves.
use my_ftp.Prelude.{Bool, true, false, Option, none, some, if◌then◌else◌, Text, codes}
use my_ftp.Reply.{
  Reply, cannot_change_user, specify_password, already_logged_in, user_first, login_successful,
  login_incorrect,
}
use my_ftp.Session.{Connection, CommandStatus, success, failure}
use my_ftp.Commands.Login.{accepts}
use my_ftp.Executor.{Handler, user, pass}

pub data Auth : Type 0 where
  no_user : Auth
  named : Text → Auth
  authenticated : Option Text → Auth

-- what a connection is for the machine
abbrev pub auth_state : Bool → Option Text → Auth
auth_state true name = authenticated name
auth_state false none = no_user
auth_state false (some name) = named name

abbrev pub auth_of : Connection → Auth
auth_of c = auth_state c.logged_in c.user

-- The answer to USER and to PASS with an argument, or with none: the next state, the status of the
-- handler, and the reply.
abbrev pub user_step : Auth → Option Text → Auth × CommandStatus × Reply
user_step (authenticated name) argument = (authenticated name, failure, cannot_change_user)
user_step _ none = (no_user, success, specify_password)
user_step _ (some name) = (named name, success, specify_password)

abbrev pub given : Option Text → Text
given none = codes ""
given (some password) = password

abbrev pub pass_step : Auth → Option Text → Auth × CommandStatus × Reply
pass_step (authenticated name) argument = (authenticated name, failure, already_logged_in)
pass_step no_user argument = (no_user, failure, user_first)
pass_step (named name) argument =
    if accepts name (given argument)
    then (authenticated (some name), success, login_successful)
    else (no_user, failure, login_incorrect)

-- The next state under any command: only USER and PASS move the machine.
abbrev pub auth_step : Option Handler → Option Text → Auth → Auth
auth_step (some user) argument a = (user_step a argument).0
auth_step (some pass) argument a = (pass_step a argument).0
auth_step _ argument a = a
