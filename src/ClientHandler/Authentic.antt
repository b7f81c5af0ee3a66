-- ===== src/ClientHandler/Authentic.antt =====
-- Only the anonymous user is ever logged in, whatever lines a client sends.
use my_ftp.Prelude.{
  ◌≡◌, sym, ◌⊎◌, inl, inr, true, Option, none, some, Text, arith, text_eq→eq, Bool-cases,
}
use mathlib.Core.Path.{subst}
use my_ftp.Prelude.Outcome.{done}
use my_ftp.Os.{Os}
use my_ftp.Parser.{Command}
use my_ftp.Session.{Connection, CommandStatus, State}
use my_ftp.Session.Monad.{◌>>=◌}
use my_ftp.Session.Keeps.{Keeps, Keeps-done, Keeps-of_done, bind_done, keeps_rules}
use my_ftp.Commands.Login.{capital_anonymous, anonymous, accepts}
use my_ftp.Executor.{Handler, user, pass, get_command_handler, execute_command}
use my_ftp.Executor.Frames.{IsSteady, execute_none-Keeps}
use my_ftp.Login.Spec.{
  Auth, no_user, named, authenticated, auth_of, auth_step, user_step, pass_step, given,
}
use my_ftp.Login.Handlers.{argument}
use my_ftp.Login.Refinement.{execute_command-auth_step}
use my_ftp.ClientHandler.{parse_line, execute_line, handle_client_command}
use my_ftp.ClientHandler.Lines.{handle_client_command-Keeps, parse_line-Keeps, parse_line-Reads}

-- Who is logged in is "Anonymous" or "anonymous".
abbrev pub IsAnonymous : Auth → Type 0
IsAnonymous (authenticated (some name)) = (name ≡ capital_anonymous) ⊎ (name ≡ anonymous)
IsAnonymous (authenticated none) = ⊥
IsAnonymous _ = Unit

abbrev pub IsAuthentic : Connection → Type 0
IsAuthentic c = IsAnonymous (auth_of c)

accepts-anonymous :
    (name password : Text)
    → accepts name password ≡ true
    → (name ≡ capital_anonymous) ⊎ (name ≡ anonymous)
unfolding accepts
accepts-anonymous name password e =
    ground (arith, text_eq→eq name capital_anonymous, text_eq→eq name anonymous)

user_step-IsAnonymous :
    (a : Auth) (word : Option Text) → IsAnonymous a → IsAnonymous (user_step a word).0
user_step-IsAnonymous (authenticated name) word h = h
user_step-IsAnonymous no_user none h = tt
user_step-IsAnonymous no_user (some name) h = tt
user_step-IsAnonymous (named n) none h = tt
user_step-IsAnonymous (named n) (some name) h = tt

pass_step-IsAnonymous :
    (a : Auth) (word : Option Text) → IsAnonymous a → IsAnonymous (pass_step a word).0
pass_step-IsAnonymous (authenticated name) word h = h
pass_step-IsAnonymous no_user word h = tt
pass_step-IsAnonymous (named name) word h = elim (Bool-cases (accepts name (given word))) [
  | inl good ↦ rw good (accepts-anonymous name (given word) good)
  | inr bad ↦ rw bad tt
]

auth_step-IsAnonymous :
    (found : Option Handler) (word : Option Text) (a : Auth)
    → IsAnonymous a
    → IsAnonymous (auth_step found word a)
auth_step-IsAnonymous none word a h = h
auth_step-IsAnonymous (some user) word a h = user_step-IsAnonymous a word h
auth_step-IsAnonymous (some pass) word a h = pass_step-IsAnonymous a word h
auth_step-IsAnonymous (some other) word a h = h

module _ {W : Type 0} (os : Os W) where
  IsAuthentic-steady : IsSteady IsAuthentic
  IsAuthentic-steady = record { data_socket = λ c d h. h; transfer_mode = λ c m h. h }

  execute_parsed :
      (buffer : Text) (s : State W) (command : Option Command) (t : State W)
      (status : CommandStatus) (u : State W)
      → IsAuthentic t.conn
      → parse_line os buffer s ≡ done (command, t)
      → execute_command os command t ≡ done (status, u)
      → IsAuthentic u.conn
  execute_parsed buffer s none t status u h parsed e =
      Keeps-done {s = t} (execute_none-Keeps os IsAuthentic IsAuthentic-steady) h e
  execute_parsed buffer s (some command) t status u h parsed e =
      let reads = parse_line-Reads os buffer s parsed in
      subst IsAnonymous (sym (execute_command-auth_step os command t reads.1 e))
        (auth_step-IsAnonymous (get_command_handler command) (argument command) (auth_of t.conn) h)

  parse_and_execute-Keeps :
      (buffer : Text)
      → Keeps IsAuthentic (parse_line os buffer >>= λ command. execute_command os command)
  parse_and_execute-Keeps buffer =
      Keeps-of_done (parse_line os buffer >>= λ command. execute_command os command)
        λ s status u h e.
          let (command, t, parsed, run) =
            bind_done (parse_line os buffer) (execute_command os) s e in
          execute_parsed buffer s command t status u
            (Keeps-done {s = s} (parse_line-Keeps os IsAuthentic buffer) h parsed) parsed run

  execute_line-Keeps : (buffer : Text) → Keeps IsAuthentic (execute_line os buffer)
  unfolding execute_line
  execute_line-Keeps buffer = search (keeps_rules, parse_and_execute-Keeps) depth 9

  pub handle_client_command-Authentic : Keeps IsAuthentic (handle_client_command os)
  handle_client_command-Authentic = handle_client_command-Keeps os IsAuthentic execute_line-Keeps

  -- Where the code is defined, a line, or the end of the stream, leaves a connection on which nobody but the anonymous user is
  -- logged in, if it starts at such a one.
  pub handle_client_command-IsAuthentic :
      (s : State W) {status : CommandStatus} {t : State W}
      → IsAuthentic s.conn
      → handle_client_command os s ≡ done (status, t)
      → IsAuthentic t.conn
  handle_client_command-IsAuthentic s h e = Keeps-done {s = s} handle_client_command-Authentic h e
