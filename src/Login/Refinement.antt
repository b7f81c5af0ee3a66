-- ===== src/Login/Refinement.antt =====
-- Every command moves the login of a connection as the machine of `Spec` moves.
use my_ftp.Prelude.{◌≡◌, refl, sym, ◌∙◌, Option, none, some}
use my_ftp.Prelude.Outcome.{done}
use my_ftp.Utils.Case.{touppercase}
use my_ftp.Os.{Os}
use my_ftp.Parser.{Command}
use my_ftp.Session.{Connection, CommandStatus, State}
use my_ftp.Session.Keeps.{Keeps-done, Keeps-bind, Keeps-pure, Leaves}
use my_ftp.Reply.{Reply}
use mathlib.Core.Path.{subst}
use my_ftp.Commands.DirectoryFrames.{cwd-Keeps, cdup-Keeps, enter-Keeps}
use my_ftp.Executor.{
  Handler, user, pass, cwd, cdup, call, run_handler, get_command_handler, execute_command,
}
use my_ftp.Executor.Frames.{IsSteady, steady-Keeps, not_found-Keeps}
use my_ftp.Login.Spec.{Auth, no_user, named, authenticated, auth_of, auth_step}
use my_ftp.Login.Handlers.{
  IsCounted, argument, with_auth, answered, user_command_lem, pass_command_lem,
}

abbrev HasAuth : Auth → Connection → Type 0
HasAuth a c = auth_of c ≡ a

HasAuth-steady : (a : Auth) → IsSteady (HasAuth a)
HasAuth-steady a = record { data_socket = λ c d h. h; transfer_mode = λ c m h. h }

auth_of-with_auth : (a : Auth) (c : Connection) → auth_of (with_auth a c) ≡ a
auth_of-with_auth no_user c = refl
auth_of-with_auth (named name) c = refl
auth_of-with_auth (authenticated name) c = refl

answered-auth :
    {W : Type 0} (s : State W) (answer : Auth × CommandStatus × Reply) {status : CommandStatus}
    {s' : State W}
    → answered s answer ≡ done (status, s')
    → auth_of s'.conn ≡ answer.0
answered-auth s answer e = subst (Leaves (HasAuth answer.0)) e (auth_of-with_auth answer.0 s.conn)

module _ {W : Type 0} (os : Os W) where
  call-auth_step :
      (handler : Handler) (command : Command) (s : State W) {status : CommandStatus} {s' : State W}
      → IsCounted command
      → call os handler command s ≡ done (status, s')
      → auth_of s'.conn ≡ auth_step (some handler) (argument command) (auth_of s.conn)
  unfolding call
  call-auth_step user command s counted e =
      answered-auth s _ (sym (user_command_lem command s counted) ∙ e)
  call-auth_step pass command s counted e =
      answered-auth s _ (sym (pass_command_lem command s counted) ∙ e)
  call-auth_step cwd command s counted e =
      Keeps-done (cwd-Keeps os (HasAuth (auth_of s.conn)) (enter-Keeps os _ (λ c p h. h)) command)
        refl e
  call-auth_step cdup command s counted e =
      Keeps-done (cdup-Keeps os (HasAuth (auth_of s.conn)) (enter-Keeps os _ (λ c p h. h)) command)
        refl e
  call-auth_step other command s counted e =
      Keeps-done {s = s}
        (steady-Keeps os (HasAuth (auth_of s.conn)) (HasAuth-steady (auth_of s.conn)) other command
          tt)
        refl e

  run_handler-auth_step :
      (found : Option Handler) (command : Command) (s : State W) {status : CommandStatus}
      {s' : State W}
      → IsCounted command
      → run_handler os found command s ≡ done (status, s')
      → auth_of s'.conn ≡ auth_step found (argument command) (auth_of s.conn)
  unfolding run_handler
  run_handler-auth_step none command s counted e =
      Keeps-done {s = s}
        (Keeps-bind _ _
          (not_found-Keeps os (HasAuth (auth_of s.conn)) (HasAuth-steady (auth_of s.conn)))
          (λ _. Keeps-pure _))
        refl e
  run_handler-auth_step (some handler) command s counted e =
      call-auth_step handler (record command { name = touppercase command.name }) s counted e

  -- When a command with as many arguments as `argc` says comes back, the login is the state that the
  -- machine gives for the handler of its name.
  pub execute_command-auth_step :
      (command : Command) (s : State W) {status : CommandStatus} {s' : State W}
      → IsCounted command
      → execute_command os (some command) s ≡ done (status, s')
      → auth_of s'.conn
        ≡ auth_step (get_command_handler command) (argument command) (auth_of s.conn)
  unfolding execute_command
  execute_command-auth_step command s counted e =
      run_handler-auth_step (get_command_handler command) command s counted e
