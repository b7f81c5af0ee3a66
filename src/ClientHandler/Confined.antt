-- ===== src/ClientHandler/Confined.antt =====
-- The working directory of a connection stays below the root, whatever lines the client sends.
use my_ftp.Prelude.{◌≡◌, refl, ◌∙◌, Bool, Option, Text}
use my_ftp.Prelude.Outcome.{done}
use my_ftp.Os.{Os}
use my_ftp.Parser.{Command}
use my_ftp.Session.{Connection, CommandStatus, State}
use my_ftp.Session.Keeps.{Keeps, Keeps-done}
use my_ftp.Commands.Confinement.{Within, RootStays, enter-Within}
use my_ftp.Commands.DirectoryFrames.{cwd-Keeps, cdup-Keeps}
use my_ftp.Login.Frames.{user-Keeps, pass-Keeps, process_login-Keeps}
use my_ftp.Executor.{execute_command}
use my_ftp.Executor.Frames.{IsSteady, Rest, execute_command-Keeps}
use my_ftp.ClientHandler.{handle_client_command}
use my_ftp.ClientHandler.Lines.{execute_line-Keeps, handle_client_command-Keeps}

module _ {W : Type 0} (os : Os W) (root : Text) (stays : RootStays os root) where
  -- the invariant reads two fields
  Within-fields :
      (c d : Connection)
      → d.server.path ≡ c.server.path
      → d.working_directory ≡ c.working_directory
      → Within root c
      → Within root d
  Within-fields c d p q h = record {
    path = h.path;
    served = p ∙ h.served;
    directory = q ∙ h.directory;
    prefix = h.prefix;
  }

  Within-steady : IsSteady (Within root)
  Within-steady = record {
    data_socket = λ c d h. Within-fields c _ refl refl h;
    transfer_mode = λ c m h. Within-fields c _ refl refl h;
  }

  set_user-Within :
      (c : Connection) (name : Option Text) → Within root c → Within root (record c { user = name })
  set_user-Within c name h = Within-fields c _ refl refl h

  set_logged_in-Within :
      (c : Connection) (b : Bool) → Within root c → Within root (record c { logged_in = b })
  set_logged_in-Within c b h = Within-fields c _ refl refl h

  Within-Rest : Rest os (Within root) Within-steady
  Within-Rest = record {
    user_keeps = user-Keeps (Within root) set_user-Within set_logged_in-Within;
    pass_keeps =
        pass-Keeps (Within root)
          (process_login-Keeps (Within root) set_user-Within set_logged_in-Within);
    cwd_keeps = cwd-Keeps os (Within root) (enter-Within os root stays);
    cdup_keeps = cdup-Keeps os (Within root) (enter-Within os root stays);
  }

  -- Every command keeps the working directory below the root.
  execute_command-Within :
      (command : Option Command) → Keeps (Within root) (execute_command os command)
  execute_command-Within = execute_command-Keeps os (Within root) Within-steady Within-Rest

  pub handle_client_command-Confined : Keeps (Within root) (handle_client_command os)
  handle_client_command-Confined =
      handle_client_command-Keeps os (Within root)
        (execute_line-Keeps os (Within root) execute_command-Within)

  -- Where the code is defined and the root of the server stays in place, a line, or the end of the stream, leaves a
  -- connection whose working directory begins with the root's path, if it starts at such a one.
  pub handle_client_command-Within :
      (s : State W) {status : CommandStatus} {t : State W}
      → Within root s.conn
      → handle_client_command os s ≡ done (status, t)
      → Within root t.conn
  handle_client_command-Within s h e = Keeps-done {s = s} handle_client_command-Confined h e
