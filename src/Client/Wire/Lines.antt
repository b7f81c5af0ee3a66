-- ===== src/Client/Wire/Lines.antt =====
-- The lines of PASV and RETR, as the server executes them behind the wire.
use my_ftp.Prelude.{◌≡◌, refl, ap, ◌∙◌, false, some, [], ◌∷◌, ◌++◌, Text, codes}
use my_ftp.Prelude.Outcome.{done}
use my_ftp.Utils.Case.{upper_byte, touppercase}
use my_ftp.Utils.Trimming.{is_space}
use my_ftp.Utils.Trimming.Laws.{IsTight}
use my_ftp.Stdio.{c_string}
use my_ftp.Stdio.Lines.{NoNul, c_string-NoNul}
use my_ftp.Os.{Os, SockAddr}
use my_ftp.Parser.{Command}
use my_ftp.Parser.Words.{join, IsWord}
use my_ftp.Session.{CommandStatus}
use my_ftp.Session as Session
use my_ftp.Session.Monad.{◌>>=◌}
use my_ftp.Commands.Connect.{pasv_command}
use my_ftp.Commands.Files.{retr_command}
use my_ftp.Executor.{call, run_handler, execute_command}
use my_ftp.Executor
use my_ftp.Executor.Table.{get_command_handler_iff}
use my_ftp.ClientHandler.{execute_line, close_after}
use my_ftp.ClientHandler.Runs.{HasMemory, execute_line-join, drop_newline-append}
use my_ftp.Client.Link.Lines.{Goes, behind_mallocs}
use my_ftp.Client.Wire.{Wire, Transport, arrived, deliver}

pasv-IsWord : IsWord (codes "PASV")
pasv-IsWord = record { not_empty = λ e. cc; one_word = (refl, (refl, (refl, (refl, tt)))) }

pasv-IsTight : IsTight (join (codes "PASV" ∷ []))
unfolding is_space
pasv-IsTight = record { first = refl; last = refl }

retr-IsWord : IsWord (codes "RETR")
retr-IsWord = record { not_empty = λ e. cc; one_word = (refl, (refl, (refl, (refl, tt)))) }

pasv_upper : touppercase (codes "PASV") ≡ codes "PASV"
unfolding touppercase upper_byte
pasv_upper = refl

retr_upper : touppercase (codes "RETR") ≡ codes "RETR"
unfolding touppercase upper_byte
retr_upper = refl

-- A word that may name a file in a line of RETR: with no NUL, and with no white space at its end.
pub record IsFileName (name : Text) : Type 0 where
  pub word : IsWord name
  pub no_nul : NoNul name
  pub tight : IsTight (join (codes "RETR" ∷ name ∷ []))

-- the commands that the handlers get
abbrev pub pasv_request : Command
pasv_request = record { name = touppercase (codes "PASV"); argc = 0; argv = [] }

abbrev pub retr_request : Text → Command
retr_request name = record { name = touppercase (codes "RETR"); argc = 1; argv = name ∷ [] }

module _ {W : Type 0} (os : Os W) (memory : HasMemory os) where
  pub pasv_line :
      (s : Session.State W) (peer : SockAddr)
      → s.conn.client_addr ≡ some peer
      → execute_line os (codes "PASV\r") s ≡ pasv_command os pasv_request (behind_mallocs os s)
  unfolding execute_command run_handler call is_space
  pasv_line s peer known =
      let command : Command = record { name = codes "PASV"; argc = 0; argv = [] } in
      execute_line-join os memory [] (codes "\r") (codes "PASV") [] tt (refl, tt) (pasv-IsWord, tt)
        pasv-IsTight s peer known
      ∙ ap (λ h. run_handler os h command (behind_mallocs os s))
          ((get_command_handler_iff command Executor.pasv).1 pasv_upper)

  pub retr_line :
      (name : Text) (s : Session.State W) (peer : SockAddr)
      → IsFileName name
      → s.conn.client_addr ≡ some peer
      → execute_line os (codes "RETR " ++ (name ++ codes "\r")) s
        ≡ retr_command os (retr_request name) (behind_mallocs os s)
  unfolding execute_command run_handler call is_space
  retr_line name s peer is_name known =
      let command : Command = record { name = codes "RETR"; argc = 1; argv = name ∷ [] } in
      execute_line-join os memory [] (codes "\r") (codes "RETR") (name ∷ []) tt (refl, tt)
        (retr-IsWord, (is_name.word, tt)) is_name.tight s peer known
      ∙ ap (λ h. run_handler os h command (behind_mallocs os s))
          ((get_command_handler_iff command Executor.retr).1 retr_upper)

abbrev pub wire_with : {W : Type 0} → Session.State W → Text → Wire W
wire_with s arriving = record { server = done s; unread = []; arriving = arriving; stored = [] }

-- the state in which the server handles a line
abbrev pub fresh : {W : Type 0} → Session.State W → Session.State W
fresh s = record s { trace = []; spawned = [] }

module _ {W : Type 0} (os : Os W) (net : Transport W) where
  -- A line: what either process wrote for it is there for the client.
  pub deliver-line :
      (line : Text) (s t : Session.State W) (arriving : Text) (status : CommandStatus)
      → NoNul line
      → execute_line os line (fresh s) ≡ done (status, t)
      → Goes os status
      → deliver os net (line ++ b'\n' ∷ []) (wire_with s arriving)
        ≡ arrived os net s.client_sockfd (wire_with s arriving) (done (false, t))
  unfolding deliver
  deliver-line line s t arriving status clean ran goes =
      let fd = s.client_sockfd in
      let wire : Wire W = wire_with s arriving in
      ap (λ l. arrived os net fd wire ((execute_line os l >>= close_after os fd) (fresh s)))
        (ap c_string (drop_newline-append line) ∙ c_string-NoNul line clean)
      ∙ ap (λ o. arrived os net fd wire (((λ _. o) >>= close_after os fd) (fresh s))) ran
      ∙ ap (arrived os net fd wire) (goes fd t)
