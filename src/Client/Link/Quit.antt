-- ===== src/Client/Link/Quit.antt =====
-- QUIT, on both ends of the connection.
use my_ftp.Prelude.{
  ℕ, ◌≡◌, refl, ap, ◌∙◌, Bool, true, Option, none, some, List, [], ◌∷◌, ◌++◌, Text, codes, arith,
  starts_with,
}
use my_ftp.Prelude.Outcome.{Outcome, undefined, done}
use my_ftp.Utils.Case.{upper_byte, touppercase}
use my_ftp.Utils.Trimming.{is_space}
use my_ftp.Utils.Trimming.Laws.{IsTight}
use my_ftp.Stdio.{c_string}
use my_ftp.Os.{Os}
use my_ftp.Parser.{Command}
use my_ftp.Parser.Words.{join, IsWord}
use my_ftp.Reply.{Reply, text, closing}
use my_ftp.Session.{CommandStatus, Event, DataSocket, written, closed, quit}
use my_ftp.Session as Session
use my_ftp.Commands.Simple.{quit_command}
use my_ftp.Executor.{call, run_handler, execute_command}
use my_ftp.Executor
use my_ftp.Executor.Table.{get_command_handler_iff}
use my_ftp.Server.Stopping.{IsOpen, closes, data_closes, farewell}
use my_ftp.ClientHandler.{execute_line, close_after}
use my_ftp.ClientHandler.Runs.{HasMemory, execute_line-join}
use my_ftp.ClientHandler.Quit.{Frees, close_after-Frees}
use my_ftp.Client.State.{Client, State}
use my_ftp.Client.Commands as Commands
use my_ftp.Client.Link.{Link, deliver, linked, replies_to}
use my_ftp.Client.Link.Lines.{behind_mallocs, link_with, deliver-runs}

quit-IsWord : IsWord (codes "QUIT")
quit-IsWord = record { not_empty = λ e. cc; one_word = (refl, (refl, (refl, (refl, tt)))) }

quit-IsTight : IsTight (join (codes "QUIT" ∷ []))
unfolding is_space
quit-IsTight = record { first = refl; last = refl }

quit_upper : touppercase (codes "QUIT") ≡ codes "QUIT"
unfolding touppercase upper_byte
quit_upper = refl

text-closing : c_string (text closing) ≡ codes "221 Service closing control connection.\r\n"
unfolding text c_string
text-closing = refl

replies_to-closes :
    (fd : ℕ) (x : Option ℕ) (events : List Event)
    → replies_to fd (closes x ++ events) ≡ replies_to fd events
unfolding replies_to
replies_to-closes fd none events = refl
replies_to-closes fd (some x) events = refl

replies_to-data_closes :
    (fd : ℕ) (d : Option DataSocket) (events : List Event)
    → replies_to fd (data_closes d ++ events) ≡ replies_to fd events
replies_to-data_closes fd none events = refl
replies_to-data_closes fd (some d) events = replies_to-closes fd d.client_sockfd events

replies_to-written :
    (fd : ℕ) (r : Reply) (events : List Event)
    → replies_to fd (written fd r ∷ events) ≡ text r ∷ replies_to fd events
unfolding replies_to
replies_to-written fd r events = ground arith

replies_to-nil : (fd : ℕ) → replies_to fd [] ≡ []
unfolding replies_to
replies_to-nil fd = refl

replies_to-farewell :
    (fd : ℕ) (c : Session.Connection) → replies_to fd (farewell fd (some c)) ≡ text closing ∷ []
replies_to-farewell fd c =
    replies_to-written fd closing (data_closes c.data_socket ++ (closes c.stream ++ closed fd ∷ []))
    ∙ ap (λ rest. text closing ∷ rest)
        (replies_to-data_closes fd c.data_socket (closes c.stream ++ closed fd ∷ [])
          ∙ replies_to-closes fd c.stream (closed fd ∷ [])
          ∙ replies_to-closes fd (some fd) []
          ∙ replies_to-nil fd)

-- the status of a command of the client, and what the server has done since
abbrev pub ended :
    {W : Type 0} → Outcome (CommandStatus × State (Link W)) → Option (CommandStatus × List Event)
ended undefined = none
ended (done (status, s)) = elim s.world.server as (λ _. Option (CommandStatus × List Event)) [
  | undefined ↦ none
  | done server ↦ some (status, server.trace)
]

module _ {W : Type 0} (os : Os W) where
  freed_run :
      (events : List Event) (s : Session.State W) (o : Outcome (Bool × Session.State W))
      → Frees events s o
      → (t : Session.State W) × (o ≡ done (true, t)) × (t.trace ≡ s.trace ++ events)
  freed_run events s undefined h = absurd h
  freed_run events s (done (freed, t)) (e, said) = (t, ap (λ b. done (b, t)) e, said)

  quit_line :
      (s : Session.State W)
      → HasMemory os
      → IsOpen s.conn
      → execute_line os (codes "QUIT\r") s ≡ done (quit, behind_mallocs os s)
  unfolding execute_command run_handler call quit_command is_space
  quit_line s memory ready =
      let command : Command = record { name = codes "QUIT"; argc = 0; argv = [] } in
      execute_line-join os memory [] (codes "\r") (codes "QUIT") [] tt (refl, tt) (quit-IsWord, tt)
        quit-IsTight s ready.peer ready.known
      ∙ ap (λ h. run_handler os h command (behind_mallocs os s))
          ((get_command_handler_iff command Executor.quit).1 quit_upper)

  -- The client's QUIT ends both ends of an open connection, where there is memory: the command returns
  -- COMMAND_QUIT on the reply 221, and what the server has done by then is to send that reply and to close
  -- its data connection, its stream and its socket.
  pub quit_command-ends :
      (command : Command) (client : Client) (s : State (Link W)) (server : Session.State W)
      (typed : List Text)
      → HasMemory os
      → IsOpen server.conn
      → ended (
          Commands.quit_command
            (linked os)
            command
            client
            (record s { world = link_with server [] typed }))
        ≡ some (quit, farewell server.client_sockfd (some server.conn))
  unfolding Commands.quit_command starts_with
  quit_command-ends command client s server typed memory ready =
      let fd = server.client_sockfd in
      let s0 : Session.State W = record server { trace = [] } in
      let (t, run, said) =
        freed_run (farewell fd (some server.conn)) (behind_mallocs os s0)
          (close_after os fd quit (behind_mallocs os s0))
          (close_after-Frees os fd (behind_mallocs os s0) ready) in
      let sends : deliver os (codes "QUIT\r\n") (link_with server [] typed)
          ≡ link_with t (text closing ∷ []) typed =
        deliver-runs os memory (codes "QUIT\r") server (behind_mallocs os s0) t quit true typed
          (refl, (refl, (refl, (refl, (refl, tt))))) (quit_line s0 memory ready) run
        ∙ ap (λ u. link_with t u typed)
            (ap (replies_to fd) said ∙ replies_to-farewell fd server.conn) in
      rw (sends, ended) (rw (text-closing, ended) (ap (λ e. some (quit, e)) said))
