-- ===== src/Client/Link/Path.antt =====
-- PWD, on both ends of the connection: the path that src/commands/pwd.c quotes and that
-- bonus/src/commands/pwd.c prints.
use my_ftp.Prelude.{
  ◌≡◌, refl, ap, ◌∙◌, true, false, Bool-cases, inl, inr, Option, none, some, List, [], ◌∷◌, ◌++◌,
  ◌==◌, Text, codes, arith, All, All-append, if◌then◌else◌, starts_with,
}
use my_ftp.Prelude.Outcome.{Outcome, undefined, done}
use my_ftp.Utils.Case.{upper_byte, touppercase}
use my_ftp.Utils.Trimming.{is_space}
use my_ftp.Utils.Trimming.Laws.{IsTight}
use my_ftp.Stdio.{c_string}
use my_ftp.Stdio.Lines.{NoNul, c_string-NoNul}
use my_ftp.Os.{Os, SockAddr}
use my_ftp.Parser.{Command}
use my_ftp.Parser.Words.{join, IsWord}
use my_ftp.Reply.{Reply, text, pwd, please_login}
use my_ftp.Session.{CommandStatus, success, failure, written}
use my_ftp.Session as Session
use my_ftp.Commands.Simple.{pwd_command}
use my_ftp.Executor.{call, run_handler, execute_command}
use my_ftp.Executor
use my_ftp.Executor.Table.{get_command_handler_iff}
use my_ftp.ClientHandler.{execute_line, close_after}
use my_ftp.ClientHandler.Runs.{HasMemory, execute_line-join}
use my_ftp.Client.State.{Client, State}
use my_ftp.Client.Commands.{after_quote, before_quote, display_current_path, report_error, ask_path}
use my_ftp.Client.Commands as Commands
use my_ftp.Client.Link.{Link, deliver, linked}
use my_ftp.Client.Link.Lines.{Goes, behind_mallocs, link_with, own_reply, deliver-line}

-- No byte of the path is a quote.
abbrev pub NoQuote : Text → Type 0
NoQuote = All (λ c. (c == b'"') ≡ false)

before_quote-NoQuote : (path rest : Text) → NoQuote path → before_quote (path ++ b'"' ∷ rest) ≡ path
unfolding before_quote
before_quote-NoQuote [] rest h = refl
before_quote-NoQuote (c ∷ path) rest (h, hs) =
    rw h (ap (λ p. c ∷ p) (before_quote-NoQuote path rest hs))

-- the reply to PWD
abbrev quoted : Text → Text
quoted path = codes "257 \"" ++ (path ++ codes "\"\r\n")

quoted-NoNul : (path : Text) → NoNul path → NoNul (quoted path)
quoted-NoNul path h = (
  refl,
  (
    refl,
    (
      refl,
      (
        refl,
        (
          refl,
          All-append (λ c. (c == 0) ≡ false) path (codes "\"\r\n") h (refl, (refl, (refl, tt))),
        ),
      ),
    ),
  ),
)

pwd-IsWord : IsWord (codes "PWD")
pwd-IsWord = record { not_empty = λ e. cc; one_word = (refl, (refl, (refl, tt))) }

pwd-IsTight : IsTight (join (codes "PWD" ∷ []))
unfolding is_space
pwd-IsTight = record { first = refl; last = refl }

pwd_upper : touppercase (codes "PWD") ≡ codes "PWD"
unfolding touppercase upper_byte
pwd_upper = refl

text-pwd : (path : Text) → NoNul path → c_string (text (pwd path)) ≡ quoted path
unfolding text
text-pwd path clean = c_string-NoNul (quoted path) (quoted-NoNul path clean)

text-please_login : c_string (text please_login) ≡ codes "530 Please login with USER and PASS.\r\n"
unfolding text c_string
text-please_login = refl

-- the status of a command of the client, and what it has printed
abbrev pub shown :
    {W : Type 0} → Outcome (CommandStatus × State (Link W)) → Option (CommandStatus × Text)
shown undefined = none
shown (done (status, s)) = some (status, s.world.printed)

module _ {W : Type 0} (os : Os W) (memory : HasMemory os) where
  -- what the server does with the line, where the handler answers so
  pwd_line :
      (s : Session.State W) (peer : SockAddr)
      → s.conn.client_addr ≡ some peer
      → execute_line os (codes "PWD\r") s
        ≡ pwd_command
            (record { name = touppercase (codes "PWD"); argc = 0; argv = [] })
            (behind_mallocs os s)
  unfolding execute_command run_handler call is_space
  pwd_line s peer known =
      let command : Command = record { name = codes "PWD"; argc = 0; argv = [] } in
      execute_line-join os memory [] (codes "\r") (codes "PWD") [] tt (refl, tt) (pwd-IsWord, tt)
        pwd-IsTight s peer known
      ∙ ap (λ h. run_handler os h command (behind_mallocs os s))
          ((get_command_handler_iff command Executor.pwd).1 pwd_upper)

  abbrev behind : Session.State W → Reply → Session.State W
  behind s r = record (behind_mallocs os s) { trace = written s.client_sockfd r ∷ [] }

  pwd_known :
      (command : Command) (s : Session.State W) (path : Text)
      → s.conn.logged_in ≡ true
      → s.conn.working_directory ≡ some path
      → pwd_command command (behind_mallocs os (record s { trace = [] }))
        ≡ done (success, behind s (pwd path))
  unfolding pwd_command
  pwd_known command s path logged_in has = ground arith

  pwd_refused :
      (command : Command) (s : Session.State W)
      → s.conn.logged_in ≡ false
      → pwd_command command (behind_mallocs os (record s { trace = [] }))
        ≡ done (failure, behind s please_login)
  unfolding pwd_command
  pwd_refused command s logged_out = ground arith

  deliver-pwd :
      (s : Session.State W) (peer : SockAddr) (status : CommandStatus) (r : Reply)
      (typed : List Text)
      → s.conn.client_addr ≡ some peer
      → pwd_command
          (record { name = touppercase (codes "PWD"); argc = 0; argv = [] })
          (behind_mallocs os (record s { trace = [] }))
        ≡ done (status, behind s r)
      → Goes os status
      → deliver os (codes "PWD\r\n") (link_with s [] typed)
        ≡ link_with (behind s r) (text r ∷ []) typed
  deliver-pwd s peer status r typed known ran goes =
      deliver-line os memory (codes "PWD\r") s (behind s r) status typed
        (refl, (refl, (refl, (refl, tt)))) (pwd_line (record s { trace = [] }) peer known ∙ ran)
        goes
      ∙ ap (λ u. link_with (behind s r) u typed) (own_reply s.client_sockfd r)

  -- The client's PWD, on a server where there is memory and that knows its peer, shows the server's
  -- working directory where the server has a user logged in, and else fails and prints nothing: the path
  -- comes back from the quotes of the reply. The path has no quote and no NUL byte.
  pub pwd_command-shows :
      (command : Command) (client : Client) (s : State (Link W)) (server : Session.State W)
      (peer : SockAddr) (path : Text) (typed : List Text)
      → command.argc ≡ 0
      → server.conn.client_addr ≡ some peer
      → server.conn.working_directory ≡ some path
      → NoNul path
      → NoQuote path
      → shown (
          Commands.pwd_command
            (linked os)
            command
            client
            (record s { world = link_with server [] typed }))
        ≡ some (
            if server.conn.logged_in
            then (success, codes "Current directory: " ++ (path ++ codes "\n"))
            else (failure, []))
  unfolding Commands.pwd_command ask_path close_after starts_with after_quote display_current_path
  pwd_command-shows command client s server peer path typed alone known has clean unquoted =
      let request : Command = record { name = touppercase (codes "PWD"); argc = 0; argv = [] } in
      elim (Bool-cases server.conn.logged_in) [
        | inl logged_in ↦
            rw (alone, shown)
              (rw
                (
                  deliver-pwd server peer success (pwd path) typed known
                      (pwd_known request server path logged_in has) (λ fd t. refl),
                  shown,
                )
                (rw (text-pwd path clean, shown)
                  (rw (before_quote-NoQuote path (codes "\r\n") unquoted, shown)
                    (rw logged_in refl))))
        | inr logged_out ↦
            rw (alone, shown)
              (rw
                (
                  deliver-pwd server peer failure please_login typed known
                      (pwd_refused request server logged_out) (λ fd t. refl),
                  shown,
                )
                (rw (text-please_login, shown) (rw logged_out refl)))
      ]
