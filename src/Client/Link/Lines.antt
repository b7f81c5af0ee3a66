-- ===== src/Client/Link/Lines.antt =====
-- The lines of USER and PASS, as the server executes them on a link.
use mathlib.Core.List.{append-nil}
use my_ftp.Prelude.{
  Bool, false, ℕ, ◌≡◌, refl, sym, ap, ◌∙◌, Option, none, some, List, [], ◌∷◌, ◌++◌, Text, codes,
  arith,
}
use my_ftp.Prelude.Outcome.{done}
use my_ftp.Utils.Case.{upper_byte, touppercase}
use my_ftp.Utils.Trimming.{is_space}
use my_ftp.Utils.Trimming.Laws.{IsTight}
use my_ftp.Stdio.{c_string}
use my_ftp.Stdio.Lines.{NoNul, c_string-NoNul}
use my_ftp.Os.{Os, SockAddr}
use my_ftp.Reply.{text, Reply}
use my_ftp.Parser.{Command}
use my_ftp.Parser.Words.{join, IsWord}
use my_ftp.Session.{Connection, CommandStatus, success, failure, written}
use my_ftp.Session as Session
use my_ftp.Executor.{call, user, pass, run_handler, execute_command}
use my_ftp.Executor.Table.{get_command_handler_iff}
use my_ftp.Login.Spec.{Auth, no_user, named, authenticated, auth_of, user_step, pass_step, given}
use my_ftp.Login.Handlers.{with_auth, answered, user_command_lem, pass_command_lem}
use my_ftp.ClientHandler.{close_after, execute_line}
use my_ftp.ClientHandler.Runs.{HasMemory, execute_line-join, drop_newline-append}
use my_ftp.Session.Monad.{◌>>=◌}
use my_ftp.Client.Link.{arrived, Link, deliver, replies_to}

-- A word that may stand in a command: not empty, with no space and no NUL, and with no white space at
-- its end.
pub record IsArgument (name : Text) : Type 0 where
  pub word : IsWord name
  pub no_nul : NoNul name
  pub user_tight : IsTight (join (codes "USER" ∷ name ∷ []))
  pub pass_tight : IsTight (join (codes "PASS" ∷ name ∷ []))

abbrev pub IsPassword : Option Text → Type 0
IsPassword none = Unit
IsPassword (some password) = IsArgument password

pass-IsTight : IsTight (join (codes "PASS" ∷ []))
unfolding is_space
pass-IsTight = record { first = refl; last = refl }

user-IsWord : IsWord (codes "USER")
user-IsWord = record { not_empty = λ e. cc; one_word = (refl, (refl, (refl, (refl, tt)))) }

pass-IsWord : IsWord (codes "PASS")
pass-IsWord = record { not_empty = λ e. cc; one_word = (refl, (refl, (refl, (refl, tt)))) }

user_upper : touppercase (codes "USER") ≡ codes "USER"
unfolding touppercase upper_byte
user_upper = refl

pass_upper : touppercase (codes "PASS") ≡ codes "PASS"
unfolding touppercase upper_byte
pass_upper = refl

pub given-NoNul : (password : Option Text) → IsPassword password → NoNul (given password)
given-NoNul none h = tt
given-NoNul (some password) arg = arg.no_nul

-- the server behind the two calls of `malloc` for a line, and behind its answer
abbrev pub behind_mallocs : {W : Type 0} → Os W → Session.State W → Session.State W
behind_mallocs os s = record s { world = (os.malloc (os.malloc s.world).1).1 }

abbrev pub behind_answer :
    {W : Type 0} → Os W → Session.State W → Auth × CommandStatus × Reply → Session.State W
behind_answer os s (auth, status, r) = record (behind_mallocs os s) {
  conn = with_auth auth s.conn;
  trace = written s.client_sockfd r ∷ [];
}

abbrev pub link_with : {W : Type 0} → Session.State W → List Text → List Text → Link W
link_with s unread typed = record { server = done s; unread = unread; typed = typed; printed = [] }

pub own_reply : (fd : ℕ) (r : Reply) → replies_to fd (written fd r ∷ []) ≡ text r ∷ []
unfolding replies_to
own_reply fd r = ground arith

-- a status with which the connection goes on
abbrev pub Goes : {W : Type 0} → Os W → CommandStatus → Type 0
Goes {W} os status = (fd : ℕ) (s : Session.State W) → close_after os fd status s ≡ done (false, s)

module _ {W : Type 0} (os : Os W) (memory : HasMemory os) where
  -- the line of a USER command
  pub user_line :
      (name : Text) (s : Session.State W) (peer : SockAddr)
      → IsArgument name
      → s.conn.client_addr ≡ some peer
      → execute_line os (codes "USER " ++ name) s
        ≡ answered (behind_mallocs os s) (user_step (auth_of s.conn) (some name))
  unfolding execute_command run_handler call
  user_line name s peer arg known =
      let command : Command = record { name = codes "USER"; argc = 1; argv = name ∷ [] } in
      ap (λ t. execute_line os t s) (sym (append-nil (codes "USER " ++ name)))
      ∙ execute_line-join os memory [] [] (codes "USER") (name ∷ []) tt tt
          (user-IsWord, (arg.word, tt)) arg.user_tight s peer known
      ∙ ap (λ h. run_handler os h command (behind_mallocs os s))
          ((get_command_handler_iff command user).1 user_upper)
      ∙ user_command_lem (record command { name = touppercase (codes "USER") })
          (behind_mallocs os s) refl

  -- the line of a PASS command, with a password or with none
  pub pass_line :
      (password : Option Text) (s : Session.State W) (peer : SockAddr)
      → IsPassword password
      → s.conn.client_addr ≡ some peer
      → execute_line os (codes "PASS " ++ given password) s
        ≡ answered (behind_mallocs os s) (pass_step (auth_of s.conn) password)
  unfolding execute_command run_handler call is_space
  pass_line none s peer allowed known =
      let command : Command = record { name = codes "PASS"; argc = 0; argv = [] } in
      execute_line-join os memory [] (codes " ") (codes "PASS") [] tt (refl, tt) (pass-IsWord, tt)
        pass-IsTight s peer known
      ∙ ap (λ h. run_handler os h command (behind_mallocs os s))
          ((get_command_handler_iff command pass).1 pass_upper)
      ∙ pass_command_lem (record command { name = touppercase (codes "PASS") })
          (behind_mallocs os s) refl
  pass_line (some w) s peer arg known =
      let command : Command = record { name = codes "PASS"; argc = 1; argv = w ∷ [] } in
      ap (λ t. execute_line os t s) (sym (append-nil (codes "PASS " ++ w)))
      ∙ execute_line-join os memory [] [] (codes "PASS") (w ∷ []) tt tt
          (pass-IsWord, (arg.word, tt)) arg.pass_tight s peer known
      ∙ ap (λ h. run_handler os h command (behind_mallocs os s))
          ((get_command_handler_iff command pass).1 pass_upper)
      ∙ pass_command_lem (record command { name = touppercase (codes "PASS") })
          (behind_mallocs os s) refl

  -- A line: what the server wrote for it is there for the client.
  pub deliver-runs :
      (line : Text) (s t u : Session.State W) (status : CommandStatus) (freed : Bool)
      (typed : List Text)
      → NoNul line
      → execute_line os line (record s { trace = [] }) ≡ done (status, t)
      → close_after os s.client_sockfd status t ≡ done (freed, u)
      → deliver os (line ++ b'\n' ∷ []) (link_with s [] typed)
        ≡ link_with u (replies_to s.client_sockfd u.trace) typed
  unfolding deliver
  deliver-runs line s t u status freed typed clean ran closes =
      let fd = s.client_sockfd in
      let s0 = record s { trace = [] } in
      let link : Link W = link_with s [] typed in
      ap (λ l. arrived fd link ((execute_line os l >>= close_after os fd) s0))
        (ap c_string (drop_newline-append line) ∙ c_string-NoNul line clean)
      ∙ ap (λ o. arrived fd link (((λ _. o) >>= close_after os fd) s0)) ran
      ∙ ap (arrived fd link) closes

  pub deliver-line :
      (line : Text) (s t : Session.State W) (status : CommandStatus) (typed : List Text)
      → NoNul line
      → execute_line os line (record s { trace = [] }) ≡ done (status, t)
      → Goes os status
      → deliver os (line ++ b'\n' ∷ []) (link_with s [] typed)
        ≡ link_with t (replies_to s.client_sockfd t.trace) typed
  deliver-line line s t status typed clean ran goes =
      deliver-runs line s t t status false typed clean ran (goes s.client_sockfd t)

  -- The answer of the server is the next text for the client.
  pub deliver-answered :
      (line : Text) (s : Session.State W) (a : Auth × CommandStatus × Reply) (typed : List Text)
      → NoNul line
      → execute_line os line (record s { trace = [] })
        ≡ answered (behind_mallocs os (record s { trace = [] })) a
      → Goes os a.1
      → deliver os (line ++ b'\n' ∷ []) (link_with s [] typed)
        ≡ link_with (behind_answer os s a) (text a.2 ∷ []) typed
  deliver-answered line s (no_user, status, r) typed clean ran goes =
      deliver-line line s _ status typed clean ran goes
      ∙ ap (λ u. link_with (behind_answer os s (no_user, status, r)) u typed)
          (own_reply s.client_sockfd r)
  deliver-answered line s (named name, status, r) typed clean ran goes =
      deliver-line line s _ status typed clean ran goes
      ∙ ap (λ u. link_with (behind_answer os s (named name, status, r)) u typed)
          (own_reply s.client_sockfd r)
  deliver-answered line s (authenticated name, status, r) typed clean ran goes =
      deliver-line line s _ status typed clean ran goes
      ∙ ap (λ u. link_with (behind_answer os s (authenticated name, status, r)) u typed)
          (own_reply s.client_sockfd r)
