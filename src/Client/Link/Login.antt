-- ===== src/Client/Link/Login.antt =====
-- Logging in, on both ends of the connection.
use my_ftp.Prelude.{
  ℕ, ◌≡◌, refl, ap, ◌∙◌, Bool, true, false, Bool-cases, inl, inr, Option, none, some, List, [], ◌∷◌,
  ◌++◌, ◌==◌, Text, codes, All-append, if◌then◌else◌, starts_with,
}
use my_ftp.Prelude.Outcome.{Outcome, undefined, done}
use my_ftp.Stdio.{c_string}
use my_ftp.Stdio.Lines.{NoNul, c_string-NoNul}
use my_ftp.Os.{Os, SockAddr}
use my_ftp.Reply.{text, Reply, specify_password, login_successful, login_incorrect}
use my_ftp.Session.{Connection, CommandStatus, success, failure, written}
use my_ftp.Session as Session
use my_ftp.Commands.Login.{accepts}
use my_ftp.Login.Spec.{
  Auth, no_user, named, authenticated, auth_state, auth_of, user_step, pass_step, given,
}
use my_ftp.Login.Handlers.{answered}
use my_ftp.ClientHandler.{close_after}
use my_ftp.ClientHandler.Runs.{HasMemory}
use my_ftp.Client.State.{Client, State, sent, ◌>>=◌}
use my_ftp.Client.Reading.{read_input, read_response}
use my_ftp.Client.Login.{
  attempt_login, send_user_command, send_pass_command, get_username, get_password,
}
use my_ftp.Client.Link.{Link, deliver, linked}
use my_ftp.Client.Link.Lines.{
  Goes, Goes, IsArgument, IsPassword, given-NoNul, behind_mallocs, user_line, pass_line,
  behind_answer, link_with, deliver-answered,
}

-- the exit code of `attempt_login`, and the login of the server behind it
abbrev pub login_of : {W : Type 0} → Outcome (ℕ × State (Link W)) → Option (ℕ × Auth)
login_of undefined = none
login_of (done (code, s)) = elim s.world.server as (λ _. Option (ℕ × Auth)) [
  | undefined ↦ none
  | done server ↦ some (code, auth_of server.conn)
]

abbrev pub result_of : Text → Bool → Auth × CommandStatus × Reply
result_of name accepted =
    if accepted
    then (authenticated (some name), success, login_successful)
    else (no_user, failure, login_incorrect)

-- the server, and both ends of the link, behind an attempt
abbrev pub server_after : {W : Type 0} → Os W → Session.State W → Text → Bool → Session.State W
server_after os server name accepted =
    behind_answer os (behind_answer os server (named name, success, specify_password))
      (result_of name accepted)

abbrev pub after_attempt :
    {W : Type 0}
    → Os W
    → Client
    → State (Link W)
    → Session.State W
    → Text
    → Option Text
    → List Text
    → Bool
    → State (Link W)
after_attempt os client s server name password typed accepted = record s {
  world = link_with (server_after os server name accepted) [] typed;
  trace =
      (s.trace ++ sent client.sockfd (codes "USER " ++ (name ++ b'\n' ∷ [])) ∷ [])
      ++ sent client.sockfd (codes "PASS " ++ (given password ++ b'\n' ∷ [])) ∷ [];
}

-- both ends, with the answers to the two prompts still to come
abbrev pub typing :
    {W : Type 0}
    → State (Link W)
    → Session.State W
    → Text
    → Option Text
    → List Text
    → State (Link W)
typing s server name password typed = record s {
  world = link_with server [] ((name ++ b'\n' ∷ []) ∷ (given password ++ b'\n' ∷ []) ∷ typed);
}

line_lem : (line : Text) → NoNul line → c_string (line ++ b'\n' ∷ []) ≡ line ++ b'\n' ∷ []
line_lem line clean =
    c_string-NoNul (line ++ b'\n' ∷ [])
      (All-append (λ c. (c == 0) ≡ false) line (b'\n' ∷ []) clean (refl, tt))

module _ {W : Type 0} (os : Os W) (memory : HasMemory os) where
  user_step-fresh :
      (name : Text) (c : Connection)
      → c.logged_in ≡ false
      → user_step (auth_of c) (some name) ≡ (named name, success, specify_password)
  user_step-fresh name c l =
      elim c.user
        as (λ u.
          user_step (auth_state c.logged_in u) (some name)
          ≡ (named name, success, specify_password)) [ none ↦ rw l refl | some n ↦ rw l refl ]

  -- what the two commands of the client leave of the link
  deliver-user :
      (server : Session.State W) (peer : SockAddr) (name : Text) (typed : List Text)
      → IsArgument name
      → server.conn.client_addr ≡ some peer
      → server.conn.logged_in ≡ false
      → deliver os (codes "USER " ++ (name ++ b'\n' ∷ [])) (link_with server [] typed)
        ≡ link_with
            (behind_answer os server (named name, success, specify_password))
            (text specify_password ∷ [])
            typed
  unfolding close_after
  deliver-user server peer name typed arg known fresh =
      deliver-answered os memory (codes "USER " ++ name) server
        (named name, success, specify_password) typed
        (refl, (refl, (refl, (refl, (refl, arg.no_nul)))))
        (user_line os memory name (record server { trace = [] }) peer arg known
          ∙ ap (answered (behind_mallocs os (record server { trace = [] })))
              (user_step-fresh name server.conn fresh))
        (λ fd s. refl)

  result-Goes : (name : Text) (accepted : Bool) → Goes os (result_of name accepted).1
  unfolding close_after
  result-Goes name true fd s = refl
  result-Goes name false fd s = refl

  deliver-pass :
      (server : Session.State W) (peer : SockAddr) (name : Text) (password : Option Text)
      (typed : List Text) (accepted : Bool)
      → IsPassword password
      → server.conn.client_addr ≡ some peer
      → auth_of server.conn ≡ named name
      → accepts name (given password) ≡ accepted
      → deliver os (codes "PASS " ++ (given password ++ b'\n' ∷ [])) (link_with server [] typed)
        ≡ link_with
            (behind_answer os server (result_of name accepted))
            (text (result_of name accepted).2 ∷ [])
            typed
  deliver-pass server peer name password typed accepted allowed known told answer =
      let s0 = record server { trace = [] } in
      deliver-answered os memory (codes "PASS " ++ given password) server (result_of name accepted)
        typed (refl, (refl, (refl, (refl, (refl, given-NoNul password allowed)))))
        (pass_line os memory password s0 peer allowed known
          ∙ ap (λ a. answered (behind_mallocs os s0) (pass_step a password)) told
          ∙ ap (λ b. answered (behind_mallocs os s0) (result_of name b)) answer)
        (result-Goes name accepted)

  pub attempt_login-run :
      (client : Client) (s : State (Link W)) (server : Session.State W) (peer : SockAddr)
      (name : Text) (password : Option Text) (typed : List Text) (accepted : Bool)
      → IsArgument name
      → IsPassword password
      → server.conn.client_addr ≡ some peer
      → server.conn.logged_in ≡ false
      → accepts name (given password) ≡ accepted
      → attempt_login (linked os) client (typing s server name password typed)
        ≡ done (
          if accepted then 1 else 0,
          after_attempt os client s server name password typed accepted,
        )
  unfolding attempt_login send_user_command send_pass_command get_username get_password read_input
      read_response text c_string starts_with
  attempt_login-run client s server peer name password typed true arg allowed known fresh answer =
      let asked = behind_answer os server (named name, success, specify_password) in
      rw (line_lem name arg.no_nul) (
        rw
          (
            deliver-user server peer name ((given password ++ b'\n' ∷ []) ∷ typed) arg known fresh,
            ◌>>=◌,
          )
          (rw (line_lem (given password) (given-NoNul password allowed), ◌>>=◌)
            (rw (deliver-pass asked peer name password typed true allowed known refl answer, ◌>>=◌)
              refl)))
  attempt_login-run client s server peer name password typed false arg allowed known fresh answer =
      let asked = behind_answer os server (named name, success, specify_password) in
      rw (line_lem name arg.no_nul) (
        rw
          (
            deliver-user server peer name ((given password ++ b'\n' ∷ []) ∷ typed) arg known fresh,
            ◌>>=◌,
          )
          (rw (line_lem (given password) (given-NoNul password allowed), ◌>>=◌)
            (rw (deliver-pass asked peer name password typed false allowed known refl answer, ◌>>=◌)
              refl)))

  -- The client, asked for a user name and a password by one user, and the server, which listens to nobody
  -- else, agree on the login: with a name and a password that are single words, or no password at all,
  -- on a server where there is memory, that knows its peer and has nobody logged in, `attempt_login`
  -- returns 1 and the server is logged in under the name where the server accepts the pair, else it
  -- returns 0 and the server has no user.
  pub attempt_login-agrees :
      (client : Client) (s : State (Link W)) (server : Session.State W) (peer : SockAddr)
      (name : Text) (password : Option Text) (typed : List Text)
      → IsArgument name
      → IsPassword password
      → server.conn.client_addr ≡ some peer
      → server.conn.logged_in ≡ false
      → login_of (attempt_login (linked os) client (typing s server name password typed))
        ≡ some
            (if accepts name (given password) then (1, authenticated (some name)) else (0, no_user))
  attempt_login-agrees client s server peer name password typed arg allowed known fresh =
      elim (Bool-cases (accepts name (given password))) [
        | inl accepted ↦ rw accepted (
            ap login_of (
              attempt_login-run client s server peer name password typed true arg allowed known
                fresh accepted))
        | inr refused ↦ rw refused (
            ap login_of (
              attempt_login-run client s server peer name password typed false arg allowed known
                fresh refused))
      ]
