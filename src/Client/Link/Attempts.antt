-- ===== src/Client/Link/Attempts.antt =====
-- The loop of bonus/src/login.c over several attempts of the user, in front of the server.
use my_ftp.Prelude.{
  ℕ, suc, ◌≡◌, refl, ap, ◌∙◌, Bool, true, false, Option, none, some, List, [], ◌∷◌, ◌++◌, Text, All,
  length, if◌then◌else◌,
}
use my_ftp.Prelude.Outcome.{Outcome, undefined, done}
use my_ftp.Os.{Os, SockAddr}
use my_ftp.Reply.{text, service_ready}
use my_ftp.Session as Session
use my_ftp.Commands.Login.{accepts}
use my_ftp.Login.Spec.{Auth, authenticated, given}
use my_ftp.ClientHandler.Runs.{HasMemory}
use my_ftp.Client.State.{Client, State, ◌>>=◌}
use my_ftp.Client.Reading.{read_response}
use my_ftp.Client.Login.{attempt_login, login_loop, login}
use my_ftp.Client.Link.{Link, linked}
use my_ftp.Client.Link.Lines.{IsArgument, IsPassword, link_with}
use my_ftp.Client.Link.Login.{server_after, login_of, typing, after_attempt, attempt_login-run}

-- what the user answers to the two prompts
pub record Attempt : Type 0 where
  pub name : Text
  pub password : Option Text

-- the answers are single words, and the server accepts or refuses them
pub record Answered (accepted : Bool) (a : Attempt) : Type 0 where
  pub argument : IsArgument a.name
  pub allowed : IsPassword a.password
  pub answer : accepts a.name (given a.password) ≡ accepted

abbrev pub lines_of : List Attempt → List Text → List Text
lines_of [] typed = typed
lines_of (a ∷ attempts) typed =
    (a.name ++ b'\n' ∷ []) ∷ (given a.password ++ b'\n' ∷ []) ∷ lines_of attempts typed

-- the result of the loop once it has ended, and the login of the server behind it
abbrev pub loop_result : {W : Type 0} → Outcome (Option ℕ × State (Link W)) → Option (ℕ × Auth)
loop_result undefined = none
loop_result (done (none, s)) = none
loop_result (done (some code, s)) = login_of (done (code, s))

module _ {W : Type 0} (os : Os W) (memory : HasMemory os) (client : Client) where
  -- One round of the loop runs an attempt.
  login_loop-round :
      (n : ℕ) (s : State (Link W))
      → login_loop (linked os) (suc n) client 0 s
        ≡ (attempt_login (linked os) client >>= login_loop (linked os) n client) s
  unfolding login_loop
  login_loop-round n s = refl

  login_loop-ended :
      (n : ℕ) (s : State (Link W)) → login_loop (linked os) (suc n) client 1 s ≡ done (some 1, s)
  unfolding login_loop
  login_loop-ended n s = refl

  login_loop-attempt :
      (n : ℕ) (s : State (Link W)) (server : Session.State W) (peer : SockAddr) (a : Attempt)
      (typed : List Text) (accepted : Bool)
      → Answered accepted a
      → server.conn.client_addr ≡ some peer
      → server.conn.logged_in ≡ false
      → login_loop (linked os) (suc n) client 0 (typing s server a.name a.password typed)
        ≡ login_loop
            (linked os)
            n
            client
            (if accepted then 1 else 0)
            (after_attempt os client s server a.name a.password typed accepted)
  login_loop-attempt n s server peer a typed accepted ok known fresh =
      login_loop-round n (typing s server a.name a.password typed)
      ∙ ap (λ o. ((λ _. o) >>= login_loop (linked os) n client) s)
          (attempt_login-run os memory client s server peer a.name a.password typed accepted
            ok.argument ok.allowed known fresh ok.answer)

  login_loop-succeeds :
      (attempts : List Attempt) (good : Attempt) (s : State (Link W)) (server : Session.State W)
      (peer : SockAddr) (typed : List Text)
      → All (Answered false) attempts
      → Answered true good
      → server.conn.client_addr ≡ some peer
      → server.conn.logged_in ≡ false
      → loop_result (
          login_loop (linked os) (suc (suc (length attempts))) client 0 (record s {
            world = link_with server [] (lines_of attempts (lines_of (good ∷ []) typed));
          }))
        ≡ some (1, authenticated (some good.name))
  login_loop-succeeds [] good s server peer typed refused ok known fresh = ap loop_result (
      login_loop-attempt 1 s server peer good typed true ok known fresh
      ∙ login_loop-ended 0 (after_attempt os client s server good.name good.password typed true))
  login_loop-succeeds (a ∷ attempts) good s server peer typed (no_good, refused) ok known fresh =
      let rest = lines_of attempts (lines_of (good ∷ []) typed) in
      ap loop_result (
        login_loop-attempt (suc (suc (length attempts))) s server peer a rest false no_good known
          fresh)
      ∙ login_loop-succeeds attempts good
          (after_attempt os client s server a.name a.password rest false)
          (server_after os server a.name false) peer typed refused ok known refl

  -- A user who is refused any number of times and then gives a name and a password that the server
  -- accepts is logged in, on both ends: `login`, behind the greeting of a server where there is memory,
  -- that knows its peer and has nobody logged in, ends with 1 in as many rounds as there are attempts and
  -- one more, and the server is logged in under the last name. The answers are single words, and a
  -- password may be empty.
  pub login-succeeds :
      (attempts : List Attempt) (good : Attempt) (s : State (Link W)) (server : Session.State W)
      (peer : SockAddr) (typed : List Text)
      → All (Answered false) attempts
      → Answered true good
      → server.conn.client_addr ≡ some peer
      → server.conn.logged_in ≡ false
      → loop_result (
          login (linked os) (suc (suc (length attempts))) client (record s {
            world =
                link_with server
                  (text service_ready ∷ [])
                  (lines_of attempts (lines_of (good ∷ []) typed));
          }))
        ≡ some (1, authenticated (some good.name))
  unfolding login read_response
  login-succeeds attempts good s server peer typed refused ok known fresh =
      login_loop-succeeds attempts good s server peer typed refused ok known fresh
