-- ===== src/ClientHandler/Obeys.antt =====
-- What one line of a client does to its login: one step of the machine of `Login.Spec`, or none.
use my_ftp.Prelude.{ℕ, ◌≡◌, refl, ap, ◌∙◌, true, Option, none, some, null_or, Text}
use my_ftp.Prelude.Outcome.{Outcome, undefined, done}
use my_ftp.Os.{Os}
use my_ftp.Parser.{Command}
use my_ftp.Session.{Connection, failure, State}
use my_ftp.Session.Monad.{M, pure}
use my_ftp.Session.Keeps.{Leaves, Leaves-bind, Keeps-done}
use my_ftp.Executor.{Handler, get_command_handler, execute_command}
use my_ftp.Executor.Frames.{IsSteady, execute_none-Keeps}
use my_ftp.DataSocket.Destroy.{describe_client}
use my_ftp.DataSocket.Frames.{describe_client-Keeps}
use my_ftp.Login.Spec.{Auth, auth_of, auth_step}
use my_ftp.Login.Handlers.{argument}
use my_ftp.Login.Refinement.{execute_command-auth_step}
use my_ftp.ClientHandler.{
  read_socket, parse_line, execute_line, handle_client_command, close_after, handle_connection,
}
use my_ftp.ClientHandler.Lines.{
  read_socket-Keeps, parse_line-Keeps, parse_line-Reads, close_after-Keeps,
}

abbrev HasAuth : Auth → Connection → Type 0
HasAuth a c = auth_of c ≡ a

HasAuth-steady : (a : Auth) → IsSteady (HasAuth a)
HasAuth-steady a = record { data_socket = λ c d h. h; transfer_mode = λ c m h. h }

-- One command took the first login to the second. A name that is no command's takes a login to itself.
pub record Obeyed (a b : Auth) : Type 0 where
  pub found : Option Handler
  pub word : Option Text
  pub stepped : b ≡ auth_step found word a

abbrev AuthObeyed : Auth → Connection → Type 0
AuthObeyed a c = Obeyed a (auth_of c)

Obeyed-same : {a b : Auth} → b ≡ a → Obeyed a b
Obeyed-same e = record { found = none; word = none; stepped = e }

module _ {W : Type 0} (os : Os W) where
  Obeyed-pure :
      {A : Type 0} (a : Auth) (x : A) (s : State W)
      → HasAuth a s.conn
      → Leaves (AuthObeyed a) (pure x s)
  Obeyed-pure a x s h = Obeyed-same h

  -- An action that keeps the login comes before one that may move it.
  Obeyed-bind :
      {A B : Type 0} (a : Auth) (o : Outcome (A × State W)) (f : A → M W B)
      → Leaves (HasAuth a) o
      → ((x : A) (t : State W) → o ≡ done (x, t) → HasAuth a t.conn → Leaves (AuthObeyed a) (f x t))
      → Leaves
          (AuthObeyed a)
          (elim o as (λ _. Outcome (B × State W)) [ undefined ↦ undefined | done (x, t) ↦ f x t ])
  Obeyed-bind a undefined f h k = tt
  Obeyed-bind a (done (x, t)) f h k = k x t refl h

  Obeyed-done :
      {A : Type 0} (a : Auth) (o : Outcome (A × State W))
      → ((x : A) (t : State W) → o ≡ done (x, t) → AuthObeyed a t.conn)
      → Leaves (AuthObeyed a) o
  Obeyed-done a undefined h = tt
  Obeyed-done a (done (x, t)) h = h x t refl

  execute_parsed-Obeyed :
      (a : Auth) (buffer : Text) (s : State W) (command : Option Command) (t : State W)
      → parse_line os buffer s ≡ done (command, t)
      → HasAuth a t.conn
      → Leaves (AuthObeyed a) (execute_command os command t)
  execute_parsed-Obeyed a buffer s none t parsed h =
      Obeyed-done a (execute_command os none t) λ status u e.
        Obeyed-same (Keeps-done {s = t} (execute_none-Keeps os (HasAuth a) (HasAuth-steady a)) h e)
  execute_parsed-Obeyed a buffer s (some command) t parsed h =
      Obeyed-done a (execute_command os (some command) t) λ status u e. record {
        found = get_command_handler command;
        word = argument command;
        stepped =
            execute_command-auth_step os command t (parse_line-Reads os buffer s parsed).1 e
            ∙ ap (auth_step (get_command_handler command) (argument command)) h;
      }

  execute_line-Obeyed :
      (a : Auth) (buffer : Text) (s : State W)
      → HasAuth a s.conn
      → Leaves (AuthObeyed a) (execute_line os buffer s)
  unfolding execute_line
  execute_line-Obeyed a buffer s h =
      Obeyed-bind a (describe_client os true s) _
        ((describe_client-Keeps os (HasAuth a) true).at s h)
        λ _ t _ h'.
          Obeyed-bind a (parse_line os buffer t) (execute_command os)
            ((parse_line-Keeps os (HasAuth a) buffer).at t h')
            (λ command u parsed h''. execute_parsed-Obeyed a buffer t command u parsed h'')

  line-Obeyed :
      (a : Auth) (buffer : Option Text) (s : State W)
      → HasAuth a s.conn
      → Leaves (AuthObeyed a) (null_or buffer (pure failure) (λ line. execute_line os line) s)
  line-Obeyed a none s h = Obeyed-same h
  line-Obeyed a (some line) s h = execute_line-Obeyed a line s h

  handle_client_command-Obeyed :
      (s : State W) → Leaves (AuthObeyed (auth_of s.conn)) (handle_client_command os s)
  unfolding handle_client_command
  handle_client_command-Obeyed s =
      let a = auth_of s.conn in
      Obeyed-bind a (read_socket os s) _ ((read_socket-Keeps os (HasAuth a)).at s refl)
        λ buffer t _ h. line-Obeyed a buffer t h

  -- Where the code is defined, a line takes the login of its client one step, or leaves it.
  pub handle_connection-Obeyed :
      (fd : ℕ) (s : State W) → Leaves (AuthObeyed (auth_of s.conn)) (handle_connection os fd s)
  unfolding handle_connection
  handle_connection-Obeyed fd s =
      Leaves-bind (handle_client_command os s) (close_after os fd) (handle_client_command-Obeyed s)
        (close_after-Keeps os (AuthObeyed (auth_of s.conn)) fd)
