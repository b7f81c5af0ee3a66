-- ===== src/ClientHandler/Quit.antt =====
-- QUIT, from the line of the client to the free slot.
use mathlib.Core.Path.{subst}
use my_ftp.Prelude.{
  ℕ, ◌≤◌, ◌≡◌, ◌≢◌, ◌==◌, refl, sym, ap, ◌∙◌, Bool, true, false, some, List, [], ◌∷◌, ◌++◌, Text,
  codes, All, All-map, All-append, All-reverse, arith, reverse,
}
use my_ftp.Prelude.Outcome.{Outcome, undefined, done}
use my_ftp.Utils.Case.{upper_byte, touppercase}
use my_ftp.Utils.Trimming.{is_space}
use my_ftp.Utils.Trimming.Laws.{IsSpace, IsTight, HeadClear}
use my_ftp.Stdio.Lines.{NoNul}
use my_ftp.Os.{Os}
use my_ftp.Parser.{Command}
use my_ftp.Parser.Words.{IsWord}
use my_ftp.Commands.Simple.{quit_command}
use my_ftp.Reply.{closing}
use my_ftp.Executor.{call, run_handler, execute_command}
use my_ftp.Executor
use my_ftp.Executor.Table.{get_command_handler_iff}
use my_ftp.Session.{quit, Event, written, State}
use my_ftp.Session.Monad.{pure, ◌>>=◌, ◌>>◌}
use my_ftp.DataSocket.Destroy.{close, destroy_connection}
use my_ftp.Server.Stopping.{Says, IsOpen, farewell, farewell-Says}
use my_ftp.ClientHandler.{close_after, handle_client_command, handle_connection}
use my_ftp.ClientHandler.Runs.{HasMemory, handle_client_command-join}

-- A letter, or a byte behind the letters.
abbrev pub IsLetter : ℕ → Type 0
IsLetter c = 65 ≤ c

upper_byte-IsLetter : (c : ℕ) → IsLetter (upper_byte c) → IsLetter c
unfolding upper_byte
upper_byte-IsLetter c h = ground arith

pub touppercase-IsLetter : (name : Text) → All IsLetter (touppercase name) → All IsLetter name
unfolding touppercase
touppercase-IsLetter [] h = tt
touppercase-IsLetter (c ∷ name) (h, hs) = (upper_byte-IsLetter c h, touppercase-IsLetter name hs)

letter_clear : (c : ℕ) → IsLetter c → is_space c ≡ false
unfolding is_space
letter_clear c h = ground arith

letter_one_word : (c : ℕ) → IsLetter c → (c == b' ') ≡ false
letter_one_word c h = ground arith

pub letter_not_nul : (c : ℕ) → IsLetter c → (c == 0) ≡ false
letter_not_nul c h = ground arith

HeadClear-All : (t : Text) → All IsLetter t → HeadClear t
HeadClear-All [] h = tt
HeadClear-All (c ∷ t) (h, hs) = letter_clear c h

pub letters-IsWord : (name : Text) → name ≢ [] → All IsLetter name → IsWord name
letters-IsWord name ne h = record {
  not_empty = ne;
  one_word = All-map IsLetter (λ c. (c == b' ') ≡ false) name letter_one_word h;
}

pub letters-IsTight : (name : Text) → All IsLetter name → IsTight name
letters-IsTight name h = record {
  first = HeadClear-All name h;
  last = HeadClear-All (reverse name) (All-reverse IsLetter name h);
}

-- the line that the client ends with "\r\n", without its newline
abbrev line_of : Text → Text
line_of name = name ++ b'\r' ∷ []

letters-NoNul : (name : Text) → All IsLetter name → NoNul (line_of name)
letters-NoNul name h =
    All-append (λ c. (c == 0) ≡ false) name (b'\r' ∷ [])
      (All-map IsLetter (λ c. (c == 0) ≡ false) name letter_not_nul h) (refl, tt)

quit_letters : (name : Text) → touppercase name ≡ codes "QUIT" → All IsLetter name
quit_letters name e =
    touppercase-IsLetter name
      (subst (All IsLetter) (sym e) (omega arith, (omega arith, (omega arith, (omega arith, tt)))))

quit_ne : (name : Text) → touppercase name ≡ codes "QUIT" → name ≢ []
unfolding touppercase
quit_ne name e empty = cc (ap touppercase empty)

return-IsSpace : All IsSpace (b'\r' ∷ [])
unfolding is_space
return-IsSpace = (refl, tt)

-- The client gets its slot back: these are the events, and the flag of `handle_connection` is set.
abbrev pub Frees : {W : Type 0} → List Event → State W → Outcome (Bool × State W) → Type 0
Frees events s undefined = ⊥
Frees events s (done (freed, t)) = (freed ≡ true) × (t.trace ≡ s.trace ++ events)

module _ {W : Type 0} (os : Os W) where
  closed_Frees :
      (o : Outcome (Unit {0} × State W)) (fd : ℕ) (events : List Event) (s u : State W)
      → Says events s (((λ _. o) >> close os fd) u)
      → Frees events s (((λ _. o) >> (close os fd >> pure true)) u)
  closed_Frees undefined fd events s u h = h
  closed_Frees (done (_, t)) fd events s u h = (refl, h.1)

  Frees-of_trace :
      (events : List Event) (s t : State W) (o : Outcome (Bool × State W))
      → t.trace ≡ s.trace
      → Frees events t o
      → Frees events s o
  Frees-of_trace events s t undefined e h = h
  Frees-of_trace events s t (done (_, u)) e (freed, said) = (freed, said ∙ ap (λ r. r ++ events) e)

  pub close_after-Frees :
      (fd : ℕ) (s : State W)
      → IsOpen s.conn
      → Frees (farewell fd (some s.conn)) s (close_after os fd quit s)
  unfolding close_after
  close_after-Frees fd s h =
      closed_Frees
        (destroy_connection os true (record s { trace = s.trace ++ written fd closing ∷ [] })) fd _
        s (record s { trace = s.trace ++ written fd closing ∷ [] }) (farewell-Says os fd s h)

  -- The line is the command QUIT.
  quit_runs :
      (stream : ℕ) (name : Text) (s : State W)
      → HasMemory os
      → IsOpen s.conn
      → touppercase name ≡ codes "QUIT"
      → s.conn.stream ≡ some stream
      → (os.getline stream s.world).0 ≡ some (line_of name ++ b'\n' ∷ [])
      → (w : W) × (handle_client_command os s ≡ done (quit, record s { world = w }))
  unfolding execute_command run_handler call quit_command
  quit_runs stream name s memory ready named streamed came =
      let letters = quit_letters name named in
      let command : Command = record { name = name; argc = 0; argv = [] } in
      let w = (os.malloc (os.malloc (os.getline stream s.world).1).1).1 in
      (
        w,
        handle_client_command-join os memory [] (b'\r' ∷ []) name [] tt return-IsSpace
              (letters-IsWord name (quit_ne name named) letters, tt) (letters-IsTight name letters)
              s ready.peer stream ready.known streamed (letters-NoNul name letters) came
            ∙ ap (λ h. run_handler os h command (record s { world = w }))
                ((get_command_handler_iff command Executor.quit).1 named),
      )

  -- A client that sends QUIT, in upper case or in lower case, over an open connection gets the reply
  -- 221; its data connection, its stream and its socket are closed, and its slot is free again.
  pub handle_connection-quit :
      (fd stream : ℕ) (name : Text) (s : State W)
      → HasMemory os
      → IsOpen s.conn
      → touppercase name ≡ codes "QUIT"
      → s.conn.stream ≡ some stream
      → (os.getline stream s.world).0 ≡ some (line_of name ++ b'\n' ∷ [])
      → Frees (farewell fd (some s.conn)) s (handle_connection os fd s)
  unfolding handle_connection
  handle_connection-quit fd stream name s memory ready named streamed came =
      let (w, run) = quit_runs stream name s memory ready named streamed came in
      subst (λ o. Frees (farewell fd (some s.conn)) s (((λ _. o) >>= close_after os fd) s))
        (sym run)
        (Frees-of_trace (farewell fd (some s.conn)) s (record s { world = w }) _ refl
          (close_after-Frees fd (record s { world = w }) ready))
