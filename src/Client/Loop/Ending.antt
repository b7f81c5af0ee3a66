-- ===== src/Client/Loop/Ending.antt =====
-- bonus/src/client.c: how EXIT ends a client that was connected.
use mathlib.Core.List.{append_assoc}
use mathlib.Core.Path.{subst}
use my_ftp.Prelude.{
  ℕ, suc, ◌≡◌, ◌≢◌, refl, sym, ap, ◌∙◌, true, false, Option, none, some, null_or, [], ◌∷◌, ◌++◌,
  ◌==◌, Text, codes, text_eq, All, All-map, All-append, arith,
}
use my_ftp.Prelude.Outcome.{done}
use my_ftp.Utils.Case.{touppercase}
use my_ftp.Utils.Trimming.{is_space}
use my_ftp.Utils.Trimming.Laws.{IsSpace, trim-append}
use my_ftp.Stdio.Lines.{NoNul, c_string-NoNul}
use my_ftp.Parser.{Command}
use my_ftp.Parser.Laws.{parse_buffer-join}
use my_ftp.Session.{CommandStatus, success, quit}
use my_ftp.Executor.{find_handler}
use my_ftp.ClientHandler.Runs.{text_eq-ne}
use my_ftp.ClientHandler.Quit.{
  IsLetter, touppercase-IsLetter, letters-IsWord, letters-IsTight, letter_not_nul,
}
use my_ftp.Client.System.{ClientOs}
use my_ftp.Client.State.{Client, sent, closed, State, M, pure, ◌>>=◌, ◌>>◌}
use my_ftp.Client.Trimming.{trim}
use my_ftp.Client.Parser.Agrees.{trim_agrees, parse_buffer_agrees}
use my_ftp.Client.Reading.{read_input}
use my_ftp.Client.Commands.{exit_command}
use my_ftp.Client.Executor.{get_command_handler, call, execute_command}
use my_ftp.Client.Loop.{parse_line, loop_execution, command_loop, destroy_client, run_commands}

exit_letters : (name : Text) → touppercase name ≡ codes "EXIT" → All IsLetter name
exit_letters name e =
    touppercase-IsLetter name
      (subst (All IsLetter) (sym e) (omega arith, (omega arith, (omega arith, (omega arith, tt)))))

exit_ne : (name : Text) → touppercase name ≡ codes "EXIT" → name ≢ []
unfolding touppercase
exit_ne name e empty = cc (ap touppercase empty)

newline-IsSpace : All IsSpace (b'\n' ∷ [])
unfolding is_space
newline-IsSpace = (refl, tt)

line-NoNul : (name : Text) → All IsLetter name → NoNul (name ++ b'\n' ∷ [])
line-NoNul name h =
    All-append (λ c. (c == 0) ≡ false) name (b'\n' ∷ [])
      (All-map IsLetter (λ c. (c == 0) ≡ false) name letter_not_nul h) (refl, tt)

abbrev exit_named : Text → Command
exit_named name = record { name = name; argc = 0; argv = [] }

module _ {W : Type 0} (os : ClientOs W) (memory : (w : W) → (os.malloc w).0 ≡ true) where
  abbrev behind_mallocs : W → W
  behind_mallocs w = (os.malloc (os.malloc w).1).1

  parse_line-exit :
      (name : Text) (s : State W)
      → touppercase name ≡ codes "EXIT"
      → parse_line os (name ++ b'\n' ∷ []) s
        ≡ done (some (exit_named name), record s { world = behind_mallocs s.world })
  unfolding parse_line
  parse_line-exit name s named =
      let letters = exit_letters name named in
      let ne = exit_ne name named in
      let not_blank : text_eq (trim (name ++ b'\n' ∷ [])) [] ≡ false =
        ap (λ t. text_eq t [])
          (trim_agrees (name ++ b'\n' ∷ [])
            ∙ trim-append [] name (b'\n' ∷ []) tt (letters-IsTight name letters) newline-IsSpace)
        ∙ text_eq-ne name ne in
      rw (memory s.world, not_blank, memory (os.malloc s.world).1)
        (rw
          (parse_buffer_agrees true true (name ++ b'\n' ∷ [])
            ∙ parse_buffer-join [] (b'\n' ∷ []) name [] tt newline-IsSpace
                (letters-IsWord name ne letters, tt) (letters-IsTight name letters))
          refl)

  execute_command-exit :
      (name : Text) (client : Client) (s : State W)
      → touppercase name ≡ codes "EXIT"
      → execute_command os (some (exit_named name)) client s ≡ done (quit, s)
  unfolding execute_command get_command_handler find_handler text_eq call exit_command
  execute_command-exit name client s named = rw named refl

  read_input-line :
      (line : Text) (s : State W)
      → NoNul line
      → (os.input s.world).0 ≡ some line
      → read_input os s ≡ done (some line, record s { world = (os.input s.world).1 })
  unfolding read_input
  read_input-line line s clean typed = rw typed (rw (c_string-NoNul line clean) refl)

  -- what `loop_execution` does behind its first two calls
  abbrev behind_parse : Client → Option Command → M W CommandStatus
  behind_parse client command =
      null_or command (pure quit) (λ c. execute_command os (some c) client)

  abbrev behind_input : Client → Option Text → M W CommandStatus
  behind_input client buffer =
      null_or buffer (pure quit) (λ line. parse_line os line >>= behind_parse client)

  loop_execution-exit :
      (name : Text) (client : Client) (s : State W)
      → touppercase name ≡ codes "EXIT"
      → (os.input s.world).0 ≡ some (name ++ b'\n' ∷ [])
      → loop_execution os client s
        ≡ done (quit, record s { world = behind_mallocs (os.input s.world).1 })
  unfolding loop_execution
  loop_execution-exit name client s named typed =
      let s1 : State W = record s { world = (os.input s.world).1 } in
      ap (λ o. ((λ _. o) >>= behind_input client) s)
        (read_input-line (name ++ b'\n' ∷ []) s (line-NoNul name (exit_letters name named)) typed)
      ∙ ap (λ o. ((λ _. o) >>= behind_parse client) s1) (parse_line-exit name s1 named)
      ∙ execute_command-exit name client (record s1 { world = behind_mallocs s1.world }) named

  command_loop-exit :
      (commands : ℕ) (name : Text) (client : Client) (s : State W)
      → (os.stopped s.world).0 ≡ false
      → touppercase name ≡ codes "EXIT"
      → (os.input (os.stopped s.world).1).0 ≡ some (name ++ b'\n' ∷ [])
      → command_loop os (suc (suc commands)) client success s
        ≡ done (some tt, record s { world = behind_mallocs (os.input (os.stopped s.world).1).1 })
  unfolding command_loop
  command_loop-exit commands name client s going named typed =
      let s1 : State W = record s { world = (os.stopped s.world).1 } in
      rw going (
        ap (λ o. ((λ _. o) >>= command_loop os (suc commands) client) s1)
          (loop_execution-exit name client s1 named typed))

  -- A user who has logged in and types EXIT, in upper case or in lower case, ends the client in two rounds
  -- of its loop, where there is memory and no signal has come: the exit code is 0, and all that it does on
  -- its socket is to send QUIT and to close it.
  pub run_commands-exit :
      (commands : ℕ) (name : Text) (client : Client) (logged_in : ℕ) (s : State W)
      → (logged_in == 84) ≡ false
      → (os.stopped s.world).0 ≡ false
      → touppercase name ≡ codes "EXIT"
      → (os.input (os.stopped s.world).1).0 ≡ some (name ++ b'\n' ∷ [])
      → run_commands os (suc (suc commands)) client logged_in s
        ≡ done (
          some 0,
          record s {
            world = os.close client.sockfd (
                os.send client.sockfd
                  (codes "QUIT\r\n")
                  (behind_mallocs (os.input (os.stopped s.world).1).1));
            trace = s.trace ++ (sent client.sockfd (codes "QUIT\r\n") ∷ closed client.sockfd ∷ []);
          },
        )
  unfolding run_commands destroy_client
  run_commands-exit commands name client logged_in s entered going named typed = rw entered (
      ap
        (λ o.
          ((λ _. o) >>= λ ended.
          null_or ended (pure none) (λ _. destroy_client os client >> pure (some 0)))
            s)
        (command_loop-exit commands name client s going named typed)
      ∙ ap
          (λ t. done (
            some 0,
            record s {
              world = os.close client.sockfd (
                  os.send client.sockfd (codes "QUIT\r\n")
                    (behind_mallocs (os.input (os.stopped s.world).1).1));
              trace = t;
            },
          ))
          (append_assoc s.trace (sent client.sockfd (codes "QUIT\r\n") ∷ [])
            (closed client.sockfd ∷ [])))
