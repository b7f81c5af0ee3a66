-- ===== src/ClientHandler/Runs.antt =====
-- A line of well-separated words, where there is memory: what `handle_client_command` runs for it.
use mathlib.Core.List.{reverse-append, reverse-reverse}
use my_ftp.Prelude.{
  ℕ, ◌≡◌, ◌≢◌, refl, ap, ◌∙◌, true, false, some, List, [], ◌∷◌, ◌++◌, Text, text_eq, length, All,
  reverse, null_or,
}
use my_ftp.Prelude.Outcome.{done}
use my_ftp.Utils.Trimming.{trim}
use my_ftp.Utils.Trimming.Laws.{IsSpace, IsTight, trim-append}
use my_ftp.Os.{Os, SockAddr}
use my_ftp.Parser.{Command}
use my_ftp.Parser.Words.{join, IsWord}
use my_ftp.Parser.Laws.{parse_buffer-join}
use my_ftp.Stdio.{c_string}
use my_ftp.Stdio.Lines.{NoNul, c_string-NoNul}
use my_ftp.DataSocket.Destroy.{describe_client}
use my_ftp.Session.{State, failure}
use my_ftp.Session.Monad.{pure, ◌>>=◌, ◌>>◌}
use my_ftp.Executor.{execute_command}
use my_ftp.ClientHandler.{
  drop_newline, read_socket, tokens_malloc, parse_line, execute_line, handle_client_command,
}

-- There is memory, always.
abbrev pub HasMemory : {W : Type 0} → Os W → Type 0
HasMemory {W} os = (w : W) → (os.malloc w).0 ≡ true

pub text_eq-ne : (t : Text) → t ≢ [] → text_eq t [] ≡ false
unfolding text_eq
text_eq-ne [] h = absurd (h refl)
text_eq-ne (c ∷ t) h = refl

join-ne : (name : Text) (argv : List Text) → name ≢ [] → join (name ∷ argv) ≢ []
join-ne [] argv h e = h refl
join-ne (c ∷ name) [] h e = cc
join-ne (c ∷ name) (a ∷ argv) h e = cc

pub drop_newline-append : (line : Text) → drop_newline (reverse (line ++ b'\n' ∷ [])) ≡ line
unfolding drop_newline
drop_newline-append line = rw (reverse-append line (b'\n' ∷ [])) (reverse-reverse line)

module _ {W : Type 0} (os : Os W) where
  describe_client-known :
      (s : State W) (peer : SockAddr)
      → s.conn.client_addr ≡ some peer
      → describe_client os true s ≡ done (tt, s)
  describe_client-known s peer known = rw known refl

  read_socket-line :
      (s : State W) (stream : ℕ) (line : Text)
      → s.conn.stream ≡ some stream
      → NoNul line
      → (os.getline stream s.world).0 ≡ some (line ++ b'\n' ∷ [])
      → read_socket os s ≡ done (some line, record s { world = (os.getline stream s.world).1 })
  unfolding read_socket
  read_socket-line s stream line open_stream clean came =
      rw (open_stream, came)
        (rw (ap c_string (drop_newline-append line) ∙ c_string-NoNul line clean) refl)

module _ {W : Type 0} (os : Os W) (memory : HasMemory os) (before after name : Text)
    (argv : List Text) (before_space : All IsSpace before) (after_space : All IsSpace after)
    (words : All IsWord (name ∷ argv)) (tight : IsTight (join (name ∷ argv))) where
  abbrev pub buffer_of : Text
  buffer_of = before ++ (join (name ∷ argv) ++ after)

  abbrev pub command_of : Command
  command_of = record { name = name; argc = length argv; argv = argv }

  -- the state behind the two calls of `malloc`
  abbrev pub allocated : State W → State W
  allocated s = record s { world = (os.malloc (os.malloc s.world).1).1 }

  not_blank : text_eq (trim buffer_of) [] ≡ false
  not_blank =
      ap (λ t. text_eq t [])
        (trim-append before (join (name ∷ argv)) after before_space tight after_space)
      ∙ text_eq-ne (join (name ∷ argv)) (join-ne name argv words.0.not_empty)

  pub parse_line-join :
      (s : State W) → parse_line os buffer_of s ≡ done (some command_of, allocated s)
  unfolding parse_line tokens_malloc
  parse_line-join s = rw (memory s.world) (
      rw not_blank (
        rw (memory (os.malloc s.world).1) (
          rw (parse_buffer-join before after name argv before_space after_space words tight) refl)))

  -- The line runs its command.
  pub execute_line-join :
      (s : State W) (peer : SockAddr)
      → s.conn.client_addr ≡ some peer
      → execute_line os buffer_of s ≡ execute_command os (some command_of) (allocated s)
  unfolding execute_line
  execute_line-join s peer known =
      ap (λ o. ((λ _. o) >> (parse_line os buffer_of >>= λ command. execute_command os command)) s)
        (describe_client-known os s peer known)
      ∙ ap (λ o. ((λ _. o) >>= λ command. execute_command os command) s) (parse_line-join s)

  -- The line that `getline` returns ends in a newline, which `read_socket` takes away.
  pub handle_client_command-join :
      (s : State W) (peer : SockAddr) (stream : ℕ)
      → s.conn.client_addr ≡ some peer
      → s.conn.stream ≡ some stream
      → NoNul buffer_of
      → (os.getline stream s.world).0 ≡ some (buffer_of ++ b'\n' ∷ [])
      → handle_client_command os s
        ≡ execute_command os
            (some command_of)
            (allocated (record s { world = (os.getline stream s.world).1 }))
  unfolding handle_client_command
  handle_client_command-join s peer stream known open_stream clean came =
      ap (λ o. ((λ _. o) >>= λ b. null_or b (pure failure) (λ line. execute_line os line)) s)
        (read_socket-line os s stream buffer_of open_stream clean came)
      ∙ execute_line-join (record s { world = (os.getline stream s.world).1 }) peer known
