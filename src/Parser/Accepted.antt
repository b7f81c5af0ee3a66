-- ===== src/Parser/Accepted.antt =====
-- Which lines `parse_buffer` of src/command_parser.c accepts, and on which it reads a token that was
-- never written.
use my_ftp.Prelude.{
  ℕ, zero, suc, ◌+◌, ◌-◌, ◌≤◌, ◌≡◌, ◌≢◌, refl, sym, ap, ◌⊎◌, ◌||◌, ◌&&◌, Bool, true, false, none,
  some, List, [], ◌∷◌, ◌++◌, arith, ltb, leb, ◌==◌, Text, inl, inr, Bool-cases, length, All,
  get_elem?,
}
use mathlib.Core.Path.{subst}
use my_ftp.Prelude.Outcome.{undefined, done}
use my_ftp.Utils.Trimming.{trim}
use my_ftp.Utils.Trimming.Laws.{IsTight, trim_lem}
use my_ftp.Parser.Strtok.{strtok_loop}
use my_ftp.Parser.Words.{join, IsWord}
use my_ftp.Parser.Count.{join-strtok_loop}
use my_ftp.Parser.Loop.{strtok_loop-IsWord}
use my_ftp.Parser.Laws.{parse_trimmed-words}
use my_ftp.Parser.{Command, count_spaces, count_args, tokenize_buffer, parse_trimmed, parse_buffer}

get_elem?-none {ℓ} : {A : Type ℓ} (xs : List A) (i : ℕ) → length xs ≤ i → get_elem? xs i ≡ none
get_elem?-none [] i h = refl
get_elem?-none (x ∷ xs) zero h = absurd (omega arith)
get_elem?-none (x ∷ xs) (suc i) h = get_elem?-none xs i (omega arith)

-- With too few tokens the cell that the code looks at was never written.
tokenize_buffer-short :
    (t : Text)
    → length (strtok_loop b' ' (suc (length t)) t) ≤ count_spaces t
    → tokenize_buffer true t (count_args t) ≡ undefined
unfolding tokenize_buffer count_args
tokenize_buffer-short t h =
    let tokens = strtok_loop b' ' (suc (length t)) t in
    let fits : ltb (count_spaces t + 1 + 1) (length tokens) ≡ false = ground arith in
    rw fits (rw (get_elem?-none tokens (count_spaces t + 1 - 1) (omega arith)))

parse_trimmed-undefined :
    (t : Text)
    → t ≢ []
    → tokenize_buffer true t (count_args t) ≡ undefined
    → parse_trimmed true t ≡ undefined
unfolding parse_trimmed
parse_trimmed-undefined [] ne h = absurd (ne refl)
parse_trimmed-undefined (c ∷ t) ne h = rw h

-- a line of words, with single spaces between them
record IsLine (t : Text) : Type 0 where
  name : Text
  argv : List Text
  joined : t ≡ join (name ∷ argv)
  words : All IsWord (name ∷ argv)

IsLine-of :
    (t : Text) (tokens : List Text)
    → 1 ≤ length tokens
    → join tokens ≡ t
    → All IsWord tokens
    → IsLine t
IsLine-of t [] n e h = absurd (omega arith)
IsLine-of t (name ∷ argv) n e h = record { name = name; argv = argv; joined = sym e; words = h }

-- The parser accepts a line of words, and nothing else.
IsLine-or_undefined : (t : Text) → t ≢ [] → IsLine t ⊎ (parse_trimmed true t ≡ undefined)
IsLine-or_undefined t ne =
    let tokens = strtok_loop b' ' (suc (length t)) t in
    elim (Bool-cases (leb (count_spaces t + 1) (length tokens))) [
      | inl full ↦
          let full' : count_spaces t + 1 ≤ length tokens = ground arith in
          inl (
            IsLine-of t tokens (omega arith) (join-strtok_loop (suc (length t)) t full')
              (strtok_loop-IsWord (suc (length t)) t))
      | inr short ↦ inr (parse_trimmed-undefined t ne (tokenize_buffer-short t (ground arith)))
    ]

-- the command is made of the words of the line
abbrev pub Reads : Text → Command → Type 0
Reads t command =
    (t ≡ join (command.name ∷ command.argv))
    × (command.argc ≡ length command.argv)
    × All IsWord (command.name ∷ command.argv)

parse_trimmed-Reads :
    (t : Text) (command : Command)
    → IsTight t
    → parse_trimmed true t ≡ done (some command)
    → Reads t command
unfolding parse_trimmed
parse_trimmed-Reads [] command tight e = cc
parse_trimmed-Reads (c ∷ t) command tight e = elim (IsLine-or_undefined (c ∷ t) (λ p. cc)) [
  | inl l ↦
      let accepted = parse_trimmed-words (c ∷ t) l.name l.argv l.joined l.words tight in
      subst (Reads (c ∷ t)) (cc) (l.joined, refl, l.words)
  | inr u ↦ cc
]

parse_trimmed-malloc : (t : Text) → parse_trimmed false t ≡ done none
unfolding parse_trimmed tokenize_buffer
parse_trimmed-malloc [] = refl
parse_trimmed-malloc (c ∷ t) = refl

-- A command that the parser returns is made of the words of the trimmed line, which are joined by
-- single spaces; `argc` counts the arguments.
pub parse_buffer-Reads :
    (command_allocated tokens_allocated : Bool) (buffer : Text) (command : Command)
    → parse_buffer command_allocated tokens_allocated buffer ≡ done (some command)
    → Reads (trim buffer) command
unfolding parse_buffer
parse_buffer-Reads false tokens_allocated buffer command e = cc
parse_buffer-Reads true false buffer command e = cc (parse_trimmed-malloc (trim buffer))
parse_buffer-Reads true true buffer command e =
    let (p, trimmed) = trim_lem buffer in
    parse_trimmed-Reads (trim buffer) command (subst IsTight (sym trimmed) p.tight) e

-- two spaces side by side
abbrev pub doubled : Text → Bool
doubled [] = false
doubled (c ∷ []) = false
doubled (c ∷ d ∷ text) = c == b' ' && d == b' ' || doubled (d ∷ text)

doubled-word :
    (w : Text) (t : Text)
    → All (λ c. (c == b' ') ≡ false) w
    → doubled t ≡ false
    → w ≢ []
    → doubled (w ++ t) ≡ false
doubled-word [] t h e ne = e
doubled-word (c ∷ []) [] h e ne = refl
doubled-word (c ∷ []) (d ∷ t) h e ne = rw (h.0, e)
doubled-word (c ∷ d ∷ w) t h e ne = rw h.0 (doubled-word (d ∷ w) t h.1 e (λ p. cc))

doubled-one_word : (w : Text) → All (λ c. (c == b' ') ≡ false) w → doubled w ≡ false
doubled-one_word [] h = refl
doubled-one_word (c ∷ []) h = refl
doubled-one_word (c ∷ d ∷ w) h = rw h.0 (doubled-one_word (d ∷ w) h.1)

-- a line of words does not begin with a space
doubled-space :
    (v : Text) (ws : List Text)
    → IsWord v
    → doubled (join (v ∷ ws)) ≡ false
    → doubled (b' ' ∷ join (v ∷ ws)) ≡ false
doubled-space [] ws h e = absurd (h.not_empty refl)
doubled-space (c ∷ v) [] h e = rw (h.one_word.0, e)
doubled-space (c ∷ v) (w ∷ ws) h e = rw (h.one_word.0, e)

doubled-join : (ws : List Text) → All IsWord ws → doubled (join ws) ≡ false
doubled-join [] h = refl
doubled-join (w ∷ []) h = doubled-one_word w h.0.one_word
doubled-join (w ∷ v ∷ ws) h =
    doubled-word w (b' ' ∷ join (v ∷ ws)) h.0.one_word
      (doubled-space v ws h.1.0 (doubled-join (v ∷ ws) h.1)) h.0.not_empty

-- Where there is memory and the trimmed line holds two spaces side by side, the code counts more tokens than `strtok`
-- finds, and reads a cell of the array that was never written.
pub parse_buffer-doubled :
    (buffer : Text) → doubled (trim buffer) ≡ true → parse_buffer true true buffer ≡ undefined
unfolding parse_buffer
parse_buffer-doubled buffer h = elim (IsLine-or_undefined (trim buffer) (λ e. cc (ap doubled e))) [
  | inl l ↦ cc (ap doubled l.joined, doubled-join (l.name ∷ l.argv) l.words)
  | inr u ↦ u
]
