-- ===== src/Parser/Strtok.antt =====
-- The calls of the C library's `strtok` in src/command_parser.c and src/commands/port.c, with one
-- delimiter: what is left of the string is passed on as a value.
use my_ftp.Prelude.{ℕ, zero, suc, Option, none, some, List, [], ◌∷◌, ◌==◌, if◌then◌else◌, Text}

unfoldable pub skip_delimiters : ℕ → Text → Text
skip_delimiters d [] = []
skip_delimiters d (c ∷ text) =
    let rest = skip_delimiters d text in if c == d then rest else c ∷ text

-- the token that a text begins with
unfoldable pub token_of : ℕ → Text → Text
token_of d [] = []
token_of d (c ∷ text) = let rest = token_of d text in if c == d then [] else c ∷ rest

-- what follows that token and its delimiter
unfoldable pub after_token : ℕ → Text → Text
after_token d [] = []
after_token d (c ∷ text) = let rest = after_token d text in if c == d then text else rest

-- the token and the rest, for a text with no delimiter in front
unfoldable pub next_token : ℕ → Text → Option (Text × Text)
unfolding token_of after_token
next_token d [] = none
next_token d (c ∷ text) = some (token_of d (c ∷ text), after_token d (c ∷ text))

unfoldable pub strtok : ℕ → Text → Option (Text × Text)
unfolding skip_delimiters next_token
strtok d text = next_token d (skip_delimiters d text)

-- The tokens of a loop that calls `strtok` until it returns a null pointer, or `fuel` times.
unfoldable pub strtok_loop : ℕ → ℕ → Text → List Text
unfolding strtok
strtok_loop d zero text = []
strtok_loop d (suc fuel) text = elim (strtok d text) [
  | none ↦ []
  | some (token, rest) ↦ token ∷ strtok_loop d fuel rest
]
