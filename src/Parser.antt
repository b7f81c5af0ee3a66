-- ===== src/Parser.antt =====
-- src/command_parser.c: one line of input becomes a command. The flags say whether a call of
-- `malloc` succeeds; `strdup` is taken to succeed, since the code does not test it.
pub mod Strtok
pub mod Words
pub mod Count
mod Loop
pub mod Laws
pub mod Accepted
pub mod Blocks
use my_ftp.Prelude.{
  ℕ, suc, ◌+◌, ◌-◌, Bool, true, false, Option, none, some, List, [], ◌∷◌, reverse, ltb, ◌==◌,
  if◌then◌else◌, Text, length, get_elem?, set, take,
}
use my_ftp.Prelude.Outcome.{Outcome, undefined, done, ◌>>=◌}
use my_ftp.Utils.Trimming.{trim}
use my_ftp.Parser.Strtok.{strtok_loop}

-- `command_t`; `argv` holds what stands before the closing null pointer
pub record Command : Type 0 where
  pub name : Text
  pub argc : ℕ
  pub argv : List Text

-- the loop of `count_args`
unfoldable pub count_spaces : Text → ℕ
count_spaces [] = 0
count_spaces (c ∷ buffer) = if c == b' ' then count_spaces buffer + 1 else count_spaces buffer

unfoldable pub count_args : Text → ℕ
unfolding count_spaces
count_args buffer = count_spaces buffer + 1

-- `if (token[strlen(token) - 1] == c) token[strlen(token) - 1] = '\0';` reads before the first
-- byte if the token is empty.
unfoldable pub strip_last : ℕ → Text → Outcome Text
strip_last c token = elim (reverse token) [
  | [] ↦ undefined
  | last ∷ front ↦ done (if last == c then reverse front else token)
]

-- what follows the loop, with `tokens[token_count - 1]` in hand
unfoldable pub close_tokens : List Text → ℕ → Option Text → Outcome (Option (List Text))
unfolding strip_last
close_tokens tokens token_count none = undefined
close_tokens tokens token_count (some last) = strip_last b'\r' last >>= λ line.
    strip_last b'\n' line >>= λ clean.
    done (some (take token_count (set tokens (token_count - 1) clean)))

-- The array has `token_count + 1` cells. The loop writes one for each token, and the cells that it
-- does not reach are never written.
unfoldable pub tokenize_buffer : Bool → Text → ℕ → Outcome (Option (List Text))
unfolding close_tokens strtok_loop
tokenize_buffer false buffer token_count = done none
tokenize_buffer true buffer token_count =
    let tokens = strtok_loop b' ' (suc (length buffer)) buffer in
    if ltb (token_count + 1) (length tokens)
    then undefined
    else close_tokens tokens token_count (get_elem? tokens (token_count - 1))

unfoldable pub setup_command : List Text → ℕ → Outcome (Option Command)
setup_command [] token_count = undefined
setup_command (name ∷ argv) token_count =
    done (some (record { name = name; argc = token_count - 1; argv = argv }))

-- `parse_buffer` behind the test of `init_command`, on the trimmed buffer
unfoldable pub parse_trimmed : Bool → Text → Outcome (Option Command)
unfolding setup_command
parse_trimmed tokens_allocated [] = done none
parse_trimmed tokens_allocated (c ∷ buffer) =
    tokenize_buffer tokens_allocated (c ∷ buffer) (count_args (c ∷ buffer)) >>= λ result.
    elim result [ none ↦ done none | some tokens ↦ setup_command tokens (count_args (c ∷ buffer)) ]

unfoldable pub parse_buffer : Bool → Bool → Text → Outcome (Option Command)
unfolding parse_trimmed
parse_buffer false tokens_allocated buffer = done none
parse_buffer true tokens_allocated buffer = parse_trimmed tokens_allocated (trim buffer)
