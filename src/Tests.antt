-- ===== src/Tests.antt =====
-- Runs of the program's text functions, and the theorems about them at concrete inputs.
mod System
mod Sessions
mod Starting
mod ClientSystem
mod Clients
mod Links
mod Forks
use my_ftp.Prelude.{
  ℕ, ◌≡◌, ◌≤◌, ◌+◌, ◌==◌, ◌||◌, ◌∙◌, refl, Bool, true, false, Option, none, some, List, [], ◌∷◌,
  ◌++◌, Text, codes, length, All, arith,
}
use my_ftp.Prelude.Outcome.{Outcome, undefined, done}
use my_ftp.Prelude.Int.{ℤ, pos}
use my_ftp.Utils.Case.{upper_byte, touppercase}
use my_ftp.Utils.Ports.{
  merge_port, split_port, merge_port-split_port, split_port-merge_port, merge_port-IsMerged,
  IsMerged,
}
use my_ftp.Utils.Trimming.{is_space, skip_spaces, cut_spaces, trim}
use my_ftp.Utils.Trimming.Laws.{IsSpace, IsTight, Padded, trim_lem, trim-append}
use my_ftp.Stdio.{fgets, getline}
use my_ftp.Stdio.{read_digits, read_signed, atoi}
use my_ftp.Commands.Connect.{parse_host_port_values}
use my_ftp.Commands.PortNumbers.{IsNumeral, parse_host_port_values-join_commas}
use my_ftp.Stdio.Lines.{concat, fgets_loop, getline_loop, concat-fgets_loop, concat-getline_loop}
use my_ftp.Parser.{
  Command, parse_buffer, count_spaces, count_args, strip_last, close_tokens, tokenize_buffer,
  setup_command, parse_trimmed,
}
use my_ftp.Parser.Strtok.{skip_delimiters, token_of, after_token, next_token, strtok, strtok_loop}
use my_ftp.Parser.Words.{join, IsWord}
use my_ftp.Parser.Laws.{parse_buffer-join}
use my_ftp.Parser.Blocks.{Heap, destroy_command}
use my_ftp.Parser.Blocks.Freed.{Destroyed, destroy_command-leaks}
use my_ftp.Client.Parser as Client
use my_ftp.Client.Parser.Agrees.{parse_buffer_agrees}
use my_ftp.Client.Parser.Blocks.Freed.{Restored, destroy_command-Restored}
use my_ftp.Parser.Accepted.{Reads, parse_buffer-Reads, doubled, parse_buffer-doubled}
use my_ftp.Parser.Count.{length-strtok_loop, join-strtok_loop}

abbrev user_anonymous : Command
user_anonymous = record { name = codes "USER"; argc = 1; argv = codes "anonymous" ∷ [] }

parse_buffer_test : parse_buffer true true (codes "USER anonymous\r\n") ≡ done (some user_anonymous)
unfolding parse_buffer parse_trimmed setup_command tokenize_buffer close_tokens strip_last
    count_args count_spaces strtok_loop strtok next_token skip_delimiters token_of after_token trim
    cut_spaces skip_spaces is_space
parse_buffer_test = refl

touppercase_test : touppercase (codes "Stor-9z") ≡ codes "STOR-9Z"
unfolding touppercase upper_byte
touppercase_test = refl

split_port_test : split_port true (pos 2121) ≡ some (pos 8, pos 73)
unfolding split_port
split_port_test = refl

type_words : All IsWord (codes "TYPE" ∷ codes "I" ∷ [])
type_words = (
  record { not_empty = λ e. cc; one_word = (refl, (refl, (refl, (refl, tt)))) },
  (record { not_empty = λ e. cc; one_word = (refl, tt) }, tt),
)

type-IsTight : IsTight (join (codes "TYPE" ∷ codes "I" ∷ []))
unfolding is_space
type-IsTight = record { first = refl; last = refl }

two_spaces : All IsSpace (codes "\r\n")
unfolding is_space
two_spaces = (refl, (refl, tt))

parse_buffer-join_example :
    parse_buffer true true (codes "TYPE I\r\n")
    ≡ done (some (record { name = codes "TYPE"; argc = 1; argv = codes "I" ∷ [] }))
parse_buffer-join_example =
    parse_buffer-join [] (codes "\r\n") (codes "TYPE") (codes "I" ∷ []) tt two_spaces type_words
      type-IsTight

parse_buffer-Reads_example : Reads (trim (codes "USER anonymous\r\n")) user_anonymous
parse_buffer-Reads_example =
    parse_buffer-Reads true true (codes "USER anonymous\r\n") user_anonymous parse_buffer_test

abbrev no_memory : Heap
no_memory = record { next = 0; live = λ a. false }

destroy_command-leaks_example :
    Destroyed destroy_command
      (codes "USER anonymous\r\n")
      no_memory
      (λ c a. a == c.command || no_memory.live a)
destroy_command-leaks_example =
    destroy_command-leaks (codes "USER anonymous\r\n") user_anonymous no_memory (λ a h. refl)
      parse_buffer_test

typed_buffer :
    Client.parse_buffer true true (codes "USER anonymous\r\n") ≡ done (some user_anonymous)
typed_buffer = parse_buffer_agrees true true (codes "USER anonymous\r\n") ∙ parse_buffer_test

destroy_command-Restored_example : Restored (codes "USER anonymous\r\n") no_memory
destroy_command-Restored_example =
    destroy_command-Restored (codes "USER anonymous\r\n") user_anonymous no_memory (λ a h. refl)
      typed_buffer

two_in_a_row : doubled (trim (codes "CWD  x")) ≡ true
unfolding trim cut_spaces skip_spaces is_space
two_in_a_row = refl

parse_buffer-doubled_example : parse_buffer true true (codes "CWD  x") ≡ undefined
parse_buffer-doubled_example = parse_buffer-doubled (codes "CWD  x") two_in_a_row

-- the address 127.0.0.1 and the port 8 * 256 + 73
loopback_numerals :
    All IsNumeral (codes "127" ∷ codes "0" ∷ codes "0" ∷ codes "1" ∷ codes "8" ∷ codes "73" ∷ [])
loopback_numerals = (
  (refl, (refl, (refl, tt))),
  ((refl, tt), ((refl, tt), ((refl, tt), ((refl, tt), ((refl, (refl, tt)), tt))))),
)

parse_host_port_values-join_commas_example :
    parse_host_port_values (codes "127,0,0,1,8,73")
    ≡ some (record {
      host = record { first = pos 127; second = pos 0; third = pos 0; fourth = pos 1 };
      high = pos 8;
      low = pos 73;
    })
unfolding atoi read_signed read_digits skip_spaces is_space
parse_host_port_values-join_commas_example =
    parse_host_port_values-join_commas (codes "127") (codes "0") (codes "0") (codes "1") (codes "8")
      (codes "73") loopback_numerals
