-- ===== src/Client/Parser/Agrees.antt =====
-- The client's parser and `trim` against those of the server.
use my_ftp.Prelude.{
  ◌≡◌, refl, ap, ℕ, suc, ◌+◌, ◌-◌, Bool, true, false, Option, none, some, List, [], ◌∷◌, reverse,
  ltb, Text, length, get_elem?, if◌then◌else◌,
}
use my_ftp.Prelude.Outcome.{Outcome, undefined, done, ◌>>=◌}
use my_ftp.Utils.Trimming as ServerText
use my_ftp.Parser as Server
use my_ftp.Parser.Strtok.{strtok_loop}
use my_ftp.Client.Trimming.{skip_spaces, cut_spaces, trim}
use my_ftp.Client.Parser.{
  count_spaces, count_args, strip_last, close_tokens, tokenize_buffer, setup_command, parse_trimmed,
  parse_buffer,
}

skip_spaces_agrees : (t : Text) → skip_spaces t ≡ ServerText.skip_spaces t
unfolding skip_spaces ServerText.skip_spaces
skip_spaces_agrees [] = refl
skip_spaces_agrees (c ∷ t) = rw (skip_spaces_agrees t) refl

cut_spaces_agrees : (t : Text) → cut_spaces t ≡ ServerText.cut_spaces t
unfolding cut_spaces ServerText.cut_spaces
cut_spaces_agrees [] = refl
cut_spaces_agrees (c ∷ []) = refl
cut_spaces_agrees (c ∷ d ∷ t) = rw (cut_spaces_agrees (d ∷ t)) refl

pub trim_agrees : (t : Text) → trim t ≡ ServerText.trim t
unfolding trim ServerText.trim
trim_agrees t =
    rw (skip_spaces_agrees t) (ap reverse (cut_spaces_agrees (reverse (ServerText.skip_spaces t))))

count_spaces_agrees : (t : Text) → count_spaces t ≡ Server.count_spaces t
unfolding count_spaces Server.count_spaces
count_spaces_agrees [] = refl
count_spaces_agrees (c ∷ t) = rw (count_spaces_agrees t) refl

pub count_args_agrees : (t : Text) → count_args t ≡ Server.count_args t
unfolding count_args Server.count_args
count_args_agrees t = ap (λ n. n + 1) (count_spaces_agrees t)

close_tokens_agrees :
    (tokens : List Text) (n : ℕ) (last : Option Text)
    → close_tokens tokens n last ≡ Server.close_tokens tokens n last
unfolding close_tokens Server.close_tokens strip_last Server.strip_last
close_tokens_agrees tokens n none = refl
close_tokens_agrees tokens n (some last) = refl

tokenize_buffer_agrees :
    (allocated : Bool) (t : Text) (n : ℕ)
    → tokenize_buffer allocated t n ≡ Server.tokenize_buffer allocated t n
unfolding tokenize_buffer Server.tokenize_buffer
tokenize_buffer_agrees false t n = refl
tokenize_buffer_agrees true t n =
    let tokens = strtok_loop b' ' (suc (length t)) t in
    ap (λ o. if ltb (n + 1) (length tokens) then undefined else o)
      (close_tokens_agrees tokens n (get_elem? tokens (n - 1)))

setup_command_agrees :
    (tokens : List Text) (n : ℕ) → setup_command tokens n ≡ Server.setup_command tokens n
unfolding setup_command Server.setup_command
setup_command_agrees [] n = refl
setup_command_agrees (name ∷ argv) n = refl

set_up_agrees :
    (result : Outcome (Option (List Text))) (n : ℕ)
    → (result >>= λ r. elim r [ none ↦ done none | some tokens ↦ setup_command tokens n ])
      ≡ (result >>= λ r. elim r [ none ↦ done none | some tokens ↦ Server.setup_command tokens n ])
set_up_agrees undefined n = refl
set_up_agrees (done none) n = refl
set_up_agrees (done (some tokens)) n = setup_command_agrees tokens n

parse_trimmed_agrees :
    (allocated : Bool) (t : Text) → parse_trimmed allocated t ≡ Server.parse_trimmed allocated t
unfolding parse_trimmed Server.parse_trimmed count_args Server.count_args
parse_trimmed_agrees allocated [] = refl
parse_trimmed_agrees allocated (c ∷ t) =
    rw (tokenize_buffer_agrees allocated (c ∷ t) (count_args (c ∷ t)), count_args_agrees (c ∷ t))
      (set_up_agrees (Server.tokenize_buffer allocated (c ∷ t) (Server.count_args (c ∷ t)))
        (Server.count_args (c ∷ t)))

-- The client reads a line as the server does: the two parsers give the same command for the same
-- text, or none, or are undefined both, whichever calls of `malloc` succeed.
pub parse_buffer_agrees :
    (command_allocated tokens_allocated : Bool) (buffer : Text)
    → parse_buffer command_allocated tokens_allocated buffer
      ≡ Server.parse_buffer command_allocated tokens_allocated buffer
unfolding parse_buffer Server.parse_buffer
parse_buffer_agrees false tokens_allocated buffer = refl
parse_buffer_agrees true tokens_allocated buffer =
    rw (trim_agrees buffer) (parse_trimmed_agrees tokens_allocated (ServerText.trim buffer))
