-- ===== src/Parser/Laws.antt =====
-- What `parse_buffer` of src/command_parser.c makes of a line.
use mathlib.Core.List.{reverse-reverse}
use mathlib.Core.List.{reverse-append, append_assoc}
use mathlib.Core.Path.{subst}
use my_ftp.Prelude.{
  ℕ, suc, ◌+◌, ◌-◌, ◌≡◌, ◌≢◌, refl, sym, ap, ◌∙◌, true, false, some, List, [], ◌∷◌, ◌++◌, reverse,
  arith, ltb, Text, length, All, get_elem?, set, take, take-length, set-get_elem?,
}
use my_ftp.Prelude.Outcome.{done}
use my_ftp.Utils.Trimming.{is_space}
use my_ftp.Utils.Trimming.Laws.{IsSpace, IsTight, HeadClear, HeadClear-append_left, trim-append}
use my_ftp.Parser.Strtok.{strtok_loop}
use my_ftp.Parser.Words.{join, IsWord}
use my_ftp.Parser.Loop.{strtok_loop-join, count_spaces-join, length-join}
use my_ftp.Parser.{
  Command, count_spaces, count_args, strip_last, close_tokens, tokenize_buffer, parse_trimmed,
  parse_buffer,
}

-- the last word of a line, and what stands before it
record Last (w : Text) (ws : List Text) : Type 0 where
  last : Text
  before : Text
  found : get_elem? (w ∷ ws) (length ws) ≡ some last
  splits : join (w ∷ ws) ≡ before ++ last
  word : IsWord last

Last-of : (w : Text) (ws : List Text) → All IsWord (w ∷ ws) → Last w ws
Last-of w [] h = record { last = w; before = []; found = refl; splits = refl; word = h.0 }
Last-of w (v ∷ ws) h =
    let l = Last-of v ws h.1 in
    record {
      last = l.last;
      before = w ++ b' ' ∷ l.before;
      found = l.found;
      splits = ap (λ t. w ++ b' ' ∷ t) l.splits ∙ sym (append_assoc w (b' ' ∷ l.before) l.last);
      word = l.word;
    }

strip_last-reverse :
    (c : ℕ) (token r : Text)
    → reverse token ≡ r
    → IsSpace c
    → token ≢ []
    → HeadClear r
    → strip_last c token ≡ done token
unfolding strip_last
strip_last-reverse c token [] e space ne h =
    absurd (ne (sym (reverse-reverse token) ∙ ap reverse e))
strip_last-reverse c token (x ∷ front) e space ne h = ground arith

take-set_last :
    (w : Text) (ws : List Text) (last : Text)
    → get_elem? (w ∷ ws) (length ws) ≡ some last
    → take (length ws + 1) (set (w ∷ ws) (length ws + 1 - 1) last) ≡ w ∷ ws
take-set_last w ws last e =
    let index : length ws + 1 - 1 ≡ length ws = omega arith in
    let size : length ws + 1 ≡ suc (length ws) = omega arith in
    rw index (rw (set-get_elem? (w ∷ ws) (length ws) last e) (rw size (take-length (w ∷ ws))))

-- what `tokenize_buffer` does with the last word of a line: nothing
close_tokens-words :
    (w : Text) (ws : List Text)
    → (h : All IsWord (w ∷ ws)) → HeadClear (reverse (join (w ∷ ws)))
    → close_tokens (w ∷ ws) (length ws + 1) (get_elem? (w ∷ ws) (length ws)) ≡ done (some (w ∷ ws))
unfolding close_tokens
close_tokens-words w ws h clear =
    let l = Last-of w ws h in
    let ends : HeadClear (reverse l.last) =
      HeadClear-append_left (reverse l.last) (reverse l.before)
        (subst HeadClear (ap reverse l.splits ∙ reverse-append l.before l.last) clear) in
    rw l.found (
      rw
        (strip_last-reverse b'\r' l.last (reverse l.last) refl (unfold is_space in refl)
          l.word.not_empty ends)
        (rw
          (strip_last-reverse b'\n' l.last (reverse l.last) refl (unfold is_space in refl)
            l.word.not_empty ends)
          (ap (λ t. done (some t)) (take-set_last w ws l.last l.found))))

tokenize_buffer-words :
    (t w : Text) (ws : List Text)
    → strtok_loop b' ' (suc (length t)) t ≡ w ∷ ws
    → count_args t ≡ length ws + 1
    → close_tokens (w ∷ ws) (length ws + 1) (get_elem? (w ∷ ws) (length ws)) ≡ done (some (w ∷ ws))
    → tokenize_buffer true t (count_args t) ≡ done (some (w ∷ ws))
tokenize_buffer-words t w ws tokens count closed =
    let index : length ws + 1 - 1 ≡ length ws = omega arith in
    let fits : ltb (length ws + 1 + 1) (suc (length ws)) ≡ false = ground arith in
    rw count (unfold tokenize_buffer in rw tokens (rw fits (rw index closed)))

abbrev pub command_of : Text → List Text → Command
command_of name argv = record { name = name; argc = length argv; argv = argv }

parse_trimmed-tokens :
    (c : ℕ) (buffer w : Text) (ws : List Text)
    → count_args (c ∷ buffer) ≡ length ws + 1
    → tokenize_buffer true (c ∷ buffer) (count_args (c ∷ buffer)) ≡ done (some (w ∷ ws))
    → parse_trimmed true (c ∷ buffer) ≡ done (some (command_of w ws))
unfolding parse_trimmed
parse_trimmed-tokens c buffer w ws count tokens =
    let size : count_args (c ∷ buffer) - 1 ≡ length ws = omega (arith, count) in
    rw tokens (ap (λ n. done (some (record { name = w; argc = n; argv = ws }))) size)

pub parse_trimmed-words :
    (t w : Text) (ws : List Text)
    → t ≡ join (w ∷ ws)
    → All IsWord (w ∷ ws)
    → IsTight t
    → parse_trimmed true t ≡ done (some (command_of w ws))
parse_trimmed-words [] w ws e h tight = absurd (omega (arith, length-join (w ∷ ws) h, ap length e))
parse_trimmed-words (c ∷ buffer) w ws e h tight =
    let spaces : count_spaces (c ∷ buffer) ≡ length ws =
      ap count_spaces e ∙ count_spaces-join w ws h in
    let count : count_args (c ∷ buffer) ≡ length ws + 1 =
      unfold count_args in ap (λ n. n + 1) spaces in
    let tokens : strtok_loop b' ' (suc (length (c ∷ buffer))) (c ∷ buffer) ≡ w ∷ ws =
      ap (λ t. strtok_loop b' ' (suc (length (c ∷ buffer))) t) e
      ∙ strtok_loop-join (suc (length (c ∷ buffer))) (w ∷ ws) h
          (omega (arith, length-join (w ∷ ws) h, ap length e)) in
    let closed = close_tokens-words w ws h (subst (λ t. HeadClear (reverse t)) e tight.last) in
    parse_trimmed-tokens c buffer w ws count
      (tokenize_buffer-words (c ∷ buffer) w ws tokens count closed)

-- Where there is memory, words joined by single spaces, with any white space around them, are read back: the first is the
-- command's name, and the others are its arguments, `argc` of them.
pub parse_buffer-join :
    (before after name : Text) (argv : List Text)
    → All IsSpace before
    → All IsSpace after
    → All IsWord (name ∷ argv)
    → IsTight (join (name ∷ argv))
    → parse_buffer true true (before ++ (join (name ∷ argv) ++ after))
      ≡ done (some (record { name = name; argc = length argv; argv = argv }))
unfolding parse_buffer
parse_buffer-join before after name argv hb ha words tight =
    rw (trim-append before (join (name ∷ argv)) after hb tight ha)
      (parse_trimmed-words (join (name ∷ argv)) name argv refl words tight)
