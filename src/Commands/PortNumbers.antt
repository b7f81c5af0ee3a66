-- ===== src/Commands/PortNumbers.antt =====
-- src/commands/port.c: the six numbers of a PORT command are read back from their text.
use my_ftp.Prelude.{
  ℕ, suc, ◌≡◌, refl, ap, ◌∙◌, false, some, List, [], ◌∷◌, ◌++◌, map, ◌==◌, Text, All, length,
}
use my_ftp.Prelude.Int.{ℤ}
use my_ftp.Stdio.{atoi}
use my_ftp.Parser.Strtok.{skip_delimiters, token_of, after_token, next_token, strtok}
use my_ftp.Commands.Connect.{parse_numbers, parse_host_port_values, host_port_of}

abbrev pub join_commas : List Text → Text
join_commas [] = []
join_commas (t ∷ []) = t
join_commas (t ∷ u ∷ ts) = t ++ b',' ∷ join_commas (u ∷ ts)

abbrev pub NoComma : Text → Type 0
NoComma = All (λ c. (c == b',') ≡ false)

-- not empty, and with no comma inside
abbrev pub IsNumeral : Text → Type 0
IsNumeral [] = ⊥
IsNumeral (c ∷ t) = NoComma (c ∷ t)

token_of-append : (t rest : Text) → NoComma t → token_of b',' (t ++ b',' ∷ rest) ≡ t
unfolding token_of
token_of-append [] rest h = refl
token_of-append (c ∷ t) rest (h, hs) = rw h (ap (λ r. c ∷ r) (token_of-append t rest hs))

after_token-append : (t rest : Text) → NoComma t → after_token b',' (t ++ b',' ∷ rest) ≡ rest
unfolding after_token
after_token-append [] rest h = refl
after_token-append (c ∷ t) rest (h, hs) = rw h (after_token-append t rest hs)

token_of-NoComma : (t : Text) → NoComma t → token_of b',' t ≡ t
unfolding token_of
token_of-NoComma [] h = refl
token_of-NoComma (c ∷ t) (h, hs) = rw h (ap (λ r. c ∷ r) (token_of-NoComma t hs))

after_token-NoComma : (t : Text) → NoComma t → after_token b',' t ≡ []
unfolding after_token
after_token-NoComma [] h = refl
after_token-NoComma (c ∷ t) (h, hs) = rw h (after_token-NoComma t hs)

skip-clear : (c : ℕ) (t : Text) → (c == b',') ≡ false → skip_delimiters b',' (c ∷ t) ≡ c ∷ t
unfolding skip_delimiters
skip-clear c t h = rw h refl

strtok-append : (t rest : Text) → IsNumeral t → strtok b',' (t ++ b',' ∷ rest) ≡ some (t, rest)
unfolding strtok next_token
strtok-append [] rest h = absurd h
strtok-append (c ∷ t) rest h = rw (skip-clear c (t ++ b',' ∷ rest) h.0) (
    ap (λ x. some (x, after_token b',' (c ∷ t ++ b',' ∷ rest))) (token_of-append (c ∷ t) rest h)
    ∙ ap (λ x. some (c ∷ t, x)) (after_token-append (c ∷ t) rest h))

strtok-numeral : (t : Text) → IsNumeral t → strtok b',' t ≡ some (t, [])
unfolding strtok next_token
strtok-numeral [] h = absurd h
strtok-numeral (c ∷ t) h = rw (skip-clear c t h.0) (
    ap (λ x. some (x, after_token b',' (c ∷ t))) (token_of-NoComma (c ∷ t) h)
    ∙ ap (λ x. some (c ∷ t, x)) (after_token-NoComma (c ∷ t) h))

parse_numbers-step :
    (count : ℕ) (arg token rest : Text) (numbers : List ℤ)
    → strtok b',' arg ≡ some (token, rest)
    → parse_numbers count rest ≡ some numbers
    → parse_numbers (suc count) arg ≡ some (atoi token ∷ numbers)
unfolding parse_numbers
parse_numbers-step count arg token rest numbers e f = rw (e, f, parse_numbers) refl

parse_numbers-[] : (arg : Text) → parse_numbers 0 arg ≡ some []
unfolding parse_numbers
parse_numbers-[] arg = refl

parse_numbers-join_commas :
    (ts : List Text)
    → All IsNumeral ts
    → parse_numbers (length ts) (join_commas ts) ≡ some (map atoi ts)
parse_numbers-join_commas [] h = parse_numbers-[] []
parse_numbers-join_commas (t ∷ []) (h, hs) =
    parse_numbers-step 0 t t [] [] (strtok-numeral t h) (parse_numbers-[] [])
parse_numbers-join_commas (t ∷ u ∷ ts) (h, hs) =
    parse_numbers-step (length (u ∷ ts)) (join_commas (t ∷ u ∷ ts)) t (join_commas (u ∷ ts))
      (map atoi (u ∷ ts)) (strtok-append t (join_commas (u ∷ ts)) h)
      (parse_numbers-join_commas (u ∷ ts) hs)

-- Six numerals with single commas between them are read as the address and the port that their
-- numbers are, in order: four of the host, and two of the port.
pub parse_host_port_values-join_commas :
    (a b c d high low : Text)
    → All IsNumeral (a ∷ b ∷ c ∷ d ∷ high ∷ low ∷ [])
    → parse_host_port_values (join_commas (a ∷ b ∷ c ∷ d ∷ high ∷ low ∷ []))
      ≡ some (record {
        host = record { first = atoi a; second = atoi b; third = atoi c; fourth = atoi d };
        high = atoi high;
        low = atoi low;
      })
unfolding parse_host_port_values
parse_host_port_values-join_commas a b c d high low h =
    ap host_port_of (parse_numbers-join_commas (a ∷ b ∷ c ∷ d ∷ high ∷ low ∷ []) h)
