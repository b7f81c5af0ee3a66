-- ===== src/Client/DataSocket/Scan.antt =====
-- `sscanf`, for the format that bonus/src/data_socket.c gives it.
use my_ftp.Prelude.{
  ℕ, ◌+◌, ◌-◌, ◌*◌, Option, none, some, null_or, Bool, ◌&&◌, List, [], ◌∷◌, ◌++◌, map, ◌==◌, leb,
  Text, codes, if◌then◌else◌,
}
use my_ftp.Prelude.Int.{ℤ, pos, negated}
use my_ftp.Utils.Trimming.{skip_spaces}

-- a white space, which stands for any run of such; another byte, which stands for itself; `%d`
pub data Directive : Type 0 where
  blank : Directive
  byte : ℕ → Directive
  number : Directive

abbrev pub is_digit : ℕ → Bool
is_digit c = leb b'0' c && leb c b'9'

-- the number that the digits in front of a text continue, and what follows them
unfoldable pub take_digits : ℕ → Text → ℕ × Text
take_digits n [] = (n, [])
take_digits n (c ∷ text) =
    let more = take_digits (n * 10 + (c - b'0')) text in if is_digit c then more else (n, c ∷ text)

-- a number without its sign: one digit at least
unfoldable pub scan_digits : Text → Option (ℕ × Text)
unfolding take_digits
scan_digits [] = none
scan_digits (c ∷ text) = if is_digit c then some (take_digits 0 (c ∷ text)) else none

abbrev with_sign : (ℕ → ℤ) → Option (ℕ × Text) → Option (ℤ × Text)
with_sign sign none = none
with_sign sign (some (n, rest)) = some (sign n, rest)

unfoldable pub scan_signed : Text → Option (ℤ × Text)
unfolding scan_digits
scan_signed [] = none
scan_signed (c ∷ text) =
    if c == b'-'
    then with_sign negated (scan_digits text)
    else if c == b'+'
    then with_sign pos (scan_digits text)
    else with_sign pos (scan_digits (c ∷ text))

-- The numbers that are set before the format ends or the text fails to match it. `skip_spaces` is
-- the scanning of white space.
unfoldable pub scan : List Directive → Text → List ℤ
unfolding scan_signed skip_spaces
scan [] text = []
scan (blank ∷ format) text = scan format (skip_spaces text)
scan (byte b ∷ format) [] = []
scan (byte b ∷ format) (c ∷ text) = let rest = scan format text in if c == b then rest else []
scan (number ∷ format) text =
    null_or (scan_signed (skip_spaces text)) [] λ (n, rest). n ∷ scan format rest

abbrev directive : ℕ → Directive
directive c = if c == b' ' then blank else byte c

-- "227 Entering Passive Mode (%d,%d,%d,%d,%d,%d)"
abbrev pub reply_format : List Directive
reply_format =
    map directive (codes "227 Entering Passive Mode (")
    ++ (number
        ∷ byte b','
        ∷ number
        ∷ byte b','
        ∷ number
        ∷ byte b','
        ∷ number
        ∷ byte b','
        ∷ number
        ∷ byte b','
        ∷ number
        ∷ byte b')'
        ∷ [])
