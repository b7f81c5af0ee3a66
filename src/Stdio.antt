-- ===== src/Stdio.antt =====
-- The C library's reading of lines and of numbers, as the program uses it.
pub mod Lines
use my_ftp.Prelude.{
  ℕ, zero, suc, ◌+◌, ◌-◌, ◌*◌, ◌&&◌, Option, none, some, [], ◌∷◌, ◌==◌, leb, if◌then◌else◌, Text,
}
use my_ftp.Prelude.Int.{ℤ, pos, negated}
use my_ftp.Utils.Trimming.{skip_spaces}

-- The contents of a buffer, read as a C string: what stands before the first NUL byte.
unfoldable pub c_string : Text → Text
c_string [] = []
c_string (c ∷ buffer) = let rest = c_string buffer in if c == 0 then [] else c ∷ rest

-- One `fgets` with room for `room` bytes and the NUL: the bytes read, a newline the last of them if
-- there is one, and what is left.
unfoldable pub fgets : ℕ → Text → Text × Text
fgets zero text = ([], text)
fgets (suc room) [] = ([], [])
fgets (suc room) (c ∷ text) =
    let (line, rest) = fgets room text in if c == b'\n' then (c ∷ [], text) else (c ∷ line, rest)

-- One `getline`, which makes room as it needs it.
unfoldable pub getline : Text → Text × Text
getline [] = ([], [])
getline (c ∷ text) =
    let (line, rest) = getline text in if c == b'\n' then (c ∷ [], text) else (c ∷ line, rest)

-- the number that the digits in front of `text` continue
unfoldable pub read_digits : ℕ → Text → ℕ
read_digits n [] = n
read_digits n (c ∷ text) =
    let more = read_digits (n * 10 + (c - b'0')) text in
    if leb b'0' c && leb c b'9' then more else n

unfoldable pub read_signed : Text → ℤ
unfolding read_digits
read_signed [] = pos 0
read_signed (c ∷ text) =
    if c == b'-'
    then negated (read_digits 0 text)
    else if c == b'+'
    then pos (read_digits 0 text)
    else pos (read_digits 0 (c ∷ text))

-- `atoi`; C leaves the result open where the number does not fit an `int`.
unfoldable pub atoi : Text → ℤ
unfolding read_signed skip_spaces
atoi text = read_signed (skip_spaces text)
