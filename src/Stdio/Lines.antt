-- ===== src/Stdio/Lines.antt =====
-- The loops that read a text to its end, and what they read.
use my_ftp.Prelude.{
  ℕ, zero, suc, ◌≤◌, false, ◌≡◌, refl, ap, ◌∙◌, List, [], ◌∷◌, ◌++◌, arith, ◌==◌, Bool-cases, inl,
  inr, Text, length, All,
}
use my_ftp.Stdio.{fgets, getline, c_string}

-- `while (fgets(buffer, 1024, fp) != NULL) …`: the buffers, in `fuel` rounds at most. There is
-- nothing to read at the end of the text.
unfoldable pub fgets_loop : ℕ → Text → List Text
unfolding fgets
fgets_loop zero text = []
fgets_loop (suc fuel) [] = []
fgets_loop (suc fuel) (c ∷ text) =
    let (buffer, rest) = fgets 1023 (c ∷ text) in buffer ∷ fgets_loop fuel rest

-- `while (read_bytes > 0) …` over `getline`
unfoldable pub getline_loop : ℕ → Text → List Text
unfolding getline
getline_loop zero text = []
getline_loop (suc fuel) [] = []
getline_loop (suc fuel) (c ∷ text) =
    let (line, rest) = getline (c ∷ text) in line ∷ getline_loop fuel rest

abbrev pub concat : List Text → Text
concat [] = []
concat (t ∷ ts) = t ++ concat ts

-- No byte of the text is NUL.
abbrev pub NoNul : Text → Type 0
NoNul = All (λ c. (c == 0) ≡ false)

-- A C string holds all of a buffer that has no NUL byte.
pub c_string-NoNul : (t : Text) → NoNul t → c_string t ≡ t
unfolding c_string
c_string-NoNul [] h = refl
c_string-NoNul (c ∷ t) (h, hs) = rw h (ap (λ r. c ∷ r) (c_string-NoNul t hs))

pub NoNul-append : (x y : Text) → NoNul (x ++ y) → NoNul x × NoNul y
NoNul-append [] y h = (tt, h)
NoNul-append (c ∷ x) y (h, hs) = let (k, l) = NoNul-append x y hs in ((h, k), l)

fgets-split : (room : ℕ) (text : Text) → (fgets room text).0 ++ (fgets room text).1 ≡ text
unfolding fgets
fgets-split zero text = refl
fgets-split (suc room) [] = refl
fgets-split (suc room) (c ∷ text) = elim (Bool-cases (c == b'\n')) [
  | inl newline ↦ rw newline refl
  | inr other ↦ rw other (ap (λ r. c ∷ r) (fgets-split room text))
]

fgets-shorter : (room : ℕ) (text : Text) → length (fgets room text).1 ≤ length text
unfolding fgets
fgets-shorter zero text = omega arith
fgets-shorter (suc room) [] = omega arith
fgets-shorter (suc room) (c ∷ text) = elim (Bool-cases (c == b'\n')) [
  | inl newline ↦ rw newline (omega arith)
  | inr other ↦ rw other (let shorter = fgets-shorter room text in omega arith)
]

fgets-progress : (room c : ℕ) (text : Text) → length (fgets (suc room) (c ∷ text)).1 ≤ length text
unfolding fgets
fgets-progress room c text = elim (Bool-cases (c == b'\n')) [
  | inl newline ↦ rw newline (omega arith)
  | inr other ↦ rw other (fgets-shorter room text)
]

getline-split : (text : Text) → (getline text).0 ++ (getline text).1 ≡ text
unfolding getline
getline-split [] = refl
getline-split (c ∷ text) = elim (Bool-cases (c == b'\n')) [
  | inl newline ↦ rw newline refl
  | inr other ↦ rw other (ap (λ r. c ∷ r) (getline-split text))
]

getline-progress : (c : ℕ) (text : Text) → length (getline (c ∷ text)).1 ≤ length text
unfolding getline
getline-progress c [] = elim (Bool-cases (c == b'\n')) [
  | inl newline ↦ rw newline (omega arith)
  | inr other ↦ rw other (omega arith)
]
getline-progress c (d ∷ text) = elim (Bool-cases (c == b'\n')) [
  | inl newline ↦ rw newline (omega arith)
  | inr other ↦ rw other (let shorter = getline-progress d text in omega arith)
]

rest-fits : (rest text fuel : ℕ) → rest ≤ text → suc text ≤ suc fuel → rest ≤ fuel
rest-fits rest text fuel h k = omega arith

-- Reading a text in buffers of 1024 bytes until its end loses nothing and adds nothing; one round for
-- each byte of the text is enough.
pub concat-fgets_loop :
    (fuel : ℕ) (text : Text) → length text ≤ fuel → concat (fgets_loop fuel text) ≡ text
unfolding fgets_loop
concat-fgets_loop zero [] h = refl
concat-fgets_loop zero (c ∷ text) h = absurd (omega arith)
concat-fgets_loop (suc fuel) [] h = refl
concat-fgets_loop (suc fuel) (c ∷ text) h =
    ap (λ r. (fgets 1023 (c ∷ text)).0 ++ r)
      (concat-fgets_loop fuel (fgets 1023 (c ∷ text)).1
        (rest-fits _ (length text) fuel (fgets-progress 1022 c text) h))
    ∙ fgets-split 1023 (c ∷ text)

-- Reading a text line by line until its end loses nothing and adds nothing; one round for each byte
-- of the text is enough.
pub concat-getline_loop :
    (fuel : ℕ) (text : Text) → length text ≤ fuel → concat (getline_loop fuel text) ≡ text
unfolding getline_loop
concat-getline_loop zero [] h = refl
concat-getline_loop zero (c ∷ text) h = absurd (omega arith)
concat-getline_loop (suc fuel) [] h = refl
concat-getline_loop (suc fuel) (c ∷ text) h =
    let shorter = getline-progress c text in
    ap (λ r. (getline (c ∷ text)).0 ++ r)
      (concat-getline_loop fuel (getline (c ∷ text)).1 (omega arith))
    ∙ getline-split (c ∷ text)
