-- ===== src/Utils/Case.antt =====
-- `touppercase` and `replace_dots_with_commas` of src/utils.c
use my_ftp.Prelude.{
  ℕ, ◌-◌, ◌≤◌, ◌≡◌, refl, ◌&&◌, [], ◌∷◌, arith, leb, ◌==◌, if◌then◌else◌, Text, All,
}

-- the body of the loop of `touppercase`
unfoldable pub upper_byte : ℕ → ℕ
upper_byte c = if leb b'a' c && leb c b'z' then c - 32 else c

unfoldable pub touppercase : Text → Text
unfolding upper_byte
touppercase [] = []
touppercase (c ∷ str) = upper_byte c ∷ touppercase str

-- the body of the loop of `replace_dots_with_commas`
unfoldable pub comma_byte : ℕ → ℕ
comma_byte c = if c == b'.' then b',' else c

unfoldable pub replace_dots_with_commas : Text → Text
unfolding comma_byte
replace_dots_with_commas [] = []
replace_dots_with_commas (c ∷ string) = comma_byte c ∷ replace_dots_with_commas string

abbrev pub IsNotLower : ℕ → Type 0
IsNotLower c = ¬ ((b'a' ≤ c) × (c ≤ b'z'))

upper_byte-IsNotLower : (c : ℕ) → IsNotLower (upper_byte c)
unfolding upper_byte
upper_byte-IsNotLower c h = ground arith

-- No lower-case letter is left in the result.
pub touppercase-IsNotLower : (str : Text) → All IsNotLower (touppercase str)
unfolding touppercase
touppercase-IsNotLower [] = tt
touppercase-IsNotLower (c ∷ str) = (upper_byte-IsNotLower c, touppercase-IsNotLower str)

upper_byte-upper_byte : (c : ℕ) → upper_byte (upper_byte c) ≡ upper_byte c
unfolding upper_byte
upper_byte-upper_byte c = ground arith

-- Converting twice is converting once.
pub touppercase-touppercase : (str : Text) → touppercase (touppercase str) ≡ touppercase str
unfolding touppercase
touppercase-touppercase [] = refl
touppercase-touppercase (c ∷ str) =
    ground (arith, upper_byte-upper_byte c, touppercase-touppercase str)
