-- ===== src/Utils/Trimming.antt =====
-- `trim` of src/utils.c
pub mod Laws
use my_ftp.Prelude.{
  ℕ, ◌≤◌, ◌≡◌, refl, ◌&&◌, ◌||◌, Bool, true, false, List, [], ◌∷◌, ◌++◌, reverse, arith, leb, ◌==◌,
  if◌then◌else◌, Text,
}

-- `isspace` in the C locale
unfoldable pub is_space : ℕ → Bool
is_space c = c == b' ' || leb 9 c && leb c 13

-- `while (*start && isspace(*start)) start++;`
unfoldable pub skip_spaces : Text → Text
skip_spaces [] = []
skip_spaces (c ∷ start) = let rest = skip_spaces start in if is_space c then rest else c ∷ start

-- `while (end > start && isspace(*end)) { *end = '\0'; end--; }`, on the bytes from the last one
-- back to the first one, which stays
unfoldable pub cut_spaces : Text → Text
cut_spaces [] = []
cut_spaces (c ∷ []) = c ∷ []
cut_spaces (c ∷ d ∷ back) =
    let rest = cut_spaces (d ∷ back) in if is_space c then rest else c ∷ d ∷ back

-- The contents of `str` behind the call; the `memmove` brings what is kept to its front.
unfoldable pub trim : Text → Text
unfolding skip_spaces cut_spaces is_space
trim str = reverse (cut_spaces (reverse (skip_spaces str)))
