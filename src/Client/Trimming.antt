-- ===== src/Client/Trimming.antt =====
-- `trim` of bonus/src/utils.c
use my_ftp.Prelude.{Text, [], ◌∷◌, reverse, if◌then◌else◌}
use my_ftp.Utils.Trimming.{is_space}

-- `while (*start && isspace(*start)) start++;`
unfoldable pub skip_spaces : Text → Text
skip_spaces [] = []
skip_spaces (c ∷ start) = let rest = skip_spaces start in if is_space c then rest else c ∷ start

-- the loop that cuts white space, on the bytes from the last one back to the first one, which stays
unfoldable pub cut_spaces : Text → Text
cut_spaces [] = []
cut_spaces (c ∷ []) = c ∷ []
cut_spaces (c ∷ d ∷ back) =
    let rest = cut_spaces (d ∷ back) in if is_space c then rest else c ∷ d ∷ back

unfoldable pub trim : Text → Text
unfolding skip_spaces cut_spaces is_space
trim str = reverse (cut_spaces (reverse (skip_spaces str)))
