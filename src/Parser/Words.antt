-- ===== src/Parser/Words.antt =====
-- Words joined by single spaces: the lines that the parser reads back.
use my_ftp.Prelude.{◌≡◌, ◌≢◌, false, List, [], ◌∷◌, ◌++◌, ◌==◌, Text, All}

abbrev pub join : List Text → Text
join [] = []
join (w ∷ []) = w
join (w ∷ v ∷ ws) = w ++ b' ' ∷ join (v ∷ ws)

-- not empty, and with no space inside
pub record IsWord (w : Text) : Type 0 where
  pub not_empty : w ≢ []
  pub one_word : All (λ c. (c == b' ') ≡ false) w
