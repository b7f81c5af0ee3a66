-- ===== src/Client/Filename/Laws.antt =====
-- What the last part of a path is.
use my_ftp.Prelude.{
  ℕ, ◌≡◌, refl, ap, ◌⊎◌, inl, inr, true, false, Bool-cases, if◌then◌else◌, Option, none, some,
  null_or, [], ◌∷◌, ◌++◌, ◌==◌, Text, All, arith,
}
use my_ftp.Client.Filename.{after_last_slash, get_filename_from_filepath}

abbrev pub NoSlash : Text → Type 0
NoSlash = All (λ c. (c == b'/') ≡ false)

-- the path is the name, or the name behind a directory and a slash; the name has no slash
pub record LastPart (path name : Text) : Type 0 where
  pub no_slash : NoSlash name
  pub splits : (path ≡ name) ⊎ ((directory : Text) × (path ≡ directory ++ b'/' ∷ name))

-- what `after_last_slash` finds
abbrev Found : Text → Option Text → Type 0
Found path none = NoSlash path
Found path (some name) = NoSlash name × ((directory : Text) × (path ≡ directory ++ b'/' ∷ name))

Found-behind :
    (c : ℕ) (path : Text) (found : Option Text)
    → Found path found
    → Found
        (c ∷ path)
        (null_or found (if◌then◌else◌ (c == b'/') (some path) none) (λ name. some name))
Found-behind c path none h = elim (Bool-cases (c == b'/')) [
  | inl slash ↦ rw slash (h, ([], ap (λ d. d ∷ path) (slash_eq c slash)))
  | inr other ↦ rw other (other, h)
]
  where
    slash_eq : (c : ℕ) → (c == b'/') ≡ true → c ≡ b'/'
    slash_eq c e = ground arith
Found-behind c path (some name) (h, (directory, e)) = (h, (c ∷ directory, ap (λ r. c ∷ r) e))

after_last_slash-Found : (path : Text) → Found path (after_last_slash path)
unfolding after_last_slash
after_last_slash-Found [] = tt
after_last_slash-Found (c ∷ path) =
    Found-behind c path (after_last_slash path) (after_last_slash-Found path)

last_part :
    (path : Text) (found : Option Text)
    → Found path found
    → LastPart path (null_or found path (λ name. name))
last_part path none h = record { no_slash = h; splits = inl refl }
last_part path (some name) (h, split) = record { no_slash = h; splits = inr split }

-- The result is the part of the path behind its last slash, or the whole path if it has none.
pub get_filename_from_filepath-LastPart :
    (path : Text) → LastPart path (get_filename_from_filepath path)
unfolding get_filename_from_filepath
get_filename_from_filepath-LastPart path =
    last_part path (after_last_slash path) (after_last_slash-Found path)
