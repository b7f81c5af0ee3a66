-- ===== src/Client/Filename.antt =====
-- `get_filename_from_filepath` of bonus/src/utils.c. `strdup` is taken to succeed.
pub mod Laws
use my_ftp.Prelude.{ℕ, Option, none, some, null_or, [], ◌∷◌, ◌==◌, Text, if◌then◌else◌}

-- `strrchr(filepath, '/') + 1`, if there is a slash
unfoldable pub after_last_slash : Text → Option Text
after_last_slash [] = none
after_last_slash (c ∷ path) =
    null_or (after_last_slash path) (if c == b'/' then some path else none) (λ name. some name)

unfoldable pub get_filename_from_filepath : Text → Text
unfolding after_last_slash
get_filename_from_filepath filepath = null_or (after_last_slash filepath) filepath (λ name. name)
