-- ===== src/Client/Reading.antt =====
-- bonus/src/reading.c, and the tests of a response that the commands share.
use my_ftp.Prelude.{ℕ, Option, none, some, null_or, Text, starts_with, ◌∷◌, if◌then◌else◌}
use my_ftp.Stdio.{c_string}
use my_ftp.Session.{CommandStatus, success, failure}
use my_ftp.Client.System.{ClientOs}
use my_ftp.Client.State.{M, pure, ◌>>=◌, sys}

-- `response + 4`, which a text of fewer bytes does not have
abbrev pub behind_code : Text → Option Text
behind_code (_ ∷ _ ∷ _ ∷ _ ∷ rest) = some rest
behind_code _ = none

module _ {W : Type 0} (os : ClientOs W) where
  -- The line as a C string; a null pointer at the end of the input.
  unfoldable pub read_input : M W (Option Text)
  unfolding c_string
  read_input = do
    line ← sys os.input
    null_or line (pure none) (λ bytes. pure (some (c_string bytes)))

  unfoldable pub read_response : ℕ → M W (Option Text)
  unfolding c_string
  read_response sockfd = do
    line ← sys (os.response sockfd)
    null_or line (pure none) (λ bytes. pure (some (c_string bytes)))

  -- a response with this code, which is then freed: two of the commands wait for it so
  unfoldable pub expect : ℕ → Text → M W CommandStatus
  unfolding read_response starts_with
  expect sockfd code = do
    response ← read_response sockfd
    null_or response (pure failure) (λ r. if starts_with r code then pure success else pure failure)
