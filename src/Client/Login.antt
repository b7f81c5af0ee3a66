-- ===== src/Client/Login.antt =====
-- bonus/src/login.c
use my_ftp.Prelude.{
  ℕ, zero, suc, Option, none, some, null_or, Bool, true, false, ◌==◌, Text, codes, ◌++◌,
  starts_with, if◌then◌else◌,
}
use my_ftp.Client.System.{ClientOs}
use my_ftp.Client.State.{Client, M, pure, ◌>>=◌, ◌>>◌, deref, sys, send}
use my_ftp.Client.Reading.{read_input, read_response, behind_code}

module _ {W : Type 0} (os : ClientOs W) where
  unfoldable pub get_username : M W (Option Text)
  unfolding read_input
  get_username = read_input os

  unfoldable pub get_password : M W (Option Text)
  unfolding read_input
  get_password = read_input os

  unfoldable pub send_user_command : Client → Text → M W Bool
  unfolding read_response
  send_user_command client username = do
    send os client.sockfd (codes "USER " ++ username)
    response ← read_response os client.sockfd
    null_or response (pure false) (λ r. pure (starts_with r (codes "331")))

  -- The message of a failed login prints the response from its fifth byte on.
  unfoldable pub send_pass_command : Client → Text → M W Bool
  unfolding read_response
  send_pass_command client password = do
    send os client.sockfd (codes "PASS " ++ password)
    response ← read_response os client.sockfd
    null_or response (pure false) (λ r.
        if starts_with r (codes "230") then pure true else (do deref (behind_code r); pure false))

  -- `logged_in` is returned as an `int`.
  abbrev as_int : Bool → ℕ
  as_int true = 1
  as_int false = 0

  unfoldable pub attempt_login : Client → M W ℕ
  unfolding get_username get_password send_user_command send_pass_command
  attempt_login client = do
    username ← get_username
    null_or username (pure 84) (λ name. (do
      told ← send_user_command client name
      if told
          then (do
            password ← get_password
            null_or password (pure 84) (λ secret. (do
              logged_in ← send_pass_command client secret
              pure (as_int logged_in))))
          else pure 84))

  -- the loop of `login`, in `attempts` rounds at most: the user may try for ever
  unfoldable pub login_loop : ℕ → Client → ℕ → M W (Option ℕ)
  unfolding attempt_login
  login_loop zero client logged_in = pure none
  login_loop (suc attempts) client logged_in =
      let again = attempt_login client >>= login_loop attempts client in
      if logged_in == 0
      then (do stopped ← sys os.stopped; if stopped then pure (some logged_in) else again)
      else pure (some logged_in)

  -- The first response is the greeting. `none` while the user still tries.
  unfoldable pub login : ℕ → Client → M W (Option ℕ)
  unfolding login_loop
  login attempts client = do read_response os client.sockfd; login_loop attempts client 0
