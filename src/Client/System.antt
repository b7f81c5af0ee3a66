-- ===== src/Client/System.antt =====
-- The operating system, as the client calls it. `W` is all that the calls depend on; a failing call is
-- `false` or `none`.
use my_ftp.Prelude.{ℕ, Bool, Option, Text}
use my_ftp.Os.{SockAddr}

pub record ClientOs (W : Type 0) : Type 0 where
  -- `malloc` of a size that is not 0: whether there is memory
  pub malloc : W → Bool × W
  pub socket : W → Option ℕ × W
  pub connect : ℕ → SockAddr → W → Bool × W
  pub close : ℕ → W → W
  -- `inet_pton(AF_INET, …)`: the address in the order of the host, if the text is one
  pub inet_pton : Text → Option ℕ
  -- a text written to a socket
  pub send : ℕ → Text → W → W
  -- `getline` on a stream just opened by `fdopen` on the socket: a line with its newline. What the
  -- stream has taken from the socket behind that line is in the state that the call leaves, or lost.
  pub response : ℕ → W → Option Text × W
  -- `getline` on the standard input
  pub input : W → Option Text × W
  -- a text written to the standard output
  pub print : Text → W → W
  -- `fdopen(sockfd, "r")` on a data connection, and all that is then read from it until its end
  pub fdopen_read : ℕ → W → Bool × W
  pub receive : ℕ → W → Text × W
  -- `fdopen(sockfd, "w")`
  pub fdopen_write : ℕ → W → Bool × W
  -- `access(path, R_OK) == 0`
  pub access_readable : Text → W → Bool × W
  -- `fopen(path, "r")`: the bytes that reads of the file will return
  pub fopen_read : Text → W → Option Text × W
  -- `fopen(path, "w")`, and `fwrite` to the file opened
  pub fopen_write : Text → W → Option ℕ × W
  pub fwrite : ℕ → Text → W → W
  -- whether SIGINT or SIGTERM has come in by now
  pub stopped : W → Bool × W
