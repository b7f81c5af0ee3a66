-- ===== src/Os.antt =====
-- The operating system, which the program calls and does not implement. `W` is all that the calls
-- depend on: the file system, the current directory, the sockets and their peers. A call returns
-- its result and the state that it leaves; a failing call (-1 or a null pointer) is `false` or `none`.
pub mod Listener
use my_ftp.Prelude.{ℕ, Bool, Option, List, Text}

-- `struct sockaddr_in`, its address and port in the order of the host
pub record SockAddr : Type 0 where
  pub address : ℕ
  pub port : ℕ

-- What `fork` leaves: -1, or the child's view of the system beside the parent's.
pub data Fork (W : Type 0) : Type 0 where
  not_forked : W → Fork W
  forked : W → W → Fork W

pub record Os (W : Type 0) : Type 0 where
  -- `malloc` of a size that is not 0: whether there is memory
  pub malloc : W → Bool × W
  pub chdir : Text → W → Bool × W
  pub getcwd : W → Option Text × W
  -- `access(path, F_OK) == 0`, `access(path, R_OK) == 0`
  pub access_exists : Text → W → Bool × W
  pub access_readable : Text → W → Bool × W
  -- `opendir`, and `closedir` if it succeeds
  pub opendir : Text → W → Bool × W
  pub remove : Text → W → Bool × W
  -- `fopen(path, "r")`: the bytes that reads of the file will return
  pub fopen_read : Text → W → Option Text × W
  -- `fopen(path, "wb")`, `fwrite` to the file opened
  pub fopen_write : Text → W → Option ℕ × W
  pub fwrite : ℕ → Text → W → W
  -- `popen("ls -l", "r")`: what the command prints
  pub popen_ls : W → Option Text × W
  -- all that a peer sends over a data connection until it closes it; `none` if `fdopen` fails
  pub receive : ℕ → W → Option Text × W
  -- one `getline` on a control connection: the line with its newline, or the end of the stream
  pub getline : ℕ → W → Option Text × W
  pub socket : W → Option ℕ × W
  pub bind : ℕ → SockAddr → W → Bool × W
  pub listen : ℕ → W → Bool × W
  -- the port of `getsockname`; 0, which the buffer holds before, if the call fails
  pub getsockname_port : ℕ → W → ℕ × W
  pub accept : ℕ → W → Option (ℕ × SockAddr) × W
  pub connect : ℕ → SockAddr → W → Bool × W
  pub fdopen : ℕ → W → Bool × W
  pub close : ℕ → W → W
  -- `poll` for input on these descriptors: which of them are readable; `none` if the call fails
  pub poll : List (Option ℕ) → W → Option (List Bool) × W
  -- whether SIGINT or SIGTERM has come in since the last look
  pub signalled : W → Bool × W
  pub fork : W → Fork W
  -- the dotted decimal text of an address
  pub inet_ntoa : ℕ → Text
