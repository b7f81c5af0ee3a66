-- ===== src/Startup.antt =====
-- src/main.c and src/socket.c: the arguments of the program, and the socket that it listens on.
pub mod Arguments
use my_ftp.Prelude.{
  ℕ, ◌%◌, Bool, true, false, ◌||◌, Option, none, some, List, [], ◌∷◌, ◌==◌, null_or, if◌then◌else◌,
  Text, codes, text_eq,
}
use my_ftp.Prelude.Outcome.{Outcome, undefined, done}
use my_ftp.Prelude.Int.{ℤ, pos, negsuc, exceeds}
use my_ftp.Stdio.{atoi}
use my_ftp.Os.{Os, SockAddr}
use my_ftp.Session.{Server, opened}
use my_ftp.Server.{Globals, note}
use my_ftp.Server.Loop.{Round, process_connections}

-- `htonl(INADDR_LOOPBACK)` and `htons(port)`
unfoldable pub init_sockin : ℕ → SockAddr
init_sockin port = record { address = 0x7f00_0001; port = port % 65536 }

-- `port <= 0 || port > 65535`
unfoldable pub is_bad_port : ℤ → Bool
is_bad_port (negsuc n) = true
is_bad_port (pos port) = port == 0 || exceeds 65535 (pos port)

-- the port, once `check_args` has let it pass
abbrev pub port_number : ℤ → ℕ
port_number (pos port) = port
port_number (negsuc n) = 0

module _ {W : Type 0} (os : Os W) where
  unfoldable pub setup_socket_fd : Globals W → Option ℕ × Globals W
  setup_socket_fd g =
      let (fd, w) = os.socket g.world in
      let h = record g { world = w } in null_or fd (none, h) (λ n. (some n, note h (opened n)))

  -- `setup_socket` once the socket listens: the root is the directory that `getcwd` names
  unfoldable pub enter_root : ℕ → SockAddr → ℕ → Text → Globals W → Option Server × Globals W
  enter_root sockfd addr final_port raw_path g =
      let (path, w) = os.getcwd (os.chdir raw_path g.world).1 in
      let h = record g { world = w } in
      null_or path (none, h)
        (λ p. (some (record { sockfd = sockfd; addr = addr; port = final_port; path = p }), h))

  unfoldable pub set_final_port : ℕ → Globals W → ℕ × Globals W
  set_final_port sockfd g =
      let (port, w) = os.getsockname_port sockfd g.world in (port, record g { world = w })

  unfoldable pub bind_socket : ℕ → SockAddr → Globals W → Bool × Globals W
  bind_socket sockfd addr g =
      let (bound, w) = os.bind sockfd addr g.world in (bound, record g { world = w })

  unfoldable pub listen_socket : ℕ → Globals W → Bool × Globals W
  listen_socket sockfd g =
      let (listening, w) = os.listen sockfd g.world in (listening, record g { world = w })

  -- `setup_socket` once there is a socket
  unfoldable pub listen_on : ℕ → ℕ → Text → Globals W → Option Server × Globals W
  unfolding enter_root set_final_port bind_socket listen_socket
  listen_on sockfd port raw_path g =
      let (bound, h) = bind_socket sockfd (init_sockin port) g in
      let (final_port, k) = set_final_port sockfd h in
      let (listening, l) = listen_socket sockfd k in
      if bound
      then if listening
        then enter_root sockfd (init_sockin port) final_port raw_path l
        else (none, l)
      else (none, h)

  -- A zeroed structure is `none`.
  unfoldable pub setup_socket : ℕ → Text → Globals W → Option Server × Globals W
  unfolding setup_socket_fd listen_on
  setup_socket port raw_path g =
      let (fd, h) = setup_socket_fd g in
      null_or fd (none, h) (λ sockfd. listen_on sockfd port raw_path h)

  unfoldable pub check_path : Option Text → Globals W → ℕ × Globals W
  check_path none g = (84, g)
  check_path (some path) g =
      let (exists, w) = os.access_exists path g.world in
      (if exists then 0 else 84, record g { world = w })

  unfoldable pub check_args : ℤ → Option Text → Globals W → ℕ × Globals W
  unfolding check_path is_bad_port
  check_args port path g =
      let (bad_path, h) = check_path path g in
      if is_bad_port port then (84, g) else if bad_path == 84 then (84, h) else (0, h)

  -- The exit code behind `process_connections`, which returns 0; `none` while the server runs.
  abbrev exit_code : Outcome (Round W) → Outcome (Option ℕ × Globals W)
  exit_code undefined = undefined
  exit_code (done r) = done (if r.interrupted then some 0 else none, r.globals)

  unfoldable pub serve_from : ℕ → Option Server × Globals W → Outcome (Option ℕ × Globals W)
  unfolding process_connections
  serve_from rounds (server, g) = null_or server (done (some 84, g)) (λ s.
      if s.sockfd == 0 then done (some 84, g) else exit_code (process_connections os rounds s g))

  unfoldable pub myftp : ℕ → ℕ → Text → Globals W → Outcome (Option ℕ × Globals W)
  unfolding setup_socket serve_from
  myftp rounds port path g = serve_from rounds (setup_socket port path g)

  -- `main` ignores the result of `myftp`.
  abbrev ignored : Outcome (Option ℕ × Globals W) → Outcome (Option ℕ × Globals W)
  ignored undefined = undefined
  ignored (done (none, g)) = done (none, g)
  ignored (done (some _, g)) = done (some 0, g)

  unfoldable pub run_server : ℕ → ℤ → Text → Globals W → Outcome (Option ℕ × Globals W)
  unfolding check_args myftp
  run_server rounds port path g =
      let (code, h) = check_args port (some path) g in
      let result = ignored (myftp rounds (port_number port) path h) in
      if code == 84 then done (some 84, h) else result

  unfoldable pub main : ℕ → List Text → Globals W → Outcome (Option ℕ × Globals W)
  unfolding run_server atoi
  main rounds (program ∷ port ∷ path ∷ []) g =
      if text_eq port (codes "-help")
      then done (some 0, g)
      else run_server rounds (atoi port) path g
  main rounds _ g = done (some 84, g)
