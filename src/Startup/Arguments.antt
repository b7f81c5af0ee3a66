-- ===== src/Startup/Arguments.antt =====
-- Which arguments start the server, and what the server is then.
use my_ftp.Prelude.{
  ℕ, ◌≤◌, ◌≡◌, refl, sym, ◌∙◌, Bool, true, false, Option, none, some, [], ◌∷◌, Text, arith,
  Bool-cases, Option-cases, inl, inr, if◌then◌else◌, ◌++◌,
}
use my_ftp.Prelude.Int.{ℤ, pos, negsuc}
use my_ftp.Os.{Os}
use my_ftp.Os.Listener.{IsListener, named_world}
use my_ftp.Session.{Server, opened}
use my_ftp.Server.{Globals}
use my_ftp.Startup.{
  init_sockin, is_bad_port, check_path, check_args, setup_socket_fd, listen_on, enter_root,
  setup_socket,
}

-- the arguments that the program accepts
pub record Accepted {W : Type 0} (os : Os W) (port : ℤ) (path : Text) (g : Globals W) : Type 0 where
  pub number : ℕ
  pub is_number : port ≡ pos number
  pub positive : 1 ≤ number
  pub fits : number ≤ 65535
  pub exists : (os.access_exists path g.world).0 ≡ true

-- the exit code by the two tests
code_of : Bool → Bool → ℕ
code_of bad exists = if bad then 84 else if exists then 0 else 84

check_args-code :
    {W : Type 0} (os : Os W) (port : ℤ) (path : Text) (g : Globals W)
    → (check_args os port (some path) g).0
      ≡ code_of (is_bad_port port) (os.access_exists path g.world).0
unfolding check_args check_path code_of
check_args-code os port path g = elim (Bool-cases (os.access_exists path g.world).0) [
  | inl there ↦ elim (Bool-cases (is_bad_port port)) [
    | inl bad ↦ rw (there, bad) refl
    | inr good ↦ rw (there, good) refl
  ]
  | inr missing ↦ elim (Bool-cases (is_bad_port port)) [
    | inl bad ↦ rw (missing, bad) refl
    | inr good ↦ rw (missing, good) refl
  ]
]

code_of-good : (bad exists : Bool) → code_of bad exists ≡ 0 → (bad ≡ false) × (exists ≡ true)
unfolding code_of
code_of-good true exists h = absurd (omega (arith, h))
code_of-good false true h = (refl, refl)
code_of-good false false h = absurd (omega (arith, h))

is_bad_port-bounds : (n : ℕ) → is_bad_port (pos n) ≡ false → (1 ≤ n) × (n ≤ 65535)
unfolding is_bad_port
is_bad_port-bounds n h = ground arith

Accepted-number :
    {W : Type 0} (os : Os W) (port : ℤ) (path : Text) (g : Globals W)
    → is_bad_port port ≡ false
    → (os.access_exists path g.world).0 ≡ true
    → Accepted os port path g
Accepted-number os (negsuc n) path g good there = unfold is_bad_port in cc
Accepted-number os (pos n) path g good there =
    let (positive, fits) = is_bad_port-bounds n good in
    record { number = n; is_number = refl; positive = positive; fits = fits; exists = there }

-- Arguments that pass the check are a port from 1 to 65535 and a path that exists.
pub check_args-Accepted :
    {W : Type 0} (os : Os W) (port : ℤ) (path : Text) (g : Globals W)
    → (check_args os port (some path) g).0 ≡ 0
    → Accepted os port path g
check_args-Accepted os port path g h =
    let (good, there) = code_of-good _ _ (sym (check_args-code os port path g) ∙ h) in
    Accepted-number os port path g good there

-- The port that the socket is bound to is the port of the arguments: no accepted number wraps.
pub init_sockin-port : (port : ℕ) → port ≤ 65535 → (init_sockin port).port ≡ port
unfolding init_sockin
init_sockin-port port h = omega arith

-- The socket of a server is bound to the loopback address and to this port and listens, it is the one
-- socket that was opened, and `port` of the server is what the system says of it.
pub record Listens {W : Type 0} (os : Os W) (port : ℕ) (g : Globals W) (server : Server)
    (h : Globals W) : Type 0 where
  pub listening : W
  pub listener : IsListener os server.sockfd server.addr server.port g.world listening
  pub bound_port : server.addr.port ≡ port
  pub bound_address : server.addr.address ≡ 0x7f00_0001
  pub one_socket : h.trace ≡ g.trace ++ opened server.sockfd ∷ []

-- the same, where a server was made
abbrev pub ListensIfMade : {W : Type 0} → Os W → ℕ → Globals W → Option Server × Globals W → Type 0
ListensIfMade os port g (none, h) = Unit
ListensIfMade os port g (some server, h) = Listens os port g server h

module _ {W : Type 0} (os : Os W) (port : ℕ) (raw_path : Text) (fits : port ≤ 65535) where
  enter_root-Listens :
      (sockfd final_port : ℕ) (g h : Globals W)
      → IsListener os sockfd (init_sockin port) final_port g.world h.world
      → h.trace ≡ g.trace ++ opened sockfd ∷ []
      → ListensIfMade os port g (enter_root os sockfd (init_sockin port) final_port raw_path h)
  unfolding enter_root init_sockin
  enter_root-Listens sockfd final_port g h l t =
      elim (Option-cases (os.getcwd (os.chdir raw_path h.world).1).0) [
        | inl lost ↦ rw lost tt
        | inr (path, found) ↦ rw found (record {
          listening = h.world;
          listener = l;
          bound_port = omega (arith, fits);
          bound_address = refl;
          one_socket = t;
        })
      ]

  -- the globals once `socket` has returned this descriptor
  abbrev behind_socket : ℕ → Globals W → Globals W
  behind_socket sockfd g = record g {
    world = (os.socket g.world).1;
    trace = g.trace ++ opened sockfd ∷ [];
  }

  listen_on-Listens :
      (sockfd : ℕ) (g : Globals W)
      → (os.socket g.world).0 ≡ some sockfd
      → ListensIfMade os port g (listen_on os sockfd port raw_path (behind_socket sockfd g))
  unfolding listen_on
  listen_on-Listens sockfd g given =
      elim (Bool-cases (os.bind sockfd (init_sockin port) (os.socket g.world).1).0) [
        | inl tied ↦
            elim (Bool-cases
              (os.listen sockfd (named_world os sockfd (init_sockin port) g.world)).0) [
                | inl heard ↦
                    rw (tied, heard)
                      (enter_root-Listens sockfd _ g _
                        (record {
                          made = given;
                          bound = tied;
                          named = refl;
                          hears = heard;
                          left = refl;
                        })
                        refl)
                | inr deaf ↦ rw (tied, deaf) tt
              ]
        | inr loose ↦ rw loose tt
      ]

  -- For a port up to 65535, the socket of a server that `setup_socket` makes was opened, was bound to the
  -- loopback address and to that port, and was made to listen, by calls that succeeded; no other socket was
  -- opened, and the server's `port` is the one that `getsockname` gave behind `bind`.
  pub setup_socket-Listens :
      (g : Globals W) → ListensIfMade os port g (setup_socket os port raw_path g)
  unfolding setup_socket setup_socket_fd
  setup_socket-Listens g = elim (Option-cases (os.socket g.world).0) [
    | inl none_left ↦ rw none_left tt
    | inr (sockfd, given) ↦ rw given (listen_on-Listens sockfd g given)
  ]
