-- ===== src/Os/Listener.antt =====
-- The calls that make a socket listen, which src/socket.c and src/passive_data_socket.c both make.
use my_ftp.Prelude.{ℕ, ◌≡◌, true, some}
use my_ftp.Os.{Os, SockAddr}

module _ {W : Type 0} (os : Os W) (sockfd : ℕ) (addr : SockAddr) where
  -- the system behind `socket` and `bind`, and behind `getsockname`
  abbrev pub bound_world : W → W
  bound_world w = (os.bind sockfd addr (os.socket w).1).1

  abbrev pub named_world : W → W
  named_world w = (os.getsockname_port sockfd (bound_world w)).1

  -- Between the two states of the system, this socket was made, was bound to the address, was found
  -- to have this port, and was made to listen; each call succeeded, and there was no other.
  pub record IsListener (port : ℕ) (before after : W) : Type 0 where
    pub made : (os.socket before).0 ≡ some sockfd
    pub bound : (os.bind sockfd addr (os.socket before).1).0 ≡ true
    pub named : (os.getsockname_port sockfd (bound_world before)).0 ≡ port
    pub hears : (os.listen sockfd (named_world before)).0 ≡ true
    pub left : (os.listen sockfd (named_world before)).1 ≡ after
