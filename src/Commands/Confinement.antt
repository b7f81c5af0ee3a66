-- ===== src/Commands/Confinement.antt =====
-- The working directory stays below the root of the server, as text: no command leaves a working
-- directory that does not begin with the server's path.
use mathlib.Core.Path.{subst}
use my_ftp.Prelude.{
  ◌≡◌, refl, sym, true, false, Option, none, some, Text, arith, starts_with, starts_with_refl,
  Bool-cases, inl, inr,
}
use my_ftp.Prelude.Outcome.{undefined, done}
use my_ftp.Os.{Os}
use my_ftp.Reply.{directory_changed}
use my_ftp.Session.{Connection, State, success}
use my_ftp.Session.Monad.{pure, reply, ◌>>◌}
use my_ftp.Session.Keeps.{Keeps, Leaves, Leaves-bind, keeps_rules}
use my_ftp.Commands.Directory.{check_new_path, enter}

-- The connection is served from `root`, and its working directory begins with it.
pub record Within (root : Text) (c : Connection) : Type 0 where
  pub path : Text
  pub served : c.server.path ≡ root
  pub directory : c.working_directory ≡ some path
  pub prefix : starts_with path root ≡ true

-- The root is there: after `chdir(root)`, `getcwd` returns it.
abbrev pub RootStays : {W : Type 0} → Os W → Text → Type 0
RootStays {W} os root = (w : W) → (os.getcwd (os.chdir root w).1).0 ≡ some root

module _ {W : Type 0} (os : Os W) where
  -- the state in which `enter` calls `check_new_path`
  moved : State W → Text → Text → State W
  moved s old path =
      let (new, w) = os.getcwd (os.chdir path (os.chdir old s.world).1).1 in
      record s {
        world = (os.chdir s.server.path w).1;
        conn = record s.conn { working_directory = new };
      }

  enter_lem :
      (s : State W) (old path : Text)
      → s.working_directory ≡ some old
      → enter os path s
        ≡ (check_new_path os >> (reply directory_changed >> pure success)) (moved s old path)
  unfolding enter moved
  enter_lem s old path e = ground arith

  check_new_path_inside :
      (s : State W) (path : Text)
      → s.working_directory ≡ some path
      → starts_with path s.server.path ≡ true
      → check_new_path os s ≡ done (tt, s)
  unfolding check_new_path
  check_new_path_inside s path e inside = ground arith

  check_new_path_outside :
      (s : State W) (path current : Text)
      → s.working_directory ≡ some path
      → starts_with path s.server.path ≡ false
      → (os.getcwd s.world).0 ≡ some current
      → check_new_path os s
        ≡ done (
          tt,
          record s {
            world = (os.getcwd s.world).1;
            conn = record s.conn { working_directory = some current };
          },
        )
  unfolding check_new_path
  check_new_path_outside s path current e outside here = ground arith

  check_new_path_null : (s : State W) → s.working_directory ≡ none → check_new_path os s ≡ undefined
  unfolding check_new_path
  check_new_path_null s e = ground arith

module _ {W : Type 0} (os : Os W) (root : Text) (stays : RootStays os root) where
  -- whatever directory was set before, the check leaves one below the root
  check_new_path-Within :
      (s : State W) (directory : Option Text)
      → s.server.path ≡ root
      → s.working_directory ≡ directory
      → (os.getcwd s.world).0 ≡ some root
      → Leaves (Within root) (check_new_path os s)
  check_new_path-Within s none served e at_root =
      subst (Leaves (Within root)) (sym (check_new_path_null os s e)) tt
  check_new_path-Within s (some path) served e at_root =
      elim (Bool-cases (starts_with path s.server.path)) [
        | inl inside ↦
            subst (Leaves (Within root)) (sym (check_new_path_inside os s path e inside)) (record {
              path = path;
              served = served;
              directory = e;
              prefix = rw (← served) inside;
            })
        | inr outside ↦
            subst (Leaves (Within root))
              (sym (check_new_path_outside os s path root e outside at_root))
              (record {
                path = root;
                served = served;
                directory = refl;
                prefix = starts_with_refl root;
              })
      ]

  pub enter-Within : (path : Text) → Keeps (Within root) (enter os path)
  unfolding moved
  enter-Within path = record {
    at = λ s h. subst (Leaves (Within root)) (sym (enter_lem os s h.path path h.directory)) (
        Leaves-bind (check_new_path os (moved os s h.path path))
          (λ _. reply directory_changed >> pure success)
          (check_new_path-Within (moved os s h.path path) _ h.served refl (rw h.served (stays _)))
          (λ _. search keeps_rules));
  }
