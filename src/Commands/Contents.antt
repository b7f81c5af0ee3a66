-- ===== src/Commands/Contents.antt =====
-- src/commands/retr.c and src/commands/stor.c: what the transfers carry, byte for byte.
use mathlib.Core.Path.{subst}
use mathlib.Core.List.{append-nil, append_assoc}
use my_ftp.Prelude.{
  ℕ, ◌≡◌, refl, sym, ap, ◌∙◌, some, List, [], ◌∷◌, ◌++◌, Text, All, length, get_elem?, arith,
}
use my_ftp.Prelude.Outcome.{Outcome, done}
use my_ftp.Stdio.Lines.{
  NoNul, NoNul-append, c_string-NoNul, concat, fgets_loop, getline_loop, concat-fgets_loop,
  concat-getline_loop,
}
use my_ftp.Os.{Os}
use my_ftp.Parser.{Command}
use my_ftp.Reply.{opening_data, transfer_complete, content}
use my_ftp.Session.{DataSocket, CommandStatus, success, written, closed, Event, State}
use my_ftp.Session.Monad.{pure, ◌>>◌, reply}
use my_ftp.DataSocket.Destroy.{close}
use my_ftp.Commands.Files.{send_all, open_file, execute_retr_command, write_all, transfer_file_data}

NoNul-concat : (ts : List Text) → NoNul (concat ts) → All NoNul ts
NoNul-concat [] h = tt
NoNul-concat (t ∷ ts) h = let (k, l) = NoNul-append t (concat ts) h in (k, NoNul-concat ts l)

-- the pieces of a file, as they are written to a data connection
abbrev pub pieces_to : ℕ → List Text → List Event
pieces_to fd [] = []
pieces_to fd (p ∷ ps) = written fd (content p) ∷ pieces_to fd ps

-- what a transfer writes that succeeds
abbrev pub delivery : ℕ → ℕ → List Text → List Event
delivery control fd pieces =
    written control opening_data ∷ (pieces_to fd pieces ++ written control transfer_complete ∷ [])

module _ {W : Type 0} (os : Os W) where
  send_all-lem :
      (fd : ℕ) (ps : List Text) (s : State W)
      → All NoNul ps
      → send_all os (some fd) ps s ≡ done (tt, record s { trace = s.trace ++ pieces_to fd ps })
  unfolding send_all
  send_all-lem fd [] s h = ap (λ t. done (tt, record s { trace = t })) (sym (append-nil s.trace))
  send_all-lem fd (p ∷ ps) s (h, hs) = rw (c_string-NoNul p h) (
      send_all-lem fd ps (record s { trace = s.trace ++ written fd (content p) ∷ [] }) hs
      ∙ ap (λ t. done (tt, record s { trace = t }))
          (append_assoc s.trace (written fd (content p) ∷ []) (pieces_to fd ps)))

  send_all_then_complete :
      (fd : ℕ) (ps : List Text) (s : State W)
      → All NoNul ps
      → (send_all os (some fd) ps >> (reply transfer_complete >> pure success)) s
        ≡ done (
          success,
          record s {
            trace = (s.trace ++ pieces_to fd ps) ++ written s.client_sockfd transfer_complete ∷ [];
          },
        )
  send_all_then_complete fd ps s h =
      ap (λ o. ((λ _. o) >> (reply transfer_complete >> pure success)) s) (send_all-lem fd ps s h)

-- `RETR` delivers these bytes: it returns, it succeeds, and between the two replies on the control
-- connection it writes pieces that make up the bytes to the data connection. The connection's record stays.
pub record Delivers {W : Type 0} (fd : ℕ) (bytes : Text) (s : State W)
    (o : Outcome (CommandStatus × State W)) : Type 0 where
  pub after : State W
  pub pieces : List Text
  pub runs : o ≡ done (success, after)
  pub events : after.trace ≡ s.trace ++ delivery s.client_sockfd fd pieces
  pub whole : concat pieces ≡ bytes
  pub same : after.conn ≡ s.conn

-- `RETR` of a file that can be opened from the working directory, over a data connection, returns and succeeds, and what it
-- writes to the data connection is the file, byte for byte, between the replies 150 and 226; the
-- file has no NUL byte.
pub execute_retr_command-Delivers :
    {W : Type 0} (os : Os W) (command : Command) (name path bytes : Text) (d : DataSocket) (fd : ℕ)
    (s : State W)
    → get_elem? command.argv 0 ≡ some name
    → s.working_directory ≡ some path
    → s.data_socket ≡ some d
    → d.client_sockfd ≡ some fd
    → (os.fopen_read name (os.chdir path s.world).1).0 ≡ some bytes
    → NoNul bytes
    → Delivers fd bytes s (execute_retr_command os command s)
unfolding execute_retr_command open_file
execute_retr_command-Delivers os command name path bytes d fd s named directory socket connected
      opened clean =
    let ps = fgets_loop (length bytes) bytes in
    let whole = concat-fgets_loop (length bytes) bytes (omega arith) in
    rw (named, directory, opened, socket, connected)
      (record {
        after = _;
        pieces = ps;
        runs = send_all_then_complete os fd ps _ (NoNul-concat ps (subst NoNul (sym whole) clean));
        events =
            ap (λ t. t ++ written s.client_sockfd transfer_complete ∷ [])
              (append_assoc s.trace (written s.client_sockfd opening_data ∷ []) (pieces_to fd ps))
            ∙ append_assoc s.trace _ _;
        whole = whole;
        same = refl;
      })

-- The writes to one file join: what `fwrite` and `fopen` document of a file opened for writing.
pub record Appends {W : Type 0} (os : Os W) (file : ℕ) : Type 0 where
  pub nothing : (w : W) → os.fwrite file [] w ≡ w
  pub joins :
      (x y : Text) (w : W) → os.fwrite file y (os.fwrite file x w) ≡ os.fwrite file (x ++ y) w

module _ {W : Type 0} (os : Os W) (file : ℕ) (appends : Appends os file) where
  write_all-lem :
      (lines : List Text) (s : State W)
      → write_all os file lines s
        ≡ done (tt, record s { world = os.fwrite file (concat lines) s.world })
  unfolding write_all
  write_all-lem [] s = ap (λ w. done (tt, record s { world = w })) (sym (appends.nothing s.world))
  write_all-lem (line ∷ lines) s =
      write_all-lem lines (record s { world = os.fwrite file line s.world })
      ∙ ap (λ w. done (tt, record s { world = w })) (appends.joins line (concat lines) s.world)

  -- `STOR` writes what the peer sends, byte for byte, to the file opened, and then closes the data
  -- connection: the loop over the lines ends and leaves the system as one write of all the bytes
  -- does, where writes to one file join.
  pub transfer_file_data-writes :
      (fd : ℕ) (bytes : Text) (s : State W)
      → (os.receive fd s.world).0 ≡ some bytes
      → transfer_file_data os file (some fd) s
        ≡ done (
          tt,
          record s {
            trace = s.trace ++ closed fd ∷ [];
            world = os.close fd (os.fwrite file bytes (os.receive fd s.world).1);
          },
        )
  unfolding transfer_file_data
  transfer_file_data-writes fd bytes s received = rw received (
      ap (λ o. ((λ _. o) >> close os fd) s)
        (write_all-lem (getline_loop (length bytes) bytes)
            (record s { world = (os.receive fd s.world).1 })
          ∙ ap (λ b. done (tt, record s { world = os.fwrite file b (os.receive fd s.world).1 }))
              (concat-getline_loop (length bytes) bytes (omega arith))))
