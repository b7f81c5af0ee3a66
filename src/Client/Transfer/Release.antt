-- ===== src/Client/Transfer/Release.antt =====
-- bonus/src/commands/get.c and ls.c: the data socket behind a transfer.
use mathlib.Core.Path.{subst}
use mathlib.Core.List.{append_assoc, append-nil}
use my_ftp.Prelude.{
  ℕ, ◌≡◌, refl, sym, ap, Bool-cases, Option-cases, inl, inr, none, List, [], ◌∷◌, ◌++◌, Text, All,
  codes, null_or, length, get_elem?,
}
use my_ftp.Prelude.Outcome.{Outcome, done}
use my_ftp.Stdio.{c_string}
use my_ftp.Stdio.Lines.{getline_loop}
use my_ftp.Parser.{Command}
use my_ftp.Session.{CommandStatus, success, failure, not_found, quit}
use my_ftp.Client.System.{ClientOs}
use my_ftp.Client.State.{
  Client, DataSocket, Event, sent, closed, State, with_socket, M, pure, ◌>>=◌, ◌>>◌, close,
}
use my_ftp.Client.DataSocket.{destroy_data_socket, drop_data_socket}
use my_ftp.Client.Filename.{get_filename_from_filepath}
use my_ftp.Client.Transfer.Answered.{Tested, check_get_response-Tested}
use my_ftp.Client.Transfer.{
  unless_failed, data_sockfd, write_lines, print_lines, list_result, execute_ls_command,
  check_get_response, check_list_response, get_result, execute_get_command,
}

-- The command returns, the client has no data socket any more, and its socket was closed, which is all
-- that happened to sockets behind the events given.
pub record Releases {W : Type 0} (d : DataSocket) (before : List Event)
    (o : Outcome (CommandStatus × State W)) : Type 0 where
  pub status : CommandStatus
  pub after : State W
  pub early : List Event
  pub runs : o ≡ done (status, after)
  pub empty : after.data_socket ≡ none
  pub again : All (λ e. e ≡ closed d.sockfd) early
  pub trace : after.trace ≡ before ++ (early ++ closed d.sockfd ∷ [])

module _ {W : Type 0} (os : ClientOs W) where
  -- The transfer returns, and closes nothing but this socket.
  record Shuts (fd : ℕ) (s : State W) (o : Outcome (Unit {0} × State W)) : Type 0 where
    world : W
    early : List Event
    runs : o ≡ done (tt, record s { world = world; trace = s.trace ++ early })
    only : All (λ e. e ≡ closed fd) early

  untouched :
      (fd : ℕ) (world : W) (s : State W) → Shuts fd s (done (tt, record s { world = world }))
  untouched fd world s = record {
    world = world;
    early = [];
    runs = ap (λ t. done (tt, record s { world = world; trace = t })) (sym (append-nil s.trace));
    only = tt;
  }

  write_lines-world :
      (file : ℕ) (lines : List Text) (s : State W)
      → (w : W) × (write_lines os file lines s ≡ done (tt, record s { world = w }))
  unfolding write_lines
  write_lines-world file [] s = (s.world, refl)
  write_lines-world file (line ∷ lines) s =
      write_lines-world file lines (record s { world = os.fwrite file line s.world })

  print_lines-world :
      (lines : List Text) (s : State W)
      → (w : W) × (print_lines os lines s ≡ done (tt, record s { world = w }))
  unfolding print_lines
  print_lines-world [] s = (s.world, refl)
  print_lines-world (line ∷ lines) s =
      print_lines-world lines (record s { world = os.print (c_string line) s.world })

  -- a loop that changes nothing but the system, and then `close`
  loop-Shuts :
      (fd : ℕ) (loop : M W (Unit {0})) (s : State W) (world : W)
      → (w : W) × (loop (record s { world = world }) ≡ done (tt, record s { world = w }))
      → Shuts fd s ((loop >> close os fd) (record s { world = world }))
  loop-Shuts fd loop s world (w, ran) =
      subst (λ o. Shuts fd s (((λ _. o) >> close os fd) (record s { world = world }))) (sym ran)
        (record { world = os.close fd w; early = closed fd ∷ []; runs = refl; only = (refl, tt) })

  get_result-Shuts :
      (filename : Text) (fd : ℕ) (s : State W) → Shuts fd s (get_result os fd filename s)
  unfolding get_result
  get_result-Shuts filename fd s =
      let w = (os.fdopen_read fd s.world).1 in
      let w' = (os.fopen_write filename w).1 in
      let (bytes, w'') = os.receive fd w' in
      elim (Bool-cases (os.fdopen_read fd s.world).0) [
        | inr nothing ↦ rw nothing (untouched fd w' s)
        | inl streams ↦ elim (Option-cases (os.fopen_write filename w).0) [
          | inl unopened ↦ rw (streams, unopened, null_or) (untouched fd w' s)
          | inr (stream, opens) ↦
              let lines = getline_loop (length bytes) bytes in
              rw (streams, opens, null_or)
                (loop-Shuts fd (write_lines os stream lines) s w''
                  (write_lines-world stream lines (record s { world = w'' })))
        ]
      ]

  list_result-Shuts : (fd : ℕ) (s : State W) → Shuts fd s (list_result os fd s)
  unfolding list_result
  list_result-Shuts fd s =
      let w = (os.fdopen_read fd s.world).1 in
      let (bytes, w') = os.receive fd w in
      elim (Bool-cases (os.fdopen_read fd s.world).0) [
        | inr nothing ↦ rw nothing (untouched fd w s)
        | inl streams ↦
            let lines = getline_loop (length bytes) bytes in
            rw streams (
              loop-Shuts fd (print_lines os lines) s w'
                (print_lines-world lines (record s { world = w' })))
      ]

  -- what `get` and `ls` do behind the responses
  abbrev pub transfer_then : (ℕ → M W (Unit {0})) → CommandStatus → M W CommandStatus
  transfer_then transfer answer =
      unless_failed answer (do drop_data_socket os; pure failure)
        (do sockfd ← data_sockfd os; transfer sockfd; drop_data_socket os; pure success)

  success-Releases :
      (transfer : ℕ → M W (Unit {0})) (d : DataSocket) (world : W) (trace : List Event)
      → Shuts d.sockfd (with_socket d world trace) (transfer d.sockfd (with_socket d world trace))
      → Releases d trace
          ((transfer d.sockfd >> (drop_data_socket os >> pure success)) (with_socket d world trace))
  unfolding drop_data_socket destroy_data_socket
  success-Releases transfer d world trace shuts =
      subst
        (λ o.
          Releases d trace
            (((λ _. o) >> (drop_data_socket os >> pure success)) (with_socket d world trace)))
        (sym shuts.runs)
        (record {
          status = success;
          after = _;
          early = shuts.early;
          runs = refl;
          empty = refl;
          again = shuts.only;
          trace = append_assoc trace shuts.early (closed d.sockfd ∷ []);
        })

  transfer_then-Releases :
      (transfer : ℕ → M W (Unit {0})) (d : DataSocket) (answer : CommandStatus) (world : W)
      (trace : List Event)
      → ((fd : ℕ) (s : State W) → Shuts fd s (transfer fd s))
      → Releases d trace (transfer_then transfer answer (with_socket d world trace))
  unfolding drop_data_socket destroy_data_socket
  transfer_then-Releases transfer d failure world trace shuts = record {
    status = failure;
    after = _;
    early = [];
    runs = refl;
    empty = refl;
    again = tt;
    trace = refl;
  }
  transfer_then-Releases transfer d success world trace shuts =
      success-Releases transfer d world trace (shuts d.sockfd _)
  transfer_then-Releases transfer d not_found world trace shuts =
      success-Releases transfer d world trace (shuts d.sockfd _)
  transfer_then-Releases transfer d quit world trace shuts =
      success-Releases transfer d world trace (shuts d.sockfd _)

  checked-Releases :
      (responses : M W CommandStatus) (transfer : ℕ → M W (Unit {0})) (d : DataSocket) (world : W)
      (trace : List Event)
      → ((s : State W) → Tested s (responses s))
      → ((fd : ℕ) (s : State W) → Shuts fd s (transfer fd s))
      → Releases d trace ((responses >>= transfer_then transfer) (with_socket d world trace))
  checked-Releases responses transfer d world trace tested shuts =
      let t = tested (with_socket d world trace) in
      subst
        (λ o. Releases d trace (((λ _. o) >>= transfer_then transfer) (with_socket d world trace)))
        (sym t.runs) (transfer_then-Releases transfer d t.status t.world trace shuts)

  -- The client's GET returns, whatever the server answers, the data connection brings and the file
  -- system allows. Behind its request it does nothing to sockets but close the data socket, once or
  -- more than once, and it leaves no data socket.
  pub execute_get_command-Releases :
      (client : Client) (filepath : Text) (d : DataSocket) (world : W) (trace : List Event)
      → Releases d
          (trace ++ sent client.sockfd (codes "RETR " ++ (filepath ++ codes "\r\n")) ∷ [])
          (execute_get_command os client filepath (with_socket d world trace))
  unfolding execute_get_command
  execute_get_command-Releases client filepath d world trace =
      checked-Releases (check_get_response os client.sockfd)
        (λ fd. get_result os fd (get_filename_from_filepath filepath)) d _ _
        (check_get_response-Tested os client.sockfd)
        (get_result-Shuts (get_filename_from_filepath filepath))

  check_list_response-Tested : (fd : ℕ) (s : State W) → Tested s (check_list_response os fd s)
  unfolding check_list_response
  check_list_response-Tested fd s = unfold check_get_response in check_get_response-Tested os fd s

  -- So does LS.
  pub execute_ls_command-Releases :
      (client : Client) (command : Command) (d : DataSocket) (world : W) (trace : List Event)
      → Releases d
          (trace
            ++ sent client.sockfd (
                codes "LIST "
                ++ (null_or (get_elem? command.argv 0) (codes ".") (λ name. name) ++ codes "\r\n"))
              ∷ [])
          (execute_ls_command os client command (with_socket d world trace))
  unfolding execute_ls_command
  execute_ls_command-Releases client command d world trace =
      checked-Releases (check_list_response os client.sockfd) (list_result os) d _ _
        (check_list_response-Tested client.sockfd) list_result-Shuts
