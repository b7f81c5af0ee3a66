-- ===== src/Client/Transfer/Put.antt =====
-- bonus/src/commands/put.c: what PUT sends, byte for byte.
use mathlib.Core.List.{append_assoc, append-nil}
use my_ftp.Prelude.{
  ℕ, ◌≡◌, refl, sym, ap, none, some, List, [], ◌∷◌, ◌++◌, Text, codes, null_or, length, ◌∙◌, true,
  arith,
}
use my_ftp.Prelude.Outcome.{Outcome, done}
use my_ftp.Stdio.Lines.{getline_loop, concat, concat-getline_loop}
use my_ftp.Session.{CommandStatus, success, failure, not_found, quit}
use my_ftp.Client.System.{ClientOs}
use my_ftp.Client.State.{
  Client, DataSocket, Event, sent, closed, State, with_socket, M, pure, ◌>>=◌, ◌>>◌, close,
}
use my_ftp.Client.Reading.{expect}
use my_ftp.Client.DataSocket.{destroy_data_socket, drop_data_socket}
use my_ftp.Client.Filename.{get_filename_from_filepath}
use my_ftp.Client.Transfer.{
  unless_failed, data_sockfd, send_lines, put_result, check_put_response, execute_put_command,
}
use my_ftp.Client.Transfer.Answered.{Answers, heard, asked, expect-Tested, expect-Answers}

-- the pieces of a file, as they are sent over a data connection
abbrev pub pieces_to : ℕ → List Text → List Event
pieces_to fd [] = []
pieces_to fd (p ∷ ps) = sent fd p ∷ pieces_to fd ps

abbrev pub stor_line : Text → Text
stor_line filepath = codes "STOR " ++ (get_filename_from_filepath filepath ++ codes "\r\n")

-- PUT sends these bytes: it returns, and between its request and the closing of the data socket, twice,
-- it sends pieces that make up the bytes over the data socket. It leaves no data socket.
pub record Uploads {W : Type 0} (client : Client) (filepath bytes : Text) (d : DataSocket)
    (before : List Event) (o : Outcome (CommandStatus × State W)) : Type 0 where
  pub status : CommandStatus
  pub after : State W
  pub pieces : List Text
  pub runs : o ≡ done (status, after)
  pub whole : concat pieces ≡ bytes
  pub empty : after.data_socket ≡ none
  pub trace :
      after.trace
      ≡ before
        ++ (sent client.sockfd (stor_line filepath)
            ∷ (pieces_to d.sockfd pieces ++ (closed d.sockfd ∷ closed d.sockfd ∷ [])))

module _ {W : Type 0} (os : ClientOs W) where
  -- the state of the system behind the pieces
  abbrev behind_pieces : ℕ → List Text → W → W
  behind_pieces fd [] w = w
  behind_pieces fd (p ∷ ps) w = behind_pieces fd ps (os.send fd p w)

  send_lines-pieces :
      (fd : ℕ) (ps : List Text) (s : State W)
      → send_lines os fd ps s
        ≡ done (
          tt,
          record s { world = behind_pieces fd ps s.world; trace = s.trace ++ pieces_to fd ps },
        )
  unfolding send_lines
  send_lines-pieces fd [] s = ap (λ t. done (tt, record s { trace = t })) (sym (append-nil s.trace))
  send_lines-pieces fd (p ∷ ps) s =
      send_lines-pieces fd ps
        (record s { world = os.send fd p s.world; trace = s.trace ++ sent fd p ∷ [] })
      ∙ ap
          (λ t.
            done (tt, record s { world = behind_pieces fd ps (os.send fd p s.world); trace = t }))
          (append_assoc s.trace (sent fd p ∷ []) (pieces_to fd ps))

  abbrev lines_of : Text → List Text
  lines_of bytes = getline_loop (length bytes) bytes

  put_result-sends :
      (fd : ℕ) (filepath bytes : Text) (s : State W) (streamed there : W)
      → os.fdopen_write fd s.world ≡ (true, streamed)
      → os.fopen_read filepath streamed ≡ (some bytes, there)
      → put_result os fd filepath s
        ≡ done (
          tt,
          record s {
            world = os.close fd (behind_pieces fd (lines_of bytes) there);
            trace = (s.trace ++ pieces_to fd (lines_of bytes)) ++ closed fd ∷ [];
          },
        )
  unfolding put_result
  put_result-sends fd filepath bytes s streamed there streams opens =
      rw (streams, opens, null_or)
        (ap (λ o. ((λ _. o) >> close os fd) s)
          (send_lines-pieces fd (lines_of bytes) (record s { world = there })))

  -- what `check_put_response` does behind the first response, and its caller behind it
  abbrev behind_opening : Client → Text → CommandStatus → M W CommandStatus
  behind_opening client filepath opening = unless_failed opening (pure failure) (do
    sockfd ← data_sockfd os
    put_result os sockfd filepath
    expect os client.sockfd (codes "226"))

  abbrev close_up : CommandStatus → M W CommandStatus
  close_up answer = do drop_data_socket os; unless_failed answer (pure failure) (pure success)

  close_up-status :
      (answer : CommandStatus) (d : DataSocket) (world : W) (trace : List Event)
      → (status : CommandStatus) × (close_up answer (with_socket d world trace)
          ≡ done (
            status,
            record {
              data_socket = none;
              world = os.close d.sockfd world;
              trace = trace ++ closed d.sockfd ∷ [];
            },
          ))
  unfolding drop_data_socket destroy_data_socket
  close_up-status success d world trace = (success, refl)
  close_up-status failure d world trace = (failure, refl)
  close_up-status not_found d world trace = (success, refl)
  close_up-status quit d world trace = (success, refl)

  check_put_response-sends :
      (client : Client) (filepath bytes : Text) (d : DataSocket) (world streamed there : W)
      (trace : List Event)
      → Answers os client.sockfd (codes "150") world
      → os.fdopen_write d.sockfd (heard os client.sockfd world) ≡ (true, streamed)
      → os.fopen_read filepath streamed ≡ (some bytes, there)
      → (answer : CommandStatus) × (w : W) × (check_put_response os client filepath
            (with_socket d world trace)
          ≡ done (
            answer,
            with_socket d w
                ((trace ++ pieces_to d.sockfd (lines_of bytes)) ++ closed d.sockfd ∷ []),
          ))
  unfolding check_put_response
  check_put_response-sends client filepath bytes d world streamed there trace opening streams
        opens =
      let told = with_socket d (heard os client.sockfd world) trace in
      let t = expect-Tested os client.sockfd (codes "226") (
        with_socket d (os.close d.sockfd (behind_pieces d.sockfd (lines_of bytes) there))
          ((trace ++ pieces_to d.sockfd (lines_of bytes)) ++ closed d.sockfd ∷ [])) in
      (
        t.status,
        t.world,
        ap (λ o. ((λ _. o) >>= behind_opening client filepath) (with_socket d world trace))
              (expect-Answers os client.sockfd (codes "150") (with_socket d world trace) opening)
            ∙ ap (λ o. ((λ _. o) >> expect os client.sockfd (codes "226")) told)
                (put_result-sends d.sockfd filepath bytes told streamed there streams opens)
            ∙ t.runs,
      )

  -- The client's PUT, of a file that it can read and that holds these bytes, on a client with a data
  -- socket, where the server answers 150 and a stream can be opened on the socket: it returns, whatever
  -- the server answers next, and what it sends over the data socket, between its request and the
  -- closing of the socket, is the file, byte for byte. The client has no data socket any more.
  pub execute_put_command-Uploads :
      (client : Client) (filepath bytes : Text) (d : DataSocket) (world read streamed there : W)
      (trace : List Event)
      → os.access_readable filepath world ≡ (true, read)
      → Answers os client.sockfd (codes "150") (asked os client (stor_line filepath) read)
      → os.fdopen_write d.sockfd
          (heard os client.sockfd (asked os client (stor_line filepath) read))
        ≡ (true, streamed)
      → os.fopen_read filepath streamed ≡ (some bytes, there)
      → Uploads client filepath bytes d trace
          (execute_put_command os client filepath (with_socket d world trace))
  unfolding execute_put_command
  execute_put_command-Uploads client filepath bytes d world read streamed there trace readable
        opening streams opens =
      rw readable (
        let before =
          with_socket d (asked os client (stor_line filepath) read)
            (trace ++ sent client.sockfd (stor_line filepath) ∷ []) in
        let ps = lines_of bytes in
        let (answer, w, ran) =
          check_put_response-sends client filepath bytes d before.world streamed there before.trace
            opening streams opens in
        let (status, ended) =
          close_up-status answer d w
            ((before.trace ++ pieces_to d.sockfd ps) ++ closed d.sockfd ∷ []) in
        record {
          status = status;
          after = record {
            data_socket = none;
            world = os.close d.sockfd w;
            trace =
                ((before.trace ++ pieces_to d.sockfd ps) ++ closed d.sockfd ∷ [])
                ++ closed d.sockfd ∷ [];
          };
          pieces = ps;
          runs = ap (λ o. ((λ _. o) >>= close_up) before) ran ∙ ended;
          whole = concat-getline_loop (length bytes) bytes (omega arith);
          empty = refl;
          trace =
              append_assoc (before.trace ++ pieces_to d.sockfd ps) (closed d.sockfd ∷ [])
                (closed d.sockfd ∷ [])
              ∙ append_assoc before.trace (pieces_to d.sockfd ps)
                  (closed d.sockfd ∷ closed d.sockfd ∷ [])
              ∙ append_assoc trace (sent client.sockfd (stor_line filepath) ∷ [])
                  (pieces_to d.sockfd ps ++ (closed d.sockfd ∷ closed d.sockfd ∷ []));
        })
