-- ===== src/Client/Transfer/Get.antt =====
-- bonus/src/commands/get.c: what GET stores, byte for byte.
use mathlib.Core.List.{append_assoc}
use my_ftp.Prelude.{
  true, ℕ, ◌≡◌, sym, ap, none, some, List, [], ◌∷◌, ◌++◌, Text, codes, null_or, length, ◌∙◌, arith,
}
use my_ftp.Prelude.Outcome.{done}
use my_ftp.Stdio.Lines.{getline_loop, concat, concat-getline_loop}
use my_ftp.Session.{success}
use my_ftp.Client.System.{ClientOs}
use my_ftp.Client.State.{
  Client, DataSocket, Event, sent, closed, State, with_socket, pure, ◌>>=◌, ◌>>◌, close,
}
use my_ftp.Client.DataSocket.{destroy_data_socket, drop_data_socket}
use my_ftp.Client.Filename.{get_filename_from_filepath}
use my_ftp.Client.Transfer.{write_lines, get_result, execute_get_command}
use my_ftp.Client.Transfer.Answered.{Answers, heard, asked, check_get_response-Answers}
use my_ftp.Client.Transfer.Release.{transfer_then}

-- The writes to one file join: what `fwrite` and `fopen` document of a file opened for writing.
pub record Appends {W : Type 0} (os : ClientOs W) (file : ℕ) : Type 0 where
  pub nothing : (w : W) → os.fwrite file [] w ≡ w
  pub joins :
      (x y : Text) (w : W) → os.fwrite file y (os.fwrite file x w) ≡ os.fwrite file (x ++ y) w

three :
    (events : List Event) (a b c : Event)
    → ((events ++ a ∷ []) ++ b ∷ []) ++ c ∷ [] ≡ events ++ (a ∷ b ∷ c ∷ [])
three events a b c =
    append_assoc (events ++ a ∷ []) (b ∷ []) (c ∷ []) ∙ append_assoc events (a ∷ []) (b ∷ c ∷ [])

abbrev pub retr_line : Text → Text
retr_line filepath = codes "RETR " ++ (filepath ++ codes "\r\n")

module _ {W : Type 0} (os : ClientOs W) where
  write_lines-concat :
      (file : ℕ) (lines : List Text) (s : State W)
      → Appends os file
      → write_lines os file lines s
        ≡ done (tt, record s { world = os.fwrite file (concat lines) s.world })
  unfolding write_lines
  write_lines-concat file [] s appends =
      ap (λ w. done (tt, record s { world = w })) (sym (appends.nothing s.world))
  write_lines-concat file (line ∷ lines) s appends =
      write_lines-concat file lines (record s { world = os.fwrite file line s.world }) appends
      ∙ ap (λ w. done (tt, record s { world = w })) (appends.joins line (concat lines) s.world)

  -- `get_result` with the data and the file there.
  get_result-writes :
      (fd file : ℕ) (name bytes : Text) (s : State W) (streamed there come : W)
      → os.fdopen_read fd s.world ≡ (true, streamed)
      → os.fopen_write name streamed ≡ (some file, there)
      → os.receive fd there ≡ (bytes, come)
      → Appends os file
      → get_result os fd name s
        ≡ done (
          tt,
          record s {
            world = os.close fd (os.fwrite file bytes come);
            trace = s.trace ++ closed fd ∷ [];
          },
        )
  unfolding get_result
  get_result-writes fd file name bytes s streamed there come streams opens came appends =
      rw (streams, opens, came, null_or)
        (ap (λ o. ((λ _. o) >> close os fd) s)
          (write_lines-concat file (getline_loop (length bytes) bytes) (record s { world = come })
              appends
            ∙ ap (λ b. done (tt, record s { world = os.fwrite file b come }))
                (concat-getline_loop (length bytes) bytes (omega arith))))

  -- The client's GET, answered 150 and then 226, on a client with a data socket, where a stream and the
  -- file named by the last part of the path can be opened and the data connection brings these bytes: it
  -- succeeds, all it sends is its request, and the system is left as one write of all the bytes to the
  -- file leaves it, where writes to one file join, and then two calls of `close` on the data socket,
  -- which the client does not have any more.
  pub execute_get_command-stores :
      (client : Client) (filepath bytes : Text) (file : ℕ) (d : DataSocket)
      (world streamed there come : W) (trace : List Event)
      → Answers os client.sockfd (codes "150") (asked os client (retr_line filepath) world)
      → Answers os client.sockfd
          (codes "226")
          (heard os client.sockfd (asked os client (retr_line filepath) world))
      → os.fdopen_read d.sockfd (
          heard os client.sockfd
            (heard os client.sockfd (asked os client (retr_line filepath) world)))
        ≡ (true, streamed)
      → os.fopen_write (get_filename_from_filepath filepath) streamed ≡ (some file, there)
      → os.receive d.sockfd there ≡ (bytes, come)
      → Appends os file
      → execute_get_command os client filepath (with_socket d world trace)
        ≡ done (
          success,
          record {
            data_socket = none;
            world = os.close d.sockfd (os.close d.sockfd (os.fwrite file bytes come));
            trace =
                trace
                ++ (sent client.sockfd (retr_line filepath)
                    ∷ closed d.sockfd
                    ∷ closed d.sockfd
                    ∷ []);
          },
        )
  unfolding execute_get_command drop_data_socket destroy_data_socket
  execute_get_command-stores client filepath bytes file d world streamed there come trace opening
        complete streams opens came appends =
      let fd = client.sockfd in
      let name = get_filename_from_filepath filepath in
      let before =
        with_socket d (asked os client (retr_line filepath) world)
          (trace ++ sent fd (retr_line filepath) ∷ []) in
      let told = record before { world = heard os fd (heard os fd before.world) } in
      ap (λ o. ((λ _. o) >>= transfer_then os (λ fd. get_result os fd name)) before)
        (check_get_response-Answers os fd before opening complete)
      ∙ ap (λ o. ((λ _. o) >> (drop_data_socket os >> pure success)) told)
          (get_result-writes d.sockfd file name bytes told streamed there come streams opens came
            appends)
      ∙ ap
          (λ t. done (
            success,
            record {
              data_socket = none;
              world = os.close d.sockfd (os.close d.sockfd (os.fwrite file bytes come));
              trace = t;
            },
          ))
          (three trace (sent fd (retr_line filepath)) (closed d.sockfd) (closed d.sockfd))
