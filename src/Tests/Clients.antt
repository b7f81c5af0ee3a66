-- ===== src/Tests/Clients.antt =====
-- Runs of the client, and the theorems about it at concrete inputs.
use mathlib.Core.List.{append-nil, append_assoc}
use my_ftp.Parser as Server
use my_ftp.Client.Parser as Typed
use my_ftp.Client.Parser.Agrees.{parse_buffer_agrees}
use my_ftp.Prelude.{◌≡◌, refl, ap, ◌↔◌, true, false, none, some, [], ◌∷◌, codes, starts_with}
use my_ftp.Prelude.Outcome.{done}
use my_ftp.Stdio.{c_string}
use my_ftp.Utils.Case.{upper_byte, touppercase}
use my_ftp.Session.{success}
use my_ftp.Executor.{get_command_handler}
use my_ftp.Executor as Executor
use my_ftp.Executor.Table.{get_command_handler_iff}
use my_ftp.ClientHandler.{handle_connection}
use my_ftp.ClientHandler.Quit.{Frees, handle_connection-quit}
use my_ftp.Server.Stopping.{farewell}
use my_ftp.Client.State.{sent, closed, with_socket}
use my_ftp.Client.Filename.{after_last_slash, get_filename_from_filepath}
use my_ftp.Client.Transfer.{execute_get_command, execute_put_command}
use my_ftp.Client.Filename.Laws.{LastPart, get_filename_from_filepath-LastPart}
use my_ftp.Client.Transfer.Release.{Releases, execute_get_command-Releases}
use my_ftp.Client.Transfer.Get.{Appends, execute_get_command-stores}
use my_ftp.Client.Transfer.Put.{Uploads, execute_put_command-Uploads}
use my_ftp.Client.Loop.{run_commands}
use my_ftp.Client.Loop.Ending.{run_commands-exit}
use my_ftp.Tests.System.{system, connection, sending, peer}
use my_ftp.Tests.ClientSystem.{client_system, client, client_data_socket, disk, both}

appends : Appends client_system 7
appends = record {
  nothing = λ w. ap (λ f. record w { file = f }) (append-nil w.file);
  joins = λ x y w. ap (λ f. record w { file = f }) (append_assoc w.file x y);
}

get_filename_from_filepath-LastPart_example :
    LastPart (codes "a/b.txt") (get_filename_from_filepath (codes "a/b.txt"))
get_filename_from_filepath-LastPart_example = get_filename_from_filepath-LastPart (codes "a/b.txt")

get_filename_from_filepath_test : get_filename_from_filepath (codes "a/b.txt") ≡ codes "b.txt"
unfolding get_filename_from_filepath after_last_slash
get_filename_from_filepath_test = refl

get_command_handler_iff_example :
    (get_command_handler (record { name = codes "pasv"; argc = 0; argv = [] }) ≡ some Executor.pasv)
    ↔ (touppercase (codes "pasv") ≡ codes "PASV")
get_command_handler_iff_example =
    get_command_handler_iff (record { name = codes "pasv"; argc = 0; argv = [] }) Executor.pasv

execute_get_command-Releases_example :
    Releases client_data_socket (sent 3 (codes "RETR a\r\n") ∷ []) (
      execute_get_command client_system client
        (codes "a")
        (with_socket client_data_socket (disk []) []))
execute_get_command-Releases_example =
    execute_get_command-Releases client_system client (codes "a") client_data_socket (disk []) []

execute_get_command-stores_example :
    execute_get_command client_system client
      (codes "d/a")
      (with_socket client_data_socket (disk both) [])
    ≡ done (
      success,
      record {
        data_socket = none;
        world = record { responses = []; file = codes "a\nb" };
        trace = sent 3 (codes "RETR d/a\r\n") ∷ closed 5 ∷ closed 5 ∷ [];
      },
    )
unfolding c_string starts_with get_filename_from_filepath after_last_slash
execute_get_command-stores_example =
    execute_get_command-stores client_system client (codes "d/a") (codes "a\nb") 7
      client_data_socket (disk both) (disk []) (disk []) (disk []) []
      (record { line = codes "150 Opening.\r\n"; came = refl; begins = refl })
      (record { line = codes "226 Done.\r\n"; came = refl; begins = refl }) refl refl refl appends

execute_put_command-Uploads_example :
    Uploads client (codes "d/a") (codes "one\ntwo") client_data_socket [] (
      execute_put_command client_system client
        (codes "d/a")
        (with_socket client_data_socket (disk both) []))
unfolding c_string starts_with
execute_put_command-Uploads_example =
    execute_put_command-Uploads client_system client (codes "d/a") (codes "one\ntwo")
      client_data_socket (disk both) (disk both) (disk (codes "226 Done.\r\n" ∷ []))
      (disk (codes "226 Done.\r\n" ∷ [])) [] refl
      (record { line = codes "150 Opening.\r\n"; came = refl; begins = refl }) refl refl

handle_connection-quit_example :
    Frees
      (farewell 4 (some connection))
      (sending (codes "quit\r\n" ∷ []))
      (handle_connection system 4 (sending (codes "quit\r\n" ∷ [])))
unfolding touppercase upper_byte
handle_connection-quit_example =
    handle_connection-quit system 4 4 (codes "quit") (sending (codes "quit\r\n" ∷ [])) (λ w. refl)
      (record { peer = peer; known = refl; stream = 4; streamed = refl; prepared = tt }) refl refl
      refl

run_commands-exit_example :
    run_commands client_system 2 client 1 (with_socket client_data_socket (disk []) [])
    ≡ done (
      some 0,
      record (with_socket client_data_socket (disk []) []) {
        trace = sent 3 (codes "QUIT\r\n") ∷ closed 3 ∷ [];
      },
    )
unfolding touppercase upper_byte
run_commands-exit_example =
    run_commands-exit client_system (λ w. refl) 0 (codes "exit") client 1
      (with_socket client_data_socket (disk []) []) refl refl refl refl

parse_buffer_agrees_example :
    Typed.parse_buffer true false (codes "get notes")
    ≡ Server.parse_buffer true false (codes "get notes")
parse_buffer_agrees_example = parse_buffer_agrees true false (codes "get notes")
