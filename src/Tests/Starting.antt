-- ===== src/Tests/Starting.antt =====
-- The start and the stop of the server, and PASV, at concrete inputs.
use my_ftp.Prelude.{◌≡◌, refl, ◌++◌, some, List, [], ◌∷◌, codes, arith, text_eq}
use my_ftp.Prelude.Int.{pos}
use my_ftp.Prelude.Outcome.{done}
use my_ftp.Utils.Trimming.{is_space, skip_spaces}
use my_ftp.Stdio.{read_digits, read_signed, atoi}
use my_ftp.Session.{closed, opened}
use my_ftp.Server.{Slot, free_slot, init_slots}
use my_ftp.Server.Loop.{
  destroy_server, handle_signal, process_connection, serve, destroy_slot, destroy_slots,
  process_connections,
}
use my_ftp.Server.Stopping.{IsOpen, Adds, farewells, destroy_server-Adds}
use my_ftp.Commands.Connect.{pasv_command}
use my_ftp.Commands.PassiveSetup.{HasRoom}
use my_ftp.Commands.PassivePort.{Answers, pasv_command-Answers}
use my_ftp.Startup.{
  is_bad_port, check_path, check_args, setup_socket_fd, set_final_port, bind_socket, listen_socket,
  enter_root, listen_on, setup_socket, serve_from, myftp, run_server, main,
}
use my_ftp.Startup.Arguments.{Accepted, check_args-Accepted, ListensIfMade, setup_socket-Listens}
use my_ftp.Tests.System.{system, server, connection, globals, peer, connected}

port_checked : (check_args system (pos 2121) (some (codes "/srv")) (globals [] [])).0 ≡ 0
unfolding check_args check_path is_bad_port
port_checked = refl

check_args-Accepted_example : Accepted system (pos 2121) (codes "/srv") (globals [] [])
check_args-Accepted_example =
    check_args-Accepted system (pos 2121) (codes "/srv") (globals [] []) port_checked

setup_socket-Listens_example :
    ListensIfMade system 2121
      (globals [] [])
      (setup_socket system 2121 (codes "/srv") (globals [] []))
setup_socket-Listens_example =
    setup_socket-Listens system 2121 (codes "/srv") (omega arith) (globals [] [])

-- one client, and one free slot
abbrev one_client : List Slot
one_client = record { fd = some 4; connection = some connection } ∷ free_slot ∷ []

IsOpen-connection : IsOpen connection
IsOpen-connection = record { peer = peer; known = refl; stream = 4; streamed = refl; prepared = tt }

destroy_server-Adds_example :
    Adds
      (farewells one_client ++ closed 3 ∷ [])
      (globals [] [])
      (destroy_server system server one_client (globals [] []))
destroy_server-Adds_example =
    destroy_server-Adds system server one_client (globals [] []) (IsOpen-connection, (tt, tt))

-- With no client, the server stops when `poll` fails.
main_test :
    main system 3 (codes "myftp" ∷ codes "2121" ∷ codes "/srv" ∷ []) (globals [] [])
    ≡ done (some 0, record (globals [] []) { trace = opened 5 ∷ closed 5 ∷ [] })
unfolding main run_server check_args check_path is_bad_port myftp setup_socket setup_socket_fd
    listen_on set_final_port bind_socket listen_socket enter_root serve_from process_connections
    serve handle_signal process_connection init_slots destroy_server destroy_slots destroy_slot atoi
    read_signed read_digits skip_spaces is_space text_eq
main_test = refl

main_port_test :
    main system 3 (codes "myftp" ∷ codes "65536" ∷ codes "/srv" ∷ []) (globals [] [])
    ≡ done (some 84, globals [] [])
unfolding main run_server check_args check_path is_bad_port atoi read_signed read_digits skip_spaces
    is_space text_eq
main_port_test = refl

system-HasRoom : HasRoom system
system-HasRoom = record { memory = λ w. refl; sixteen_bits = λ fd w. omega arith }

pasv_command-Answers_example :
    Answers system connected
      (pasv_command system (record { name = codes "PASV"; argc = 0; argv = [] }) connected)
pasv_command-Answers_example =
    pasv_command-Answers system system-HasRoom (record { name = codes "PASV"; argc = 0; argv = [] })
      connected refl
