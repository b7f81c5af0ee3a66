-- ===== src/Tests/Sessions.antt =====
-- Runs of the server, and the theorems about it at concrete inputs.
use mathlib.Core.List.{append-nil, append_assoc}
use my_ftp.Prelude.{
  ◌≡◌, refl, ap, true, false, some, List, [], ◌∷◌, codes, All, get_elem?, starts_with_refl,
}
use my_ftp.Prelude.Outcome.{Outcome, undefined, done}
use my_ftp.Stdio.Lines.{NoNul}
use my_ftp.Stdio.{c_string}
use my_ftp.Utils.Trimming.{is_space, skip_spaces, cut_spaces, trim}
use my_ftp.Parser.{
  Command, parse_buffer, parse_trimmed, setup_command, tokenize_buffer, close_tokens, strip_last,
  count_args, count_spaces,
}
use my_ftp.Parser.Strtok.{skip_delimiters, token_of, after_token, next_token, strtok, strtok_loop}
use my_ftp.Session.{CommandStatus, success, failure, closed, opened, written, State}
use my_ftp.Commands.Login.{user_command, pass_command}
use my_ftp.Commands.Files.{execute_retr_command, transfer_file_data}
use my_ftp.Commands.Confinement.{Within, RootStays}
use my_ftp.Commands.Contents.{
  Delivers, execute_retr_command-Delivers, Appends, transfer_file_data-writes,
}
use my_ftp.Prelude.{text_eq}
use my_ftp.Utils.Case.{upper_byte, touppercase}
use my_ftp.Commands.Login.{
  new_user, accepts, get_password, check_preconditions, process_login, try_login, after_check,
}
use my_ftp.Executor.{cwd, call, run_handler, find_handler, execute_command, get_command_handler}
use my_ftp.Executor.Guards.{refused, call-refused}
use my_ftp.Login.Spec.{no_user, auth_of, auth_step}
use my_ftp.Login.Refinement.{execute_command-auth_step}
use my_ftp.ClientHandler.{
  read_socket, drop_newline, tokens_malloc, parse_line, execute_line, close_after,
  handle_client_command, handle_connection,
}
use my_ftp.ClientHandler.Authentic.{IsAuthentic}
use my_ftp.ClientHandler.Confined.{handle_client_command-Within}
use my_ftp.Session.Speaks.{Spoke}
use my_ftp.ClientHandler.Private.{handle_client_command-Spoke}
use my_ftp.ClientHandler.Lost.{handle_connection-lost}
use my_ftp.Login.Table.{Rounds}
use my_ftp.Server.Logins.{logins}
use my_ftp.Server.LoginRounds.{serve-Rounds}
use my_ftp.Reply.{service_ready}
use my_ftp.Server.{
  Slot, Globals, init_slots, max_clients, process_client_events, process_slot, handle_slot,
  accept_new_connection, assign, init_connection,
}
use my_ftp.Server.Clients.{SlotHolds}
use my_ftp.Server.Loop.{Round, serve, serve_events, handle_signal, process_connection}
use my_ftp.Server.Rounds.{serve-IsAuthentic, serve-Within}
use my_ftp.Server.Turns.{Turn, process_client_events-Turn}
use my_ftp.Server.Slots.{process_client_events-quiet, accept_new_connection-full}
use my_ftp.Tests.System.{
  retr_notes, World, system, server, connection, sending, globals, peer, data_socket, connected,
}

abbrev user_anonymous : Command
user_anonymous = record { name = codes "user"; argc = 1; argv = codes "anonymous" ∷ [] }

abbrev pass_empty : Command
pass_empty = record { name = codes "PASS"; argc = 0; argv = [] }

call-refused_example :
    call system cwd retr_notes (sending []) ≡ done (failure, refused (sending []))
call-refused_example = call-refused system cwd retr_notes (sending []) tt refl

-- what an outcome that is defined holds, or what is given
abbrev state_of : Outcome (CommandStatus × State World) → State World
state_of undefined = sending []
state_of (done (_, s)) = s

abbrev after_user : State World
after_user = state_of (execute_command system (some user_anonymous) (sending []))

user_runs : execute_command system (some user_anonymous) (sending []) ≡ done (success, after_user)
unfolding execute_command run_handler get_command_handler find_handler touppercase upper_byte call
    user_command new_user text_eq
user_runs = refl

execute_command-auth_step_example :
    auth_of after_user.conn
    ≡ auth_step (get_command_handler user_anonymous) (some (codes "anonymous")) no_user
execute_command-auth_step_example =
    execute_command-auth_step system user_anonymous (sending []) refl user_runs

no_nul : NoNul (codes "one\ntwo")
no_nul = (refl, (refl, (refl, (refl, (refl, (refl, (refl, tt)))))))

execute_retr_command-Delivers_example :
    Delivers 6 (codes "one\ntwo") connected (execute_retr_command system retr_notes connected)
execute_retr_command-Delivers_example =
    execute_retr_command-Delivers system retr_notes (codes "notes") (codes "/srv")
      (codes "one\ntwo") data_socket 6 connected refl refl refl refl refl no_nul

appends : Appends system 7
appends = record {
  nothing = λ w. ap (λ f. record w { file = f }) (append-nil w.file);
  joins = λ x y w. ap (λ f. record w { file = f }) (append_assoc w.file x y);
}

transfer_file_data-writes_example :
    transfer_file_data system 7 (some 6) connected
    ≡ done (
      tt,
      record connected {
        trace = closed 6 ∷ [];
        world = record (connected.world) { file = codes "a\nb" };
      },
    )
transfer_file_data-writes_example =
    transfer_file_data-writes system 7 appends 6 (codes "a\nb") connected refl

handle_connection-lost_example : handle_connection system 4 (sending []) ≡ done (false, sending [])
handle_connection-lost_example = handle_connection-lost system 4 4 (sending []) refl refl

-- one line that logs in a name
abbrev said_user : State World
said_user = state_of (handle_client_command system (sending (codes "USER anonymous\r\n" ∷ [])))

at_root : Within (codes "/srv") connection
at_root = record {
  path = codes "/srv";
  served = refl;
  directory = refl;
  prefix = starts_with_refl (codes "/srv");
}

said_user_runs :
    handle_client_command system (sending (codes "USER anonymous\r\n" ∷ []))
    ≡ done (success, said_user)
unfolding handle_client_command read_socket drop_newline c_string execute_line parse_line
    tokens_malloc parse_buffer parse_trimmed setup_command tokenize_buffer close_tokens strip_last
    count_args count_spaces strtok_loop strtok next_token skip_delimiters token_of after_token trim
    cut_spaces skip_spaces is_space execute_command run_handler get_command_handler find_handler
    touppercase upper_byte call user_command new_user text_eq
said_user_runs = refl

handle_client_command-Spoke_example : Spoke 4 (sending (codes "USER anonymous\r\n" ∷ [])) said_user
handle_client_command-Spoke_example =
    handle_client_command-Spoke system (sending (codes "USER anonymous\r\n" ∷ [])) said_user success
      said_user_runs

root_stays : RootStays system (codes "/srv")
root_stays w = refl

handle_client_command-Within_example : Within (codes "/srv") said_user.conn
handle_client_command-Within_example =
    handle_client_command-Within system (codes "/srv") root_stays
      (sending (codes "USER anonymous\r\n" ∷ [])) at_root said_user_runs

abbrev waiting : List Slot
waiting =
    record { fd = some 4; connection = some connection }
    ∷ record { fd = some 8; connection = some connection }
    ∷ []

abbrev slots_of : Outcome (List Slot × Globals World) → List Slot × Globals World
slots_of undefined = ([], globals [] [])
slots_of (done r) = r

-- one client of two sends a line
abbrev one_round : Outcome (List Slot × Globals World)
one_round =
    process_client_events system waiting (true ∷ false ∷ [])
      (globals (codes "USER anonymous\r\n" ∷ []) [])

one_round_runs : one_round ≡ done ((slots_of one_round).0, (slots_of one_round).1)
unfolding process_client_events process_slot handle_slot handle_connection close_after
    handle_client_command read_socket drop_newline c_string execute_line parse_line tokens_malloc
    parse_buffer parse_trimmed setup_command tokenize_buffer close_tokens strip_last count_args
    count_spaces strtok_loop strtok next_token skip_delimiters token_of after_token trim cut_spaces
    skip_spaces is_space execute_command run_handler get_command_handler find_handler touppercase
    upper_byte call user_command new_user text_eq
one_round_runs = refl

process_client_events-quiet_example :
    get_elem? (slots_of one_round).0 1 ≡ some (record { fd = some 8; connection = some connection })
process_client_events-quiet_example =
    process_client_events-quiet system waiting (true ∷ false ∷ [])
      (globals (codes "USER anonymous\r\n" ∷ []) []) 1 (slots_of one_round).0 (slots_of one_round).1
      refl one_round_runs

process_client_events-Turn_example :
    Turn system 4 (some connection) (get_elem? (slots_of one_round).0 0)
process_client_events-Turn_example =
    process_client_events-Turn system waiting (true ∷ false ∷ [])
      (globals (codes "USER anonymous\r\n" ∷ []) []) 0 4
      (record { fd = some 4; connection = some connection }) (slots_of one_round).0
      (slots_of one_round).1 refl refl refl one_round_runs

accept_new_connection-full_example :
    accept_new_connection system server waiting (globals [] [])
    ≡ (waiting, record (globals [] []) { trace = opened 4 ∷ written 4 service_ready ∷ [] })
accept_new_connection-full_example =
    accept_new_connection-full system server waiting (globals [] []) 4 peer (tt, (tt, tt)) refl

-- a client connects, says who it is, and logs in
abbrev three_rounds : Globals World
three_rounds =
    globals (codes "USER anonymous\r\n" ∷ codes "PASS\r\n" ∷ [])
      ((true ∷ []) ∷ (false ∷ true ∷ []) ∷ (false ∷ true ∷ []) ∷ [])

abbrev round_of : Outcome (Round World) → Round World
round_of undefined = record { interrupted = true; slots = []; globals = globals [] [] }
round_of (done r) = r

abbrev served : Outcome (Round World)
served = serve system 3 server false (init_slots max_clients) three_rounds

served_runs : served ≡ done (round_of served)
unfolding serve handle_signal process_connection serve_events accept_new_connection assign
    init_connection init_slots process_client_events process_slot handle_slot handle_connection
    close_after pass_command get_password check_preconditions process_login try_login after_check
    accepts handle_client_command read_socket drop_newline c_string execute_line parse_line
    tokens_malloc parse_buffer parse_trimmed setup_command tokenize_buffer close_tokens strip_last
    count_args count_spaces strtok_loop strtok next_token skip_delimiters token_of after_token trim
    cut_spaces skip_spaces is_space execute_command run_handler get_command_handler find_handler
    touppercase upper_byte call user_command new_user text_eq
served_runs = refl

serve-IsAuthentic_example : All (SlotHolds IsAuthentic) (round_of served).slots
serve-IsAuthentic_example =
    serve-IsAuthentic system 3 server three_rounds (round_of served) served_runs

serve-Within_example : All (SlotHolds (Within (codes "/srv"))) (round_of served).slots
serve-Within_example =
    serve-Within system 3 server three_rounds (round_of served) root_stays served_runs

serve-Rounds_example : Rounds (logins (init_slots max_clients)) (logins (round_of served).slots)
serve-Rounds_example =
    serve-Rounds system 3 server false (init_slots max_clients) three_rounds (round_of served)
      served_runs
