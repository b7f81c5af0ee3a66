-- ===== src/Tests/Forks.antt =====
-- Runs of the server that fork or end, and the theorems about them at concrete inputs.
use my_ftp.Prelude.{
  inl, length, arith, ap, sym, ◌==◌, ◌≡◌, refl, Bool, true, some, none, List, [], ◌∷◌, ◌++◌, codes,
  text_eq,
}
use my_ftp.Prelude.Outcome.{Outcome, undefined, done}
use my_ftp.Stdio.{c_string}
use my_ftp.Stdio.Lines.{NoNul}
use my_ftp.Utils.Case.{upper_byte, touppercase}
use my_ftp.Utils.Trimming.{is_space, skip_spaces, cut_spaces, trim}
use my_ftp.Parser.{
  Command, parse_buffer, parse_trimmed, setup_command, tokenize_buffer, close_tokens, strip_last,
  count_args, count_spaces,
}
use my_ftp.Parser.Strtok.{skip_delimiters, token_of, after_token, next_token, strtok, strtok_loop}
use my_ftp.Os.{Os, forked}
use my_ftp.Session.{State}
use my_ftp.Session.Orders.{Interleaves, both_over, left_first, right_first}
use my_ftp.DataSocket.Destroy.{describe, destroy_data_socket, destroy_connection}
use my_ftp.Commands.Files.{retr_command}
use my_ftp.Commands.Simple.{quit_command}
use my_ftp.Commands.Retrieved.{Transfers, retr_command-Transfers}
use my_ftp.Executor.{call, run_handler, find_handler, execute_command, get_command_handler}
use my_ftp.ClientHandler.{
  read_socket, drop_newline, tokens_malloc, parse_line, execute_line, close_after,
  handle_client_command, handle_connection,
}
use my_ftp.ClientHandler.Freed.{Sends, handle_connection-freed}
use my_ftp.Client.Transfer.{get_command}
use my_ftp.Client.Wire.{Transport, wired}
use my_ftp.Client.Wire.Pasv.{IsReached}
use my_ftp.Client.Wire.Lines.{IsFileName, wire_with}
use my_ftp.Client.Wire.Retr.{IsUp}
use my_ftp.Client.Wire.Get.{fetched, get_command-fetches}
use my_ftp.Client.Wire.Asked.{before_get}
use my_ftp.Client.Wire.Missed.{Misses, get_command-Misses}
use my_ftp.Tests.System.{data_socket, World, system, connection, sending, peer, retr_notes}
use my_ftp.Tests.ClientSystem.{client}

-- a system that forks, on which a peer connects to the data socket
abbrev forking_system : Os World
forking_system = record system { accept = λ fd w. (some (6, peer), w); fork = λ w. forked w w }

-- a client that has sent PASV
abbrev listening : State World
listening = record (sending []) {
  conn = record connection {
    data_socket = some (record data_socket { client_sockfd = none });
    logged_in = true;
  };
}

no_nul : NoNul (codes "one\ntwo")
no_nul = (refl, (refl, (refl, (refl, (refl, (refl, (refl, tt)))))))

retr_command-Transfers_example :
    Transfers forking_system 6 4
      (codes "one\ntwo")
      listening
      (retr_command forking_system retr_notes listening)
retr_command-Transfers_example =
    retr_command-Transfers forking_system retr_notes (codes "notes") (codes "/srv")
      (codes "one\ntwo") (record data_socket { client_sockfd = none }) 5 6 4 peer listening _ _ refl
      refl (record { mode = refl; listener = refl }) refl refl refl refl refl refl refl refl no_nul

-- one of the orders: the parent first
parent_first : {A : Type 0} (xs ys : List A) → Interleaves xs ys (xs ++ ys)
parent_first [] [] = both_over
parent_first [] (y ∷ ys) = right_first y (parent_first [] ys)
parent_first (x ∷ xs) ys = left_first x (parent_first xs ys)

abbrev hung_up : Outcome (Bool × State World) → State World
hung_up undefined = sending []
hung_up (done (_, s)) = s

abbrev said_quit : Outcome (Bool × State World)
said_quit = handle_connection system 4 (sending (codes "quit\r\n" ∷ []))

quit_frees : said_quit ≡ done (true, hung_up said_quit)
unfolding handle_connection close_after destroy_connection destroy_data_socket describe
    handle_client_command read_socket drop_newline c_string execute_line parse_line tokens_malloc
    parse_buffer parse_trimmed setup_command tokenize_buffer close_tokens strip_last count_args
    count_spaces strtok_loop strtok next_token skip_delimiters token_of after_token trim cut_spaces
    skip_spaces is_space execute_command run_handler get_command_handler find_handler touppercase
    upper_byte call quit_command text_eq
quit_frees = refl

handle_connection-freed_example : Sends system (codes "QUIT") (sending (codes "quit\r\n" ∷ []))
handle_connection-freed_example =
    handle_connection-freed system 4 (sending (codes "quit\r\n" ∷ [])) (hung_up said_quit)
      quit_frees

abbrev get_notes : Command
get_notes = record { name = codes "GET"; argc = 1; argv = codes "notes" ∷ [] }

forking_system-IsUp : IsUp forking_system (codes "notes") (codes "one\ntwo") 6
forking_system-IsUp = record {
  sockets = record {
    room = record { memory = λ w. refl; sixteen_bits = λ fd w. omega arith };
    sockets = λ w. (5, refl);
    binds = λ fd addr w. refl;
    listens = λ fd w. refl;
  };
  named = refl;
  opens = λ w. refl;
  accepts = λ l w. (peer, refl);
  forks = λ w. (w, w, refl);
}

notes-IsFileName : IsFileName (codes "notes")
unfolding is_space
notes-IsFileName = record {
  word = record { not_empty = λ e. cc; one_word = (refl, (refl, (refl, (refl, (refl, tt))))) };
  no_nul = (refl, (refl, (refl, (refl, (refl, tt)))));
  tight = record { first = refl; last = refl };
}

abbrev logged_in : State World
logged_in = record (sending []) { conn = record connection { logged_in = true } }

-- The system gives every socket the port 2121; the data connection holds a hundred bytes, and no reply
-- comes in with another.
abbrev quiet_net : Transport World
quiet_net = record {
  order = ◌++◌;
  data_fd = 6;
  listens = λ w addr. addr.port == 2121;
  room = 100;
  taken = λ ts. 0;
}

quiet_net-IsReached : IsReached forking_system quiet_net.listens
quiet_net-IsReached = record {
  bound = λ sockfd address port before after l. ap (λ n. n == 2121) (sym l.named);
  stays = λ w addr h. h;
}

get_command-fetches_example :
    fetched (
      get_command
        (wired forking_system quiet_net)
        get_notes
        client
        (record { data_socket = none; world = wire_with logged_in []; trace = [] }))
    ≡ some (codes "one\ntwo")
get_command-fetches_example =
    get_command-fetches forking_system quiet_net 4 (codes "notes") (codes "/srv") (codes "one\ntwo")
      peer parent_first forking_system-IsUp quiet_net-IsReached notes-IsFileName no_nul
      (omega arith) refl client get_notes logged_in [] refl refl
      (record { logged = refl; directory = refl; streamed = refl; known = refl }) refl

-- the same, but all that is on its way comes in together
abbrev hasty_net : Transport World
hasty_net = record quiet_net { taken = length }

get_command-Misses_example :
    Misses (get_command (wired forking_system hasty_net) get_notes client (before_get logged_in []))
get_command-Misses_example =
    get_command-Misses forking_system hasty_net 4 (codes "notes") (codes "/srv") (codes "one\ntwo")
      peer parent_first forking_system-IsUp quiet_net-IsReached notes-IsFileName no_nul
      (inl (omega arith)) client get_notes logged_in [] refl refl
      (record { logged = refl; directory = refl; streamed = refl; known = refl }) refl
