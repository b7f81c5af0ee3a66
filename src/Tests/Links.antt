-- ===== src/Tests/Links.antt =====
-- Runs of the client in front of the server, and the theorems about the two at concrete inputs.
use my_ftp.Prelude.{
  ◌≡◌, refl, arith, true, false, none, some, [], ◌∷◌, codes, text_eq, if◌then◌else◌,
}
use my_ftp.Prelude.Int.{pos}
use my_ftp.Prelude.Outcome.{done}
use my_ftp.Utils.Case.{comma_byte, replace_dots_with_commas}
use my_ftp.Utils.Ports.{split_port}
use my_ftp.Utils.Trimming.{is_space}
use my_ftp.Parser.{Command}
use my_ftp.Reply.{passive, text}
use my_ftp.Session.{CommandStatus, success, failure, opened, written}
use my_ftp.Session as Session
use my_ftp.Commands.Connect.{announce, create_passive_data_socket, pasv_command}
use my_ftp.Commands.PassiveSetup.{HasRoom}
use my_ftp.Commands.Login.{accepts}
use my_ftp.DataSocket.Passive.{
  init_sockin, setup_socket_fd, set_final_port, bind_socket, listen_socket,
  init_passive_data_socket, listen_on, setup_passive_data_socket,
}
use my_ftp.Login.Spec.{no_user, authenticated}
use my_ftp.Server.Stopping.{farewell}
use my_ftp.Client.State.{State}
use my_ftp.Client.Login.{attempt_login, login}
use my_ftp.Client.Link.{Link, linked}
use my_ftp.Client.Link.Lines.{IsArgument}
use my_ftp.Client.Link.Login.{login_of, attempt_login-agrees}
use my_ftp.Client.Link.Attempts.{Attempt, Answered, loop_result, login-succeeds}
use my_ftp.Client.Link.Path.{shown, pwd_command-shows}
use my_ftp.Client.Link.Quit.{ended, quit_command-ends}
use my_ftp.Client.Commands as Commands
use my_ftp.Client.Link.Passive.{Reached, pasv_command-Reached}
use my_ftp.Tests.System.{World, system, connection, sending, peer, connected}
use my_ftp.Tests.ClientSystem.{client}

anonymous : IsArgument (codes "anonymous")
unfolding is_space
anonymous = record {
  word = record {
    not_empty = λ e. cc;
    one_word = (refl, (refl, (refl, (refl, (refl, (refl, (refl, (refl, (refl, tt)))))))));
  };
  no_nul = (refl, (refl, (refl, (refl, (refl, (refl, (refl, (refl, (refl, tt)))))))));
  user_tight = record { first = refl; last = refl };
  pass_tight = record { first = refl; last = refl };
}

-- a client behind which the server has a new connection
abbrev greeted : State (Link World)
greeted = record {
  data_socket = none;
  world = record { server = done (sending []); unread = []; typed = []; printed = [] };
  trace = [];
}

attempt_login-agrees_example :
    login_of (
      attempt_login (linked system) client (record greeted {
        world = record {
          server = done (sending []);
          unread = [];
          typed = (codes "anonymous\n") ∷ (codes "\n") ∷ [];
          printed = [];
        };
      }))
    ≡ some (
        if accepts (codes "anonymous") (codes "")
        then (1, authenticated (some (codes "anonymous")))
        else (0, no_user))
attempt_login-agrees_example =
    attempt_login-agrees system (λ w. refl) client greeted (sending []) peer (codes "anonymous")
      none [] anonymous tt refl refl

room : HasRoom system
room = record { memory = λ w. refl; sixteen_bits = λ fd w. ground arith }

abbrev pasv : Command
pasv = record { name = codes "PASV"; argc = 0; argv = [] }

abbrev announced : Session.State World
announced = record connected {
  conn = record connected.conn {
    data_socket = some (record {
      data_socket_mode = Session.passive;
      data_sockfd = some 5;
      addr = init_sockin;
      address = none;
      port = pos 2121;
      client_sockfd = none;
    });
  };
  trace = opened 5 ∷ written 4 (passive (codes "127,0,0,1") 8 73) ∷ [];
}

pasv_command-Reached_example : Reached system connected announced
unfolding pasv_command create_passive_data_socket announce setup_passive_data_socket setup_socket_fd
    init_passive_data_socket listen_on set_final_port bind_socket listen_socket split_port
    replace_dots_with_commas comma_byte
pasv_command-Reached_example =
    pasv_command-Reached system room pasv connected announced refl refl refl

abbrev no_arguments : Command
no_arguments = record { name = codes "PWD"; argc = 0; argv = [] }

pwd_command-shows_example :
    shown (
      Commands.pwd_command (linked system) no_arguments client (record greeted {
        world = record { server = done connected; unread = []; typed = []; printed = [] };
      }))
    ≡ some (success, codes "Current directory: /srv\n")
pwd_command-shows_example =
    pwd_command-shows system (λ w. refl) no_arguments client greeted connected peer (codes "/srv")
      [] refl refl refl (refl, (refl, (refl, (refl, tt)))) (refl, (refl, (refl, (refl, tt))))

quit_command-ends_example :
    ended (Commands.quit_command (linked system) no_arguments client greeted)
    ≡ some (Session.quit, farewell 4 (some connection))
quit_command-ends_example =
    quit_command-ends system no_arguments client greeted (sending []) [] (λ w. refl)
      (record { peer = peer; known = refl; stream = 4; streamed = refl; prepared = tt })

abbrev wrong : Attempt
wrong = record { name = codes "root"; password = none }

abbrev right : Attempt
right = record { name = codes "anonymous"; password = none }

root : IsArgument (codes "root")
unfolding is_space
root = record {
  word = record { not_empty = λ e. cc; one_word = (refl, (refl, (refl, (refl, tt)))) };
  no_nul = (refl, (refl, (refl, (refl, tt))));
  user_tight = record { first = refl; last = refl };
  pass_tight = record { first = refl; last = refl };
}

wrong-Answered : Answered false wrong
unfolding accepts text_eq
wrong-Answered = record { argument = root; allowed = tt; answer = refl }

right-Answered : Answered true right
unfolding accepts text_eq
right-Answered = record { argument = anonymous; allowed = tt; answer = refl }

login-succeeds_example :
    loop_result (
      login (linked system) 3 client (record greeted {
        world = record {
          server = done (sending []);
          unread = codes "220 Service ready for new user. (myftp)\r\n" ∷ [];
          typed = codes "root\n" ∷ codes "\n" ∷ codes "anonymous\n" ∷ codes "\n" ∷ [];
          printed = [];
        };
      }))
    ≡ some (1, authenticated (some (codes "anonymous")))
unfolding text
login-succeeds_example =
    login-succeeds system (λ w. refl) client (wrong ∷ []) right greeted (sending []) peer []
      (wrong-Answered, tt) right-Answered refl refl
