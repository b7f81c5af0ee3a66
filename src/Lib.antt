-- ===== src/Lib.antt =====
-- A model of the MyFTP server and of its client, and the theorems about them.
--
-- The program is an FTP server in one process (src/main.c). A loop polls the listening socket and
-- the sockets of up to 128 clients (src/connection.c). A line of a client is read
-- (src/client_handler.c), parsed (src/command_parser.c), and handed to the handler of its command
-- (src/command_executor.c, src/commands/). RETR, STOR and LIST open a data connection
-- (src/data_socket_executor.c), which PASV or PORT has prepared (src/passive_data_socket.c,
-- src/active_data_socket.c), and transfer in a child process.
--
-- The client (bonus/src/main.c, client.c) logs in with what its user types (login.c), and then sends the
-- server what the user's commands ask for (command_executor.c, commands/). GET, PUT and LS ask with PASV
-- for a data socket of the server and connect to it (data_socket.c).
--
-- Files, and the code that each is about:
--   Prelude          names, lists, outcomes and integers that the others share
--   Utils            src/utils.c: `touppercase`, `trim`, `merge_port`, `split_port`
--   Stdio            fgets, getline and atoi of the C library, and the loops over them
--   Parser           src/command_parser.c: `parse_buffer`; Parser/Strtok is the loop of `strtok`;
--                    Parser/Blocks has the addresses that a command is made of, with `destroy_command` of
--                    src/destroyers.c; Client/Parser/Blocks has those of the client's copies
--   Reply            the replies, one constructor for each format string of `dprintf`
--   Os               the calls of the operating system, a record of functions;
--                    Os/Listener is the calls that make a socket listen
--   Session          include/myftp.h: the structures, and the state of a handler; Session/Speaks
--                    says whom an action writes replies to
--   DataSocket       the data sockets, src/data_socket_executor.c and part of src/destroyers.c
--   Commands         src/commands: Login is user.c and pass.c; Simple is noop.c, help.c, pwd.c, quit.c
--                    and type.c; Directory is cwd.c and cdup.c; Delete is dele.c; Connect is pasv.c and
--                    port.c; Files is retr.c and stor.c; Listing is list.c
--   Executor         src/command_executor.c: the table and `execute_command`
--   ClientHandler    src/client_handler.c: `handle_connection`
--   Login            the login as a state machine, and the refinement by the handlers; Login/Table is
--                    the machine of all logins, which moves in rounds
--   Server           src/connection.c: clients, slots and events; Server/Loop is the loop of
--                    `process_connections`, with `destroy_server` and src/signal.c
--   Startup          src/main.c and src/socket.c: the arguments and the listening socket
--   Client           bonus: System is what the client calls of the system; State is its structures;
--                    Reading is reading.c; Login is login.c; DataSocket is data_socket.c, with `sscanf`
--                    in DataSocket/Scan; Filename and Trimming are part of utils.c; Parser is
--                    command_parser.c; Commands and Transfer are commands/; Executor is
--                    command_executor.c; Loop is client.c, main.c and socket.c
--   Client/Link      a client and a server on the two ends of one control connection
--   Client/Wire      a client and a server with a data connection between them as well: a GET from the
--                    client's command to its file, over PASV, RETR and the child process
--   Tests            runs of the code, and the theorems at concrete inputs
--
-- A handler is a function from the state of its connection to a status and a new state. The state
-- holds the connection, the state of the system, and the texts written and sockets opened and closed
-- so far; the events of a child process are kept apart from those of its parent. A null pointer is
-- `none`, and so is a descriptor of -1. Where C code is undefined (a null pointer or a cell that was
-- never written is read), the outcome is `undefined`. A byte is a number, and a text a list of them.
--
-- What the model calls and does not define is the record `Os`: files, directories, sockets, `fork`,
-- `poll` and the signals, each a function of a state of the system that the theorems leave open.
-- Theorems that need more of the system say so: `RootStays` is the root directory staying in place,
-- `Appends` is how writes to one file join, and `HasRoom` is memory and ports of 16 bits.
--
-- The loop over the tokens of a line and the loops over the contents of a file have a round for each
-- byte, which is enough, since every round takes a byte at least. The loop of the server runs for as
-- many rounds as one asks for, since the server may run for ever, and so do the client's loop over the
-- commands and its loop over the attempts to log in, since the user may go on for ever.
--
-- The client's code is modelled like the server's, with the record `ClientOs` for the system. Its parser
-- and its `trim` have definitions of their own in Client/Parser and Client/Trimming; `touppercase` and
-- `merge_port` are copies of the server's code, so that one model serves both. In Client/Link
-- the system of a client is the model of the server: what the client sends is a line for
-- `execute_line` and `close_after`, and what the server writes to the control connection are the client's
-- responses. Behind a link there are no files and no data connections. RETR forks: Session/Orders has the
-- orders in which the events of the two processes may be seen. In Client/Wire the client's system is again
-- the model of the server, on a system of the server's own that `IsUp` describes; the client can connect
-- where a socket of that system listens, and gets what the server's two processes write, in any order of
-- their events. `Transport` is what the programs do not decide: how many bytes the data connection holds
-- while the client does not read it, and which replies come in together. A child process whose data does
-- not fit is stopped, since GET reads the replies 150 and 226 before the data; and a reply that has come in
-- behind the one that the client reads is lost, since each response is read through a stream of its own
-- (bonus/src/reading.c). A client that waits for a line that does not come gets a null pointer in the
-- model. Otherwise a line is handled before the client goes on: how long anything takes is not modelled.
--
-- Not modelled: memory that is freed, but for the blocks of a command, `strdup` and `getline`
-- failing for want of memory, the messages on the server's own terminal, the prompts of the client
-- and its messages of success and failure, and `int` overflow in `atoi` and `sscanf`.
pub mod Prelude
pub mod Utils
pub mod Stdio
pub mod Parser
pub mod Reply
pub mod Os
pub mod Session
pub mod DataSocket
pub mod Commands
pub mod Executor
pub mod ClientHandler
pub mod Login
pub mod Server
pub mod Startup
pub mod Client
mod Tests
