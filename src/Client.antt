-- ===== src/Client.antt =====
-- The command-line client under bonus/: it logs in to a server, and turns the user's commands into
-- commands of the protocol. `touppercase` and `merge_port` are copies of the server's functions, line
-- for line, and the models of those serve here.
pub mod System
pub mod State
pub mod Reading
pub mod Login
pub mod Trimming
pub mod Parser
pub mod DataSocket
pub mod Filename
pub mod Commands
pub mod Transfer
pub mod Executor
pub mod Loop
pub mod Link
pub mod Wire
