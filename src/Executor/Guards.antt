-- ===== src/Executor/Guards.antt =====
-- What a client can do before it has logged in.
use my_ftp.Prelude.{◌≡◌, false, [], ◌∷◌, ◌++◌}
use my_ftp.Prelude.Outcome.{done}
use my_ftp.Os.{Os}
use my_ftp.Parser.{Command}
use my_ftp.Reply.{please_login}
use my_ftp.Session.{failure, written, State}
use my_ftp.Executor.{Handler, user, pass, quit, call}
use my_ftp.Commands.Simple.{noop_command, help_command, pwd_command, type_command}
use my_ftp.Commands.Directory.{cwd_command, cdup_command}
use my_ftp.Commands.Delete.{dele_command}
use my_ftp.Commands.Connect.{pasv_command, port_command}
use my_ftp.Commands.Files.{retr_command, stor_command}
use my_ftp.Commands.Listing.{list_command}

-- the commands that the protocol gives to a client that has not logged in
abbrev pub NeedsLogin : Handler → Type 0
NeedsLogin user = ⊥
NeedsLogin pass = ⊥
NeedsLogin quit = ⊥
NeedsLogin _ = Unit

-- The state behind a refusal: one more reply, and nothing else.
abbrev pub refused : {W : Type 0} → State W → State W
refused s = record s { trace = s.trace ++ written s.client_sockfd please_login ∷ [] }

-- Before the login every command but USER, PASS and QUIT is refused, and has no effect.
pub call-refused :
    {W : Type 0} (os : Os W) (handler : Handler) (command : Command) (s : State W)
    → NeedsLogin handler
    → s.logged_in ≡ false
    → call os handler command s ≡ done (failure, refused s)
unfolding call noop_command help_command pwd_command type_command cwd_command cdup_command
    dele_command pasv_command port_command retr_command stor_command list_command
call-refused os user command s n h = absurd n
call-refused os pass command s n h = absurd n
call-refused os quit command s n h = absurd n
call-refused os _ command s n h = rw h
