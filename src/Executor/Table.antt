-- ===== src/Executor/Table.antt =====
-- The table of src/command_executor.c, and the search in it.
use my_ftp.Prelude.{
  ◌≡◌, ◌↔◌, refl, sym, ap, ◌∙◌, Bool-cases, inl, inr, some, List, [], ◌∷◌, Text, codes, text_eq,
  text_eq→eq, All,
}
use my_ftp.Utils.Case.{touppercase}
use my_ftp.Parser.{Command}
use my_ftp.Executor.{
  Handler, user, pass, cwd, cdup, quit, dele, pwd, pasv, port, help, noop, retr, stor, list, type,
  command_handlers, find_handler, get_command_handler,
}

-- the name of the command in the protocol
abbrev pub name_of : Handler → Text
name_of user = codes "USER"
name_of pass = codes "PASS"
name_of cwd = codes "CWD"
name_of cdup = codes "CDUP"
name_of quit = codes "QUIT"
name_of dele = codes "DELE"
name_of pwd = codes "PWD"
name_of pasv = codes "PASV"
name_of port = codes "PORT"
name_of help = codes "HELP"
name_of noop = codes "NOOP"
name_of retr = codes "RETR"
name_of stor = codes "STOR"
name_of list = codes "LIST"
name_of type = codes "TYPE"

-- What a search finds stands in the table under the name that was looked for.
find_handler_sound :
    {H : Type 0} (names : H → Text) (table : List (Text × H)) (name : Text) (h : H)
    → All (λ entry. entry.0 ≡ names entry.1) table
    → find_handler table name ≡ some h
    → name ≡ names h
unfolding find_handler
find_handler_sound names [] name h all e = cc
find_handler_sound names ((n, g) ∷ table) name h (named, all) e =
    elim (Bool-cases (text_eq n name)) [
      | inl same ↦ sym (text_eq→eq n name same) ∙ named ∙ ap names (some_eq (rw same at e))
      | inr other ↦ find_handler_sound names table name h all (rw other at e)
    ]
  where
    some_eq : some g ≡ some h → g ≡ h
    some_eq e = cc

table_named : All (λ entry. entry.0 ≡ name_of entry.1) command_handlers
table_named = search tt

handler_found : (h : Handler) → find_handler command_handlers (name_of h) ≡ some h
unfolding find_handler text_eq
handler_found user = refl
handler_found pass = refl
handler_found cwd = refl
handler_found cdup = refl
handler_found quit = refl
handler_found dele = refl
handler_found pwd = refl
handler_found pasv = refl
handler_found port = refl
handler_found help = refl
handler_found noop = refl
handler_found retr = refl
handler_found stor = refl
handler_found list = refl
handler_found type = refl

-- A command goes to a handler exactly when its name, in upper case, is the handler's.
pub get_command_handler_iff :
    (command : Command) (h : Handler)
    → (get_command_handler command ≡ some h) ↔ (touppercase command.name ≡ name_of h)
unfolding get_command_handler
get_command_handler_iff command h = (
  λ e. find_handler_sound name_of command_handlers (touppercase command.name) h table_named e,
  λ e. ap (find_handler command_handlers) e ∙ handler_found h,
)
