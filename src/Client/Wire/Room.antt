-- ===== src/Client/Wire/Room.antt =====
-- A child process that the data connection has room for is not stopped, and another one writes no reply
-- behind the data.
use my_ftp.Prelude.{
  false, ◌<◌, ℕ, ◌-◌, ◌≤◌, ◌≡◌, ◌==◌, refl, ap, true, leb, length, List, [], ◌∷◌, ◌++◌, Bool-cases,
  inl, inr, arith, Text, length-append,
}
use my_ftp.Stdio.Lines.{concat}
use my_ftp.Reply.{text}
use my_ftp.Session.{Event, written, opened, closed}
use my_ftp.Commands.Contents.{pieces_to}
use my_ftp.Client.Link.{replies_to}
use my_ftp.Client.Wire.{until_full}

first_fits : (t rest : Text) (room : ℕ) → length (t ++ rest) ≤ room → length t ≤ room
first_fits t rest room h = omega (arith, length-append t rest)

others_fit : (t rest : Text) (room : ℕ) → length (t ++ rest) ≤ room → length rest ≤ room - length t
others_fit t rest room h = omega (arith, length-append t rest)

pub until_full_fits :
    (room fd : ℕ) (events : List Event)
    → length (concat (replies_to fd events)) ≤ room
    → until_full room fd events ≡ events
unfolding until_full replies_to
until_full_fits room fd [] h = refl
until_full_fits room fd (opened n ∷ events) h =
    ap (λ l. opened n ∷ l) (until_full_fits room fd events h)
until_full_fits room fd (closed n ∷ events) h =
    ap (λ l. closed n ∷ l) (until_full_fits room fd events h)
until_full_fits room fd (written n r ∷ events) h = elim (Bool-cases (n == fd)) [
  | inr other ↦
      rw other (ap (λ l. written n r ∷ l) (until_full_fits room fd events (rw other at h)))
  | inl own ↦
      let h' : length (text r ++ concat (replies_to fd events)) ≤ room = rw own at h in
      let fits : leb (length (text r)) room ≡ true =
        ground (arith, first_fits (text r) (concat (replies_to fd events)) room h') in
      rw (own, fits)
        (ap (λ l. written n r ∷ l)
          (until_full_fits (room - length (text r)) fd events
            (others_fit (text r) (concat (replies_to fd events)) room h')))
]

fits_leb : (p : Text) (room : ℕ) → leb (length p) room ≡ true → length p ≤ room
fits_leb p room h = ground arith

same_socket : (fd : ℕ) → (fd == fd) ≡ true
same_socket fd = ground arith

-- Where the pieces do not fit, nothing is written behind them.
pub until_full_stops :
    (control fd room : ℕ) (pieces : List Text) (events : List Event)
    → (fd == control) ≡ false
    → room < length (concat pieces)
    → replies_to control (until_full room fd (pieces_to fd pieces ++ events)) ≡ []
unfolding until_full replies_to text
until_full_stops control fd room [] events apart h = absurd (omega (arith, h))
until_full_stops control fd room (p ∷ pieces) events apart h =
    elim (Bool-cases (leb (length p) room)) [
      | inr over ↦ rw (same_socket fd, over) refl
      | inl fits ↦
          rw (same_socket fd, fits)
            (rw apart (
              until_full_stops control fd (room - length p) pieces events apart
                (omega (arith, h, length-append p (concat pieces), fits_leb p room fits))))
    ]
