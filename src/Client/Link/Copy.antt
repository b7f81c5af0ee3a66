-- ===== src/Client/Link/Copy.antt =====
-- What the server's src/commands/retr.c writes for a file, on the control connection and on the data
-- connection.
use mathlib.Core.List.{append-nil}
use my_ftp.Prelude.{ℕ, ◌≡◌, refl, ap, ◌∙◌, false, List, [], ◌∷◌, ◌++◌, Text, ◌==◌, arith}
use my_ftp.Reply.{Reply, text, opening_data, transfer_complete, content}
use my_ftp.Session.{Event, written}
use my_ftp.Commands.Contents.{pieces_to, delivery}
use my_ftp.Client.Link.{replies_to}

replies_to-own :
    (fd : ℕ) (r : Reply) (events : List Event)
    → replies_to fd (written fd r ∷ events) ≡ text r ∷ replies_to fd events
unfolding replies_to
replies_to-own fd r events = ground arith

replies_to-other :
    (fd other : ℕ) (r : Reply) (events : List Event)
    → (other == fd) ≡ false
    → replies_to fd (written other r ∷ events) ≡ replies_to fd events
unfolding replies_to
replies_to-other fd other r events apart = rw apart refl

pieces_elsewhere :
    (fd other : ℕ) (pieces : List Text) (events : List Event)
    → (other == fd) ≡ false
    → replies_to fd (pieces_to other pieces ++ events) ≡ replies_to fd events
pieces_elsewhere fd other [] events apart = refl
pieces_elsewhere fd other (p ∷ pieces) events apart =
    replies_to-other fd other (content p) (pieces_to other pieces ++ events) apart
    ∙ pieces_elsewhere fd other pieces events apart

text-content : (p : Text) → text (content p) ≡ p
unfolding text
text-content p = refl

pieces_here :
    (fd : ℕ) (pieces : List Text) (events : List Event)
    → replies_to fd (pieces_to fd pieces ++ events) ≡ pieces ++ replies_to fd events
pieces_here fd [] events = refl
pieces_here fd (p ∷ pieces) events =
    replies_to-own fd (content p) (pieces_to fd pieces ++ events)
    ∙ ap (λ t. t ∷ replies_to fd (pieces_to fd pieces ++ events)) (text-content p)
    ∙ ap (λ rest. p ∷ rest) (pieces_here fd pieces events)

replies_to-nil : (fd : ℕ) → replies_to fd [] ≡ []
unfolding replies_to
replies_to-nil fd = refl

abbrev pub both_replies : List Text
both_replies = text opening_data ∷ text transfer_complete ∷ []

pub delivery-replies :
    (control fd : ℕ) (pieces : List Text)
    → (fd == control) ≡ false
    → replies_to control (delivery control fd pieces) ≡ both_replies
delivery-replies control fd pieces apart =
    replies_to-own control opening_data
      (pieces_to fd pieces ++ written control transfer_complete ∷ [])
    ∙ ap (λ rest. text opening_data ∷ rest)
        (pieces_elsewhere control fd pieces (written control transfer_complete ∷ []) apart
          ∙ replies_to-own control transfer_complete []
          ∙ ap (λ rest. text transfer_complete ∷ rest) (replies_to-nil control))

pub delivery-pieces :
    (control fd : ℕ) (pieces : List Text)
    → (control == fd) ≡ false
    → replies_to fd (delivery control fd pieces) ≡ pieces
delivery-pieces control fd pieces apart =
    replies_to-other fd control opening_data
      (pieces_to fd pieces ++ written control transfer_complete ∷ []) apart
    ∙ pieces_here fd pieces (written control transfer_complete ∷ [])
    ∙ ap (λ rest. pieces ++ rest)
        (replies_to-other fd control transfer_complete [] apart ∙ replies_to-nil fd)
    ∙ append-nil pieces
