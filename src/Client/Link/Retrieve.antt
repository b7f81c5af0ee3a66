-- ===== src/Client/Link/Retrieve.antt =====
-- What the two processes of a RETR write, in whatever order their events come.
use my_ftp.Prelude.{
  ℕ, ◌≡◌, ◌==◌, refl, ap, ◌∙◌, Option, some, List, [], ◌∷◌, ◌++◌, All, if◌then◌else◌,
}
use my_ftp.Reply.{text}
use my_ftp.Session.{Event, written, opened, closed}
use my_ftp.Session.Orders.{Interleaves, both_over, left_first, right_first}
use my_ftp.Commands.Child.{and_closes}
use my_ftp.Client.Link.{replies_to}

-- a socket opened or closed
abbrev pub IsSilent : Event → Type 0
IsSilent (written fd r) = ⊥
IsSilent (opened fd) = Unit
IsSilent (closed fd) = Unit

-- What is written to a socket is what one process writes, where the other is silent.
pub replies_to-Interleaves :
    (fd : ℕ) {xs ys zs : List Event}
    → Interleaves xs ys zs
    → All IsSilent xs
    → replies_to fd zs ≡ replies_to fd ys
unfolding replies_to
replies_to-Interleaves fd both_over h = refl
replies_to-Interleaves fd (left_first (written n r) z) h = absurd h.0
replies_to-Interleaves fd (left_first (opened n) z) h = replies_to-Interleaves fd z h.1
replies_to-Interleaves fd (left_first (closed n) z) h = replies_to-Interleaves fd z h.1
replies_to-Interleaves fd (right_first (written n r) z) h =
    ap (λ rest. if n == fd then text r ∷ rest else rest) (replies_to-Interleaves fd z h)
replies_to-Interleaves fd (right_first (opened n) z) h = replies_to-Interleaves fd z h
replies_to-Interleaves fd (right_first (closed n) z) h = replies_to-Interleaves fd z h

replies_to-closed :
    (fd n : ℕ) (events : List Event)
    → replies_to fd (events ++ closed n ∷ []) ≡ replies_to fd events
unfolding replies_to
replies_to-closed fd n [] = refl
replies_to-closed fd n (written m r ∷ events) =
    ap (λ rest. if m == fd then text r ∷ rest else rest) (replies_to-closed fd n events)
replies_to-closed fd n (opened m ∷ events) = replies_to-closed fd n events
replies_to-closed fd n (closed m ∷ events) = replies_to-closed fd n events

pub replies_to-and_closes :
    (n listener fd stream : ℕ) (events : List Event)
    → replies_to n (and_closes events listener fd stream) ≡ replies_to n events
replies_to-and_closes n listener fd stream events =
    replies_to-closed n stream _ ∙ replies_to-closed n fd _ ∙ replies_to-closed n listener events

-- the events of the one child that a process has
abbrev pub only_child : List (Option (List Event)) → List Event
only_child (some events ∷ []) = events
only_child _ = []
