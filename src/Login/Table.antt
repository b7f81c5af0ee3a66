-- ===== src/Login/Table.antt =====
-- The logins of all the clients of a server, as a machine that moves in rounds. It knows nothing of
-- sockets: `Server.Logins` shows that the loop of src/connection.c moves as this machine moves.
use my_ftp.Prelude.{Option, none, some, List, [], ◌∷◌, Text, All}
use my_ftp.Executor.{Handler}
use my_ftp.Login.Spec.{Auth, no_user, auth_step}

-- one entry for each place of a client, `none` if the place is free
abbrev pub Table : Type 0
Table = List (Option Auth)

-- What a round does to one place: nothing, a line of the client, or the end of its visit.
pub data Turn : Option Auth → Option Auth → Type 0 where
  idles : (place : Option Auth) → Turn place place
  obeys :
      (found : Option Handler) (word : Option Text) (a : Auth)
      → Turn (some a) (some (auth_step found word a))
  leaves : (a : Auth) → Turn (some a) none

-- every place has its turn, once
pub data Turns : Table → Table → Type 0 where
  all_done : Turns [] []
  turn : {x y : Option Auth} {t u : Table} → Turn x y → Turns t u → Turns (x ∷ t) (y ∷ u)

-- A newcomer, who has not named a user, takes the first free place; there may be none.
pub data Arrives : Table → Table → Type 0 where
  turned_away : Arrives [] []
  seated : (t : Table) → Arrives (none ∷ t) (some no_user ∷ t)
  passes : {t u : Table} (a : Auth) → Arrives t u → Arrives (some a ∷ t) (some a ∷ u)

-- a round: at most one arrival, and then the turns
pub data Round : Table → Table → Type 0 where
  quiet : {t u : Table} → Turns t u → Round t u
  arrival : {t u v : Table} → Arrives t u → Turns u v → Round t v

pub data Rounds : Table → Table → Type 0 where
  over : (t : Table) → Rounds t t
  next : {t u v : Table} → Round t u → Rounds u v → Rounds t v

pub Turns-idle : (t : Table) → Turns t t
Turns-idle [] = all_done
Turns-idle (x ∷ t) = turn (idles x) (Turns-idle t)

-- What holds of whoever is at a place.
abbrev pub PlaceHolds : (Auth → Type 0) → Option Auth → Type 0
PlaceHolds P none = Unit
PlaceHolds P (some a) = P a

module _ (P : Auth → Type 0) (fresh : P no_user)
    (step : (found : Option Handler) (word : Option Text) (a : Auth)
      → P a
      → P (auth_step found word a)) where
  Turn-Holds : {x y : Option Auth} → Turn x y → PlaceHolds P x → PlaceHolds P y
  Turn-Holds (idles x) h = h
  Turn-Holds (obeys found word a) h = step found word a h
  Turn-Holds (leaves a) h = tt

  Turns-Hold : {t u : Table} → Turns t u → All (PlaceHolds P) t → All (PlaceHolds P) u
  Turns-Hold all_done h = tt
  Turns-Hold (turn c r) h = (Turn-Holds c h.0, Turns-Hold r h.1)

  Arrives-Holds : {t u : Table} → Arrives t u → All (PlaceHolds P) t → All (PlaceHolds P) u
  Arrives-Holds turned_away h = tt
  Arrives-Holds (seated t) h = (fresh, h.1)
  Arrives-Holds (passes a r) h = (h.0, Arrives-Holds r h.1)

  Round-Holds : {t u : Table} → Round t u → All (PlaceHolds P) t → All (PlaceHolds P) u
  Round-Holds (quiet r) h = Turns-Hold r h
  Round-Holds (arrival n r) h = Turns-Hold r (Arrives-Holds n h)

  -- An invariant of one login is an invariant of all of them, over any number of rounds.
  pub Rounds-Hold : {t u : Table} → Rounds t u → All (PlaceHolds P) t → All (PlaceHolds P) u
  Rounds-Hold (over t) h = h
  Rounds-Hold (next r rs) h = Rounds-Hold rs (Round-Holds r h)
