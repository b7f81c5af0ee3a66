-- ===== src/Session/Keeps.antt =====
-- Invariants of the connection under an action, one rule for each way to build an action.
use mathlib.Core.Path.{subst}
use my_ftp.Prelude.{◌≡◌, refl, Bool, true, false, Option, none, some, null_or, if◌then◌else◌}
use my_ftp.Prelude.Outcome.{Outcome, undefined, done}
use my_ftp.Reply.{Reply}
use my_ftp.Session.{Connection, Event, State}
use my_ftp.Session.Monad.{M, pure, ◌>>=◌, deref, gets, sys, modify, log, reply}

-- the connection that an outcome leaves, if there is one
abbrev pub Leaves {ℓ} : {W A : Type 0} → (Connection → Type ℓ) → Outcome (A × State W) → Type ℓ
Leaves Q undefined = Unit
Leaves Q (done (_, s)) = Q s.conn

-- An action that starts at a connection with `Q` leaves one.
pub record Keeps {ℓ} {W A : Type 0} (Q : Connection → Type ℓ) (m : M W A) : Type ℓ where
  pub at : (s : State W) → Q s.conn → Leaves Q (m s)

-- what an invariant gives for an outcome that is defined
pub Keeps-done {ℓ} :
    {W A : Type 0} {Q : Connection → Type ℓ} {m : M W A} {s s' : State W} {a : A}
    → Keeps Q m
    → Q s.conn
    → m s ≡ done (a, s')
    → Q s'.conn
Keeps-done {Q} {s} k h e = subst (Leaves Q) e (k.at s h)

module _ {ℓ} {W A : Type 0} {Q : Connection → Type ℓ} where
  pub Keeps-pure : (a : A) → Keeps {W = W} Q (pure a)
  Keeps-pure a = record { at = λ s h. h }

  pub Keeps-gets : (f : State W → A) → Keeps Q (gets f)
  Keeps-gets f = record { at = λ s h. h }

  pub Keeps-sys : (f : W → A × W) → Keeps Q (sys f)
  Keeps-sys f = record { at = λ s h. h }

  pub Keeps-deref : (o : Option A) → Keeps {W = W} Q (deref o)
  Keeps-deref none = record { at = λ s h. tt }
  Keeps-deref (some a) = record { at = λ s h. h }

  pub Keeps-if : (b : Bool) (m n : M W A) → Keeps Q m → Keeps Q n → Keeps Q (if b then m else n)
  Keeps-if true m n km kn = km
  Keeps-if false m n km kn = kn

module _ {ℓ} {W : Type 0} {Q : Connection → Type ℓ} where
  pub Keeps-log : (e : Event) → Keeps {W = W} Q (log e)
  Keeps-log e = record { at = λ s h. h }

  pub Keeps-reply : (r : Reply) → Keeps {W = W} Q (reply r)
  Keeps-reply r = record { at = λ s h. h }

  pub Keeps-modify :
      (f : Connection → Connection)
      → ((c : Connection) → Q c → Q (f c))
      → Keeps {W = W} Q (modify f)
  Keeps-modify f h = record { at = λ s. h s.conn }

module _ {ℓ} {W A B : Type 0} {Q : Connection → Type ℓ} where
  pub Keeps-option :
      (o : Option A) (m : M W B) (f : A → M W B)
      → Keeps Q m
      → ((a : A) → Keeps Q (f a))
      → Keeps Q (null_or o m f)
  Keeps-option none m f km kf = km
  Keeps-option (some a) m f km kf = kf a

  pub Leaves-bind :
      (o : Outcome (A × State W)) (f : A → M W B)
      → Leaves Q o
      → ((a : A) → Keeps Q (f a))
      → Leaves Q
          (elim o as (λ _. Outcome (B × State W)) [ undefined ↦ undefined | done (a, s) ↦ f a s ])
  Leaves-bind undefined f h kf = tt
  Leaves-bind (done (a, s)) f h kf = (kf a).at s h

  pub Keeps-bind :
      (m : M W A) (f : A → M W B) → Keeps Q m → ((a : A) → Keeps Q (f a)) → Keeps Q (m >>= f)
  Keeps-bind m f km kf = record { at = λ s h. Leaves-bind (m s) f (km.at s h) kf }

pub ruleset keeps_rules = (
  Keeps-pure, Keeps-gets, Keeps-sys, Keeps-deref, Keeps-if, Keeps-log, Keeps-reply, Keeps-modify,
  Keeps-option, Keeps-bind,
)

module _ {W A B : Type 0} where
  outcome_bind_done :
      (o : Outcome (A × State W)) (f : A → M W B) {b : B} {s' : State W}
      → elim o as (λ _. Outcome (B × State W)) [ undefined ↦ undefined | done (a, t) ↦ f a t ]
        ≡ done (b, s')
      → (a : A) × (t : State W) × (o ≡ done (a, t)) × (f a t ≡ done (b, s'))
  outcome_bind_done undefined f e = cc
  outcome_bind_done (done (a, t)) f e = (a, t, refl, e)

  -- Where a sequence of two actions is defined, both are.
  pub bind_done :
      (m : M W A) (f : A → M W B) (s : State W) {b : B} {s' : State W}
      → (m >>= f) s ≡ done (b, s')
      → (a : A) × (t : State W) × (m s ≡ done (a, t)) × (f a t ≡ done (b, s'))
  bind_done m f s e = outcome_bind_done (m s) f e

Leaves-of_done :
    {W A : Type 0} (Q : Connection → Type 0) (o : Outcome (A × State W))
    → ((a : A) (t : State W) → o ≡ done (a, t) → Q t.conn)
    → Leaves Q o
Leaves-of_done Q undefined h = tt
Leaves-of_done Q (done (a, t)) h = h a t refl

pub Keeps-of_done :
    {W A : Type 0} {Q : Connection → Type 0} (m : M W A)
    → ((s : State W) (a : A) (t : State W) → Q s.conn → m s ≡ done (a, t) → Q t.conn)
    → Keeps Q m
Keeps-of_done {Q} m h = record { at = λ s q. Leaves-of_done Q (m s) (λ a t. h s a t q) }
