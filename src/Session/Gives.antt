-- ===== src/Session/Gives.antt =====
-- What the result of an action is, wherever the action is defined, one rule for each way to build it.
use mathlib.Core.Path.{subst}
use my_ftp.Prelude.{◌≡◌, Bool, true, false, Option, none, some, null_or, if◌then◌else◌}
use my_ftp.Prelude.Outcome.{Outcome, undefined, done}
use my_ftp.Session.{State}
use my_ftp.Session.Monad.{M, pure, ◌>>=◌}

abbrev pub Results : {W A : Type 0} → (A → Type 0) → Outcome (A × State W) → Type 0
Results P undefined = Unit
Results P (done (a, s)) = P a

-- Every result of the action satisfies `P`.
pub record Gives {W A : Type 0} (P : A → Type 0) (m : M W A) : Type 0 where
  pub at : (s : State W) → Results P (m s)

-- what that says of one run
pub Gives-done :
    {W A : Type 0} {P : A → Type 0} {m : M W A} {s t : State W} {a : A}
    → Gives P m
    → m s ≡ done (a, t)
    → P a
Gives-done {P} {s} g e = subst (Results P) e (g.at s)

module _ {W A : Type 0} {P : A → Type 0} where
  pub Gives-pure : (a : A) → P a → Gives {W = W} P (pure a)
  Gives-pure a h = record { at = λ s. h }

  pub Gives-if : (b : Bool) (m n : M W A) → Gives P m → Gives P n → Gives P (if b then m else n)
  Gives-if true m n gm gn = gm
  Gives-if false m n gm gn = gn

module _ {W A B : Type 0} {P : B → Type 0} where
  pub Gives-option :
      (o : Option A) (m : M W B) (f : A → M W B)
      → Gives P m
      → ((a : A) → Gives P (f a))
      → Gives P (null_or o m f)
  Gives-option none m f gm gf = gm
  Gives-option (some a) m f gm gf = gf a

  Results-bind :
      (o : Outcome (A × State W)) (f : A → M W B)
      → ((a : A) → Gives P (f a))
      → Results P
          (elim o as (λ _. Outcome (B × State W)) [ undefined ↦ undefined | done (a, s) ↦ f a s ])
  Results-bind undefined f g = tt
  Results-bind (done (a, s)) f g = (g a).at s

  -- The result of a sequence is that of its last action.
  pub Gives-bind : (m : M W A) (f : A → M W B) → ((a : A) → Gives P (f a)) → Gives P (m >>= f)
  Gives-bind m f g = record { at = λ s. Results-bind (m s) f g }

pub ruleset gives_rules = (Gives-pure, Gives-if, Gives-option, Gives-bind)
