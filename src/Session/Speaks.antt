-- ===== src/Session/Speaks.antt =====
-- Whom an action speaks to, one rule for each way to build it.
use mathlib.Core.List.{append-nil, append_assoc}
use my_ftp.Prelude.{
  ℕ, ◌≡◌, refl, sym, ap, ◌∙◌, Bool, true, false, Option, none, some, List, [], ◌∷◌, ◌++◌, null_or,
  if◌then◌else◌, All, All-append,
}
use my_ftp.Prelude.Outcome.{Outcome, undefined, done}
use my_ftp.Reply.{Reply, content}
use my_ftp.Session.{Connection, Event, written, opened, closed, State}
use my_ftp.Session.Monad.{M, pure, ◌>>=◌, deref, gets, sys, modify, log, reply}

-- A reply goes to this control connection; what a file or a directory holds may go elsewhere.
abbrev pub IsOwn : ℕ → Event → Type 0
IsOwn control (written fd (content bytes)) = Unit
IsOwn control (written fd r) = fd ≡ control
IsOwn control (opened fd) = Unit
IsOwn control (closed fd) = Unit

-- the same for all that a child process does, where its code is defined
abbrev pub IsOwnChild : ℕ → Option (List Event) → Type 0
IsOwnChild control none = Unit
IsOwnChild control (some events) = All (IsOwn control) events

-- What was added to a list satisfies `P`.
pub record Extends {A : Type 0} (P : A → Type 0) (before after : List A) : Type 0 where
  pub added : List A
  pub joins : after ≡ before ++ added
  pub each : All P added

-- Between the two states, every reply was for this control connection, which stays the client's.
pub record Spoke {W : Type 0} (control : ℕ) (s t : State W) : Type 0 where
  pub still : t.client_sockfd ≡ control
  pub own : Extends (IsOwn control) s.trace t.trace
  pub children : Extends (IsOwnChild control) s.spawned t.spawned

abbrev pub SpokeIfDone : {W A : Type 0} → ℕ → State W → Outcome (A × State W) → Type 0
SpokeIfDone control s undefined = Unit
SpokeIfDone control s (done (a, t)) = Spoke control s t

-- An action speaks to its own client.
pub record Speaks {W A : Type 0} (m : M W A) : Type 0 where
  pub at : (control : ℕ) (s : State W) → s.client_sockfd ≡ control → SpokeIfDone control s (m s)

module _ {A : Type 0} {P : A → Type 0} where
  pub Extends-same : (before : List A) → Extends P before before
  Extends-same before = record { added = []; joins = sym (append-nil before); each = tt }

  pub Extends-one : (before : List A) (x : A) → P x → Extends P before (before ++ x ∷ [])
  Extends-one before x h = record { added = x ∷ []; joins = refl; each = (h, tt) }

  pub Extends-trans : {xs ys zs : List A} → Extends P xs ys → Extends P ys zs → Extends P xs zs
  Extends-trans {xs} h k = record {
    added = h.added ++ k.added;
    joins = k.joins ∙ ap (λ l. l ++ k.added) h.joins ∙ append_assoc xs h.added k.added;
    each = All-append P h.added k.added h.each k.each;
  }

IsOwn-reply : (control fd : ℕ) (r : Reply) → fd ≡ control → IsOwn control (written fd r)
IsOwn-reply control fd (content bytes) h = tt
IsOwn-reply control fd _ h = h

module _ {W : Type 0} where
  pub Spoke-same :
      (control : ℕ) (s t : State W)
      → t.client_sockfd ≡ control
      → t.trace ≡ s.trace
      → t.spawned ≡ s.spawned
      → Spoke control s t
  Spoke-same control s t h p q = record {
    still = h;
    own = record { added = []; joins = p ∙ sym (append-nil s.trace); each = tt };
    children = record { added = []; joins = q ∙ sym (append-nil s.spawned); each = tt };
  }

  pub Spoke-trans :
      {control : ℕ} {s t u : State W} → Spoke control s t → Spoke control t u → Spoke control s u
  Spoke-trans h k = record {
    still = k.still;
    own = Extends-trans h.own k.own;
    children = Extends-trans h.children k.children;
  }

  Spoke-log :
      (control : ℕ) (s : State W) (e : Event)
      → s.client_sockfd ≡ control
      → IsOwn control e
      → Spoke control s (record s { trace = s.trace ++ e ∷ [] })
  Spoke-log control s e h own = record {
    still = h;
    own = Extends-one s.trace e own;
    children = Extends-same s.spawned;
  }

  pub Speaks-opened : (fd : ℕ) → Speaks {W = W} (log (opened fd))
  Speaks-opened fd = record { at = λ control s h. Spoke-log control s (opened fd) h tt }

  pub Speaks-closed : (fd : ℕ) → Speaks {W = W} (log (closed fd))
  Speaks-closed fd = record { at = λ control s h. Spoke-log control s (closed fd) h tt }

  pub Speaks-content : (fd : ℕ) (bytes : List ℕ) → Speaks {W = W} (log (written fd (content bytes)))
  Speaks-content fd bytes = record {
    at = λ control s h. Spoke-log control s (written fd (content bytes)) h tt;
  }

  pub Speaks-reply : (r : Reply) → Speaks {W = W} (reply r)
  Speaks-reply r = record {
    at = λ control s h.
        Spoke-log control s (written s.client_sockfd r) h (IsOwn-reply control s.client_sockfd r h);
  }

  pub Speaks-modify :
      (f : Connection → Connection)
      → ((c : Connection) → (f c).client_sockfd ≡ c.client_sockfd)
      → Speaks {W = W} (modify f)
  Speaks-modify f same = record {
    at = λ control s h. Spoke-same control s _ (same s.conn ∙ h) refl refl;
  }

module _ {W A : Type 0} where
  pub Speaks-pure : (a : A) → Speaks {W = W} (pure a)
  Speaks-pure a = record { at = λ control s h. Spoke-same control s s h refl refl }

  pub Speaks-gets : (f : State W → A) → Speaks (gets f)
  Speaks-gets f = record { at = λ control s h. Spoke-same control s s h refl refl }

  pub Speaks-sys : (call : W → A × W) → Speaks (sys call)
  Speaks-sys call = record { at = λ control s h. Spoke-same control s _ h refl refl }

  pub Speaks-deref : (o : Option A) → Speaks {W = W} (deref o)
  Speaks-deref none = record { at = λ control s h. tt }
  Speaks-deref (some a) = record { at = λ control s h. Spoke-same control s s h refl refl }

  pub Speaks-if : (b : Bool) (m n : M W A) → Speaks m → Speaks n → Speaks (if b then m else n)
  Speaks-if true m n h k = h
  Speaks-if false m n h k = k

module _ {W B : Type 0} where
  SpokeIfDone-trans :
      (control : ℕ) (s t : State W) (o : Outcome (B × State W))
      → Spoke control s t
      → SpokeIfDone control t o
      → SpokeIfDone control s o
  SpokeIfDone-trans control s t undefined h k = tt
  SpokeIfDone-trans control s t (done (b, u)) h k = Spoke-trans h k

module _ {W A B : Type 0} where
  pub Speaks-option :
      (o : Option A) (m : M W B) (f : A → M W B)
      → Speaks m
      → ((a : A) → Speaks (f a))
      → Speaks (null_or o m f)
  Speaks-option none m f h k = h
  Speaks-option (some a) m f h k = k a

  SpokeIfDone-bind :
      (control : ℕ) (s : State W) (o : Outcome (A × State W)) (f : A → M W B)
      → SpokeIfDone control s o
      → ((a : A) → Speaks (f a))
      → SpokeIfDone control s
          (elim o as (λ _. Outcome (B × State W)) [ undefined ↦ undefined | done (a, t) ↦ f a t ])
  SpokeIfDone-bind control s undefined f h k = tt
  SpokeIfDone-bind control s (done (a, t)) f h k =
      SpokeIfDone-trans control s t (f a t) h ((k a).at control t h.still)

  pub Speaks-bind :
      (m : M W A) (f : A → M W B) → Speaks m → ((a : A) → Speaks (f a)) → Speaks (m >>= f)
  Speaks-bind m f h k = record {
    at = λ control s e. SpokeIfDone-bind control s (m s) f (h.at control s e) k;
  }

pub same_socket : (n : ℕ) → n ≡ n
same_socket n = refl

pub ruleset speaks_rules = (
  Speaks-pure, Speaks-gets, Speaks-sys, Speaks-deref, Speaks-if, Speaks-opened, Speaks-closed,
  Speaks-reply, Speaks-modify, Speaks-option, Speaks-bind, same_socket,
)
