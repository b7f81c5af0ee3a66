-- ===== src/Prelude/Outcome.antt =====
-- The outcome of C code: a value, or undefined behaviour (a read of memory that was never written,
-- a null pointer handed to a function that needs a string, an index outside an array).

pub data Outcome {ℓ} (A : Type ℓ) : Type ℓ where
  undefined : Outcome A
  done : A → Outcome A

infixl 5 ◌>>=◌
abbrev pub ◌>>=◌ {ℓ κ} : {A : Type ℓ} {B : Type κ} → Outcome A → (A → Outcome B) → Outcome B
undefined >>= f = undefined
done a >>= f = f a
