-- ===== src/Prelude/Int.antt =====
-- The C `int`, as an unbounded signed integer; `negsuc n` is -(n + 1).
use my_ftp.Prelude.{ℕ, zero, suc, ◌-◌, ◌%◌, ◌^◌, Bool, true, false, ltb}

pub data ℤ : Type 0 where
  pos : ℕ → ℤ
  negsuc : ℕ → ℤ

-- x < 0
abbrev pub is_neg : ℤ → Bool
is_neg (pos n) = ltb n 0
is_neg (negsuc n) = true

-- n < x, for a bound n that is not negative
abbrev pub exceeds : ℕ → ℤ → Bool
exceeds bound (pos n) = ltb bound n
exceeds bound (negsuc n) = false

-- The number that `x` converts to in an unsigned type of `w` bits.
abbrev pub to_unsigned : ℕ → ℤ → ℕ
to_unsigned w (pos n) = n % 2 ^ w
to_unsigned w (negsuc n) = 2 ^ w - 1 - n % 2 ^ w

-- -n
abbrev pub negated : ℕ → ℤ
negated zero = pos 0
negated (suc n) = negsuc n
