-- ===== src/Client/DataSocket/Digits.antt =====
-- The numbers that the server prints with `%d`, as `sscanf` of the client reads them.
use my_ftp.Prelude.{
  ℕ, ◌+◌, ◌-◌, ◌*◌, ◌/◌, ◌%◌, ◌≤◌, ◌≡◌, refl, ap, ◌∙◌, true, false, inl, inr, Bool-cases, ◌==◌, leb,
  List, [], ◌∷◌, ◌++◌, Text, arith,
}
use my_ftp.Prelude.Int.{pos}
use my_ftp.Utils.Trimming.{is_space, skip_spaces}
use my_ftp.Reply.{decimal}
use my_ftp.Client.DataSocket.Scan.{
  Directive, number, byte, is_digit, take_digits, scan_digits, scan_signed, scan,
}

take_digits-digit :
    (m d : ℕ) (text : Text)
    → d ≤ 9
    → take_digits m ((b'0' + d) ∷ text) ≡ take_digits (m * 10 + d) text
unfolding take_digits
take_digits-digit m d text h = ground arith

-- The texts of one, two and three digits.
pub decimal_1 : (n : ℕ) → n ≤ 9 → decimal 20 n ≡ (b'0' + n) ∷ []
unfolding decimal
decimal_1 n h = ground arith

pub decimal_2 : (n : ℕ) → 10 ≤ n → n ≤ 99 → decimal 20 n ≡ (b'0' + n / 10) ∷ (b'0' + n % 10) ∷ []
unfolding decimal
decimal_2 n l h = ground arith

pub decimal_3 :
    (n : ℕ)
    → 100 ≤ n
    → n ≤ 255
    → decimal 20 n ≡ (b'0' + n / 10 / 10) ∷ (b'0' + n / 10 % 10) ∷ (b'0' + n % 10) ∷ []
unfolding decimal
decimal_3 n l h = ground arith

take_digits-stop :
    (m c : ℕ) (text : Text) → is_digit c ≡ false → take_digits m (c ∷ text) ≡ (m, c ∷ text)
unfolding take_digits
take_digits-stop m c text h = rw h refl

value : (d : ℕ) → 0 + (b'0' + d - b'0') ≡ d
value d = omega arith

-- The number that a first digit begins.
scan-digit :
    (format : List Directive) (d : ℕ) (text : Text)
    → d ≤ 9
    → scan (number ∷ format) ((b'0' + d) ∷ text)
      ≡ pos (take_digits d text).0 ∷ scan format (take_digits d text).1
unfolding scan scan_signed scan_digits skip_spaces is_space
scan-digit format d text h =
    let not_space : (is_space (b'0' + d)) ≡ false = ground arith in
    let not_minus : ((b'0' + d) == b'-') ≡ false = ground arith in
    let not_plus : ((b'0' + d) == b'+') ≡ false = ground arith in
    let a_digit : is_digit (b'0' + d) ≡ true = ground arith in
    rw (not_space, not_minus, not_plus, a_digit)
      (ap (λ m. pos (take_digits m text).0 ∷ scan format (take_digits m text).1) (value d))

join_2 : (n : ℕ) → n / 10 * 10 + n % 10 ≡ n
join_2 n = omega arith

join_3 : (n : ℕ) → (n / 10 / 10 * 10 + n / 10 % 10) * 10 + n % 10 ≡ n
join_3 n = omega arith

-- A number of at most three digits, before a byte that is none.
pub scan-decimal_digits :
    (format : List Directive) (n c : ℕ) (text : Text)
    → n ≤ 255
    → is_digit c ≡ false
    → scan (number ∷ byte c ∷ format) (decimal 20 n ++ (c ∷ text))
      ≡ pos n ∷ scan (byte c ∷ format) (c ∷ text)
scan-decimal_digits format n c text h end =
    let rest : List Directive = byte c ∷ format in
    elim (Bool-cases (leb n 9)) [
      | inl one ↦
          rw (decimal_1 n (ground arith))
            (scan-digit rest n (c ∷ text) (ground arith) ∙ rw (take_digits-stop n c text end) refl)
      | inr more ↦ elim (Bool-cases (leb n 99)) [
        | inl two ↦ rw (decimal_2 n (ground arith) (ground arith)) (
            scan-digit rest (n / 10) ((b'0' + n % 10) ∷ c ∷ text) (ground arith)
            ∙ rw
                (
                  take_digits-digit (n / 10) (n % 10) (c ∷ text) (ground arith),
                  take_digits-stop (n / 10 * 10 + n % 10) c text end,
                )
                (ap (λ m. pos m ∷ scan rest (c ∷ text)) (join_2 n)))
        | inr three ↦ rw (decimal_3 n (ground arith) h) (
            scan-digit rest (n / 10 / 10) ((b'0' + n / 10 % 10) ∷ (b'0' + n % 10) ∷ c ∷ text)
              (ground arith)
            ∙ rw
                (
                  take_digits-digit (n / 10 / 10) (n / 10 % 10) ((b'0' + n % 10) ∷ c ∷ text)
                      (ground arith),
                  take_digits-digit (n / 10 / 10 * 10 + n / 10 % 10) (n % 10) (c ∷ text)
                      (ground arith),
                  take_digits-stop ((n / 10 / 10 * 10 + n / 10 % 10) * 10 + n % 10) c text end,
                )
                (ap (λ m. pos m ∷ scan rest (c ∷ text)) (join_3 n)))
      ]
    ]
