-- ===== src/Client/Link/Numbers.antt =====
-- The numbers of a reply to PASV, as src/commands/pasv.c prints them and bonus/src/data_socket.c reads
-- them.
use mathlib.Core.List.{append_assoc, append-nil}
use my_ftp.Prelude.{
  ℕ, ◌+◌, ◌/◌, ◌%◌, ◌≤◌, ◌≡◌, refl, sym, ap, ◌∙◌, false, inl, inr, Bool-cases, leb, some, List, [],
  ◌∷◌, ◌++◌, Text, codes, arith,
}
use my_ftp.Prelude.Int.{pos}
use my_ftp.Utils.Case.{comma_byte, replace_dots_with_commas}
use my_ftp.Utils.Trimming.{is_space, skip_spaces}
use my_ftp.Reply.{decimal, text, passive}
use my_ftp.Client.DataSocket.Scan.{is_digit, scan, reply_format, number, byte, Directive}
use my_ftp.Client.DataSocket.Digits.{decimal_1, decimal_2, decimal_3, scan-decimal_digits}
use my_ftp.Client.DataSocket.{host_port_of, parse_pasv_response}

comma_byte-digit : (d : ℕ) → d ≤ 9 → comma_byte (b'0' + d) ≡ b'0' + d
unfolding comma_byte
comma_byte-digit d h = ground arith

replace-decimal_digits :
    (n : ℕ) (rest : Text)
    → n ≤ 255
    → replace_dots_with_commas (decimal 20 n ++ rest)
      ≡ decimal 20 n ++ replace_dots_with_commas rest
unfolding replace_dots_with_commas
replace-decimal_digits n rest h = elim (Bool-cases (leb n 9)) [
  | inl one ↦ rw (decimal_1 n (ground arith)) (rw (comma_byte-digit n (ground arith)) refl)
  | inr more ↦ elim (Bool-cases (leb n 99)) [
    | inl two ↦ rw (decimal_2 n (ground arith) (ground arith)) (
        rw (comma_byte-digit (n / 10) (ground arith), comma_byte-digit (n % 10) (ground arith))
          refl)
    | inr three ↦ rw (decimal_3 n (ground arith) h) (
        rw
          (
            comma_byte-digit (n / 10 / 10) (ground arith),
            comma_byte-digit (n / 10 % 10) (ground arith),
            comma_byte-digit (n % 10) (ground arith),
          )
          refl)
  ]
]

last_number : (z : ℕ) → z ≤ 255 → replace_dots_with_commas (decimal 20 z) ≡ decimal 20 z
unfolding replace_dots_with_commas
last_number z h =
    ap replace_dots_with_commas (sym (append-nil (decimal 20 z)))
    ∙ replace-decimal_digits z [] h
    ∙ append-nil (decimal 20 z)

abbrev pub separated : ℕ → ℕ → ℕ → ℕ → ℕ → Text
separated c w x y z =
    decimal 20 w ++ (c ∷ (decimal 20 x ++ (c ∷ (decimal 20 y ++ (c ∷ decimal 20 z)))))

replace-separated :
    (w x y z : ℕ)
    → w ≤ 255
    → x ≤ 255
    → y ≤ 255
    → z ≤ 255
    → replace_dots_with_commas (separated b'.' w x y z) ≡ separated b',' w x y z
unfolding replace_dots_with_commas comma_byte
replace-separated w x y z hw hx hy hz =
    replace-decimal_digits w
      (b'.' ∷ (decimal 20 x ++ (b'.' ∷ (decimal 20 y ++ (b'.' ∷ decimal 20 z))))) hw
    ∙ ap (λ t. decimal 20 w ++ (b',' ∷ t))
        (replace-decimal_digits x (b'.' ∷ (decimal 20 y ++ (b'.' ∷ decimal 20 z))) hx
          ∙ ap (λ t. decimal 20 x ++ (b',' ∷ t))
              (replace-decimal_digits y (b'.' ∷ decimal 20 z) hy
                ∙ ap (λ t. decimal 20 y ++ (b',' ∷ t)) (last_number z hz)))

-- the format behind the parenthesis
abbrev numbers : List Directive
numbers =
    number
    ∷ byte b','
    ∷ number
    ∷ byte b','
    ∷ number
    ∷ byte b','
    ∷ number
    ∷ byte b','
    ∷ number
    ∷ byte b','
    ∷ number
    ∷ byte b')'
    ∷ []

scan-front :
    (t : Text) → scan reply_format (codes "227 Entering Passive Mode (" ++ t) ≡ scan numbers t
unfolding scan skip_spaces is_space
scan-front t = refl

pub text-passive :
    (address : Text) (high low : ℕ)
    → text (passive address high low)
      ≡ codes "227 Entering Passive Mode ("
        ++ (address ++ (b',' ∷ (decimal 20 high ++ (b',' ∷ (decimal 20 low ++ codes ").\r\n")))))
unfolding text
text-passive address high low = refl

scan-next :
    (format : List Directive) (t : Text) (n c : ℕ)
    → n ≤ 255
    → is_digit c ≡ false
    → scan (number ∷ byte c ∷ format) (decimal 20 n ++ (c ∷ t)) ≡ pos n ∷ scan format t
unfolding scan
scan-next format t n c h end = scan-decimal_digits format n c t h end ∙ ground arith

separated-append :
    (w x y z : ℕ) (t : Text)
    → separated b',' w x y z ++ t
      ≡ decimal 20 w
        ++ (b',' ∷ (decimal 20 x ++ (b',' ∷ (decimal 20 y ++ (b',' ∷ (decimal 20 z ++ t))))))
separated-append w x y z t =
    rw (append_assoc (decimal 20 w), append_assoc (decimal 20 x), append_assoc (decimal 20 y)) refl

scan-end : (t : Text) → scan [] t ≡ []
unfolding scan
scan-end t = refl

scan-numbers :
    (w x y z high low : ℕ)
    → w ≤ 255
    → x ≤ 255
    → y ≤ 255
    → z ≤ 255
    → high ≤ 255
    → low ≤ 255
    → scan numbers (
        separated b',' w x y z
        ++ (b',' ∷ (decimal 20 high ++ (b',' ∷ (decimal 20 low ++ codes ").\r\n")))))
      ≡ pos w ∷ pos x ∷ pos y ∷ pos z ∷ pos high ∷ pos low ∷ []
scan-numbers w x y z high low hw hx hy hz hh hl =
    ap (scan numbers) (
      separated-append w x y z
        (b',' ∷ (decimal 20 high ++ (b',' ∷ (decimal 20 low ++ codes ").\r\n")))))
    ∙ scan-next _ _ w b',' hw refl
    ∙ ap (λ l. pos w ∷ l)
        (scan-next _ _ x b',' hx refl
          ∙ ap (λ l. pos x ∷ l)
              (scan-next _ _ y b',' hy refl
                ∙ ap (λ l. pos y ∷ l)
                    (scan-next _ _ z b',' hz refl
                      ∙ ap (λ l. pos z ∷ l)
                          (scan-next _ _ high b',' hh refl
                            ∙ ap (λ l. pos high ∷ l)
                                (scan-next _ _ low b')' hl refl
                                  ∙ ap (λ l. pos low ∷ l) (scan-end (codes ".\r\n")))))))

-- The client reads the six numbers that the server prints.
pub parse_pasv_response-passive :
    (w x y z high low : ℕ)
    → w ≤ 255
    → x ≤ 255
    → y ≤ 255
    → z ≤ 255
    → high ≤ 255
    → low ≤ 255
    → parse_pasv_response
        (text (passive (replace_dots_with_commas (separated b'.' w x y z)) high low))
      ≡ some (record {
        host = record { first = pos w; second = pos x; third = pos y; fourth = pos z };
        high = pos high;
        low = pos low;
      })
unfolding parse_pasv_response
parse_pasv_response-passive w x y z high low hw hx hy hz hh hl =
    ap (λ a. parse_pasv_response (text (passive a high low)))
      (replace-separated w x y z hw hx hy hz)
    ∙ ap parse_pasv_response (text-passive (separated b',' w x y z) high low)
    ∙ ap host_port_of (
        scan-front (
          separated b',' w x y z
          ++ (b',' ∷ (decimal 20 high ++ (b',' ∷ (decimal 20 low ++ codes ").\r\n")))))
        ∙ scan-numbers w x y z high low hw hx hy hz hh hl)
