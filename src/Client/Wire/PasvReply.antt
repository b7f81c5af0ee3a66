-- ===== src/Client/Wire/PasvReply.antt =====
-- The reply to PASV on the loopback address: its bytes, and what the client makes of them.
use mathlib.Core.Path.{subst}
use my_ftp.Prelude.{
  ℕ, Bool, not, ◌&&◌, ◌+◌, ◌*◌, ◌%◌, ◌^◌, ◌/◌, ◌≤◌, ◌≡◌, ◌==◌, refl, sym, ap, ◌∙◌, true, false,
  some, [], ◌∷◌, ◌++◌, Text, codes, arith, All-append, starts_with, leb, Bool-cases, inl, inr,
}
use my_ftp.Prelude.Int.{pos}
use my_ftp.Utils.Case.{comma_byte, replace_dots_with_commas}
use my_ftp.Utils.Ports.{merge_port}
use my_ftp.Stdio.{c_string}
use my_ftp.Stdio.Lines.{NoNul, c_string-NoNul}
use my_ftp.Reply.{decimal, text, passive}
use my_ftp.DataSocket.Active.{HostPort}
use my_ftp.Client.DataSocket.Digits.{decimal_1, decimal_2, decimal_3}
use my_ftp.Client.DataSocket.{init_data_socket_sockin, parse_pasv_response, data_socket_of}
use my_ftp.Client.Link.Numbers.{separated, text-passive, parse_pasv_response-passive}

-- the loopback address, as PASV prints it
abbrev pub loopback : Text
loopback = codes "127,0,0,1"

IsDigit-NoNul : (n : ℕ) → ((b'0' + n) == 0) ≡ false
IsDigit-NoNul n = ground arith

decimal-NoNul : (n : ℕ) → n ≤ 255 → NoNul (decimal 20 n)
decimal-NoNul n h = elim (Bool-cases (leb n 9)) [
  | inl one ↦ rw (decimal_1 n (ground arith)) (IsDigit-NoNul n, tt)
  | inr more ↦ elim (Bool-cases (leb n 99)) [
    | inl two ↦
        rw (decimal_2 n (ground arith) (ground arith))
          (IsDigit-NoNul (n / 10), (IsDigit-NoNul (n % 10), tt))
    | inr three ↦
        rw (decimal_3 n (ground arith) h)
          (IsDigit-NoNul (n / 10 / 10), (IsDigit-NoNul (n / 10 % 10), (IsDigit-NoNul (n % 10), tt)))
  ]
]

abbrev is_clear : Text → Bool
is_clear [] = true
is_clear (c ∷ t) = not (c == 0) && is_clear t

clear-NoNul : (t : Text) → is_clear t ≡ true → NoNul t
clear-NoNul [] h = tt
clear-NoNul (c ∷ t) h = (ground arith, clear-NoNul t (ground arith))

-- The reply has no NUL byte.
reply-NoNul : (high low : ℕ) → high ≤ 255 → low ≤ 255 → NoNul (text (passive loopback high low))
reply-NoNul high low hh hl =
    let nul = λ (c : ℕ). (c == 0) ≡ false in
    subst NoNul (sym (text-passive loopback high low)) (
      All-append nul (codes "227 Entering Passive Mode (127,0,0,1,")
        (decimal 20 high ++ (b',' ∷ (decimal 20 low ++ codes ").\r\n")))
        (clear-NoNul (codes "227 Entering Passive Mode (127,0,0,1,") refl)
        (All-append nul (decimal 20 high) (b',' ∷ (decimal 20 low ++ codes ").\r\n"))
          (decimal-NoNul high hh)
          (
            refl,
            All-append nul (decimal 20 low) (codes ").\r\n") (decimal-NoNul low hl)
                (clear-NoNul (codes ").\r\n") refl),
          )))

pub reply_text :
    (high low : ℕ)
    → high ≤ 255
    → low ≤ 255
    → c_string (text (passive loopback high low)) ≡ text (passive loopback high low)
reply_text high low hh hl =
    c_string-NoNul (text (passive loopback high low)) (reply-NoNul high low hh hl)

pub reply_code :
    (high low : ℕ) → starts_with (text (passive loopback high low)) (codes "227") ≡ true
unfolding starts_with
reply_code high low = ap (λ t. starts_with t (codes "227")) (text-passive loopback high low)

-- the numbers that the client reads
abbrev pub numbers_of : ℕ → ℕ → HostPort
numbers_of high low = record {
  host = record { first = pos 127; second = pos 0; third = pos 0; fourth = pos 1 };
  high = pos high;
  low = pos low;
}

dotted_loopback : replace_dots_with_commas (separated b'.' 127 0 0 1) ≡ loopback
unfolding decimal replace_dots_with_commas comma_byte
dotted_loopback = refl

pub parse_pasv_response-loopback :
    (high low : ℕ)
    → high ≤ 255
    → low ≤ 255
    → parse_pasv_response (text (passive loopback high low)) ≡ some (numbers_of high low)
parse_pasv_response-loopback high low hh hl =
    ap (λ a. parse_pasv_response (text (passive a high low))) (sym dotted_loopback)
    ∙ parse_pasv_response-passive 127 0 0 1 high low (omega arith) (omega arith) (omega arith)
        (omega arith) hh hl

merge_port-bytes :
    (high low : ℕ)
    → high ≤ 255
    → low ≤ 255
    → merge_port (some (pos high, pos low)) ≡ pos (high * 256 + low)
unfolding merge_port
merge_port-bytes high low hh hl = ground arith

small_port :
    (high low : ℕ) → high ≤ 255 → low ≤ 255 → (high * 256 + low) % 2 ^ 16 ≡ high * 256 + low
small_port high low hh hl = omega arith

-- the address that the client connects to
pub data_socket_of-addr :
    (high low own : ℕ)
    → high ≤ 255
    → low ≤ 255
    → (data_socket_of (numbers_of high low) own).addr
      ≡ record { address = 0x7f00_0001; port = high * 256 + low }
unfolding data_socket_of init_data_socket_sockin
data_socket_of-addr high low own hh hl =
    rw (merge_port-bytes high low hh hl)
      (ap (λ p. record { address = 0x7f00_0001; port = p }) (small_port high low hh hl))
