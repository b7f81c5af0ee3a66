-- ===== src/Utils/Ports.antt =====
-- `merge_port` and `split_port` of src/utils.c. A null pointer is `none`.
use my_ftp.Prelude.{
  ℕ, ◌+◌, ◌*◌, ◌/◌, ◌%◌, ◌≤◌, ◌≡◌, refl, ◌||◌, Bool, true, Option, none, some, arith, if◌then◌else◌,
}
use my_ftp.Prelude.Int.{ℤ, pos, negsuc, is_neg, exceeds}

-- `ports[0] * 256 + ports[1]`, which the code reaches for two numbers from 0 to 255
abbrev merged : ℤ → ℤ → ℤ
merged (pos hi) (pos lo) = pos (hi * 256 + lo)
merged _ _ = negsuc 0

unfoldable pub merge_port : Option (ℤ × ℤ) → ℤ
merge_port none = negsuc 0
merge_port (some (hi, lo)) =
    if is_neg hi || exceeds 255 hi || is_neg lo || exceeds 255 lo then negsuc 0 else merged hi lo

-- `ports[0] = port / 256; ports[1] = port % 256`, which the code reaches for 0 and more
abbrev halves : ℤ → Option (ℤ × ℤ)
halves (pos port) = some (pos (port / 256), pos (port % 256))
halves (negsuc _) = none

-- The flag says whether `malloc` succeeds.
unfoldable pub split_port : Bool → ℤ → Option (ℤ × ℤ)
split_port allocated port =
    if is_neg port || exceeds 65535 port then none else if allocated then halves port else none

-- Every port number from 0 to 65535 is split, and its parts merge to it again.
pub merge_port-split_port :
    (port : ℕ) → port ≤ 65535 → merge_port (split_port true (pos port)) ≡ pos port
unfolding merge_port split_port
merge_port-split_port port h = ground arith

-- Two numbers from 0 to 255 come back from the split of their merge.
pub split_port-merge_port :
    (hi lo : ℕ)
    → hi ≤ 255
    → lo ≤ 255
    → split_port true (merge_port (some (pos hi, pos lo))) ≡ some (pos hi, pos lo)
unfolding merge_port split_port
split_port-merge_port hi lo p q = ground arith

-- -1, or a port number
abbrev pub IsMerged : ℤ → Type 0
IsMerged (pos port) = port ≤ 65535
IsMerged (negsuc n) = n ≡ 0

-- The result is -1 or a number from 0 to 65535, whatever the two numbers are.
pub merge_port-IsMerged : (ports : Option (ℤ × ℤ)) → IsMerged (merge_port ports)
unfolding merge_port
merge_port-IsMerged none = refl
merge_port-IsMerged (some (pos hi, pos lo)) = ground arith
merge_port-IsMerged (some (negsuc hi, lo)) = refl
merge_port-IsMerged (some (pos hi, negsuc lo)) = ground arith
