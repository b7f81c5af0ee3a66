-- ===== src/Parser/Blocks/Heaps.antt =====
-- Which addresses are allocated behind the calls of `strdup`, and behind the loop that frees them.
use my_ftp.Prelude.{
  ℕ, zero, suc, ◌+◌, ◌≡◌, refl, ap, ◌∙◌, Bool, true, ◌&&◌, ◌||◌, not, List, [], ◌∷◌, arith, leb,
  ltb, ◌==◌, Text, length,
}
use my_ftp.Prelude.Outcome.{Outcome, done, ◌>>=◌}
use my_ftp.Parser.Blocks.{Heap, malloc, free, strdup_tokens, free_arguments}

-- the `k` addresses from `m` on
abbrev pub up_from : ℕ → ℕ → List ℕ
up_from m zero = []
up_from m (suc k) = m ∷ up_from (suc m) k

abbrev pub within : ℕ → ℕ → ℕ → Bool
within m k a = leb m a && ltb a (m + k)

within-head : (m k a : ℕ) → (a == m || within (suc m) k a) ≡ within m (suc k) a
within-head m k a = ground arith

-- What `h` frees of `held`: these addresses, and no other.
pub record Frees (gone : ℕ → Bool) (held : Heap) (o : Outcome Heap) : Type 0 where
  pub left : Heap
  pub ends : o ≡ done left
  pub live : (a : ℕ) → left.live a ≡ (not (gone a) && held.live a)

pub strdup_tokens-cells :
    (tokens : List Text) (h : Heap) → (strdup_tokens tokens h).0 ≡ up_from h.next (length tokens)
unfolding strdup_tokens malloc
strdup_tokens-cells [] h = refl
strdup_tokens-cells (token ∷ tokens) h = ap (◌∷◌ h.next) (strdup_tokens-cells tokens (malloc h).1)

pub strdup_tokens-live :
    (tokens : List Text) (h : Heap) (a : ℕ)
    → (strdup_tokens tokens h).1.live a ≡ (within h.next (length tokens) a || h.live a)
unfolding strdup_tokens malloc
strdup_tokens-live [] h a = ground arith
strdup_tokens-live (token ∷ tokens) h a = strdup_tokens-live tokens (malloc h).1 a ∙ ground arith

pub free-Frees : (p : ℕ) (h : Heap) → h.live p ≡ true → Frees (λ a. a == p) h (free p h)
unfolding free
free-Frees p h e = record {
  left = record h { live = λ a. not (a == p) && h.live a };
  ends = rw e refl;
  live = λ a. refl;
}

pub Frees-then :
    {gone more : ℕ → Bool} {held : Heap} {o : Outcome Heap} (next : Heap → Outcome Heap)
    → (h : Frees gone held o) → Frees more h.left (next h.left)
    → Frees (λ a. gone a || more a) held (o >>= next)
Frees-then {gone} {more} {held} {o} next h k = record {
  left = k.left;
  ends = ap (λ r. r >>= next) h.ends ∙ k.ends;
  live = λ a. k.live a ∙ rw (h.live a) (ground arith);
}

pub Frees-same :
    {gone more : ℕ → Bool} {held : Heap} {o : Outcome Heap}
    → ((a : ℕ) → gone a ≡ more a)
    → Frees gone held o
    → Frees more held o
Frees-same same h = record { left = h.left; ends = h.ends; live = λ a. h.live a ∙ rw (same a) refl }

-- The loop frees the arguments.
pub free_arguments-Frees :
    (m k : ℕ) (h : Heap)
    → ((a : ℕ) → within m k a ≡ true → h.live a ≡ true)
    → Frees (within m k) h (free_arguments k (up_from m k) h)
unfolding free_arguments
free_arguments-Frees m zero h held = record { left = h; ends = refl; live = λ a. ground arith }
free_arguments-Frees m (suc k) h held =
    let first = free-Frees m h (held m (ground arith)) in
    Frees-same (within-head m k) (
      Frees-then (λ left. free_arguments k (up_from (suc m) k) left) first
        (free_arguments-Frees (suc m) k first.left
          (λ a w. first.live a ∙ rw (held a (ground arith)) (ground arith))))
