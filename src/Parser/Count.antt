-- ===== src/Parser/Count.antt =====
-- The tokens of a line against its spaces.
use my_ftp.Prelude.{
  ℕ, zero, suc, ◌+◌, ◌≤◌, ◌<◌, ◌≡◌, refl, sym, ap, ◌∙◌, ◌⊎◌, inl, inr, true, false, List, [], ◌∷◌,
  ◌++◌, arith, ◌==◌, Bool-cases, Text, length,
}
use my_ftp.Parser.Strtok.{skip_delimiters, token_of, after_token, strtok_loop}
use my_ftp.Parser.Words.{join}
use my_ftp.Parser.{count_spaces}

pub strtok_loop-skip_nil :
    (f : ℕ) (t : Text) → skip_delimiters b' ' t ≡ [] → strtok_loop b' ' (suc f) t ≡ []
unfolding strtok_loop
strtok_loop-skip_nil f t e = ground arith

pub strtok_loop-skip_cons :
    (f : ℕ) (t : Text) (c : ℕ) (u : Text)
    → skip_delimiters b' ' t ≡ c ∷ u
    → strtok_loop b' ' (suc f) t
      ≡ token_of b' ' (c ∷ u) ∷ strtok_loop b' ' f (after_token b' ' (c ∷ u))
unfolding strtok_loop
strtok_loop-skip_cons f t c u e = ground arith

pub strtok_loop-nil : (f : ℕ) → strtok_loop b' ' f [] ≡ []
unfolding strtok_loop
strtok_loop-nil zero = refl
strtok_loop-nil (suc f) = refl

-- where the first token of a text ends: at the end of the text, or at a space
abbrev Ends : Text → Type 0
Ends t =
    ((t ≡ token_of b' ' t) × (after_token b' ' t ≡ []) × (count_spaces t ≡ 0))
    ⊎ ((t ≡ token_of b' ' t ++ b' ' ∷ after_token b' ' t)
        × (count_spaces t ≡ suc (count_spaces (after_token b' ' t))))

Ends-cons : (c : ℕ) (t : Text) → (c == b' ') ≡ false → Ends t → Ends (c ∷ t)
unfolding token_of after_token count_spaces
Ends-cons c t e (inl (p, q, r)) = rw e (inl (ap (◌∷◌ c) p, q, r))
Ends-cons c t e (inr (p, q)) = rw e (inr (ap (◌∷◌ c) p, q))

==→eq : (c d : ℕ) → (c == d) ≡ true → c ≡ d
==→eq c d e = ground arith

ends : (t : Text) → Ends t
unfolding token_of after_token count_spaces
ends [] = inl (refl, refl, refl)
ends (c ∷ t) = elim (Bool-cases (c == b' ')) [
  | inl space ↦ rw space (inr (ap (λ b. b ∷ t) (==→eq c b' ' space), omega arith))
  | inr other ↦ Ends-cons c t other (ends t)
]

-- skipping takes spaces away, or nothing
skips :
    (t : Text)
    → (skip_delimiters b' ' t ≡ t) ⊎ (count_spaces (skip_delimiters b' ' t) < count_spaces t)
unfolding skip_delimiters count_spaces
skips [] = inl refl
skips (c ∷ t) = ground (arith, skips t)

skip-count : (t u : Text) → skip_delimiters b' ' t ≡ u → count_spaces u ≤ count_spaces t
skip-count t u e = elim (skips t) [
  | inl same ↦ omega (arith, ap count_spaces (sym same ∙ e))
  | inr fewer ↦ omega (arith, ap count_spaces e)
]

-- the tokens behind the first one
length-loop-after :
    (f : ℕ) (t : Text)
    → ((s : Text) → length (strtok_loop b' ' f s) ≤ count_spaces s + 1)
    → length (strtok_loop b' ' f (after_token b' ' t)) ≤ count_spaces t
length-loop-after f t ih = elim (ends t) [
  | inl (p, q, r) ↦ rw q (rw strtok_loop-nil (omega arith))
  | inr (p, q) ↦ omega (arith, ih (after_token b' ' t))
]

-- There are at most as many tokens as spaces, and one more.
pub length-strtok_loop : (f : ℕ) (t : Text) → length (strtok_loop b' ' f t) ≤ count_spaces t + 1
length-strtok_loop zero t = unfold strtok_loop in omega arith
length-strtok_loop (suc f) t = go (length-strtok_loop f) (skip_delimiters b' ' t) refl
  where
    go :
        ((s : Text) → length (strtok_loop b' ' f s) ≤ count_spaces s + 1)
        → (u : Text) → skip_delimiters b' ' t ≡ u
        → length (strtok_loop b' ' (suc f) t) ≤ count_spaces t + 1
    go ih [] e = rw (strtok_loop-skip_nil f t e) (omega arith)
    go ih (c ∷ u) e =
        rw (strtok_loop-skip_cons f t c u e)
          (omega (arith, length-loop-after f (c ∷ u) ih, skip-count t (c ∷ u) e))

join-cons_ne : (w : Text) (ws : List Text) → 1 ≤ length ws → join (w ∷ ws) ≡ w ++ b' ' ∷ join ws
join-cons_ne w [] h = elim h [ ]
join-cons_ne w (v ∷ ws) h = refl

join-loop-after :
    (f : ℕ) (t : Text)
    → ((s : Text)
        → count_spaces s + 1 ≤ length (strtok_loop b' ' f s)
        → join (strtok_loop b' ' f s) ≡ s)
    → count_spaces t ≤ length (strtok_loop b' ' f (after_token b' ' t))
    → join (token_of b' ' t ∷ strtok_loop b' ' f (after_token b' ' t)) ≡ t
join-loop-after f t ih h = elim (ends t) [
  | inl (p, q, r) ↦ rw q (rw strtok_loop-nil (sym p))
  | inr (p, q) ↦
      join-cons_ne (token_of b' ' t) (strtok_loop b' ' f (after_token b' ' t)) (omega arith)
      ∙ ap (λ s. token_of b' ' t ++ b' ' ∷ s) (ih (after_token b' ' t) (omega arith))
      ∙ sym p
]

-- Where there are as many tokens as that, they are the words of the line, one space between two.
pub join-strtok_loop :
    (f : ℕ) (t : Text)
    → count_spaces t + 1 ≤ length (strtok_loop b' ' f t)
    → join (strtok_loop b' ' f t) ≡ t
join-strtok_loop zero t h = unfold strtok_loop in absurd (omega arith)
join-strtok_loop (suc f) t h = go (join-strtok_loop f) (skip_delimiters b' ' t) refl
  where
    go :
        ((s : Text)
          → count_spaces s + 1 ≤ length (strtok_loop b' ' f s)
          → join (strtok_loop b' ' f s) ≡ s)
        → (u : Text) → skip_delimiters b' ' t ≡ u
        → join (strtok_loop b' ' (suc f) t) ≡ t
    go ih [] e = absurd (omega (arith, ap length (strtok_loop-skip_nil f t e)))
    go ih (c ∷ u) e =
        let first : strtok_loop b' ' (suc f) t ≡ _ = strtok_loop-skip_cons f t c u e in
        let after : _ ≤ count_spaces (c ∷ u) = length-loop-after f (c ∷ u) (length-strtok_loop f) in
        elim (skips t) [
          | inl same ↦
              ap join first
              ∙ join-loop-after f (c ∷ u) ih
                  (omega (arith, ap length first, ap count_spaces (sym same ∙ e)))
              ∙ sym (sym same ∙ e)
          | inr fewer ↦ absurd (omega (arith, ap length first, ap count_spaces e))
        ]
