-- ===== src/Parser/Loop.antt =====
-- The token loop and the count of spaces on words that are joined by single spaces.
use my_ftp.Prelude.{
  ℕ, zero, suc, ◌+◌, ◌≤◌, ◌≡◌, refl, ap, ◌∙◌, false, List, [], ◌∷◌, ◌++◌, arith, ◌==◌, Text,
  Bool-cases, inl, inr, length, length-append, All,
}
use my_ftp.Parser.Strtok.{skip_delimiters, token_of, after_token, strtok_loop}
use my_ftp.Parser.Words.{join, IsWord}
use my_ftp.Parser.Count.{strtok_loop-skip_nil, strtok_loop-skip_cons, strtok_loop-nil}
use my_ftp.Parser.{count_spaces}

abbrev NoSpace : ℕ → Type 0
NoSpace c = (c == b' ') ≡ false

token_of-word : (w t : Text) → All NoSpace w → token_of b' ' (w ++ b' ' ∷ t) ≡ w
unfolding token_of
token_of-word [] t h = refl
token_of-word (c ∷ w) t h = rw h.0 (ap (◌∷◌ c) (token_of-word w t h.1))

after_token-word : (w t : Text) → All NoSpace w → after_token b' ' (w ++ b' ' ∷ t) ≡ t
unfolding after_token
after_token-word [] t h = refl
after_token-word (c ∷ w) t h = rw h.0 (after_token-word w t h.1)

token_of-last : (w : Text) → All NoSpace w → token_of b' ' w ≡ w
unfolding token_of
token_of-last [] h = refl
token_of-last (c ∷ w) h = rw h.0 (ap (◌∷◌ c) (token_of-last w h.1))

after_token-last : (w : Text) → All NoSpace w → after_token b' ' w ≡ []
unfolding after_token
after_token-last [] h = refl
after_token-last (c ∷ w) h = rw h.0 (after_token-last w h.1)

skip_delimiters-word : (c : ℕ) (t : Text) → NoSpace c → skip_delimiters b' ' (c ∷ t) ≡ c ∷ t
unfolding skip_delimiters
skip_delimiters-word c t h = rw h

loop_last : (f : ℕ) (w : Text) → IsWord w → strtok_loop b' ' (suc f) w ≡ w ∷ []
loop_last f [] h = absurd (h.not_empty refl)
loop_last f (c ∷ w) h =
    strtok_loop-skip_cons f (c ∷ w) c w (skip_delimiters-word c w h.one_word.0)
    ∙ rw (token_of-last (c ∷ w) h.one_word, after_token-last (c ∷ w) h.one_word, strtok_loop-nil f)

loop_word :
    (f : ℕ) (w t : Text)
    → IsWord w
    → strtok_loop b' ' (suc f) (w ++ b' ' ∷ t) ≡ w ∷ strtok_loop b' ' f t
loop_word f [] t h = absurd (h.not_empty refl)
loop_word f (c ∷ w) t h =
    strtok_loop-skip_cons f (c ∷ w ++ b' ' ∷ t) c (w ++ b' ' ∷ t)
      (skip_delimiters-word c (w ++ b' ' ∷ t) h.one_word.0)
    ∙ rw (token_of-word (c ∷ w) t h.one_word, after_token-word (c ∷ w) t h.one_word)

-- The loop returns the words, given one round for each.
pub strtok_loop-join :
    (f : ℕ) (ws : List Text) → All IsWord ws → length ws ≤ f → strtok_loop b' ' f (join ws) ≡ ws
strtok_loop-join f [] h n = strtok_loop-nil f
strtok_loop-join zero (w ∷ ws) h n = absurd (omega arith)
strtok_loop-join (suc f) (w ∷ []) h n = loop_last f w h.0
strtok_loop-join (suc f) (w ∷ v ∷ ws) h n =
    loop_word f w (join (v ∷ ws)) h.0 ∙ ap (◌∷◌ w) (strtok_loop-join f (v ∷ ws) h.1 (omega arith))

count_spaces-append : (s t : Text) → count_spaces (s ++ t) ≡ count_spaces s + count_spaces t
unfolding count_spaces
count_spaces-append [] t = omega arith
count_spaces-append (c ∷ s) t = ground (arith, count_spaces-append s t)

count_spaces-word : (w : Text) → All NoSpace w → count_spaces w ≡ 0
unfolding count_spaces
count_spaces-word [] h = refl
count_spaces-word (c ∷ w) h = rw h.0 (count_spaces-word w h.1)

count_spaces-word_space :
    (w t : Text) → All NoSpace w → count_spaces (w ++ b' ' ∷ t) ≡ suc (count_spaces t)
unfolding count_spaces
count_spaces-word_space w t h =
    omega (arith, count_spaces-append w (b' ' ∷ t), count_spaces-word w h)

-- There is one space fewer than words.
pub count_spaces-join :
    (w : Text) (ws : List Text) → All IsWord (w ∷ ws) → count_spaces (join (w ∷ ws)) ≡ length ws
count_spaces-join w [] h = count_spaces-word w h.0.one_word
count_spaces-join w (v ∷ ws) h =
    count_spaces-word_space w (join (v ∷ ws)) h.0.one_word ∙ ap suc (count_spaces-join v ws h.1)

IsWord-length : (w : Text) → IsWord w → 1 ≤ length w
IsWord-length [] h = absurd (h.not_empty refl)
IsWord-length (c ∷ w) h = omega arith

-- A line is at least as long as it has words, so its length is fuel enough.
pub length-join : (ws : List Text) → All IsWord ws → length ws ≤ length (join ws)
length-join [] h = omega arith
length-join (w ∷ []) h = IsWord-length w h.0
length-join (w ∷ v ∷ ws) h =
    omega
      (arith, IsWord-length w h.0, length-append w (b' ' ∷ join (v ∷ ws)), length-join (v ∷ ws) h.1)

token_of-NoSpace : (t : Text) → All NoSpace (token_of b' ' t)
unfolding token_of
token_of-NoSpace [] = tt
token_of-NoSpace (c ∷ t) = elim (Bool-cases (c == b' ')) [
  | inl space ↦ rw space tt
  | inr other ↦ rw other (other, token_of-NoSpace t)
]

skip_delimiters-NoSpace : (t : Text) (c : ℕ) (u : Text) → skip_delimiters b' ' t ≡ c ∷ u → NoSpace c
unfolding skip_delimiters
skip_delimiters-NoSpace [] c u e = cc
skip_delimiters-NoSpace (d ∷ t) c u e = ground (arith, skip_delimiters-NoSpace t c u)

token_of-IsWord : (c : ℕ) (u : Text) → NoSpace c → IsWord (token_of b' ' (c ∷ u))
token_of-IsWord c u h = record {
  not_empty = λ e. unfold token_of in cc (rw h at e);
  one_word = token_of-NoSpace (c ∷ u);
}

-- Every token is a word.
pub strtok_loop-IsWord : (f : ℕ) (t : Text) → All IsWord (strtok_loop b' ' f t)
strtok_loop-IsWord zero t = unfold strtok_loop in tt
strtok_loop-IsWord (suc f) t = go (strtok_loop-IsWord f) (skip_delimiters b' ' t) refl
  where
    go :
        ((s : Text) → All IsWord (strtok_loop b' ' f s))
        → (u : Text) → skip_delimiters b' ' t ≡ u
        → All IsWord (strtok_loop b' ' (suc f) t)
    go ih [] e = rw (strtok_loop-skip_nil f t e) tt
    go ih (c ∷ u) e =
        rw (strtok_loop-skip_cons f t c u e)
          (token_of-IsWord c u (skip_delimiters-NoSpace t c u e), ih (after_token b' ' (c ∷ u)))
