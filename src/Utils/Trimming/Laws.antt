-- ===== src/Utils/Trimming/Laws.antt =====
-- What `trim` of src/utils.c takes away and what it keeps.
use mathlib.Core.List.{append_assoc, reverse-append, reverse-cons, reverse-reverse}
use mathlib.Core.Path.{subst}
use my_ftp.Prelude.{
  ℕ, ◌≡◌, refl, sym, ap, ◌∙◌, true, false, [], ◌∷◌, ◌++◌, reverse, inl, inr, Bool-cases, Text, All,
  All-reverse,
}
use my_ftp.Utils.Trimming.{is_space, skip_spaces, cut_spaces, trim}

abbrev pub IsSpace : ℕ → Type 0
IsSpace c = is_space c ≡ true

-- the text does not begin with a space
abbrev pub HeadClear : Text → Type 0
HeadClear [] = Unit
HeadClear (c ∷ _) = is_space c ≡ false

-- the text neither begins nor ends with a space
pub record IsTight (text : Text) : Type 0 where
  pub first : HeadClear text
  pub last : HeadClear (reverse text)

skip_spaces-append :
    (before text : Text) → All IsSpace before → skip_spaces (before ++ text) ≡ skip_spaces text
unfolding skip_spaces
skip_spaces-append [] text h = refl
skip_spaces-append (c ∷ before) text h = rw h.0 (skip_spaces-append before text h.1)

skip_spaces-HeadClear : (text : Text) → HeadClear text → skip_spaces text ≡ text
unfolding skip_spaces
skip_spaces-HeadClear [] h = refl
skip_spaces-HeadClear (c ∷ text) h = rw h

cut_spaces-cons :
    (c : ℕ) (back : Text) (d : ℕ)
    → IsSpace c
    → cut_spaces (c ∷ (back ++ d ∷ [])) ≡ cut_spaces (back ++ d ∷ [])
unfolding cut_spaces
cut_spaces-cons c [] d h = rw h
cut_spaces-cons c (e ∷ back) d h = rw h

cut_spaces-append :
    (after back : Text) (d : ℕ)
    → All IsSpace after
    → cut_spaces (after ++ (back ++ d ∷ [])) ≡ cut_spaces (back ++ d ∷ [])
cut_spaces-append [] back d h = refl
cut_spaces-append (c ∷ after) back d h =
    ap (λ t. cut_spaces (c ∷ t)) (sym (append_assoc after back (d ∷ [])))
    ∙ cut_spaces-cons c (after ++ back) d h.0
    ∙ ap cut_spaces (append_assoc after back (d ∷ []))
    ∙ cut_spaces-append after back d h.1

cut_spaces-HeadClear : (back : Text) → HeadClear back → cut_spaces back ≡ back
unfolding cut_spaces
cut_spaces-HeadClear [] h = refl
cut_spaces-HeadClear (c ∷ []) h = refl
cut_spaces-HeadClear (c ∷ d ∷ back) h = rw h

trim-skip_spaces :
    (str text : Text) → skip_spaces str ≡ text → trim str ≡ reverse (cut_spaces (reverse text))
unfolding trim
trim-skip_spaces str text e = rw e

skip_spaces-All : (str : Text) → All IsSpace str → skip_spaces str ≡ []
unfolding skip_spaces
skip_spaces-All [] h = refl
skip_spaces-All (c ∷ str) h = rw h.0 (skip_spaces-All str h.1)

trim_tight :
    (c : ℕ) (text after : Text)
    → IsTight (c ∷ text)
    → All IsSpace after
    → reverse (cut_spaces (reverse (c ∷ text ++ after))) ≡ c ∷ text
trim_tight c text after h spaces =
    ap (λ t. reverse (cut_spaces t))
      (reverse-append (c ∷ text) after ∙ ap (λ t. reverse after ++ t) (reverse-cons c text))
    ∙ ap reverse (
        cut_spaces-append (reverse after) (reverse text) c (All-reverse IsSpace after spaces)
        ∙ ap cut_spaces (sym (reverse-cons c text))
        ∙ cut_spaces-HeadClear (reverse (c ∷ text)) h.last)
    ∙ reverse-reverse (c ∷ text)

-- Spaces around a text are taken away, and the text is kept.
pub trim-append :
    (before text after : Text)
    → All IsSpace before
    → IsTight text
    → All IsSpace after
    → trim (before ++ (text ++ after)) ≡ text
trim-append before [] after hb t ha =
    trim-skip_spaces (before ++ after) []
      (skip_spaces-append before after hb ∙ skip_spaces-All after ha)
    ∙ (unfold cut_spaces in refl)
trim-append before (c ∷ text) after hb t ha =
    trim-skip_spaces (before ++ (c ∷ text ++ after)) (c ∷ text ++ after) (
      skip_spaces-append before (c ∷ text ++ after) hb
      ∙ skip_spaces-HeadClear (c ∷ text ++ after) t.first)
    ∙ trim_tight c text after t ha

-- Every text is one that `trim` returns, between two runs of spaces.
pub record Padded (str : Text) : Type 0 where
  pub before : Text
  pub text : Text
  pub after : Text
  pub before_space : All IsSpace before
  pub after_space : All IsSpace after
  pub tight : IsTight text
  pub splits : str ≡ before ++ (text ++ after)

pub HeadClear-append_left : (xs ys : Text) → HeadClear (xs ++ ys) → HeadClear xs
HeadClear-append_left [] ys h = tt
HeadClear-append_left (x ∷ xs) ys h = h

-- the spaces at the front of a text, and what follows them
record Front (str : Text) : Type 0 where
  spaces : Text
  rest : Text
  spaces_All : All IsSpace spaces
  rest_clear : HeadClear rest
  splits : str ≡ spaces ++ rest

Front-of : (str : Text) → Front str
Front-of [] = record { spaces = []; rest = []; spaces_All = tt; rest_clear = tt; splits = refl }
Front-of (c ∷ str) = elim (Bool-cases (is_space c)) [
  | inl space ↦
      let f = Front-of str in
      record {
        spaces = c ∷ f.spaces;
        rest = f.rest;
        spaces_All = (space, f.spaces_All);
        rest_clear = f.rest_clear;
        splits = ap (◌∷◌ c) f.splits;
      }
  | inr other ↦ record {
    spaces = [];
    rest = c ∷ str;
    spaces_All = tt;
    rest_clear = other;
    splits = refl;
  }
]

pub padded : (str : Text) → Padded str
padded str =
    let f = Front-of str in
    let b = Front-of (reverse f.rest) in
    let rest_splits : f.rest ≡ reverse b.rest ++ reverse b.spaces =
      sym (reverse-reverse f.rest) ∙ ap reverse b.splits ∙ reverse-append b.spaces b.rest in
    record {
      before = f.spaces;
      text = reverse b.rest;
      after = reverse b.spaces;
      before_space = f.spaces_All;
      after_space = All-reverse IsSpace b.spaces b.spaces_All;
      tight = record {
        first =
            HeadClear-append_left (reverse b.rest) (reverse b.spaces)
              (subst HeadClear rest_splits f.rest_clear);
        last = subst HeadClear (sym (reverse-reverse b.rest)) b.rest_clear;
      };
      splits = f.splits ∙ ap (λ t. f.spaces ++ t) rest_splits;
    }

-- The result is the text between the longest runs of spaces at the two ends.
pub trim_lem : (str : Text) → (p : Padded str) × (trim str ≡ p.text)
trim_lem str =
    let p = padded str in
    (p, ap trim p.splits ∙ trim-append p.before p.text p.after p.before_space p.tight p.after_space)
