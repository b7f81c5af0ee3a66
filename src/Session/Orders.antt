-- ===== src/Session/Orders.antt =====
-- The orders in which the events of two processes may be seen.
use my_ftp.Prelude.{List, [], ◌∷◌}

-- Each process keeps its own order.
pub data Interleaves {A : Type 0} : List A → List A → List A → Type 0 where
  both_over : Interleaves [] [] []
  left_first : {xs ys zs : List A} (x : A) → Interleaves xs ys zs → Interleaves (x ∷ xs) ys (x ∷ zs)
  right_first :
      {xs ys zs : List A} (y : A) → Interleaves xs ys zs → Interleaves xs (y ∷ ys) (y ∷ zs)
