-- ===== src/Parser/Blocks/Freed.antt =====
-- What is left of the memory of a command when it has been destroyed.
use my_ftp.Prelude.{
  ℕ, suc, ◌-◌, ◌≤◌, ◌≡◌, refl, ap, ◌∙◌, Bool, true, false, ◌&&◌, ◌||◌, not, Option, some, List, [],
  ◌∷◌, arith, ◌==◌, inl, inr, Bool-cases, Text, length, leb, All,
}
use my_ftp.Prelude.Outcome.{Outcome, done, ◌>>=◌}
use my_ftp.Utils.Trimming.{trim}
use my_ftp.Parser.{Command, count_spaces, count_args, parse_buffer}
use my_ftp.Parser.Strtok.{strtok_loop}
use my_ftp.Parser.Words.{join, IsWord}
use my_ftp.Parser.Loop.{strtok_loop-join, count_spaces-join, length-join}
use my_ftp.Parser.Accepted.{parse_buffer-Reads}
use my_ftp.Parser.Blocks.{
  Heap, malloc, free, CommandBlocks, strdup_tokens, setup_blocks, fill_blocks, parse_blocks,
  free_arguments, destroy_command,
}
use my_ftp.Parser.Blocks.Heaps.{
  up_from, within, Frees, free-Frees, Frees-then, free_arguments-Frees, strdup_tokens-cells,
  strdup_tokens-live,
}

-- the blocks of a command with `k` arguments, allocated one behind the other
abbrev blocks_at : ℕ → ℕ → CommandBlocks
blocks_at n k = record {
  command = n;
  tokens = suc n;
  name = suc (suc n);
  argc = k;
  argv = up_from (suc (suc (suc n))) k;
}

abbrev pub held_at : List Text → Heap → Heap
held_at tokens h = (strdup_tokens tokens (malloc (malloc h).1).1).1

abbrev with_heap : Heap → CommandBlocks → Outcome (Option CommandBlocks × Heap)
with_heap h blocks = done (some blocks, h)

setup_cells :
    (n count : ℕ) (name : Text) (argv : List Text) (g : Heap)
    → g.next ≡ suc (suc n)
    → count - 1 ≡ length argv
    → (setup_blocks n (suc n) count (strdup_tokens (name ∷ argv) g).0
        >>= with_heap (strdup_tokens (name ∷ argv) g).1)
      ≡ done (some (blocks_at n (length argv)), (strdup_tokens (name ∷ argv) g).1)
unfolding setup_blocks
setup_cells n count name argv g e h = rw (strdup_tokens-cells (name ∷ argv) g, e, h) refl

fill_blocks-words :
    (t name : Text) (argv : List Text) (h : Heap)
    → t ≡ join (name ∷ argv)
    → All IsWord (name ∷ argv)
    → fill_blocks true t h.next (malloc h).1
      ≡ done (some (blocks_at h.next (length argv)), held_at (name ∷ argv) h)
unfolding fill_blocks setup_blocks malloc count_args
fill_blocks-words [] name argv h e words =
    absurd (omega (arith, length-join (name ∷ argv) words, ap length e))
fill_blocks-words (c ∷ t) name argv h e words =
    let tokens : strtok_loop b' ' (suc (length (c ∷ t))) (c ∷ t) ≡ name ∷ argv =
      ap (λ u. strtok_loop b' ' (suc (length (c ∷ t))) u) e
      ∙ strtok_loop-join (suc (length (c ∷ t))) (name ∷ argv) words
          (omega (arith, length-join (name ∷ argv) words, ap length e)) in
    let count : count_args (c ∷ t) - 1 ≡ length argv =
      omega (arith, ap count_spaces e ∙ count_spaces-join name argv words) in
    ap
      (λ found.
        setup_blocks h.next (suc h.next) (count_args (c ∷ t))
          (strdup_tokens found (malloc (malloc h).1).1).0
        >>= with_heap (strdup_tokens found (malloc (malloc h).1).1).1)
      tokens
    ∙ setup_cells h.next (count_args (c ∷ t)) name argv (malloc (malloc h).1).1 refl count

-- No address from the next one on is allocated.
abbrev pub Fresh : Heap → Type 0
Fresh h = (a : ℕ) → h.next ≤ a → h.live a ≡ false

rest_of :
    (n k a : ℕ) (b : Bool)
    → (n ≤ a → b ≡ false)
    → (not (a == suc (suc n) || (within (suc (suc (suc n))) k a || a == suc n))
        && (within (suc (suc n)) (suc k) a || (a == suc n || (a == n || b))))
      ≡ (a == n || b)
rest_of n k a b h = elim (Bool-cases (leb n a)) [
  | inl behind ↦ rw (h (ground arith)) (ground arith)
  | inr before ↦ ground arith
]

-- What the code that destroys a command leaves of the memory, for the command that `parse_buffer`
-- makes of a line.
pub record Destroyed (destroy : CommandBlocks → Heap → Outcome Heap) (buffer : Text) (h : Heap)
    (rest : CommandBlocks → ℕ → Bool) : Type 0 where
  pub blocks : CommandBlocks
  pub held : Heap
  pub left : Heap
  pub parses : parse_blocks true true buffer h ≡ done (some blocks, held)
  pub destroys : destroy blocks held ≡ done left
  pub new : h.live blocks.command ≡ false
  pub live : (a : ℕ) → left.live a ≡ rest blocks a

held_at-live :
    (ws : List Text) (h : Heap) (a : ℕ)
    → (held_at ws h).live a
      ≡ (within (suc (suc h.next)) (length ws) a || (a == suc h.next || (a == h.next || h.live a)))
unfolding malloc
held_at-live ws h a = strdup_tokens-live ws (malloc (malloc h).1).1 a

held_at-holds :
    (ws : List Text) (h : Heap) (a : ℕ)
    → (within (suc (suc h.next)) (length ws) a || (a == suc h.next || a == h.next)) ≡ true
    → (held_at ws h).live a ≡ true
held_at-holds ws h a e = held_at-live ws h a ∙ ground arith

-- `destroy_command` frees everything but the structure.
destroy_command-Frees :
    (name : Text) (argv : List Text) (h : Heap)
    → Frees
        (λ a.
          a == suc (suc h.next)
          || (within (suc (suc (suc h.next))) (length argv) a || a == suc h.next))
        (held_at (name ∷ argv) h)
        (destroy_command (blocks_at h.next (length argv)) (held_at (name ∷ argv) h))
unfolding destroy_command
destroy_command-Frees name argv h =
    let ws = name ∷ argv in
    let n = h.next in
    let k = length argv in
    let unnamed =
      free-Frees (suc (suc n)) (held_at ws h) (held_at-holds ws h (suc (suc n)) (ground arith)) in
    let emptied =
      free_arguments-Frees (suc (suc (suc n))) k unnamed.left
        (λ a w. unnamed.live a ∙ rw (held_at-holds ws h a (ground arith)) (ground arith)) in
    let array = free-Frees (suc n) emptied.left (
      emptied.live (suc n)
      ∙ rw (unnamed.live (suc n), held_at-holds ws h (suc n) (ground arith)) (ground arith)) in
    Frees-then (λ u. free_arguments k (up_from (suc (suc (suc n))) k) u >>= λ v. free (suc n) v)
      unnamed (Frees-then (free (suc n)) emptied array)

module _ (buffer : Text) (command : Command) (h : Heap) where
  -- the blocks of a command that the parser returns
  parses_to :
      parse_buffer true true buffer ≡ done (some command)
      → parse_blocks true true buffer h
        ≡ done
            (some (blocks_at h.next (length command.argv)), held_at (command.name ∷ command.argv) h)
  unfolding parse_blocks malloc
  parses_to e =
      let (joined, _, words) = parse_buffer-Reads true true buffer command e in
      fill_blocks-words (trim buffer) command.name command.argv h joined words

  left_live :
      Fresh h
      → (a : ℕ)
      → (not (
            a == suc (suc h.next)
            || (within (suc (suc (suc h.next))) (length command.argv) a || a == suc h.next))
          && (held_at (command.name ∷ command.argv) h).live a)
        ≡ (a == h.next || h.live a)
  left_live fresh a =
      rw (held_at-live (command.name ∷ command.argv) h a)
        (rest_of h.next (length command.argv) a (h.live a) (fresh a))

  -- Where no address from the next one on is allocated, the command that `parse_buffer` makes of a line is destroyed by
  -- the server with no block freed twice, and afterwards the memory is as it was before the line, but that the block
  -- of the `command_t` is still allocated, which was not allocated before.
  pub destroy_command-leaks :
      Fresh h
      → parse_buffer true true buffer ≡ done (some command)
      → Destroyed destroy_command buffer h (λ c a. a == c.command || h.live a)
  destroy_command-leaks fresh e =
      let gone = destroy_command-Frees command.name command.argv h in
      record {
        blocks = blocks_at h.next (length command.argv);
        held = held_at (command.name ∷ command.argv) h;
        left = gone.left;
        parses = parses_to e;
        destroys = gone.ends;
        new = fresh h.next (omega arith);
        live = λ a. gone.live a ∙ left_live fresh a;
      }
