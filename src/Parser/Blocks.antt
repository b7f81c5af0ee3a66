-- ===== src/Parser/Blocks.antt =====
-- The memory that src/command_parser.c allocates for a command, and what `destroy_command` of
-- src/destroyers.c frees again.
pub mod Heaps
pub mod Freed
use my_ftp.Prelude.{
  ℕ, zero, suc, ◌-◌, Bool, true, false, ◌&&◌, ◌||◌, not, Option, none, some, List, [], ◌∷◌, ◌==◌,
  if◌then◌else◌, Text, length,
}
use my_ftp.Prelude.Outcome.{Outcome, undefined, done, ◌>>=◌}
use my_ftp.Utils.Trimming.{trim}
use my_ftp.Parser.{count_args}
use my_ftp.Parser.Strtok.{strtok_loop}

-- which addresses are allocated, and the one that `malloc` returns next
pub record Heap : Type 0 where
  pub next : ℕ
  pub live : ℕ → Bool

unfoldable pub malloc : Heap → ℕ × Heap
malloc h = (h.next, record { next = suc h.next; live = λ a. a == h.next || h.live a })

-- To free what is not allocated is undefined.
unfoldable pub free : ℕ → Heap → Outcome Heap
free p h = if h.live p then done (record h { live = λ a. not (a == p) && h.live a }) else undefined

-- the addresses of a `command_t` and of what it points to; the name and the arguments are the cells
-- of the array of tokens
pub record CommandBlocks : Type 0 where
  pub command : ℕ
  pub tokens : ℕ
  pub name : ℕ
  pub argc : ℕ
  pub argv : List ℕ

-- the loop of `tokenize_buffer`: one `strdup` for each token
unfoldable pub strdup_tokens : List Text → Heap → List ℕ × Heap
unfolding malloc
strdup_tokens [] h = ([], h)
strdup_tokens (token ∷ tokens) h =
    let (p, taken) = malloc h in
    let (ps, all_taken) = strdup_tokens tokens taken in (p ∷ ps, all_taken)

-- `setup_command`, on the addresses
unfoldable pub setup_blocks : ℕ → ℕ → ℕ → List ℕ → Outcome CommandBlocks
setup_blocks command tokens token_count [] = undefined
setup_blocks command tokens token_count (name ∷ argv) = done (record {
  command = command;
  tokens = tokens;
  name = name;
  argc = token_count - 1;
  argv = argv;
})

-- `parse_buffer` behind its first `malloc`, on a buffer that has been trimmed; the flag says whether
-- the `malloc` of the array succeeds
unfoldable pub fill_blocks : Bool → Text → ℕ → Heap → Outcome (Option CommandBlocks × Heap)
unfolding malloc free strdup_tokens setup_blocks
fill_blocks tokens_allocated [] command h = free command h >>= λ freed. done (none, freed)
fill_blocks false (c ∷ buffer) command h = free command h >>= λ freed. done (none, freed)
fill_blocks true (c ∷ buffer) command h =
    let (tokens, with_tokens) = malloc h in
    let found = strtok_loop b' ' (suc (length (c ∷ buffer))) (c ∷ buffer) in
    let (cells, held) = strdup_tokens found with_tokens in
    setup_blocks command tokens (count_args (c ∷ buffer)) cells >>= λ blocks.
    done (some blocks, held)

-- what `parse_buffer` does to the memory, where its reads are defined
unfoldable pub parse_blocks : Bool → Bool → Text → Heap → Outcome (Option CommandBlocks × Heap)
unfolding malloc fill_blocks
parse_blocks false tokens_allocated buffer h = done (none, h)
parse_blocks true tokens_allocated buffer h =
    let (command, held) = malloc h in fill_blocks tokens_allocated (trim buffer) command held

-- the loop of `destroy_command`, from the cell `argv[i]` on; a null pointer stands behind the list
unfoldable pub free_arguments : ℕ → List ℕ → Heap → Outcome Heap
unfolding free
free_arguments zero argv h = done h
free_arguments (suc n) [] h = done h
free_arguments (suc n) (p ∷ argv) h = free p h >>= λ freed. free_arguments n argv freed

unfoldable pub destroy_command : CommandBlocks → Heap → Outcome Heap
unfolding free free_arguments
destroy_command c h = free c.name h >>= λ unnamed.
    free_arguments c.argc c.argv unnamed >>= λ emptied. free c.tokens emptied
