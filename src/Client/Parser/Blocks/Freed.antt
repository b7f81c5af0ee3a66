-- ===== src/Client/Parser/Blocks/Freed.antt =====
-- The client frees all the memory of a command.
use mathlib.Core.Path.{subst}
use my_ftp.Prelude.{
  ℕ, ◌≡◌, refl, sym, ap, ◌∙◌, Bool, true, false, not, ◌&&◌, ◌||◌, ◌==◌, some, Text, arith,
  Bool-cases, inl, inr,
}
use my_ftp.Prelude.Outcome.{done, ◌>>=◌}
use my_ftp.Parser.{Command}
use my_ftp.Parser.Blocks.{Heap, free, CommandBlocks}
use my_ftp.Parser.Blocks.Heaps.{free-Frees}
use my_ftp.Parser.Blocks.Freed.{Fresh, destroy_command-leaks}
use my_ftp.Client.Parser.{parse_buffer}
use my_ftp.Client.Parser.Agrees.{parse_buffer_agrees}
use my_ftp.Client.Parser.Blocks.{parse_blocks, destroy_command}
use my_ftp.Client.Parser.Blocks.Agrees.{parse_blocks_agrees, destroy_command_agrees}

-- The command that the client's parser makes of a line has been destroyed, and the memory is as it was.
pub record Restored (buffer : Text) (h : Heap) : Type 0 where
  pub blocks : CommandBlocks
  pub held : Heap
  pub left : Heap
  pub parses : parse_blocks true true buffer h ≡ done (some blocks, held)
  pub destroys : destroy_command blocks held ≡ done left
  pub live : (a : ℕ) → left.live a ≡ h.live a

-- what `free` leaves of the block and of the memory before it
one_block :
    (live : ℕ → Bool) (n a : ℕ) → live n ≡ false → (not (a == n) && (a == n || live a)) ≡ live a
one_block live n a new = elim (Bool-cases (a == n)) [
  | inl same ↦ let e : n ≡ a = ground arith in rw same (sym (subst (λ m. live m ≡ false) e new))
  | inr other ↦ rw other refl
]

-- Where no address from the next one on is allocated, the command that the client's `parse_buffer` makes of a
-- line is destroyed by the client with no block freed twice, and afterwards the memory is as it was before
-- the line.
pub destroy_command-Restored :
    (buffer : Text) (command : Command) (h : Heap)
    → Fresh h
    → parse_buffer true true buffer ≡ done (some command)
    → Restored buffer h
destroy_command-Restored buffer command h fresh e =
    let d =
      destroy_command-leaks buffer command h fresh
        (sym (parse_buffer_agrees true true buffer) ∙ e) in
    let n = d.blocks.command in
    let allocated : d.left.live n ≡ true = d.live n ∙ ground arith in
    let last = free-Frees n d.left allocated in
    record {
      blocks = d.blocks;
      held = d.held;
      left = last.left;
      parses = parse_blocks_agrees true true buffer h ∙ d.parses;
      destroys =
          destroy_command_agrees d.blocks d.held
          ∙ ap (λ o. o >>= λ bare. free n bare) d.destroys
          ∙ last.ends;
      live = λ a. last.live a ∙ rw (d.live a) (one_block h.live n a d.new);
    }
