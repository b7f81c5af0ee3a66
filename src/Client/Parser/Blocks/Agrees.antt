-- ===== src/Client/Parser/Blocks/Agrees.antt =====
-- The memory of a command of the client against that of the server.
use my_ftp.Prelude.{
  ℕ, zero, suc, ◌≡◌, refl, ap, ◌∙◌, Bool, true, false, List, [], ◌∷◌, Text, length,
}
use my_ftp.Prelude.Outcome.{Outcome, undefined, done, ◌>>=◌}
use my_ftp.Utils.Trimming as ServerText
use my_ftp.Parser as Server
use my_ftp.Parser.Strtok.{strtok_loop}
use my_ftp.Parser.Blocks.{Heap, malloc, free, CommandBlocks}
use my_ftp.Parser.Blocks as ServerBlocks
use my_ftp.Client.Parser.Agrees.{trim_agrees, count_args_agrees}
use my_ftp.Client.Parser.Blocks.{
  strdup_tokens, setup_blocks, fill_blocks, parse_blocks, free_arguments, destroy_command,
}

strdup_tokens_agrees :
    (tokens : List Text) (h : Heap) → strdup_tokens tokens h ≡ ServerBlocks.strdup_tokens tokens h
unfolding strdup_tokens ServerBlocks.strdup_tokens
strdup_tokens_agrees [] h = refl
strdup_tokens_agrees (token ∷ tokens) h = rw (strdup_tokens_agrees tokens (malloc h).1) refl

setup_blocks_agrees :
    (command tokens n : ℕ) (cells : List ℕ)
    → setup_blocks command tokens n cells ≡ ServerBlocks.setup_blocks command tokens n cells
unfolding setup_blocks ServerBlocks.setup_blocks
setup_blocks_agrees command tokens n [] = refl
setup_blocks_agrees command tokens n (name ∷ argv) = refl

fill_blocks_agrees :
    (allocated : Bool) (t : Text) (command : ℕ) (h : Heap)
    → fill_blocks allocated t command h ≡ ServerBlocks.fill_blocks allocated t command h
unfolding fill_blocks ServerBlocks.fill_blocks
fill_blocks_agrees true [] command h = refl
fill_blocks_agrees false [] command h = refl
fill_blocks_agrees false (c ∷ t) command h = refl
fill_blocks_agrees true (c ∷ t) command h =
    let found = strtok_loop b' ' (suc (length (c ∷ t))) (c ∷ t) in
    rw
      (
        strdup_tokens_agrees found (malloc h).1,
        count_args_agrees (c ∷ t),
        setup_blocks_agrees command (malloc h).0 (Server.count_args (c ∷ t))
            (ServerBlocks.strdup_tokens found (malloc h).1).0,
      )
      refl

pub parse_blocks_agrees :
    (command_allocated tokens_allocated : Bool) (buffer : Text) (h : Heap)
    → parse_blocks command_allocated tokens_allocated buffer h
      ≡ ServerBlocks.parse_blocks command_allocated tokens_allocated buffer h
unfolding parse_blocks ServerBlocks.parse_blocks
parse_blocks_agrees false tokens_allocated buffer h = refl
parse_blocks_agrees true tokens_allocated buffer h =
    ap (λ t. fill_blocks tokens_allocated t (malloc h).0 (malloc h).1) (trim_agrees buffer)
    ∙ fill_blocks_agrees tokens_allocated (ServerText.trim buffer) (malloc h).0 (malloc h).1

then_same :
    (o : Outcome Heap) (f g : Heap → Outcome Heap)
    → ((h : Heap) → f h ≡ g h)
    → (o >>= f) ≡ (o >>= g)
then_same undefined f g e = refl
then_same (done h) f g e = e h

then_assoc :
    (o : Outcome Heap) (f g : Heap → Outcome Heap) → (o >>= λ h. f h >>= g) ≡ ((o >>= f) >>= g)
then_assoc undefined f g = refl
then_assoc (done h) f g = refl

free_arguments_agrees :
    (n : ℕ) (argv : List ℕ) (h : Heap)
    → free_arguments n argv h ≡ ServerBlocks.free_arguments n argv h
unfolding free_arguments ServerBlocks.free_arguments
free_arguments_agrees zero argv h = refl
free_arguments_agrees (suc n) [] h = refl
free_arguments_agrees (suc n) (p ∷ argv) h =
    then_same (free p h) (free_arguments n argv) (ServerBlocks.free_arguments n argv)
      (λ left. free_arguments_agrees n argv left)

-- The client frees what the server frees, and the structure behind that.
pub destroy_command_agrees :
    (c : CommandBlocks) (h : Heap)
    → destroy_command c h ≡ (ServerBlocks.destroy_command c h >>= λ bare. free c.command bare)
unfolding destroy_command ServerBlocks.destroy_command
destroy_command_agrees c h =
    then_same (free c.name h)
      (λ unnamed. free_arguments c.argc c.argv unnamed >>= λ emptied.
        (free c.tokens emptied >>= free c.command))
      (λ unnamed.
        (ServerBlocks.free_arguments c.argc c.argv unnamed >>= free c.tokens) >>= free c.command)
      (λ unnamed.
        ap (λ o. o >>= λ emptied. (free c.tokens emptied >>= free c.command))
          (free_arguments_agrees c.argc c.argv unnamed)
        ∙ then_assoc (ServerBlocks.free_arguments c.argc c.argv unnamed) (free c.tokens)
            (free c.command))
    ∙ then_assoc (free c.name h)
        (λ unnamed. ServerBlocks.free_arguments c.argc c.argv unnamed >>= free c.tokens)
        (free c.command)
