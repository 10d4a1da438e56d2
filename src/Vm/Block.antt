-- ===== src/Vm/Block.antt =====
-- src/components/vm/block.c: the stack of blocks of a frame.
use saffire.Prelude.{
  ℕ, List, [], ◌∷◌, Run, ok, fatal_error, ◌>>=◌, too_many_blocks, not_enough_blocks, length, leb,
  if◌then◌else◌,
}
use saffire.Vm.{Handlers, loop, exceptions, FrameBlock, StackFrame}

abbrev pub block_max_depth : ℕ
block_max_depth = 20

unfoldable pub create_block : StackFrame → Handlers → ℕ → Run StackFrame
create_block frame handlers sp =
    if leb block_max_depth (length frame.blocks)
    then fatal_error too_many_blocks
    else ok (record frame {
      blocks = record { handlers = handlers; sp = sp; visited = 0 } ∷ frame.blocks;
    })

unfoldable pub vm_push_block_loop : StackFrame → (sp ip ip_else : ℕ) → Run StackFrame
vm_push_block_loop frame sp ip ip_else = create_block frame (loop ip ip_else) sp

unfoldable pub vm_push_block_exception :
    StackFrame → (sp ip_catch ip_finally ip_end_finally : ℕ) → Run StackFrame
vm_push_block_exception frame sp ip_catch ip_finally ip_end_finally =
    create_block frame (exceptions ip_catch ip_finally ip_end_finally) sp

unfoldable pub pop_blocks : List FrameBlock → Run (FrameBlock × List FrameBlock)
pop_blocks [] = fatal_error not_enough_blocks
pop_blocks (b ∷ bs) = ok (b, bs)

unfoldable pub vm_pop_block : StackFrame → Run (StackFrame × FrameBlock)
vm_pop_block frame = do (b, bs) ← pop_blocks frame.blocks; ok (record frame { blocks = bs }, b)
