-- ===== src/Vm/Invariant.antt =====
-- What a well-formed frame of src/components/vm is: the stack pointer and the saved ones inside
-- the stack, and no more blocks than the array holds.
pub mod Stacks
pub mod Unwinding
pub mod Opcodes
pub mod Steps
use saffire.Prelude.{ℕ, ◌≤◌, ◌≡◌, sym, subst, List, All, length}
use saffire.Vm.{FrameBlock, CodeFrame, StackFrame}
use saffire.Vm.Frame.Stack.{IsValid}
use saffire.Vm.Block.{block_max_depth}

pub record IsSound (frame : StackFrame) : Type 0 where
  pub valid : IsValid frame
  pub depth : length frame.blocks ≤ block_max_depth
  pub saved : All (λ (b : FrameBlock). b.sp ≤ frame.codeframe.stack_size) frame.blocks

-- The instruction pointer does not matter.
pub IsSound-ip : (f : StackFrame) (ip : ℕ) → IsSound f → IsSound (record f { ip = ip })
IsSound-ip f ip s = record {
  valid = record { allocated = s.valid.allocated; inside = s.valid.inside; small = s.valid.small };
  depth = s.depth;
  saved = s.saved;
}

-- Blocks may be replaced by others that fit.
pub IsSound-blocks :
    (f : StackFrame) (bs : List FrameBlock)
    → IsValid f
    → length bs ≤ block_max_depth
    → All (λ (b : FrameBlock). b.sp ≤ f.codeframe.stack_size) bs
    → IsSound (record f { blocks = bs })
IsSound-blocks f bs v d h = record {
  valid = record { allocated = v.allocated; inside = v.inside; small = v.small };
  depth = d;
  saved = h;
}

-- A frame of the same code and blocks, with a valid stack.
pub IsSound-stack :
    (f f' : StackFrame)
    → IsSound f
    → IsValid f'
    → f'.codeframe ≡ f.codeframe
    → f'.blocks ≡ f.blocks
    → IsSound f'
IsSound-stack f f' s v c b = record {
  valid = v;
  depth = subst (λ (bs : List FrameBlock). length bs ≤ block_max_depth) (sym b) s.depth;
  saved =
      subst (λ (bs : List FrameBlock). All (λ (b : FrameBlock). b.sp ≤ f'.codeframe.stack_size) bs)
        (sym b)
        (subst (λ (g : CodeFrame). All (λ (b : FrameBlock). b.sp ≤ g.stack_size) f.blocks) (sym c)
          s.saved);
}
