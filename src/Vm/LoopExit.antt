-- ===== src/Vm/LoopExit.antt =====
-- `unwind_blocks` of src/components/vm/vm.c for `continue`, `break` and the break into an else
-- clause, with a loop block innermost.
use saffire.Prelude.{
  ℕ, suc, ◌-◌, ◌%◌, ◌^◌, ◌<◌, arith, ◌≤◌, ◌≡◌, refl, ap, ◌∙◌, false, some, List, ◌∷◌, ok, ◌>>=◌,
  drop, ◌==◌,
}
use saffire.Vm.{numerical, ObjectPtr, loop, FrameBlock, StackFrame}
use saffire.Vm.Frame.Stack.{IsValid, contents}
use saffire.Vm.Unwind.{
  reason_none, reason_continue, reason_break, reason_breakelse, obj2num, pop_to, leave, unwind_loop,
  unwind_pass, after_pass, unwind_blocks,
}
use saffire.Vm.Unwind.Pops.{AreObjects, Cut, pop_to_lem}
use saffire.Vm.Unwind.Stuck.{unwind_step}

-- A statement that leaves the body of a loop.
pub data LoopExit : Type 0 where
  to_start to_end to_else : LoopExit

abbrev pub exit_reason : LoopExit → ℕ
exit_reason to_start = reason_continue
exit_reason to_end = reason_break
exit_reason to_else = reason_breakelse

-- Where it leads to: the start is in `ret`, the other two in the block.
abbrev pub exit_target : LoopExit → (start ip ip_else : ℕ) → ℕ
exit_target to_start start ip ip_else = start
exit_target to_end start ip ip_else = ip
exit_target to_else start ip ip_else = ip_else

-- How many objects it takes off the stack.
abbrev pub exit_cut : LoopExit → (sp : ℕ) → StackFrame → ℕ
exit_cut to_start sp f = 0
exit_cut to_end sp f = sp - f.sp
exit_cut to_else sp f = sp - f.sp

exit_pass :
    (x : LoopExit) (start ip ip_else sp visited : ℕ) (thrown : ObjectPtr) (f f₁ : StackFrame)
    → start < 2 ^ 31
    → pop_to sp f ≡ ok f₁
    → (c : Cut (sp - f.sp) f f₁)
    → (f' : StackFrame) × (unwind_pass
          (record { handlers = loop ip ip_else; sp = sp; visited = visited })
          (exit_reason x)
          (some (numerical start))
          thrown
          f
        ≡ ok (leave reason_none f'))
      × (f'.ip ≡ exit_target x start ip ip_else)
      × (f'.blocks ≡ f.blocks)
      × (contents f' ≡ drop (exit_cut x sp f) (contents f))
unfolding unwind_pass unwind_loop obj2num
exit_pass to_start start ip ip_else sp visited thrown f f₁ small run c =
    (record f { ip = start % 2 ^ 32 }, refl, omega (arith, small), refl, refl)
exit_pass to_end start ip ip_else sp visited thrown f f₁ small run c =
    (record f₁ { ip = ip }, rw run, refl, c.cut.same_blocks, c.cut.holds)
exit_pass to_else start ip ip_else sp visited thrown f f₁ small run c =
    (record f₁ { ip = ip_else }, rw run, refl, c.cut.same_blocks, c.cut.holds)

has_reason : (x : LoopExit) → (exit_reason x == reason_none) ≡ false
has_reason to_start = refl
has_reason to_end = refl
has_reason to_else = refl

-- With a loop block innermost, its saved pointer inside the stack, in a valid frame whose stack
-- holds objects, where the start of the loop is below 2 ^ 31, one round of unwinding handles `continue`, `break` and the break into the else
-- clause: the frame goes on at the start of the loop, behind it or at the else clause, the block
-- stays, and a break cuts the stack to the saved pointer while `continue` leaves the stack as it
-- is.
pub unwind_loop_exit :
    (fuel : ℕ) (x : LoopExit) (start ip ip_else sp visited : ℕ) (thrown : ObjectPtr)
    (f : StackFrame) (bs : List FrameBlock)
    → f.blocks ≡ record { handlers = loop ip ip_else; sp = sp; visited = visited } ∷ bs
    → IsValid f
    → AreObjects (contents f)
    → sp ≤ f.codeframe.stack_size
    → start < 2 ^ 31
    → (f' : StackFrame) × (unwind_blocks
          (suc fuel)
          (exit_reason x)
          (some (numerical start))
          thrown
          f
        ≡ ok (f', reason_none))
      × (f'.ip ≡ exit_target x start ip ip_else)
      × (f'.blocks ≡ f.blocks)
      × (contents f' ≡ drop (exit_cut x sp f) (contents f))
unfolding after_pass
unwind_loop_exit fuel x start ip ip_else sp visited thrown f bs e v os h small =
    let ret = some (numerical start) in
    let (f₁, run, c) = pop_to_lem sp f v os h in
    let (f', pass, at, same, cut) =
      exit_pass x start ip ip_else sp visited thrown f f₁ small run c in
    (
      f',
      unwind_step fuel (exit_reason x) ret thrown f _ bs (has_reason x) e
          ∙ ap (λ r. r >>= after_pass (unwind_blocks fuel (exit_reason x) ret thrown)) pass,
      at,
      same,
      cut,
    )
